-- ===== src/Invoker/Inbound.antt =====
-- The configuration of a crossing to Wanchain, by the token's standard, as `initSrcChainsMap` of
-- src/core/CrossInvoker.js makes it. The coin of Wanchain has none.
use wanchain_js_sdk.Prelude.{String, Option, none, some}
use wanchain_js_sdk.Cross.{
  eth, wan, btc, eos, TokenStand, eth_coin, btc_coin, wan_coin, e20, eos_token,
}
use wanchain_js_sdk.Invoker.Configurations.{Settings, Token, Configuration}

unfoldable pub inbound_of : Settings → String → Token → TokenStand → Option Configuration
inbound_of c addr tok wan_coin = none
inbound_of c addr tok eth_coin = some (record {
  token_symbol = tok.token_symbol;
  token_stand = eth_coin;
  use_local_node = c.use_local_node;
  token_decimals = tok.token_decimals;
  src_sc_addr = c.eth_htlc_addr;
  src_sc_addr_key = addr;
  mid_sc_addr = c.eth_htlc_addr;
  dst_sc_addr = c.wan_htlc_addr;
  dst_sc_addr_key = c.wan_token_address;
  src_abi = c.htlc_eth_abi;
  mid_sc_abi = c.htlc_eth_abi;
  dst_abi = c.htlc_wan_abi;
  src_keystore_path = c.eth_key_store_path;
  dst_key_store_path = c.wan_key_store_path;
  approve_class = none;
  lock_class = "CrossChainEthLock";
  redeem_class = "CrossChainEthRedeem";
  revoke_class = "CrossChainEthRevoke";
  normal_trans_class = "NormalChainEth";
  approve_sc_func = "approve";
  transfer_sc_func = none;
  lock_notice_sc_func = none;
  lock_sc_func = "eth2wethLock";
  redeem_sc_func = "eth2wethRefund";
  revoke_sc_func = "eth2wethRevoke";
  src_chain_type = eth;
  dst_chain_type = wan;
  cross_collection = c.cross_collection;
  normal_collection = c.normal_collection;
  token2wan_ratio = none;
  buddy_sc_addr = none;
  transfer_coin = none;
  token_sc_abi = none;
  token_sc_addr = none;
})
inbound_of c addr tok e20 = some (record {
  token_symbol = tok.token_symbol;
  token_stand = e20;
  use_local_node = c.use_local_node;
  token_decimals = tok.token_decimals;
  src_sc_addr = addr;
  src_sc_addr_key = addr;
  mid_sc_addr = c.eth_htlc_addr_e20;
  dst_sc_addr = c.wan_htlc_addr_e20;
  dst_sc_addr_key = c.wan_token_address;
  src_abi = c.org_eth_abi_e20;
  mid_sc_abi = c.eth_abi_e20;
  dst_abi = c.wan_abi_e20;
  src_keystore_path = c.eth_key_store_path;
  dst_key_store_path = c.wan_key_store_path;
  approve_class = some "CrossChainE20Approve";
  lock_class = "CrossChainE20Lock";
  redeem_class = "CrossChainE20Redeem";
  revoke_class = "CrossChainE20Revoke";
  normal_trans_class = "NormalChainE20";
  approve_sc_func = "approve";
  transfer_sc_func = some "transfer";
  lock_notice_sc_func = none;
  lock_sc_func = "inboundLock";
  redeem_sc_func = "inboundRedeem";
  revoke_sc_func = "inboundRevoke";
  src_chain_type = eth;
  dst_chain_type = wan;
  cross_collection = c.cross_collection;
  normal_collection = c.normal_collection;
  token2wan_ratio = tok.token2wan_ratio;
  buddy_sc_addr = none;
  transfer_coin = none;
  token_sc_abi = none;
  token_sc_addr = none;
})
inbound_of c addr tok btc_coin = some (record {
  token_symbol = tok.token_symbol;
  token_stand = btc_coin;
  use_local_node = c.use_local_node;
  token_decimals = tok.token_decimals;
  src_sc_addr = addr;
  src_sc_addr_key = addr;
  mid_sc_addr = c.wan_htlc_addr_btc;
  dst_sc_addr = c.wan_htlc_addr_btc;
  dst_sc_addr_key = c.wan_token_address;
  src_abi = c.wan_abi_btc;
  mid_sc_abi = c.wan_abi_btc;
  dst_abi = c.wan_abi_btc;
  src_keystore_path = c.btc_key_store_path;
  dst_key_store_path = c.wan_key_store_path;
  approve_class = some "";
  lock_class = "CrossChainBtcLock";
  redeem_class = "CrossChainBtcRedeem";
  revoke_class = "CrossChainBtcRevoke";
  normal_trans_class = "NormalChainBtc";
  approve_sc_func = "approve";
  transfer_sc_func = none;
  lock_notice_sc_func = some "btc2wbtcLockNotice";
  lock_sc_func = "";
  redeem_sc_func = "btc2wbtcRedeem";
  revoke_sc_func = "";
  src_chain_type = btc;
  dst_chain_type = wan;
  cross_collection = c.cross_collection_btc;
  normal_collection = c.cross_collection_btc;
  token2wan_ratio = none;
  buddy_sc_addr = none;
  transfer_coin = none;
  token_sc_abi = none;
  token_sc_addr = none;
})
inbound_of c addr tok eos_token = some (record {
  token_symbol = tok.token_symbol;
  token_stand = eos_token;
  use_local_node = c.use_local_node;
  token_decimals = tok.token_decimals;
  src_sc_addr = addr;
  src_sc_addr_key = addr;
  mid_sc_addr = c.eos_htlc_addr;
  dst_sc_addr = c.wan_htlc_addr_eos;
  dst_sc_addr_key = c.wan_token_address;
  src_abi = c.org_eos_abi;
  mid_sc_abi = c.eos_htlc_abi;
  dst_abi = c.wan_htlc_abi_eos;
  src_keystore_path = c.eos_key_store_path;
  dst_key_store_path = c.wan_key_store_path;
  approve_class = some "CrossChainEosApprove";
  lock_class = "CrossChainEosLock";
  redeem_class = "CrossChainEosRedeem";
  revoke_class = "CrossChainEosRevoke";
  normal_trans_class = "NormalChainEos";
  approve_sc_func = "";
  transfer_sc_func = some "transfer";
  lock_notice_sc_func = none;
  lock_sc_func = "inlock";
  redeem_sc_func = "inUserRedeem";
  revoke_sc_func = "inrevoke";
  src_chain_type = eos;
  dst_chain_type = wan;
  cross_collection = c.cross_collection;
  normal_collection = c.normal_collection;
  token2wan_ratio = tok.token2wan_ratio;
  buddy_sc_addr = none;
  transfer_coin = none;
  token_sc_abi = none;
  token_sc_addr = none;
})
