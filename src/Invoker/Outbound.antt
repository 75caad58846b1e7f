-- ===== src/Invoker/Outbound.antt =====
-- The configuration of a crossing from Wanchain, by the token's standard, as `initDstChainsMap` of
-- src/core/CrossInvoker.js makes it. The coin of Wanchain has none.
use wanchain_js_sdk.Prelude.{String, Option, none, some, false}
use wanchain_js_sdk.Cross.{
  eth, wan, btc, eos, TokenStand, eth_coin, btc_coin, wan_coin, e20, eos_token,
}
use wanchain_js_sdk.Invoker.Configurations.{Settings, Token, Configuration}

unfoldable pub outbound_of : Settings → String → Token → TokenStand → Option Configuration
outbound_of c addr tok wan_coin = none
outbound_of c addr tok eth_coin = some (record {
  token_symbol = tok.token_symbol;
  token_stand = eth_coin;
  use_local_node = c.use_local_node;
  token_decimals = tok.token_decimals;
  src_sc_addr = c.wan_htlc_addr;
  src_sc_addr_key = c.wan_token_address;
  mid_sc_addr = c.wan_htlc_addr;
  dst_sc_addr = c.eth_htlc_addr;
  dst_sc_addr_key = addr;
  src_abi = c.htlc_wan_abi;
  mid_sc_abi = c.htlc_wan_abi;
  dst_abi = c.htlc_eth_abi;
  src_keystore_path = c.wan_key_store_path;
  dst_key_store_path = c.eth_key_store_path;
  approve_class = none;
  lock_class = "CrossChainEthLock";
  redeem_class = "CrossChainEthRedeem";
  revoke_class = "CrossChainEthRevoke";
  normal_trans_class = "NormalChainEth";
  approve_sc_func = "approve";
  transfer_sc_func = some "transfer";
  lock_notice_sc_func = none;
  lock_sc_func = "weth2ethLock";
  redeem_sc_func = "weth2ethRefund";
  revoke_sc_func = "weth2ethRevoke";
  src_chain_type = wan;
  dst_chain_type = eth;
  cross_collection = c.cross_collection;
  normal_collection = c.normal_collection;
  token2wan_ratio = none;
  buddy_sc_addr = none;
  transfer_coin = some false;
  token_sc_abi = some c.token_sc_abi;
  token_sc_addr = some c.token_sc_addr;
})
outbound_of c addr tok e20 = some (record {
  token_symbol = tok.token_symbol;
  token_stand = e20;
  use_local_node = c.use_local_node;
  token_decimals = tok.token_decimals;
  src_sc_addr = addr;
  src_sc_addr_key = c.wan_token_address;
  mid_sc_addr = c.wan_htlc_addr_e20;
  dst_sc_addr = c.eth_htlc_addr_e20;
  dst_sc_addr_key = addr;
  src_abi = c.org_wan_abi_e20;
  mid_sc_abi = c.wan_abi_e20;
  dst_abi = c.eth_abi_e20;
  src_keystore_path = c.wan_key_store_path;
  dst_key_store_path = c.eth_key_store_path;
  approve_class = some "CrossChainE20Approve";
  lock_class = "CrossChainE20Lock";
  redeem_class = "CrossChainE20Redeem";
  revoke_class = "CrossChainE20Revoke";
  normal_trans_class = "NormalChainE20";
  approve_sc_func = "approve";
  transfer_sc_func = some "transfer";
  lock_notice_sc_func = none;
  lock_sc_func = "outboundLock";
  redeem_sc_func = "outboundRedeem";
  revoke_sc_func = "outboundRevoke";
  src_chain_type = wan;
  dst_chain_type = eth;
  cross_collection = c.cross_collection;
  normal_collection = c.normal_collection;
  token2wan_ratio = tok.token2wan_ratio;
  buddy_sc_addr = some tok.buddy;
  transfer_coin = none;
  token_sc_abi = none;
  token_sc_addr = none;
})
outbound_of c addr tok btc_coin = some (record {
  token_symbol = tok.token_symbol;
  token_stand = btc_coin;
  use_local_node = c.use_local_node;
  token_decimals = tok.token_decimals;
  src_sc_addr = c.wan_htlc_addr_btc;
  src_sc_addr_key = c.wan_token_address;
  mid_sc_addr = c.wan_htlc_addr_btc;
  dst_sc_addr = c.wan_htlc_addr_btc;
  dst_sc_addr_key = addr;
  src_abi = c.wan_abi_btc;
  mid_sc_abi = c.wan_abi_btc;
  dst_abi = c.wan_abi_btc;
  src_keystore_path = c.wan_key_store_path;
  dst_key_store_path = c.btc_key_store_path;
  approve_class = some "";
  lock_class = "CrossChainBtcLock";
  redeem_class = "CrossChainBtcRedeem";
  revoke_class = "CrossChainBtcRevoke";
  normal_trans_class = "NormalChainBtc";
  approve_sc_func = "approve";
  transfer_sc_func = none;
  lock_notice_sc_func = none;
  lock_sc_func = "wbtc2btcLock";
  redeem_sc_func = "";
  revoke_sc_func = "wbtc2btcRevoke";
  src_chain_type = wan;
  dst_chain_type = btc;
  cross_collection = c.cross_collection_btc;
  normal_collection = c.normal_collection;
  token2wan_ratio = none;
  buddy_sc_addr = none;
  transfer_coin = none;
  token_sc_abi = none;
  token_sc_addr = none;
})
outbound_of c addr tok eos_token = some (record {
  token_symbol = tok.token_symbol;
  token_stand = eos_token;
  use_local_node = c.use_local_node;
  token_decimals = tok.token_decimals;
  src_sc_addr = addr;
  src_sc_addr_key = c.wan_token_address;
  mid_sc_addr = c.wan_htlc_addr_eos;
  dst_sc_addr = c.eos_htlc_addr;
  dst_sc_addr_key = addr;
  src_abi = c.weos_abi;
  mid_sc_abi = c.wan_htlc_abi_eos;
  dst_abi = c.eos_htlc_abi;
  src_keystore_path = c.wan_key_store_path;
  dst_key_store_path = c.eos_key_store_path;
  approve_class = some "CrossChainEosApprove";
  lock_class = "CrossChainEosLock";
  redeem_class = "CrossChainEosRedeem";
  revoke_class = "CrossChainEosRevoke";
  normal_trans_class = "NormalChainEos";
  approve_sc_func = "approve";
  transfer_sc_func = some "transfer";
  lock_notice_sc_func = none;
  lock_sc_func = "outUserLock";
  redeem_sc_func = "outredeem";
  revoke_sc_func = "outUserRevoke";
  src_chain_type = wan;
  dst_chain_type = eos;
  cross_collection = c.cross_collection;
  normal_collection = c.normal_collection;
  token2wan_ratio = tok.token2wan_ratio;
  buddy_sc_addr = some tok.buddy;
  transfer_coin = none;
  token_sc_abi = none;
  token_sc_addr = none;
})
