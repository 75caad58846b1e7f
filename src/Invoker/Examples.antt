-- ===== src/Invoker/Examples.antt =====
-- A token of Ethereum, and the coin of Wanchain.
use wanchain_js_sdk.Prelude.{◌≡◌, false, none, some, [], ◌∷◌}
use wanchain_js_sdk.Cross.{eth, wan, e20, wan_coin}
use wanchain_js_sdk.Invoker.{ChainMap}
use wanchain_js_sdk.Invoker.Configurations.{Settings, Token}
use wanchain_js_sdk.Invoker.Inbound.{inbound_of}
use wanchain_js_sdk.Invoker.Outbound.{outbound_of}
use wanchain_js_sdk.Invoker.Maps.{
  all_tokens, init_src_chains_map, init_dst_chains_map, or_next, get_cross_invoker_config,
}
use wanchain_js_sdk.Invoker.Configured.{latest_for, get_cross_invoker_config-latest}

-- each setting is its name
abbrev settings : Settings
settings = record {
  use_local_node = false;
  btc_key_store_path = "btc_key_store_path";
  cross_collection = "cross_collection";
  cross_collection_btc = "cross_collection_btc";
  eos_htlc_abi = "eos_htlc_abi";
  eos_htlc_addr = "eos_htlc_addr";
  eos_key_store_path = "eos_key_store_path";
  eth_abi_e20 = "eth_abi_e20";
  eth_htlc_addr = "eth_htlc_addr";
  eth_htlc_addr_e20 = "eth_htlc_addr_e20";
  eth_key_store_path = "eth_key_store_path";
  htlc_eth_abi = "htlc_eth_abi";
  htlc_wan_abi = "htlc_wan_abi";
  normal_collection = "normal_collection";
  org_eos_abi = "org_eos_abi";
  org_eth_abi_e20 = "org_eth_abi_e20";
  org_wan_abi_e20 = "org_wan_abi_e20";
  token_sc_abi = "token_sc_abi";
  token_sc_addr = "token_sc_addr";
  wan_abi_btc = "wan_abi_btc";
  wan_abi_e20 = "wan_abi_e20";
  wan_htlc_abi_eos = "wan_htlc_abi_eos";
  wan_htlc_addr = "wan_htlc_addr";
  wan_htlc_addr_btc = "wan_htlc_addr_btc";
  wan_htlc_addr_e20 = "wan_htlc_addr_e20";
  wan_htlc_addr_eos = "wan_htlc_addr_eos";
  wan_key_store_path = "wan_key_store_path";
  wan_token_address = "wan_token_address";
  weos_abi = "weos_abi";
}

abbrev zrx : Token
zrx = record {
  token_symbol = "ZRX";
  token_stand = e20;
  token_type = eth;
  token_decimals = 18;
  buddy = "0xb";
  token2wan_ratio = some 3000;
}

abbrev coin : Token
coin = record {
  token_symbol = "WAN";
  token_stand = wan_coin;
  token_type = wan;
  token_decimals = 18;
  buddy = "";
  token2wan_ratio = none;
}

abbrev infos : ChainMap Token
infos = (eth, ("0xz", zrx) ∷ []) ∷ (wan, ("0x0", coin) ∷ []) ∷ []

-- from Wanchain
get_cross_invoker_config-latest_example :
    get_cross_invoker_config
      (init_src_chains_map settings infos)
      (init_dst_chains_map settings infos)
      (some ("0x0", coin))
      (some ("0xz", zrx))
    ≡ or_next
        (latest_for
          (λ addr tok. inbound_of settings addr tok tok.token_stand)
          (all_tokens infos)
          (some ("0x0", coin)))
        (latest_for
          (λ addr tok. outbound_of settings addr tok tok.token_stand)
          (all_tokens infos)
          (some ("0xz", zrx)))
get_cross_invoker_config-latest_example =
    get_cross_invoker_config-latest settings infos (some ("0x0", coin)) (some ("0xz", zrx))
