-- ===== src/Invoker/Configurations.antt =====
-- The data of `initSrcChainsMap` and `initDstChainsMap` of src/core/CrossInvoker.js: the settings, the
-- tokens, and the configuration of a crossing. An ABI stands as a text; `none` is `undefined`.
use wanchain_js_sdk.Prelude.{ℕ, String, Bool, Option}
use wanchain_js_sdk.Cross.{ChainType, TokenStand}

-- the fields of `this.config` that are read
pub record Settings : Type 0 where
  pub use_local_node : Bool
  pub btc_key_store_path : String
  pub cross_collection : String
  pub cross_collection_btc : String
  pub eos_htlc_abi : String
  pub eos_htlc_addr : String
  pub eos_key_store_path : String
  pub eth_abi_e20 : String
  pub eth_htlc_addr : String
  pub eth_htlc_addr_e20 : String
  pub eth_key_store_path : String
  pub htlc_eth_abi : String
  pub htlc_wan_abi : String
  pub normal_collection : String
  pub org_eos_abi : String
  pub org_eth_abi_e20 : String
  pub org_wan_abi_e20 : String
  pub token_sc_abi : String
  pub token_sc_addr : String
  pub wan_abi_btc : String
  pub wan_abi_e20 : String
  pub wan_htlc_abi_eos : String
  pub wan_htlc_addr : String
  pub wan_htlc_addr_btc : String
  pub wan_htlc_addr_e20 : String
  pub wan_htlc_addr_eos : String
  pub wan_key_store_path : String
  pub wan_token_address : String
  pub weos_abi : String

-- what `tokenInfoMap` holds of a coin or token
pub record Token : Type 0 where
  pub token_symbol : String
  pub token_stand : TokenStand
  pub token_type : ChainType
  pub token_decimals : ℕ
  pub buddy : String
  pub token2wan_ratio : Option ℕ

-- `srcChainsValue`
pub record Configuration : Type 0 where
  pub token_symbol : String
  pub token_stand : TokenStand
  pub use_local_node : Bool
  pub token_decimals : ℕ
  pub src_sc_addr : String
  pub src_sc_addr_key : String
  pub mid_sc_addr : String
  pub dst_sc_addr : String
  pub dst_sc_addr_key : String
  pub src_abi : String
  pub mid_sc_abi : String
  pub dst_abi : String
  pub src_keystore_path : String
  pub dst_key_store_path : String
  pub approve_class : Option String
  pub lock_class : String
  pub redeem_class : String
  pub revoke_class : String
  pub normal_trans_class : String
  pub approve_sc_func : String
  pub transfer_sc_func : Option String
  pub lock_notice_sc_func : Option String
  pub lock_sc_func : String
  pub redeem_sc_func : String
  pub revoke_sc_func : String
  pub src_chain_type : ChainType
  pub dst_chain_type : ChainType
  pub cross_collection : String
  pub normal_collection : String
  pub token2wan_ratio : Option ℕ
  pub buddy_sc_addr : Option String
  pub transfer_coin : Option Bool
  pub token_sc_abi : Option String
  pub token_sc_addr : Option String
