-- ===== src/Invoker.antt =====
-- The maps of src/core/CrossInvoker.js, from a chain and a contract address to a token and to the
-- configuration of a crossing, with the look-ups that the rest of the SDK makes in them. A
-- JavaScript `Map` is the list of its entries in the order of insertion.
pub mod Configurations
pub mod Inbound
pub mod Outbound
pub mod Maps
pub mod Names
pub mod Configured
mod Examples
use wanchain_js_sdk.Prelude.{
  ℕ, String, Bool, true, false, Option, none, some, List, [], ◌∷◌, str_eq, if◌then◌else◌,
}
use wanchain_js_sdk.Cross.{ChainType, eth, wan, btc, eos, TokenStand}

pub record TokenInfo : Type 0 where
  pub token_stand : TokenStand
  pub token_type : ChainType
  pub token_decimals : ℕ

-- `[address, info]`, an entry of a map of tokens
abbrev pub ChainName : Type 0
ChainName = String × TokenInfo

-- the fields of `config` that the model of a crossing reads
pub record CrossConfig : Type 0 where
  pub src_chain_type : ChainType
  pub dst_chain_type : ChainType
  pub token_stand : TokenStand

abbrev pub ChainMap : Type 0 → Type 0
ChainMap V = List (ChainType × List (String × V))

pub record Invoker : Type 0 where
  pub token_info_map : ChainMap TokenInfo
  pub inbound_info_map : ChainMap CrossConfig
  pub outbound_info_map : ChainMap CrossConfig

abbrev pub same_chain : ChainType → ChainType → Bool
same_chain eth eth = true
same_chain wan wan = true
same_chain btc btc = true
same_chain eos eos = true
same_chain _ _ = false

module _ {V : Type 0} where
  unfoldable pub sub_map : ChainType → ChainMap V → Option (List (String × V))
  sub_map c [] = none
  sub_map c ((d, m) ∷ rest) = if same_chain d c then some m else sub_map c rest

  unfoldable pub entry : String → List (String × V) → Option (String × V)
  entry k [] = none
  entry k ((j, v) ∷ m) = if str_eq j k then some (j, v) else entry k m

-- `none` is `null`
unfoldable pub get_src_chain_name_by_contract_addr : Invoker → String → ChainType → Option ChainName
unfolding sub_map entry
get_src_chain_name_by_contract_addr inv addr c = elim (sub_map c inv.token_info_map) [
  | none ↦ none
  | some m ↦ entry addr m
]

module _ (map_of : Invoker → ChainMap CrossConfig) (inv : Invoker) where
  is_in_map : ChainName → Bool
  unfolding sub_map entry
  is_in_map (key, value) = elim (sub_map value.token_type (map_of inv)) [
    | none ↦ false
    | some m ↦ elim (entry key m) [ none ↦ false | some found ↦ true ]
  ]

unfoldable pub is_in_src_chains_map : Invoker → ChainName → Bool
unfolding is_in_map
is_in_src_chains_map = is_in_map (λ inv. inv.inbound_info_map)

unfoldable pub is_in_dst_chains_map : Invoker → ChainName → Bool
unfolding is_in_map
is_in_dst_chains_map = is_in_map (λ inv. inv.outbound_info_map)
