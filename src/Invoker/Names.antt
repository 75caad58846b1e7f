-- ===== src/Invoker/Names.antt =====
-- The look-ups of src/core/CrossInvoker.js by a chain's name, which is an address and a token:
-- `getDstChainName`, `getKeyStorePaths`, `getKeyByBuddyContractAddr`, and the answer of
-- `getStoremanGroupList`, which also keeps the groups that it got in the token.
use wanchain_js_sdk.Prelude.{
  String, Option, none, some, List, [], ◌∷◌, ◌++◌, map, str_eq, string_eq, if◌then◌else◌,
}
use wanchain_js_sdk.Prelude.Result.{Result, ok, err, type_error}
use wanchain_js_sdk.Cross.{
  ChainType, eth, wan, btc, eos, TokenStand, eth_coin, btc_coin, wan_coin, e20, eos_token,
}
use wanchain_js_sdk.Invoker.{ChainMap, same_chain, sub_map}
use wanchain_js_sdk.Invoker.Configurations.{Settings, Token, Configuration}
use wanchain_js_sdk.Invoker.Maps.{config_in}

unfoldable pub other_chains : ChainMap Token → List (ChainType × Option (List (String × Token)))
other_chains [] = []
other_chains ((chain, tokens) ∷ more) =
    let rest = other_chains more in
    if same_chain chain wan then rest else (chain, some tokens) ∷ rest

-- where a selected source can go; `none` is a map that is not there
unfoldable pub get_dst_chain_name :
    ChainMap Token → String × Token → List (ChainType × Option (List (String × Token)))
unfolding other_chains sub_map
get_dst_chain_name infos (key, tok) =
    if same_chain tok.token_type wan then other_chains infos else (wan, sub_map wan infos) ∷ []

unfoldable pub key_store_path : Settings → TokenStand → List (String × TokenStand)
key_store_path c wan_coin = (c.wan_key_store_path, wan_coin) ∷ []
key_store_path c e20 = (c.eth_key_store_path, e20) ∷ []
key_store_path c eth_coin = (c.eth_key_store_path, eth_coin) ∷ []
key_store_path c btc_coin = (c.btc_key_store_path, btc_coin) ∷ []
key_store_path c eos_token = []

unfoldable pub get_key_store_paths :
    Settings → String × Token → String × Token → List (String × TokenStand)
unfolding key_store_path
get_key_store_paths c (src_key, src) (dst_key, dst) =
    key_store_path c src.token_stand ++ key_store_path c dst.token_stand

unfoldable pub key_of_buddy : String → List (String × Token) → Option String
key_of_buddy addr [] = none
key_of_buddy addr ((key, tok) ∷ more) =
    let rest = key_of_buddy addr more in if str_eq tok.buddy addr then some key else rest

-- Going through a map that is not there throws.
unfoldable pub get_key_by_buddy_contract_addr :
    ChainMap Token → String → ChainType → Result (Option String)
unfolding key_of_buddy sub_map
get_key_by_buddy_contract_addr infos addr chain = elim (sub_map chain infos) [
  | none ↦ err type_error
  | some tokens ↦ ok (key_of_buddy addr tokens)
]

-- a group of storemen, as the services answer with it
pub record Storeman : Type 0 where
  pub eth_address : Option String
  pub wan_address : Option String
  pub btc_address : Option String
  pub smg_orig_addr : Option String
  pub smg_wan_addr : Option String
  pub storeman_group : Option String
  pub pk : Option String
  pub storemen_group_addr : Option String

-- `ccUtil.getSmgList` and `ccUtil.syncTokenStoremanGroups`
pub record Services : Type 0 where
  pub get_smg_list : ChainType → Result (List Storeman)
  pub sync_token_storeman_groups : ChainType → String → Result (List Storeman)

-- `kept` is what the name holds from before
unfoldable pub storemen_of : Services → List Storeman → String → TokenStand → Result (List Storeman)
storemen_of s kept key eth_coin = s.get_smg_list eth
storemen_of s kept key e20 = s.sync_token_storeman_groups eth key
storemen_of s kept key btc_coin = s.get_smg_list btc
storemen_of s kept key eos_token = s.sync_token_storeman_groups eos key
storemen_of s kept key wan_coin = ok kept

unfoldable pub src_addressed : TokenStand → Storeman → Storeman
src_addressed eth_coin g = record g { storemen_group_addr = g.eth_address }
src_addressed e20 g = record g { storemen_group_addr = g.smg_orig_addr }
src_addressed btc_coin g = record g { storemen_group_addr = g.btc_address }
src_addressed eos_token g = record g {
  storemen_group_addr = g.storeman_group;
  pk = g.storeman_group;
}
src_addressed wan_coin g = record g { storemen_group_addr = g.eth_address }

unfoldable pub dst_addressed : TokenStand → Storeman → Storeman
dst_addressed eth_coin g = record g { storemen_group_addr = g.wan_address }
dst_addressed e20 g = record g { storemen_group_addr = g.smg_wan_addr }
dst_addressed btc_coin g = record g { storemen_group_addr = g.btc_address }
dst_addressed eos_token g = record g {
  storemen_group_addr = g.storeman_group;
  pk = g.storeman_group;
}
dst_addressed wan_coin g = record g { storemen_group_addr = g.wan_address }

-- An exception is caught, and the answer is `undefined`.
abbrev pub all_addressed : (Storeman → Storeman) → Result (List Storeman) → Option (List Storeman)
all_addressed f (err e) = none
all_addressed f (ok groups) = some (map f groups)

unfoldable pub group_list :
    Services
    → List Storeman
    → String × Token
    → String × Token
    → Option Configuration
    → Option Configuration
    → Option (List Storeman)
unfolding storemen_of src_addressed dst_addressed
group_list s kept (key, src) dst (some config) other =
    all_addressed (src_addressed src.token_stand) (storemen_of s kept key src.token_stand)
group_list s kept src (key, dst) none (some config) =
    all_addressed (dst_addressed dst.token_stand) (storemen_of s kept key dst.token_stand)
group_list s kept src dst none none = some []

unfoldable pub get_storeman_group_list :
    Services
    → ChainMap Configuration
    → ChainMap Configuration
    → List Storeman
    → String × Token
    → String × Token
    → Option (List Storeman)
unfolding group_list config_in
get_storeman_group_list s inbound outbound kept src dst =
    group_list s kept src dst (config_in inbound (some src)) (config_in outbound (some dst))
