-- ===== src/Invoker/Maps.antt =====
-- `initSrcChainsMap` and `initDstChainsMap` of src/core/CrossInvoker.js, which fill a map for each
-- foreign chain, and the look-ups of a crossing's configuration and class in them.
use wanchain_js_sdk.Prelude.{
  String, Option, none, some, List, [], ◌∷◌, ◌++◌, str_eq, string_eq, if◌then◌else◌,
}
use wanchain_js_sdk.Cross.{ChainType, eth, wan, btc, eos}
use wanchain_js_sdk.Objects.{Object, get, set}
use wanchain_js_sdk.Invoker.{ChainMap, sub_map}
use wanchain_js_sdk.Invoker.Configurations.{Settings, Token, Configuration}
use wanchain_js_sdk.Invoker.Inbound.{inbound_of}
use wanchain_js_sdk.Invoker.Outbound.{outbound_of}

-- the three maps that are filled
pub record Filled : Type 0 where
  pub of_eth : Object String Configuration
  pub of_btc : Object String Configuration
  pub of_eos : Object String Configuration

unfoldable pub put_by : ChainType → String → Configuration → Filled → Filled
unfolding set
put_by eth key value m = record m { of_eth = set key value m.of_eth }
put_by btc key value m = record m { of_btc = set key value m.of_btc }
put_by eos key value m = record m { of_eos = set key value m.of_eos }
put_by wan key value m = m

-- the entries of all chains, in the order of the two loops
unfoldable pub all_tokens : ChainMap Token → List (String × Token)
all_tokens [] = []
all_tokens ((chain, tokens) ∷ more) = tokens ++ all_tokens more

unfoldable pub put_token : Option Configuration → ChainType → String → Filled → Filled
unfolding put_by
put_token none chain key m = m
put_token (some value) chain key m = put_by chain key value m

-- `value_of` makes the configuration of a token that is not skipped
unfoldable pub fill :
    (String → Token → Option Configuration) → List (String × Token) → Filled → Filled
unfolding put_token
fill value_of [] m = m
fill value_of ((addr, tok) ∷ more) m =
    fill value_of more (put_token (value_of addr tok) tok.token_type addr m)

abbrev pub chains : Filled → ChainMap Configuration
chains m = (eth, m.of_eth) ∷ (btc, m.of_btc) ∷ (eos, m.of_eos) ∷ []

abbrev pub unfilled : Filled
unfilled = record { of_eth = []; of_btc = []; of_eos = [] }

unfoldable pub init_src_chains_map : Settings → ChainMap Token → ChainMap Configuration
unfolding fill all_tokens inbound_of
init_src_chains_map c infos =
    chains (fill (λ addr tok. inbound_of c addr tok tok.token_stand) (all_tokens infos) unfilled)

unfoldable pub init_dst_chains_map : Settings → ChainMap Token → ChainMap Configuration
unfolding fill all_tokens outbound_of
init_dst_chains_map c infos =
    chains (fill (λ addr tok. outbound_of c addr tok tok.token_stand) (all_tokens infos) unfilled)

-- the configuration of a chain's name, if the name is in the map
unfoldable pub config_in : ChainMap Configuration → Option (String × Token) → Option Configuration
unfolding sub_map get
config_in maps none = none
config_in maps (some (key, tok)) = elim (sub_map tok.token_type maps) [
  | none ↦ none
  | some m ↦ get key m
]

abbrev pub or_next : Option Configuration → Option Configuration → Option Configuration
or_next (some config) next = some config
or_next none next = next

-- a name of the source that is configured is taken first; `none` is `{}`
unfoldable pub get_cross_invoker_config :
    ChainMap Configuration
    → ChainMap Configuration
    → Option (String × Token)
    → Option (String × Token)
    → Option Configuration
unfolding config_in
get_cross_invoker_config inbound outbound src dst =
    or_next (config_in inbound src) (config_in outbound dst)

-- `action` is in capitals; `none` is a class that is not there
unfoldable pub get_cross_invoker_class : Configuration → String → Option String
get_cross_invoker_class config action =
    if str_eq action "LOCK"
    then some config.lock_class
    else if str_eq action "REDEEM"
    then some config.redeem_class
    else if str_eq action "REVOKE"
    then some config.revoke_class
    else if str_eq action "APPROVE"
    then config.approve_class
    else none
