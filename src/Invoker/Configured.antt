-- ===== src/Invoker/Configured.antt =====
-- What the maps of configurations hold of the tokens that they were filled from.
use wanchain_js_sdk.Prelude.{
  String, ◌≡◌, refl, ap, ◌∙◌, Bool, false, ◌&&◌, Option, none, some, List, [], ◌∷◌, str_eq,
  string_eq, if◌then◌else◌, Bool-cases, inl, inr,
}
use wanchain_js_sdk.Cross.{ChainType, eth, wan, btc, eos}
use wanchain_js_sdk.Objects.{get, get-set}
use wanchain_js_sdk.Invoker.{ChainMap, same_chain}
use wanchain_js_sdk.Invoker.Configurations.{Settings, Token, Configuration}
use wanchain_js_sdk.Invoker.Inbound.{inbound_of}
use wanchain_js_sdk.Invoker.Outbound.{outbound_of}
use wanchain_js_sdk.Invoker.Maps.{
  Filled, chains, put_by, all_tokens, put_token, fill, unfilled, init_src_chains_map,
  init_dst_chains_map, config_in, or_next, get_cross_invoker_config,
}

-- whether a token has the address and the chain, which is not Wanchain
abbrev pub fits : ChainType → String → String → Token → Bool
fits wan key addr tok = false
fits chain key addr tok = same_chain tok.token_type chain && str_eq addr key

-- The configuration of the last token that fits and is not skipped.
pub latest :
    (String → Token → Option Configuration)
    → List (String × Token)
    → ChainType
    → String
    → Option Configuration
latest value_of [] chain key = none
latest value_of ((addr, tok) ∷ more) chain key =
    or_next (latest value_of more chain key)
      (if fits chain key addr tok then value_of addr tok else none)

abbrev pub latest_for :
    (String → Token → Option Configuration)
    → List (String × Token)
    → Option (String × Token)
    → Option Configuration
latest_for value_of tokens none = none
latest_for value_of tokens (some (key, tok)) = latest value_of tokens tok.token_type key

-- what a map holds for a chain and an address
held : ChainType → String → Filled → Option Configuration
held eth key m = get key m.of_eth
held btc key m = get key m.of_btc
held eos key m = get key m.of_eos
held wan key m = none

held-put_by :
    (chain d : ChainType) (key addr : String) (value : Configuration) (m : Filled) (tok : Token)
    → tok.token_type ≡ d
    → held chain key (put_by d addr value m)
      ≡ (if fits chain key addr tok then some value else held chain key m)
unfolding held put_by
held-put_by eth eth key addr value m tok h = rw h (get-set addr key value m.of_eth)
held-put_by btc btc key addr value m tok h = rw h (get-set addr key value m.of_btc)
held-put_by eos eos key addr value m tok h = rw h (get-set addr key value m.of_eos)
held-put_by eth btc key addr value m tok h = rw h refl
held-put_by eth eos key addr value m tok h = rw h refl
held-put_by eth wan key addr value m tok h = rw h refl
held-put_by btc eth key addr value m tok h = rw h refl
held-put_by btc eos key addr value m tok h = rw h refl
held-put_by btc wan key addr value m tok h = rw h refl
held-put_by eos eth key addr value m tok h = rw h refl
held-put_by eos btc key addr value m tok h = rw h refl
held-put_by eos wan key addr value m tok h = rw h refl
held-put_by wan eth key addr value m tok h = refl
held-put_by wan btc key addr value m tok h = refl
held-put_by wan eos key addr value m tok h = refl
held-put_by wan wan key addr value m tok h = refl

held-put_token :
    (chain : ChainType) (key addr : String) (value : Option Configuration) (m : Filled)
    (tok : Token)
    → held chain key (put_token value tok.token_type addr m)
      ≡ or_next (if fits chain key addr tok then value else none) (held chain key m)
unfolding put_token
held-put_token chain key addr none m tok = elim (Bool-cases (fits chain key addr tok)) [
  | inl b ↦ rw b refl
  | inr b ↦ rw b refl
]
held-put_token chain key addr (some value) m tok =
    held-put_by chain tok.token_type key addr value m tok refl
    ∙ elim (Bool-cases (fits chain key addr tok)) [ inl b ↦ rw b refl | inr b ↦ rw b refl ]

or_next_assoc : (a b c : Option Configuration) → or_next a (or_next b c) ≡ or_next (or_next a b) c
or_next_assoc none b c = refl
or_next_assoc (some v) b c = refl

held-fill :
    (value_of : String → Token → Option Configuration) (chain : ChainType) (key : String)
    (tokens : List (String × Token)) (m : Filled)
    → held chain key (fill value_of tokens m)
      ≡ or_next (latest value_of tokens chain key) (held chain key m)
unfolding fill latest
held-fill value_of chain key [] m = refl
held-fill value_of chain key ((addr, tok) ∷ more) m =
    held-fill value_of chain key more (put_token (value_of addr tok) tok.token_type addr m)
    ∙ ap (or_next (latest value_of more chain key))
        (held-put_token chain key addr (value_of addr tok) m tok)
    ∙ or_next_assoc (latest value_of more chain key) _ (held chain key m)

or_next-none : (a : Option Configuration) → or_next a none ≡ a
or_next-none none = refl
or_next-none (some v) = refl

config_in-chains :
    (key : String) (tok : Token) (m : Filled)
    → config_in (chains m) (some (key, tok)) ≡ held tok.token_type key m
unfolding config_in held
config_in-chains key tok m = go tok.token_type refl
  where
    go :
        (c : ChainType) → tok.token_type ≡ c → config_in (chains m) (some (key, tok)) ≡ held c key m
    go eth h = rw h refl
    go btc h = rw h refl
    go eos h = rw h refl
    go wan h = rw h refl

held-unfilled : (chain : ChainType) (key : String) → held chain key unfilled ≡ none
unfolding held get
held-unfilled eth key = refl
held-unfilled btc key = refl
held-unfilled eos key = refl
held-unfilled wan key = refl

config_in-fill :
    (value_of : String → Token → Option Configuration) (tokens : List (String × Token))
    (name : Option (String × Token))
    → config_in (chains (fill value_of tokens unfilled)) name ≡ latest_for value_of tokens name
config_in-fill value_of tokens none = unfold config_in in refl
config_in-fill value_of tokens (some (key, tok)) =
    config_in-chains key tok (fill value_of tokens unfilled)
    ∙ held-fill value_of tok.token_type key tokens unfilled
    ∙ ap (or_next (latest value_of tokens tok.token_type key)) (held-unfilled tok.token_type key)
    ∙ or_next-none (latest value_of tokens tok.token_type key)

-- The configuration of a crossing is the one to Wanchain of the last token with the source's address
-- and chain; if there is none, the one from Wanchain of the last token with the destination's. The
-- coin of Wanchain and names on Wanchain have none.
pub get_cross_invoker_config-latest :
    (c : Settings) (infos : ChainMap Token) (src dst : Option (String × Token))
    → get_cross_invoker_config (init_src_chains_map c infos) (init_dst_chains_map c infos) src dst
      ≡ or_next
          (latest_for (λ addr tok. inbound_of c addr tok tok.token_stand) (all_tokens infos) src)
          (latest_for (λ addr tok. outbound_of c addr tok tok.token_stand) (all_tokens infos) dst)
unfolding get_cross_invoker_config init_src_chains_map init_dst_chains_map
get_cross_invoker_config-latest c infos src dst =
    rw
      (
        config_in-fill (λ addr tok. inbound_of c addr tok tok.token_stand) (all_tokens infos) src,
        config_in-fill (λ addr tok. outbound_of c addr tok tok.token_stand) (all_tokens infos) dst,
      )
      refl
