-- ===== src/TxData/Accounted/Lost.antt =====
-- What the locks of ETH and of tokens do with a nonce, if the run sends nothing.
use wanchain_js_sdk.Prelude.{
  ℕ, suc, ◌≤◌, ◌≡◌, ap, ◌∙◌, false, none, some, [], ◌∷◌, string_eq, arith,
}
use wanchain_js_sdk.Prelude.Result.{Error, ok, err}
use wanchain_js_sdk.Cross.{wan}
use wanchain_js_sdk.Invoker.{same_chain}
use wanchain_js_sdk.Nonce.{
  AccountNonce, NonceMap, set_account, take_nonce, next_local, member, add_hole,
}
use wanchain_js_sdk.Nonce.Fresh.{IsValid, taken, take_nonce-IsValid}
use wanchain_js_sdk.Pipeline.{Methods}
use wanchain_js_sdk.TxData.{
  Kit, TxInput, TxConfig, CommonData, Made, ask_nonce, with_nonce, then_nonce,
  calculate_loc_wan_fee,
}
use wanchain_js_sdk.TxData.Eth.{eth_lock_data, eth_lock_common_data}
use wanchain_js_sdk.TxData.Token.{
  token_data, token_asked, then_asked, valued, token_lock_common_data,
}
use wanchain_js_sdk.TxData.Accounted.{accounted_run}
use wanchain_js_sdk.TxData.Accounted.Lossless.{
  Reaches, Lossless, then_nonce-Lossless_own, set_account-same, accounted-made, accounted-unmade,
  accounted-threw, add_nonce_hole_to_list-found, asked-ok,
}

module _ {S : Type 0} (kit : Kit) (config : TxConfig) (input : TxInput) (m : Methods S) (n : ℕ)
    (s : S) (nonces : NonceMap) (reached : Reaches m) where
  -- A run of a lock of ETH whose stages before the common data pass, without a nonce in the input,
  -- loses no nonce: if it sends nothing, the nonces are what they were, or the one that was asked for
  -- is handed out again.
  pub eth_lock-Lossless :
      input.nonce ≡ none
      → (accounted_run m (eth_lock_common_data kit config input) input.chain_type n s nonces).0.hash
        ≡ none
      → Lossless kit
          (eth_lock_data kit config input)
          input.chain_type
          nonces
          (accounted_run m (eth_lock_common_data kit config input) input.chain_type n s nonces).1
  unfolding eth_lock_common_data
  eth_lock-Lossless free unsent =
      then_nonce-Lossless_own kit m input.chain_type n s nonces reached input.nonce
        (eth_lock_data kit config input) free unsent

  module _ (cd : CommonData) (p : ℕ) (a : AccountNonce) (e : Error)
      (plain : input.test_or_not ≡ none) (on_wan : input.chain_type ≡ wan)
      (data_made : token_data kit config input config.mid_sc_addr input.from ≡ ok (some cd))
      (reply : kit.pending cd.from input.chain_type ≡ ok p)
      (fee_throws : calculate_loc_wan_fee kit input.amount config.token_to_wan_ratio
          input.tx_fee_ratio
        ≡ err e) where
    abbrev got : ℕ × AccountNonce
    got = take_nonce p (nonces input.chain_type cd.from)

    asked_plain : token_asked kit config input cd nonces ≡ ask_nonce kit cd input.chain_type nonces
    unfolding token_asked
    asked_plain = ground (arith, plain)

    valued-threw : (cd' : CommonData) → valued kit config input (ok (some cd')) ≡ err e
    valued-threw cd' = ground (arith, fee_throws, ap (λ c. same_chain c wan) on_wan)

    threw_after :
        token_lock_common_data kit config input nonces
        ≡ (err e, set_account input.chain_type cd.from got.1 nonces)
    unfolding token_lock_common_data then_asked
    threw_after =
        ap
          (λ made.
            let (made', m') = then_asked kit config input made nonces in
            (valued kit config input made', m'))
          data_made
        ∙ ap (λ (w : Made CommonData × NonceMap). (valued kit config input w.0, w.1))
            (asked_plain ∙ asked-ok kit cd input.chain_type nonces p reply)
        ∙ ap (λ r. (r, set_account input.chain_type cd.from got.1 nonces))
            (valued-threw (record cd { nonce = got.0 }))

    -- If the fee of a lock of a token on Wanchain throws, after the account was asked for its nonce,
    -- the run sends nothing and the nonce is lost: it counts as used and is not among those that are
    -- handed out again.
    pub token_lock-loses :
        nonces input.chain_type cd.from ≡ some a
        → IsValid a
        → let ran =
            accounted_run m (token_lock_common_data kit config input) input.chain_type n s nonces in
          let lost = (take_nonce p (some a)).0 in
          (ran.0.hash ≡ none)
          × ((a' : AccountNonce) × (ran.1 input.chain_type cd.from ≡ some a')
              × (member lost a'.nonce_hole_list ≡ false)
              × (lost ≤ a'.used_pending_nonce))
    token_lock-loses known valid =
        let create = token_lock_common_data kit config input in
        let asked = set_account input.chain_type cd.from got.1 nonces in
        let after =
          accounted-unmade m create input.chain_type n s nonces reached (err e) asked threw_after
            (λ cd' eq. cc eq) in
        let kept =
          ap (λ (f : NonceMap). f input.chain_type cd.from) after
          ∙ set_account-same input.chain_type cd.from got.1 nonces
          ∙ ap (λ x. some (take_nonce p x).1) known in
        let (v, gone, used) = take_nonce-IsValid p a valid in
        (
          accounted-threw m create input.chain_type n s nonces reached e asked threw_after,
          ((take_nonce p (some a)).1, kept, gone, used),
        )

-- an account that gets a nonce back which it has not handed out yet
taken-twice :
    (a : AccountNonce) (p q : ℕ)
    → a.nonce_hole_list ≡ []
    → p ≤ a.used_pending_nonce
    → q ≤ a.used_pending_nonce
    → taken (p ∷ q ∷ []) (add_hole (suc a.used_pending_nonce) a)
      ≡ suc a.used_pending_nonce ∷ suc a.used_pending_nonce ∷ []
unfolding taken take_nonce next_local add_hole
taken-twice a p q none_left low below = ground arith

module _ {S : Type 0} (kit : Kit) (config : TxConfig) (input : TxInput) (m : Methods S) (n : ℕ)
    (s : S) (nonces : NonceMap) (reached : Reaches m) where
  own-given :
      (cd : CommonData) (k : ℕ)
      → eth_lock_data kit config input ≡ ok (some cd)
      → input.nonce ≡ some (suc k)
      → eth_lock_common_data kit config input nonces
        ≡ (ok (some (record cd { nonce = suc k })), nonces)
  unfolding eth_lock_common_data then_nonce with_nonce
  own-given cd k made own =
      ap (λ d. then_nonce kit input.nonce input.chain_type d nonces) made
      ∙ ap (λ o. with_nonce kit o cd input.chain_type nonces) own

  -- If the input of a lock of ETH brings the account's next nonce itself, and the run sends nothing,
  -- the account hands that nonce out twice: as one that came back, and as its next one.
  pub eth_lock-hands_out_twice :
      (cd : CommonData) (a : AccountNonce) (p q : ℕ)
      → eth_lock_data kit config input ≡ ok (some cd)
      → input.nonce ≡ some (suc a.used_pending_nonce)
      → nonces input.chain_type cd.from ≡ some a
      → a.nonce_hole_list ≡ []
      → p ≤ a.used_pending_nonce
      → q ≤ a.used_pending_nonce
      → (accounted_run m (eth_lock_common_data kit config input) input.chain_type n s nonces).0.hash
        ≡ none
      → let after =
          (accounted_run m (eth_lock_common_data kit config input) input.chain_type n s nonces).1 in
        (a' : AccountNonce) × (after input.chain_type cd.from ≡ some a')
        × (taken (p ∷ q ∷ []) a' ≡ suc a.used_pending_nonce ∷ suc a.used_pending_nonce ∷ [])
  eth_lock-hands_out_twice cd a p q made own known none_left low below unsent =
      let k = suc a.used_pending_nonce in
      let after =
        accounted-made m (eth_lock_common_data kit config input) input.chain_type n s nonces reached
          (record cd { nonce = k }) nonces a (own-given cd a.used_pending_nonce made own) known
          unsent in
      let found =
        ap (λ (f : NonceMap). f input.chain_type cd.from) after
        ∙ add_nonce_hole_to_list-found input.chain_type cd.from k a nonces known in
      (add_hole k a, found, taken-twice a p q none_left low below)
