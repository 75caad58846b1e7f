-- ===== src/Pipeline/Closed.antt =====
-- What a redemption or a revocation of a token leaves, and when it sends.
use wanchain_js_sdk.Prelude.{
  ℕ, ◌+◌, ◌≤◌, ◌⊎◌, String, ◌≡◌, refl, ap, true, false, Option, none, some, string_eq, Bool-cases,
  inl, inr,
}
use wanchain_js_sdk.Cross.{
  CrossRecord, LockTimes, lock_time, can_redeem, can_revoke, redeem_sending, redeem_sent,
  redeem_fail,
}
use wanchain_js_sdk.Cross.Window.{HasLockTimes, HasBuddyTimes, redeem_revoke_disjoint}
use wanchain_js_sdk.Items.{Db}
use wanchain_js_sdk.Pipeline.{refused, Methods, Run, attempts, run, staged, early, failed_by}
use wanchain_js_sdk.Pipeline.Changes.{Stored, change_item-Stored}
use wanchain_js_sdk.Pipeline.Sending.{IsReady, run-success, run-failed}
use wanchain_js_sdk.Pipeline.Closing.{
  checked_by, token_redeem_methods, token_revoke_methods, token_redeem, token_revoke,
}

-- a run that was stopped by its first stage
abbrev pub untouched : Db CrossRecord → Run (Db CrossRecord)
untouched db = record { code = false; rejected = false; state = db; holes = 0; hash = none }

run-refused :
    (m : Methods (Db CrossRecord)) (n : ℕ) (db : Db CrossRecord)
    → m.check_pre_condition ≡ refused
    → run m n db ≡ untouched db
unfolding run staged early
run-refused m n db denied = rw denied refl

module _ (now : ℕ) (h : String) (base : Methods (Db CrossRecord)) (n : ℕ) (db : Db CrossRecord)
    (r : CrossRecord) (found : Stored h r db) where
  -- A redemption that `canRedeem` refuses changes nothing and sends nothing.
  pub token_redeem-refused :
      (can_redeem now r).code ≡ false → token_redeem now h base n db ≡ untouched db
  unfolding token_redeem token_redeem_methods checked_by
  token_redeem-refused denied =
      run-refused (token_redeem_methods now h db base) n db (rw (found, denied) refl)

  pub token_revoke-refused :
      (can_revoke now r).code ≡ false → token_revoke now h base n db ≡ untouched db
  unfolding token_revoke token_revoke_methods checked_by
  token_revoke-refused denied =
      run-refused (token_revoke_methods now h db base) n db (rw (found, denied) refl)

-- At no time do a redemption and a revocation of a token's crossing both send a transaction, if the
-- record has the times of both locks and the storeman locked at most one lock time after the user.
pub token_close-disjoint :
    (g : LockTimes) (now n n' t b : ℕ) (h : String) (base base' : Methods (Db CrossRecord))
    (db : Db CrossRecord) (r : CrossRecord)
    → Stored h r db
    → HasLockTimes g r t
    → HasBuddyTimes g r b
    → b ≤ t + lock_time g r.token_stand
    → ((token_redeem now h base n db).hash ≡ none) ⊎ ((token_revoke now h base' n' db).hash ≡ none)
token_close-disjoint g now n n' t b h base base' db r found lock buddy near =
    elim (Bool-cases (can_redeem now r).code) [
      | inl allowed ↦
          let denied = redeem_revoke_disjoint g r t b now lock buddy near allowed in
          inr (
            ap (λ (o : Run (Db CrossRecord)). o.hash)
              (token_revoke-refused now h base' n' db r found denied))
      | inr denied ↦ inl (
          ap (λ (o : Run (Db CrossRecord)). o.hash)
            (token_redeem-refused now h base n db r found denied))
    ]

-- what a redemption leaves of a record, by the hash that the attempts got
abbrev pub redeemed_by : CrossRecord → Option String → CrossRecord
redeemed_by r none = record r { status = redeem_fail }
redeemed_by r (some tx) = record r { status = redeem_sent; redeem_tx_hash = tx }

module _ (now : ℕ) (h : String) (base : Methods (Db CrossRecord)) (n : ℕ) (db : Db CrossRecord)
    (r : CrossRecord) (found : Stored h r db) (ready : IsReady base)
    (granted : (can_redeem now r).code ≡ true) where
  redeem-IsReady : IsReady (token_redeem_methods now h db base)
  unfolding token_redeem_methods checked_by
  redeem-IsReady = let (a, b, c, d, e, f, g) = ready in (rw (found, granted) refl, b, c, d, e, f, g)

  -- A redemption that `canRedeem` grants, and whose stages pass, is recorded as sent, with the hash of
  -- the first attempt that got one, or else as failed.
  pub token_redeem-recorded :
      Stored h (redeemed_by r (attempts base n 0)) (token_redeem now h base n db).state
  unfolding token_redeem token_redeem_methods attempts failed_by
  token_redeem-recorded = go (attempts base n 0) refl
    where
      go :
          (a : Option String)
          → attempts base n 0 ≡ a
          → Stored h (redeemed_by r a) (token_redeem now h base n db).state
      go none unsent =
          let (db₁, made, found₁) =
            change_item-Stored h (λ y. record y { status = redeem_sending }) db r (λ y. refl)
              found in
          let (db₂, made₂, found₂) =
            change_item-Stored h (λ y. record y { status = redeem_fail }) db₁ _ (λ y. refl)
              found₁ in
          let ran =
            run-failed (token_redeem_methods now h db base) n db db₁ redeem-IsReady made unsent in
          rw (ran, made₂) found₂
      go (some tx) sent =
          let (db₁, made, found₁) =
            change_item-Stored h (λ y. record y { status = redeem_sending }) db r (λ y. refl)
              found in
          let (db₂, made₂, found₂) =
            change_item-Stored h (λ y. record y { status = redeem_sent; redeem_tx_hash = tx }) db₁ _
              (λ y. refl) found₁ in
          let ran =
            run-success (token_redeem_methods now h db base) n db db₁ redeem-IsReady made tx db₂
              sent made₂ in
          rw ran found₂
