-- ===== src/Safe/Health.antt =====
-- The count of failed health checks, and when it is reported.
use wanchain_js_sdk.Prelude.{
  ℕ, ◌+◌, ◌≤◌, ◌≡◌, refl, ap, ◌∙◌, Bool, true, false, none, some, List, [], ◌∷◌, ◌++◌, leb, arith,
  length, All, Bool-cases, inl, inr, leb→le, nat_beq, nat_beq_iff,
}
use wanchain_js_sdk.Safe.{WalletInfo, Wallets, look_up, check_wallet, health_check}

-- checks that failed
unfoldable pub failing : List ℕ → List (ℕ × Bool)
failing [] = []
failing (now ∷ more) = (now, false) ∷ failing more

module _ {W : Type 0} where
  -- successive health checks of one wallet, each with its time and answer
  unfoldable pub checked : List (ℕ × Bool) → WalletInfo W → WalletInfo W
  checked [] info = info
  checked ((now, healthy) ∷ more) info = checked more (check_wallet now healthy info)

  checked-append :
      (xs ys : List (ℕ × Bool)) (info : WalletInfo W)
      → checked (xs ++ ys) info ≡ checked ys (checked xs info)
  unfolding checked
  checked-append [] ys info = refl
  checked-append ((now, healthy) ∷ xs) ys info =
      checked-append xs ys (check_wallet now healthy info)

  checked-failing :
      (times : List ℕ) (info : WalletInfo W)
      → (checked (failing times) info).consecutive_fail ≡ info.consecutive_fail + length times
  unfolding checked failing check_wallet
  checked-failing [] info = omega arith
  checked-failing (now ∷ times) info =
      omega (arith, checked-failing times (check_wallet now false info))

  -- After a check that a wallet passed and then failed ones only, the count of a wallet is the
  -- number of the failed ones, whatever came before.
  pub checked-consecutive :
      (before : List (ℕ × Bool)) (now : ℕ) (times : List ℕ) (info : WalletInfo W)
      → (checked (before ++ (now, true) ∷ failing times) info).consecutive_fail ≡ length times
  unfolding checked check_wallet
  checked-consecutive before now times info =
      ap (λ i. i.consecutive_fail) (checked-append before ((now, true) ∷ failing times) info)
      ∙ reset (checked before info)
    where
      reset :
          (i : WalletInfo W)
          → (checked ((now, true) ∷ failing times) i).consecutive_fail ≡ length times
      reset i = checked-failing times (check_wallet now true i) ∙ (omega arith)

  -- A health check changes every wallet by its own answer.
  pub look_up-health_check :
      (now threshold : ℕ) (healthy : ℕ → Bool) (ws : Wallets W) (id : ℕ)
      → look_up id (health_check now threshold healthy ws).0 ≡ elim (look_up id ws) [
        | none ↦ none
        | some info ↦ some (check_wallet now (healthy id) info)
      ]
  unfolding look_up health_check
  look_up-health_check now threshold healthy [] id = refl
  look_up-health_check now threshold healthy ((j, info) ∷ ws) id =
      elim (Bool-cases (nat_beq j id)) [
        | inl same ↦
            rw same (ap (λ k. some (check_wallet now (healthy k) info)) ((nat_beq_iff j id).0 same))
        | inr other ↦ rw other (look_up-health_check now threshold healthy ws id)
      ]

  -- No event is sent for a wallet whose count stays below the threshold: every event names a count
  -- that has reached it.
  pub health_check-threshold :
      (now threshold : ℕ) (healthy : ℕ → Bool) (ws : Wallets W)
      → All (λ event. threshold ≤ event.1) (health_check now threshold healthy ws).1
  unfolding health_check
  health_check-threshold now threshold healthy [] = tt
  health_check-threshold now threshold healthy ((j, info) ∷ ws) =
      elim (Bool-cases (leb threshold (check_wallet now (healthy j) info).consecutive_fail)) [
        | inl reached ↦ rw reached (
          leb→le threshold (check_wallet now (healthy j) info).consecutive_fail reached,
          health_check-threshold now threshold healthy ws,
        )
        | inr below ↦ rw below (health_check-threshold now threshold healthy ws)
      ]
