-- ===== src/OtaMonitor/Widening.antt =====
-- What the account table reads after the ranges of the accounts were widened.
use wanchain_js_sdk.Prelude.{
  ℕ, String, ◌≡◌, ◌⊎◌, inl, inr, refl, ap, ◌∙◌, Bool, false, Option, none, some, List, [], ◌∷◌, any,
  arith, str_eq, string_eq, if◌then◌else◌, Bool-cases, eq_iff,
}
use mathlib.Core.Option
use wanchain_js_sdk.Prelude.Result.{Result, ok, err, Error}
use wanchain_js_sdk.Table.{read, update}
use wanchain_js_sdk.Table.Find.{find, find-assign_first}
use wanchain_js_sdk.Table.Unique.{update-eq-ok}
use wanchain_js_sdk.OtaMonitor.{Account, acct_rows}
use wanchain_js_sdk.OtaMonitor.Matching.{widened, widen_row, update_scanned}

abbrev pub listed_key : String → List String → Bool
listed_key key keys = any (λ k. str_eq k key) keys

module _ (begin last : ℕ) where
  abbrev pub widened_row : String → Option Account → Option Account
  widened_row key row = Option.map (widened begin last key) row

  -- Widening by the same range once more changes nothing.
  widened-twice :
      (key : String) (row : Option Account)
      → widened_row key (widened_row key row) ≡ widened_row key row
  unfolding widened
  widened-twice key none = refl
  widened-twice key (some r) = ground arith

  find-update :
      (key k : String) (prev : Account) (accounts after : List Account)
      → find acct_rows key accounts ≡ some prev
      → update acct_rows (some key) (some (widened begin last key prev)) accounts ≡ ok after
      → find acct_rows k after ≡ (
          if str_eq key k
          then widened_row k (find acct_rows k accounts)
          else find acct_rows k accounts)
  unfolding widened
  find-update key k prev accounts after f h =
      let new = widened begin last key prev in
      rw
        (
          update-eq-ok acct_rows key new accounts after h,
          find-assign_first acct_rows key k new accounts refl,
        )
        (elim (Bool-cases (str_eq key k)) [
          | inl same ↦
              let there : find acct_rows k accounts ≡ some prev = rw (← (eq_iff key k).0 same) f in
              rw (same, there, ← (eq_iff key k).0 same) refl
          | inr other ↦ rw other refl
        ])

  pub find-widen_row :
      (key k : String) (accounts after : List Account)
      → widen_row begin last key accounts (find acct_rows key accounts) ≡ ok after
      → find acct_rows k after ≡ (
          if str_eq key k
          then widened_row k (find acct_rows k accounts)
          else find acct_rows k accounts)
  unfolding widen_row
  find-widen_row key k accounts after h = go (find acct_rows key accounts) refl h
    where
      go :
          (row : Option Account)
          → find acct_rows key accounts ≡ row
          → widen_row begin last key accounts row ≡ ok after
          → find acct_rows k after ≡ (
              if str_eq key k
              then widened_row k (find acct_rows k accounts)
              else find acct_rows k accounts)
      go none f h = cc
      go (some prev) f h = find-update key k prev accounts after f h

  -- The first pass of a loop that met no missing row.
  pub update_scanned-cons :
      (key : String) (keys : List String) (accounts after : List Account)
      → update_scanned begin last (key ∷ keys) accounts ≡ (after, none)
      → (next : List Account) × (widen_row begin last key accounts (find acct_rows key accounts)
          ≡ ok next)
        × (update_scanned begin last keys next ≡ (after, none))
  unfolding update_scanned read
  update_scanned-cons key keys accounts after h =
      go (widen_row begin last key accounts (find acct_rows key accounts)) refl h
    where
      go :
          (r : Result (List Account))
          → widen_row begin last key accounts (find acct_rows key accounts) ≡ r
          → ◌≡◌ {A = List Account × Option Error}
              (elim r [
                | err e ↦ (accounts, some e)
                | ok next ↦ update_scanned begin last keys next
              ])
              (after, none)
          → (next : List Account) × (widen_row begin last key accounts (find acct_rows key accounts)
              ≡ ok next)
            × (update_scanned begin last keys next ≡ (after, none))
      go (err e) s h = cc
      go (ok next) s h = (next, s, h)

  -- After a loop that met no missing row, the accounts of the loop have wider ranges and all others
  -- have theirs.
  pub find-update_scanned :
      (keys : List String) (accounts after : List Account) (k : String)
      → update_scanned begin last keys accounts ≡ (after, none)
      → find acct_rows k after ≡ (
          if listed_key k keys
          then widened_row k (find acct_rows k accounts)
          else find acct_rows k accounts)
  find-update_scanned [] accounts after k h =
      let same : accounts ≡ after = unfold update_scanned in ap (λ p. p.0) h in rw same refl
  find-update_scanned (key ∷ keys) accounts after k h =
      let (next, first, rest) = update_scanned-cons key keys accounts after h in
      find-update_scanned keys next after k rest
      ∙ rw (find-widen_row key k accounts next first) (elim (Bool-cases (str_eq key k)) [
        | inl same ↦
            rw (same, widened-twice k (find acct_rows k accounts))
              (elim (Bool-cases (listed_key k keys)) [ inl e ↦ rw e refl | inr e ↦ rw e refl ])
        | inr other ↦ rw other refl
      ])

  abbrev scanned_on :
      List String → List Account → Result (List Account) → List Account × Option Error
  scanned_on keys accounts (err e) = (accounts, some e)
  scanned_on keys accounts (ok next) = update_scanned begin last keys next

  -- However the loop ended, the range of an account is the one that it was, or it was widened.
  pub find-widened_or_kept :
      (keys : List String) (accounts : List Account) (k : String)
      → (find acct_rows k (update_scanned begin last keys accounts).0 ≡ find acct_rows k accounts)
        ⊎ (find acct_rows k (update_scanned begin last keys accounts).0
            ≡ widened_row k (find acct_rows k accounts))
  unfolding update_scanned read
  find-widened_or_kept [] accounts k = inl refl
  find-widened_or_kept (key ∷ keys) accounts k =
      go (widen_row begin last key accounts (find acct_rows key accounts)) refl
        (λ next. find-widened_or_kept keys next k)
    where
      later :
          (row row' mid : Option Account)
          → mid ≡ (if str_eq key k then widened_row k row else row)
          → (row' ≡ mid) ⊎ (row' ≡ widened_row k mid)
          → (row' ≡ row) ⊎ (row' ≡ widened_row k row)
      later row row' mid m (inl same) = elim (Bool-cases (str_eq key k)) [
        | inl e ↦ inr (same ∙ m ∙ rw e refl)
        | inr e ↦ inl (same ∙ m ∙ rw e refl)
      ]
      later row row' mid m (inr wide) = elim (Bool-cases (str_eq key k)) [
        | inl e ↦ inr (wide ∙ ap (widened_row k) (m ∙ rw e refl) ∙ widened-twice k row)
        | inr e ↦ inr (wide ∙ ap (widened_row k) (m ∙ rw e refl))
      ]

      go :
          (r : Result (List Account))
          → widen_row begin last key accounts (find acct_rows key accounts) ≡ r
          → ((next : List Account)
              → (find acct_rows k (update_scanned begin last keys next).0 ≡ find acct_rows k next)
                ⊎ (find acct_rows k (update_scanned begin last keys next).0
                    ≡ widened_row k (find acct_rows k next)))
          → (find acct_rows k (scanned_on keys accounts r).0 ≡ find acct_rows k accounts)
            ⊎ (find acct_rows k (scanned_on keys accounts r).0
                ≡ widened_row k (find acct_rows k accounts))
      go (err e) s ih = inl refl
      go (ok next) s ih =
          later (find acct_rows k accounts) _ (find acct_rows k next)
            (find-widen_row key k accounts next s) (ih next)

  -- However the loop ended, the accounts that it does not list have their ranges.
  pub find-unlisted :
      (keys : List String) (accounts : List Account) (k : String)
      → listed_key k keys ≡ false
      → find acct_rows k (update_scanned begin last keys accounts).0 ≡ find acct_rows k accounts
  unfolding update_scanned read
  find-unlisted [] accounts k l = refl
  find-unlisted (key ∷ keys) accounts k l =
      let other : str_eq key k ≡ false = ground arith in
      let rest : listed_key k keys ≡ false = ground arith in
      go other (widen_row begin last key accounts (find acct_rows key accounts)) refl
        (λ next. find-unlisted keys next k rest)
    where
      go :
          str_eq key k ≡ false
          → (r : Result (List Account))
          → widen_row begin last key accounts (find acct_rows key accounts) ≡ r
          → ((next : List Account)
              → find acct_rows k (update_scanned begin last keys next).0 ≡ find acct_rows k next)
          → find acct_rows k (scanned_on keys accounts r).0 ≡ find acct_rows k accounts
      go other (err e) s ih = refl
      go other (ok next) s ih = ih next ∙ find-widen_row key k accounts next s ∙ rw other refl
