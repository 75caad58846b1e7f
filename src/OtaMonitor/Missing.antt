-- ===== src/OtaMonitor/Missing.antt =====
-- An account that has no row keeps every scan from its end.
use wanchain_js_sdk.Prelude.{
  ℕ, String, ◌≡◌, ◌≢◌, ◌⊎◌, refl, ap, ◌∙◌, sym, true, false, pos, Option, none, List, [], ◌∷◌,
  arith, length, string_eq, str_eq, Bool-cases, inl, inr, eq_iff,
}
use wanchain_js_sdk.Prelude.Result.{Result, ok, err, Error}
use wanchain_js_sdk.Table.Find.{find}
use wanchain_js_sdk.OtaMonitor.{Tx, Library, Account, acct_rows, Tables}
use wanchain_js_sdk.OtaMonitor.Matching.{
  Ending, went_on, halted, thrown, match_txs, widen_row, update_scanned,
}
use wanchain_js_sdk.OtaMonitor.Scan.{
  Remote, get_ota_tx_in_range, listed, concluded, scanned_by, scan_range,
}
use wanchain_js_sdk.OtaMonitor.Widening.{listed_key, update_scanned-cons, find-widen_row}
use wanchain_js_sdk.OtaMonitor.Apart.{counted-none}

module _ (begin last : ℕ) (key : String) where
  -- The loop over the accounts does not come past a row that is missing.
  update_scanned-missing :
      (keys : List String) (accounts after : List Account)
      → listed_key key keys ≡ true
      → find acct_rows key accounts ≡ none
      → update_scanned begin last keys accounts ≢ (after, none)
  update_scanned-missing [] accounts after l f h = cc
  update_scanned-missing (k ∷ keys) accounts after l f h =
      let (next, first, rest) = update_scanned-cons begin last k keys accounts after h in
      go next first rest (Bool-cases (str_eq k key))
        (λ l' f'. update_scanned-missing keys next after l' f' rest)
    where
      go :
          (next : List Account)
          → widen_row begin last k accounts (find acct_rows k accounts) ≡ ok next
          → update_scanned begin last keys next ≡ (after, none)
          → (str_eq k key ≡ true) ⊎ (str_eq k key ≡ false)
          → (listed_key key keys ≡ true → find acct_rows key next ≡ none → ⊥)
          → ⊥
      go next first rest (inl same) ih =
          let mine : find acct_rows k accounts ≡ none =
            ap (λ x. find acct_rows x accounts) ((eq_iff k key).0 same) ∙ f in
          no_row next (ap (widen_row begin last k accounts) (sym mine) ∙ first)
        where
          no_row : (u : List Account) → widen_row begin last k accounts none ≡ ok u → ⊥
          no_row u w = unfold widen_row in cc w
      go next first rest (inr other) ih =
          ih (ground arith)
            (find-widen_row begin last k key accounts next first ∙ rw (other, f) refl)

module _ (lib : Library) (keys : List String) (key : String) (begin last n : ℕ)
    (mine : listed_key key keys ≡ true) where
  concluded-missing :
      (m : ℕ) (s : Tables) (ending : Ending)
      → find acct_rows key s.accounts ≡ none
      → (concluded begin last keys m s ending).1 ≢ ok (pos n)
  unfolding concluded
  concluded-missing m s went_on there h =
      let after = (update_scanned begin last keys s.accounts).0 in
      let failed = (update_scanned begin last keys s.accounts).1 in
      let none_failed = counted-none m n failed h in
      update_scanned-missing begin last key keys s.accounts after mine there
        (ap (λ (f : Option Error). (after, f)) none_failed)
  concluded-missing m s halted there h = cc
  concluded-missing m s (thrown e) there h = cc

  -- While the key of an account that has no row is scanned for, no scan of a range comes to its end,
  -- whatever the chain or the local rows hold.
  pub scan_range-missing :
      (remote : Remote) (s : Tables)
      → find acct_rows key s.accounts ≡ none
      → (scan_range lib remote keys begin last s).1 ≢ ok (pos n)
  unfolding scan_range scanned_by
  scan_range-missing remote s there = go (get_ota_tx_in_range remote begin last s)
    where
      go :
          (reply : Result (Option (List Tx)))
          → (scanned_by lib keys begin last s reply).1 ≢ ok (pos n)
      go (err e) h = cc
      go (ok txs) h =
          concluded-missing (length (listed txs)) _ (match_txs lib keys (listed txs) s.user).1 there
            h
