-- ===== src/OtaMonitor/Apart.antt =====
-- Where the scanned ranges of two accounts lie apart, blocks count as scanned that were not.
use wanchain_js_sdk.Prelude.{
  ℕ, String, ◌≤◌, ◌<◌, ◌≡◌, refl, ap, ◌∙◌, true, pos, Option, none, some, List, arith, string_eq,
  length,
}
use wanchain_js_sdk.Prelude.Result.{Result, ok, err, Error}
use wanchain_js_sdk.Table.Find.{find}
use wanchain_js_sdk.OtaMonitor.{Tx, Library, Account, acct_rows, Tables}
use wanchain_js_sdk.OtaMonitor.Matching.{
  Ending, went_on, halted, thrown, match_txs, widened, update_scanned,
}
use wanchain_js_sdk.OtaMonitor.Scan.{
  Remote, get_ota_tx_in_range, listed, counted, concluded, scanned_by, scan_range,
}
use wanchain_js_sdk.OtaMonitor.Widening.{listed_key, find-update_scanned}
use wanchain_js_sdk.OtaMonitor.Covering.{in_scan, covers}

claimed :
    (begin last block : ℕ) (key : String) (r : Account)
    → begin ≤ block
    → block < r.last
    → in_scan block (some (widened begin last key r)) ≡ true
unfolding widened
claimed begin last block key r b e = ground arith

pub counted-none : (n m : ℕ) (failed : Option Error) → counted n failed ≡ ok (pos m) → failed ≡ none
unfolding counted
counted-none n m none h = refl
counted-none n m (some e) h = cc

module _ (lib : Library) (keys : List String) (key : String) (r : Account) (begin last block n : ℕ)
    (mine : listed_key key keys ≡ true) (above : begin ≤ block) (before : block < r.last) where
  concluded-claims :
      (m : ℕ) (s : Tables) (ending : Ending)
      → find acct_rows key s.accounts ≡ some r
      → (concluded begin last keys m s ending).1 ≡ ok (pos n)
      → covers key block (concluded begin last keys m s ending).0.accounts ≡ true
  unfolding concluded
  concluded-claims m s went_on there h =
      let after = (update_scanned begin last keys s.accounts).0 in
      let failed = (update_scanned begin last keys s.accounts).1 in
      let none_failed = counted-none m n failed h in
      let through : update_scanned begin last keys s.accounts ≡ (after, none) =
        ap (λ (f : Option Error). (after, f)) none_failed in
      let row = find-update_scanned begin last keys s.accounts after key through in
      let wide : find acct_rows key after ≡ some (widened begin last key r) =
        row ∙ (rw (mine, there) refl) in
      ap (in_scan block) wide ∙ claimed begin last block key r above before
  concluded-claims m s halted there h = cc
  concluded-claims m s (thrown e) there h = cc

  -- After a scan of a range that came to its end, each block from the begin of the range up to the
  -- end of an account's counts as scanned for the account, be it in the range or not.
  pub scan_range-claims :
      (remote : Remote) (s : Tables)
      → find acct_rows key s.accounts ≡ some r
      → (scan_range lib remote keys begin last s).1 ≡ ok (pos n)
      → covers key block (scan_range lib remote keys begin last s).0.accounts ≡ true
  unfolding scan_range scanned_by
  scan_range-claims remote s there = go (get_ota_tx_in_range remote begin last s)
    where
      go :
          (reply : Result (Option (List Tx)))
          → (scanned_by lib keys begin last s reply).1 ≡ ok (pos n)
          → covers key block (scanned_by lib keys begin last s reply).0.accounts ≡ true
      go (err e) h = cc
      go (ok txs) h =
          concluded-claims (length (listed txs)) _ (match_txs lib keys (listed txs) s.user).1 there
            h
