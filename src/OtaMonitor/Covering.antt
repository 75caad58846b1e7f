-- ===== src/OtaMonitor/Covering.antt =====
-- No purchase of a coin for one of the accounts is missed in a range that counts as scanned, as long
-- as the scanned ranges meet.
use wanchain_js_sdk.Prelude.{
  ℕ, String, ◌≡◌, refl, sym, ap, ◌∙◌, ◌⊎◌, inl, inr, Bool, true, false, not, ◌&&◌, ◌||◌, ltb, leb,
  Option, none, some, List, arith, string_eq, Bool-cases,
}
use wanchain_js_sdk.Prelude.Result.{Result, ok, err}
use wanchain_js_sdk.Table.Find.{find}
use wanchain_js_sdk.Normal.{Ota}
use wanchain_js_sdk.OtaMonitor.{Tx, Library, Account, acct_rows, Tables}
use wanchain_js_sdk.OtaMonitor.Matching.{Ending, went_on, halted, thrown, match_txs, widened}
use wanchain_js_sdk.OtaMonitor.Scan.{
  Remote, get_ota_tx_in_range, listed, concluded, scanned_by, scan_range,
}
use wanchain_js_sdk.OtaMonitor.Widening.{listed_key, widened_row, find-widened_or_kept}
use wanchain_js_sdk.OtaMonitor.Known.{known, IsQuiet, lists}
use wanchain_js_sdk.OtaMonitor.Recording.{match_txs-keeps, match_txs-known}

-- whether a block is in the scanned range of a row
abbrev pub in_scan : ℕ → Option Account → Bool
in_scan block none = false
in_scan block (some r) = leb r.begin block && ltb block r.last

abbrev pub covers : String → ℕ → List Account → Bool
covers key block accounts = in_scan block (find acct_rows key accounts)

-- whether a range overlaps the scanned one, or adjoins it
abbrev pub meets : ℕ → ℕ → Option Account → Bool
meets begin last none = true
meets begin last (some r) = leb begin r.last && leb r.begin last

abbrev pub within : ℕ → ℕ → ℕ → Bool
within begin last block = leb begin block && ltb block last

-- A transaction is not missed: if its block counts as scanned for the account, its hash is known.
abbrev pub is_safe : String → String → ℕ → Tables → Bool
is_safe key h block s = not (covers key block s.accounts) || known h s.user

-- A reply holds a transaction of the hash and the block that concerns the account, or is an error.
abbrev pub replied : Library → String → String → ℕ → Result (Option (List Tx)) → Bool
replied lib key h block (err e) = true
replied lib key h block (ok txs) = lists lib key h block (listed txs)

covered-widened :
    (begin last : ℕ) (key : String) (block : ℕ) (row : Option Account)
    → meets begin last row ≡ true
    → in_scan block (widened_row begin last key row) ≡ true
    → (in_scan block row || within begin last block) ≡ true
unfolding widened
covered-widened begin last key block none m c = cc
covered-widened begin last key block (some r) m c = ground arith

module _ (lib : Library) (keys : List String) (key h : String) (block : ℕ) where
  -- from the accounts before and after, and what is known of the transaction
  safe_after :
      (begin last : ℕ) (row row' : Option Account) (was is : Bool)
      → meets begin last row ≡ true
      → (row' ≡ row) ⊎ (row' ≡ widened_row begin last key row)
      → (not (in_scan block row) || was) ≡ true
      → (not was || is) ≡ true
      → (not (within begin last block) || is) ≡ true
      → (not (in_scan block row') || is) ≡ true
  safe_after begin last row row' was is m (inl same) before keeps seen = rw same (ground arith)
  safe_after begin last row row' was is m (inr wide) before keeps seen =
      elim (Bool-cases (in_scan block row')) [
        | inr out ↦ rw out refl
        | inl there ↦
            let split =
              covered-widened begin last key block row m (ap (in_scan block) (sym wide) ∙ there) in
            ground arith
      ]

  concluded-is_safe :
      (begin last n : ℕ) (s : Tables) (user : List Ota) (ending : Ending)
      → meets begin last (find acct_rows key s.accounts) ≡ true
      → is_safe key h block s ≡ true
      → (not (known h s.user) || known h user) ≡ true
      → (ending ≡ went_on → (not (within begin last block) || known h user) ≡ true)
      → is_safe key h block (concluded begin last keys n (record s { user = user }) ending).0 ≡ true
  unfolding concluded
  concluded-is_safe begin last n s user went_on m safe keeps seen =
      safe_after begin last (find acct_rows key s.accounts) _ (known h s.user) (known h user) m
        (find-widened_or_kept begin last keys s.accounts key) safe keeps (seen refl)
  concluded-is_safe begin last n s user halted m safe keeps seen = ground arith
  concluded-is_safe begin last n s user (thrown e) m safe keeps seen = ground arith

  keeps_known :
      (txs : List Tx) (user : List Ota)
      → (not (known h user) || known h (match_txs lib keys txs user).0) ≡ true
  keeps_known txs user = elim (Bool-cases (known h user)) [
    | inl k ↦ rw (k, match_txs-keeps lib keys txs h user k) refl
    | inr k ↦ rw k refl
  ]

  -- Scanning a range that meets the scanned one misses nothing, if nothing was missed before, the
  -- reply holds the transaction when the range holds its block, and the asking for used OTAs does
  -- not throw an insert's error, whether the scan comes to its end or fails.
  pub scan_range-is_safe :
      (remote : Remote) (begin last : ℕ) (s : Tables)
      → IsQuiet lib
      → listed_key key keys ≡ true
      → meets begin last (find acct_rows key s.accounts) ≡ true
      → (not (within begin last block)
          || replied lib key h block (get_ota_tx_in_range remote begin last s))
        ≡ true
      → is_safe key h block s ≡ true
      → is_safe key h block (scan_range lib remote keys begin last s).0 ≡ true
  unfolding scan_range scanned_by
  scan_range-is_safe remote begin last s quiet l m answered safe =
      go (get_ota_tx_in_range remote begin last s) answered
    where
      go :
          (r : Result (Option (List Tx)))
          → (not (within begin last block) || replied lib key h block r) ≡ true
          → is_safe key h block (scanned_by lib keys begin last s r).0 ≡ true
      go (err e) a = safe
      go (ok txs) a =
          concluded-is_safe begin last _ s _ (match_txs lib keys (listed txs) s.user).1 m safe
            (keeps_known (listed txs) s.user)
            (λ w. elim (Bool-cases (within begin last block)) [
              | inr out ↦ rw out refl
              | inl inside ↦
                  rw
                    (
                      inside,
                      match_txs-known lib keys key h block (listed txs) s.user quiet l
                          (rw inside at a) w,
                    )
                    refl
            ])
