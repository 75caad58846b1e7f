-- ===== src/OtaMonitor/Progress.antt =====
-- The scan of the one account's past comes to its end: the rounds are enough to reach block 0.
use wanchain_js_sdk.Prelude.{
  ℕ, String, ◌-◌, ◌*◌, ◌≤◌, ◌≡◌, refl, ◌∙◌, inl, inr, ltb, ℤ, pos, none, some, List, [], ◌∷◌, arith,
  string_eq, if◌then◌else◌, Bool-cases, length, beq_refl, All, map,
}
use wanchain_js_sdk.Prelude.Result.{Result, ok, err}
use wanchain_js_sdk.Table.{update, read}
use wanchain_js_sdk.Table.Find.{find, assign_first}
use wanchain_js_sdk.OtaMonitor.{Config, Library, Account, acct_rows, Tables, Scanner}
use wanchain_js_sdk.OtaMonitor.Sizes.{adjust_batch_size}
use wanchain_js_sdk.OtaMonitor.Bounds.{adjust_batch_size-between}
use wanchain_js_sdk.OtaMonitor.Matching.{widened, widen_row, update_scanned}
use wanchain_js_sdk.OtaMonitor.Scan.{
  Remote, narrowed, high_end, counted, listed, concluded, scanned_by, scan_range, scan_bounds,
  scan_high, scan_low, after_high, scan_between, scan, rounds,
}
use wanchain_js_sdk.OtaMonitor.Widening.{find-update_scanned}
use wanchain_js_sdk.OtaMonitor.Answering.{Answers, match_txs-went, Replies, fetches, answered_at}

module _ (lib : Library) (key : String) (answers : Answers lib key) where
  -- A row that is there is widened.
  widens :
      (begin last : ℕ) (r : Account) (accounts : List Account)
      → find acct_rows key accounts ≡ some r
      → (after : List Account) × (update_scanned begin last (key ∷ []) accounts ≡ (after, none))
        × (find acct_rows key after ≡ some (widened begin last key r))
  unfolding update_scanned widen_row update read
  widens begin last r accounts there =
      let after = assign_first acct_rows key (widened begin last key r) accounts in
      let through : update_scanned begin last (key ∷ []) accounts ≡ (after, none) =
        rw (there, update_scanned) refl in
      (
        after,
        through,
        find-update_scanned begin last (key ∷ []) accounts after key through
            ∙ (rw (there, beq_refl key) refl),
      )

  scan_range-widens :
      (remote : Remote) (begin last : ℕ) (r : Account) (s : Tables)
      → Replies remote
      → find acct_rows key s.accounts ≡ some r
      → let (s', counted) = scan_range lib remote (key ∷ []) begin last s in
        ((n : ℕ) × (counted ≡ ok (pos n)))
        × (find acct_rows key s'.accounts ≡ some (widened begin last key r))
  unfolding scan_range scanned_by concluded counted
  scan_range-widens remote begin last r s replies there =
      let (txs, fetched) = fetches remote begin last s replies in
      let went = match_txs-went lib key answers (listed txs) s.user in
      let (after, through, wide) = widens begin last r s.accounts there in
      rw (fetched, went, through) ((length (listed txs), refl), wide)

  -- A range that has grown, and that begins at or below a block.
  abbrev Lower : Account → ℕ → Account → Type 0
  Lower r below r' = (r'.begin ≤ r.begin) × (r.last ≤ r'.last) × (r'.begin ≤ below)

  scan_range-lowers :
      (remote : Remote) (begin last : ℕ) (r : Account) (s : Tables)
      → Replies remote
      → find acct_rows key s.accounts ≡ some r
      → let (s', counted) = scan_range lib remote (key ∷ []) begin last s in
        ((n : ℕ) × (counted ≡ ok (pos n)))
        × (r' : Account) × (find acct_rows key s'.accounts ≡ some r')
        × Lower r begin r'
  scan_range-lowers remote begin last r s replies there =
      let (n, wide) = scan_range-widens remote begin last r s replies there in
      (
        n,
        widened begin last key r,
        wide,
        unfold widened in (ground arith, ground arith, ground arith),
      )

  scan_high-lowers :
      (remote : Remote) (size hard high : ℕ) (r : Account) (s : Tables)
      → Replies remote
      → find acct_rows key s.accounts ≡ some r
      → let (s', counted) = scan_high lib remote (key ∷ []) size hard high s in
        ((n : ℕ) × (counted ≡ ok (pos n)))
        × (r' : Account) × (find acct_rows key s'.accounts ≡ some r')
        × Lower r r.begin r'
  unfolding scan_high
  scan_high-lowers remote size hard high r s replies there = elim (Bool-cases (ltb high hard)) [
    | inr done ↦ rw done ((0, refl), r, there, (omega arith, omega arith, omega arith))
    | inl more ↦
        let (n, r', now, l) =
          scan_range-lowers remote high (high_end size hard high) r s replies there in
        rw more (n, r', now, (l.0, l.1, l.0))
  ]

  scan_low-lowers :
      (remote : Remote) (size low : ℕ) (r : Account) (s : Tables)
      → Replies remote
      → r.begin ≤ low
      → find acct_rows key s.accounts ≡ some r
      → let (s', counted) = scan_low lib remote (key ∷ []) size low s in
        (r' : Account) × (find acct_rows key s'.accounts ≡ some r') × Lower r (low - size) r'
  unfolding scan_low
  scan_low-lowers remote size low r s replies below there = elim (Bool-cases (ltb 0 low)) [
    | inr done ↦
        let zero_low : low ≡ 0 = ground arith in
        rw done (r, there, (omega arith, omega arith, omega arith))
    | inl more ↦
        let (n, r', now, l) = scan_range-lowers remote (low - size) low r s replies there in
        rw more (r', now, l)
  ]

  after_high-lowers :
      (remote : Remote) (size low : ℕ) (r : Account) (high : Tables × Result ℤ)
      → Replies remote
      → r.begin ≤ low
      → (n : ℕ) × (high.1 ≡ ok (pos n))
      → find acct_rows key high.0.accounts ≡ some r
      → (r' : Account) × (find acct_rows key
            (after_high lib remote (key ∷ []) size low high).1.accounts
          ≡ some r')
        × Lower r (low - size) r'
  unfolding after_high
  after_high-lowers remote size low r (s, err e) replies below n there = cc n.1
  after_high-lowers remote size low r (s, ok m) replies below n there =
      scan_low-lowers remote size low r s replies below there

  -- Both scans of a round answer, and the account's range begins a batch lower.
  scan-lowers :
      (c : Config) (remote : Remote) (latest : ℕ) (r : Account) (s : Scanner)
      → c.batch_min ≤ c.batch_max
      → r.begin ≤ r.last
      → Replies remote
      → find acct_rows key s.tables.accounts ≡ some r
      → (r' : Account) × (find acct_rows key
            (scan c lib remote (key ∷ []) (ok latest) s).tables.accounts
          ≡ some r')
        × (r'.begin ≤ r'.last)
        × (r'.begin ≤ r.begin - c.batch_min)
  unfolding scan scan_bounds scan_between read narrowed
  scan-lowers c remote latest r s b o replies there =
      let hard = latest - c.boundary in
      let size = adjust_batch_size c s.last_count s.last_size in
      let high = if ltb r.last hard then r.last else hard in
      let low = if ltb 0 r.begin then r.begin else 0 in
      let low_is : low ≡ r.begin = ground arith in
      let (n, r₁, there₁, l₁) = scan_high-lowers remote size hard high r s.tables replies there in
      let (r₂, there₂, l₂) =
        after_high-lowers remote size low r₁
          (scan_high lib remote (key ∷ []) size hard high s.tables) replies (rw low_is l₁.0) n
          there₁ in
      let enough = (adjust_batch_size-between c s.last_count s.last_size b).0 in
      rw there (r₂, there₂, omega arith, omega arith)

  -- The scan of one account alone, with a row that does not begin above its end, reaches block 0
  -- after as many rounds as the smallest batch goes into the row's begin, if the smallest batch is
  -- not above the largest, the node gives each round its block number and its transactions, the
  -- libraries decode every call, and `isOtaUsed` answers without an error for every OTA that the
  -- account owns, which takes a mixing set that is ready.
  pub rounds-reach_zero :
      (c : Config) (replies : List (ℕ × Remote)) (r : Account) (s : Scanner)
      → c.batch_min ≤ c.batch_max
      → r.begin ≤ r.last
      → All (λ x. Replies x.1) replies
      → find acct_rows key s.tables.accounts ≡ some r
      → r.begin ≤ length replies * c.batch_min
      → (r' : Account) × (find acct_rows key
            (rounds c lib (key ∷ []) (map answered_at replies) s).tables.accounts
          ≡ some r')
        × (r'.begin ≡ 0)
  unfolding rounds
  rounds-reach_zero c [] r s b o answered there enough = (r, there, omega arith)
  rounds-reach_zero c ((latest, remote) ∷ more) r s b o answered there enough =
      let (r', now, o', lower) = scan-lowers c remote latest r s b o answered.0 there in
      rounds-reach_zero c more r' (scan c lib remote (key ∷ []) (ok latest) s) b o' answered.1 now
        (omega arith)
