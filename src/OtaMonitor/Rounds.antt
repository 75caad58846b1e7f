-- ===== src/OtaMonitor/Rounds.antt =====
-- Whatever the rounds of the scan meet, a purchase for the one account of the monitor is not missed.
use wanchain_js_sdk.Prelude.{
  ℕ, String, ◌-◌, ◌≤◌, ◌≡◌, refl, inl, inr, true, false, ltb, ℤ, Option, none, some, List, [], ◌∷◌,
  arith, string_eq, Bool-cases, nat_beq, str_eq, All,
}
use wanchain_js_sdk.Prelude.Result.{Result, ok, err}
use wanchain_js_sdk.Table.{read}
use wanchain_js_sdk.Table.Find.{find}
use wanchain_js_sdk.OtaMonitor.{Config, Library, Account, acct_rows, Tables, Scanner, my_acct}
use wanchain_js_sdk.OtaMonitor.Sizes.{adjust_batch_size}
use wanchain_js_sdk.OtaMonitor.Scan.{
  Remote, narrowed, high_end, scan_bounds, scan_high, scan_low, after_high, scan_between, scan,
  rounds,
}
use wanchain_js_sdk.OtaMonitor.Known.{IsQuiet}
use wanchain_js_sdk.OtaMonitor.Covering.{meets}
use wanchain_js_sdk.OtaMonitor.Ranges.{IsComplete, in_order, grown, Invariant, scan_range-Invariant}

-- The upper range begins where the account's ends, or at the hard end.
high-meets :
    (row : Option Account) (size hard : ℕ)
    → in_order row ≡ true
    → ltb (narrowed row (hard, 0)).0 hard ≡ true
    → let high = (narrowed row (hard, 0)).0 in
      (high ≤ high_end size hard high) × (meets high (high_end size hard high) row ≡ true)
unfolding narrowed high_end
high-meets none size hard o more = (ground arith, ground arith)
high-meets (some r) size hard o more = (ground arith, ground arith)

-- The lower range ends where the account's began.
low-meets :
    (row row' : Option Account) (size hard : ℕ)
    → in_order row ≡ true
    → grown row row' ≡ true
    → let low = (narrowed row (hard, 0)).1 in meets (low - size) low row' ≡ true
unfolding narrowed
low-meets none none size hard o g = refl
low-meets none (some r) size hard o g = cc
low-meets (some r) none size hard o g = cc
low-meets (some r) (some r') size hard o g = ground arith

grown_refl : (row : Option Account) → grown row row ≡ true
grown_refl none = refl
grown_refl (some r) = ground arith

module _ (lib : Library) (key h : String) (block : ℕ) (quiet : IsQuiet lib)
    (z : nat_beq block 0 ≡ false) (other : str_eq key my_acct ≡ false) where
  row_of : Tables → Option Account
  row_of s = find acct_rows key s.accounts

  -- what scanning one of the two ranges keeps
  Keeps : Tables → Tables → Type 0
  Keeps s s' = Invariant lib key h block s' × (grown (row_of s) (row_of s') ≡ true)

  scan_high-Keeps :
      (remote : Remote) (size hard : ℕ) (s : Tables)
      → IsComplete lib key h block remote
      → Invariant lib key h block s
      → Keeps s (scan_high lib remote (key ∷ []) size hard (narrowed (row_of s) (hard, 0)).0 s).0
  unfolding scan_high row_of Keeps
  scan_high-Keeps remote size hard s complete i =
      let high = (narrowed (row_of s) (hard, 0)).0 in
      elim (Bool-cases (ltb high hard)) [
        | inr done ↦ rw done (i, grown_refl (row_of s))
        | inl more ↦
            let (up, met) = high-meets (row_of s) size hard i.2 more in
            rw more (
              scan_range-Invariant lib key h block remote high (high_end size hard high) s quiet
                complete z other up met i)
      ]

  scan_low-Keeps :
      (remote : Remote) (size hard : ℕ) (row : Option Account) (s : Tables)
      → IsComplete lib key h block remote
      → in_order row ≡ true
      → grown row (row_of s) ≡ true
      → Invariant lib key h block s
      → Invariant lib key h block
          (scan_low lib remote (key ∷ []) size (narrowed row (hard, 0)).1 s).0
  unfolding scan_low row_of
  scan_low-Keeps remote size hard row s complete order wider i =
      let low = (narrowed row (hard, 0)).1 in
      elim (Bool-cases (ltb 0 low)) [
        | inr done ↦ rw done i
        | inl more ↦
            rw more
              (scan_range-Invariant lib key h block remote (low - size) low s quiet complete z other
                (omega arith) (low-meets row (row_of s) size hard order wider) i).0
      ]

  after_high-Invariant :
      (remote : Remote) (size hard : ℕ) (row : Option Account) (high : Tables × Result ℤ)
      → IsComplete lib key h block remote
      → in_order row ≡ true
      → grown row (row_of high.0) ≡ true
      → Invariant lib key h block high.0
      → Invariant lib key h block
          (after_high lib remote (key ∷ []) size (narrowed row (hard, 0)).1 high).1
  unfolding after_high
  after_high-Invariant remote size hard row (s, err e) complete order wider i = i
  after_high-Invariant remote size hard row (s, ok n) complete order wider i =
      scan_low-Keeps remote size hard row s complete order wider i

  scan-Invariant :
      (c : Config) (remote : Remote) (latest : Result ℕ) (s : Scanner)
      → IsComplete lib key h block remote
      → Invariant lib key h block s.tables
      → Invariant lib key h block (scan c lib remote (key ∷ []) latest s).tables
  unfolding scan scan_bounds scan_between read row_of Keeps
  scan-Invariant c remote (err e) s complete i = i
  scan-Invariant c remote (ok latest) s complete i =
      let hard = latest - c.boundary in
      let size = adjust_batch_size c s.last_count s.last_size in
      let (after, wider) = scan_high-Keeps remote size hard s.tables complete i in
      after_high-Invariant remote size hard (row_of s.tables) _ complete i.2 wider after

  -- Whatever block numbers and errors the rounds of the scan meet, as long as the replies that come
  -- are complete, nothing was missed before, and the asking for used OTAs does not throw an insert's
  -- error, a purchase above block 0 for the one account, which is not "MyAcct", is not missed: once
  -- its block counts as scanned, its hash is in the table.
  pub rounds-Invariant :
      (c : Config) (replies : List (Result ℕ × Remote)) (s : Scanner)
      → All (λ r. IsComplete lib key h block r.1) replies
      → Invariant lib key h block s.tables
      → Invariant lib key h block (rounds c lib (key ∷ []) replies s).tables
  unfolding rounds
  rounds-Invariant c [] s complete i = i
  rounds-Invariant c ((latest, remote) ∷ more) s complete i =
      rounds-Invariant c more (scan c lib remote (key ∷ []) latest s) complete.1
        (scan-Invariant c remote latest s complete.0 i)
