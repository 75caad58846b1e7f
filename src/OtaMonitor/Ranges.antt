-- ===== src/OtaMonitor/Ranges.antt =====
-- What scanning a range keeps, for the one account of the monitor.
use wanchain_js_sdk.Prelude.{
  ℕ, String, ◌-◌, ◌≤◌, ◌≡◌, refl, ap, ◌⊎◌, inl, inr, Bool, true, false, not, ◌&&◌, ◌||◌, ltb, leb,
  Option, none, some, List, [], ◌∷◌, arith, string_eq, Bool-cases, length, nat_beq, str_eq,
  nat_beq_iff, beq_refl,
}
use wanchain_js_sdk.Prelude.Result.{Result, ok, err}
use wanchain_js_sdk.Table.{matching, read}
use wanchain_js_sdk.Table.Find.{find}
use wanchain_js_sdk.OtaMonitor.{Tx, Library, Account, acct_rows, Tables, my_acct}
use wanchain_js_sdk.OtaMonitor.Matching.{
  Ending, went_on, halted, thrown, match_txs, widened, update_scanned,
}
use wanchain_js_sdk.OtaMonitor.Scan.{
  Remote, in_range, get_by, get_ota_tx_in_range, listed, concluded, scanned_by, scan_range,
}
use wanchain_js_sdk.OtaMonitor.Widening.{
  listed_key, widened_row, find-widened_or_kept, find-unlisted,
}
use wanchain_js_sdk.OtaMonitor.Known.{concerns, IsQuiet, lists}
use wanchain_js_sdk.OtaMonitor.Covering.{
  in_scan, covers, meets, within, is_safe, replied, scan_range-is_safe,
}

module _ (lib : Library) (key h : String) (block : ℕ) where
  -- The remote replies hold the transaction when their blocks include its own.
  abbrev pub IsComplete : Remote → Type 0
  IsComplete remote =
      (b e : ℕ) → (not (leb b block && leb block e) || replied lib key h block (remote b e)) ≡ true

  -- The transactions that were fetched hold it, if its block counts as fetched.
  abbrev pub is_fetched : Tables → Bool
  is_fetched s = not (covers my_acct block s.accounts) || lists lib key h block s.fetched

  lists-matching :
      (bgn last : ℕ) (txs : List Tx)
      → nat_beq block 0 ≡ false
      → within bgn last block ≡ true
      → lists lib key h block txs ≡ true
      → lists lib key h block (matching (in_range bgn last) txs) ≡ true
  unfolding matching in_range
  lists-matching bgn last [] z w l = l
  lists-matching bgn last (t ∷ txs) z w l =
      elim (Bool-cases (concerns lib key t && (str_eq t.hash h && nat_beq t.block_number block))) [
        | inr other ↦
            let ih = lists-matching bgn last txs z w (rw other at l) in
            elim (Bool-cases (in_range bgn last t)) [ inl e ↦ rw (e, other) ih | inr e ↦ rw e ih ]
        | inl fits ↦
            let b : nat_beq t.block_number block ≡ true = ground arith in
            let there : in_range bgn last t ≡ true =
              ground (arith, nat_beq_iff t.block_number block, nat_beq_iff block 0) in
            rw (there, fits) refl
      ]

  get_by-replied :
      (remote : Remote) (bgn last : ℕ) (fetched : List Tx) (mine : Option Account)
      → IsComplete remote
      → nat_beq block 0 ≡ false
      → (not (in_scan block mine) || lists lib key h block fetched) ≡ true
      → within bgn last block ≡ true
      → replied lib key h block (get_by remote bgn last fetched mine) ≡ true
  unfolding get_by
  get_by-replied remote bgn last fetched none complete z f inside =
      ground (arith, complete bgn (last - 1))
  get_by-replied remote bgn last fetched (some r) complete z f inside =
      elim (Bool-cases (ltb bgn r.begin || ltb r.last last)) [
        | inl far ↦ rw far (ground (arith, complete bgn (last - 1)))
        | inr near ↦
            let there : lists lib key h block fetched ≡ true = ground arith in
            rw near (lists-matching bgn last fetched z inside there)
      ]

  -- However a range is fetched, the reply holds the transaction if the range holds its block.
  range-replied :
      (remote : Remote) (bgn last : ℕ) (s : Tables)
      → IsComplete remote
      → nat_beq block 0 ≡ false
      → is_fetched s ≡ true
      → (not (within bgn last block)
          || replied lib key h block (get_ota_tx_in_range remote bgn last s))
        ≡ true
  unfolding get_ota_tx_in_range read
  range-replied remote bgn last s complete z fetched = elim (Bool-cases (within bgn last block)) [
    | inr out ↦ rw out refl
    | inl inside ↦ rw inside (
        get_by-replied remote bgn last s.fetched (find acct_rows my_acct s.accounts) complete z
          fetched inside)
  ]

-- What scanning a range leaves of the tables.
module _ (lib : Library) (keys : List String) (begin last : ℕ) where
  scanned_by-tables :
      (s : Tables) (r : Result (Option (List Tx)))
      → let s' = (scanned_by lib keys begin last s r).0 in
        (s'.fetched ≡ s.fetched)
        × ((s'.accounts ≡ s.accounts)
            ⊎ (s'.accounts ≡ (update_scanned begin last keys s.accounts).0))
  unfolding scanned_by
  scanned_by-tables s (err e) = (refl, inl refl)
  scanned_by-tables s (ok txs) =
      go (record s { user = (match_txs lib keys (listed txs) s.user).0 }) refl refl
        (match_txs lib keys (listed txs) s.user).1
    where
      go :
          (t : Tables)
          → t.fetched ≡ s.fetched
          → t.accounts ≡ s.accounts
          → (e : Ending)
          → let s' = (concluded begin last keys (length (listed txs)) t e).0 in
            (s'.fetched ≡ s.fetched)
            × ((s'.accounts ≡ s.accounts)
                ⊎ (s'.accounts ≡ (update_scanned begin last keys s.accounts).0))
      go t f a went_on = (f, inr (ap (λ x. (update_scanned begin last keys x).0) a))
      go t f a halted = (f, inl a)
      go t f a (thrown e) = (f, inl a)

  scan_range-tables :
      (remote : Remote) (s : Tables)
      → let s' = (scan_range lib remote keys begin last s).0 in
        (s'.fetched ≡ s.fetched)
        × ((s'.accounts ≡ s.accounts)
            ⊎ (s'.accounts ≡ (update_scanned begin last keys s.accounts).0))
  unfolding scan_range
  scan_range-tables remote s = scanned_by-tables s (get_ota_tx_in_range remote begin last s)

  row_kept_or_widened :
      (k : String) (accounts after : List Account)
      → (after ≡ accounts) ⊎ (after ≡ (update_scanned begin last keys accounts).0)
      → (find acct_rows k after ≡ find acct_rows k accounts)
        ⊎ (find acct_rows k after ≡ widened_row begin last k (find acct_rows k accounts))
  row_kept_or_widened k accounts after (inl same) = inl (ap (find acct_rows k) same)
  row_kept_or_widened k accounts after (inr wide) =
      rw wide (find-widened_or_kept begin last keys accounts k)

  row_unlisted :
      (k : String) (accounts after : List Account)
      → listed_key k keys ≡ false
      → (after ≡ accounts) ⊎ (after ≡ (update_scanned begin last keys accounts).0)
      → find acct_rows k after ≡ find acct_rows k accounts
  row_unlisted k accounts after l (inl same) = ap (find acct_rows k) same
  row_unlisted k accounts after l (inr wide) = rw wide (find-unlisted begin last keys accounts k l)

abbrev pub in_order : Option Account → Bool
in_order none = true
in_order (some r) = leb r.begin r.last

-- Ranges only grow.
abbrev pub grown : Option Account → Option Account → Bool
grown none none = true
grown (some r) (some r') = leb r'.begin r.begin && leb r.last r'.last
grown none (some r) = false
grown (some r) none = false

grown_of :
    (begin last : ℕ) (key : String) (row row' : Option Account)
    → begin ≤ last
    → in_order row ≡ true
    → (row' ≡ row) ⊎ (row' ≡ widened_row begin last key row)
    → (grown row row' ≡ true) × (in_order row' ≡ true)
unfolding widened
grown_of begin last key none row' b o (inl same) = rw same (refl, refl)
grown_of begin last key none row' b o (inr wide) = rw wide (refl, refl)
grown_of begin last key (some r) row' b o (inl same) = rw same (ground arith, o)
grown_of begin last key (some r) row' b o (inr wide) = rw wide (ground arith, ground arith)

module _ (lib : Library) (key h : String) (block : ℕ) where
  -- What the rounds keep: the transaction is not missed, the fetched ones hold it, and the scanned
  -- range is one.
  abbrev pub Invariant : Tables → Type 0
  Invariant s =
      (is_safe key h block s ≡ true)
      × (is_fetched lib key h block s ≡ true)
      × (in_order (find acct_rows key s.accounts) ≡ true)

  pub scan_range-Invariant :
      (remote : Remote) (begin last : ℕ) (s : Tables)
      → IsQuiet lib
      → IsComplete lib key h block remote
      → nat_beq block 0 ≡ false
      → str_eq key my_acct ≡ false
      → begin ≤ last
      → meets begin last (find acct_rows key s.accounts) ≡ true
      → Invariant s
      → let s' = (scan_range lib remote (key ∷ []) begin last s).0 in
        Invariant s'
        × (grown (find acct_rows key s.accounts) (find acct_rows key s'.accounts) ≡ true)
  scan_range-Invariant remote begin last s quiet complete z other b m (safe, fetched, order) =
      let keys = key ∷ [] in
      let s' = (scan_range lib remote keys begin last s).0 in
      let (same, tables) = scan_range-tables lib keys begin last remote s in
      let mine : find acct_rows my_acct s'.accounts ≡ find acct_rows my_acct s.accounts =
        row_unlisted lib keys begin last my_acct s.accounts s'.accounts (rw other refl) tables in
      let (wider, order') =
        grown_of begin last key (find acct_rows key s.accounts) (find acct_rows key s'.accounts) b
          order (row_kept_or_widened lib keys begin last key s.accounts s'.accounts tables) in
      (
        (
          scan_range-is_safe lib keys key h block remote begin last s quiet (rw (beq_refl key) refl)
              m (range-replied lib key h block remote begin last s complete z fetched) safe,
          rw (same, mine) fetched,
          order',
        ),
        wider,
      )
