-- ===== src/OtaMonitor/Scan.antt =====
-- `scan`, `_scanRange` and `_getOTATxInRange` of src/core/monitorOTA.js. `remote` answers the
-- request for the contract's transactions between two blocks, both included; the accounts' keys are
-- those of `_checkAccts`. On numbers from 0 a hard end below 0 is 0, where nothing is scanned either.
use wanchain_js_sdk.Prelude.{
  ℕ, String, ◌+◌, ◌-◌, Bool, ℤ, pos, negsuc, ◌+ℤ◌, ltb, leb, nat_beq, not, ◌&&◌, ◌||◌, length,
  Option, none, some, List, [], ◌∷◌, string_eq, if◌then◌else◌,
}
use wanchain_js_sdk.Prelude.Result.{Result, ok, err, Error, ◌>>=◌}
use wanchain_js_sdk.Table.{matching, read}
use wanchain_js_sdk.OtaMonitor.{Config, Tx, Library, Account, acct_rows, Tables, Scanner, my_acct}
use wanchain_js_sdk.OtaMonitor.Sizes.{adjust_batch_size}
use wanchain_js_sdk.OtaMonitor.Matching.{Ending, went_on, halted, thrown, match_txs, update_scanned}

abbrev pub Remote : Type 0
Remote = ℕ → ℕ → Result (Option (List Tx))

-- the filter on the transactions that were fetched
unfoldable pub in_range : ℕ → ℕ → Tx → Bool
in_range bgn last t =
    not (nat_beq t.block_number 0) && (leb bgn t.block_number && leb t.block_number last)

-- by the row of `_MY_ACCT`
unfoldable pub get_by : Remote → ℕ → ℕ → List Tx → Option Account → Result (Option (List Tx))
unfolding in_range matching
get_by remote bgn last fetched none = remote bgn (last - 1)
get_by remote bgn last fetched (some r) =
    if ltb bgn r.begin || ltb r.last last
    then remote bgn (last - 1)
    else ok (some (matching (in_range bgn last) fetched))

unfoldable pub get_ota_tx_in_range : Remote → ℕ → ℕ → Tables → Result (Option (List Tx))
unfolding get_by read
get_ota_tx_in_range remote bgn last s =
    read acct_rows (some my_acct) s.accounts >>= get_by remote bgn last s.fetched

abbrev pub listed : Option (List Tx) → List Tx
listed none = []
listed (some txs) = txs

unfoldable pub counted : ℕ → Option Error → Result ℤ
counted n none = ok (pos n)
counted n (some e) = err e

-- the end of `_scanRange`
unfoldable pub concluded : ℕ → ℕ → List String → ℕ → Tables → Ending → Tables × Result ℤ
unfolding update_scanned counted
concluded begin last keys n s went_on =
    let (accounts, failed) = update_scanned begin last keys s.accounts in
    (record s { accounts = accounts }, counted n failed)
concluded begin last keys n s halted = (s, ok (negsuc 0))
concluded begin last keys n s (thrown e) = (s, err e)

unfoldable pub scanned_by :
    Library → List String → ℕ → ℕ → Tables → Result (Option (List Tx)) → Tables × Result ℤ
unfolding match_txs concluded
scanned_by lib keys begin last s (err e) = (s, err e)
scanned_by lib keys begin last s (ok txs) =
    let (user, ending) = match_txs lib keys (listed txs) s.user in
    concluded begin last keys (length (listed txs)) (record s { user = user }) ending

unfoldable pub scan_range : Library → Remote → List String → ℕ → ℕ → Tables → Tables × Result ℤ
unfolding get_ota_tx_in_range scanned_by
scan_range lib remote keys begin last s =
    scanned_by lib keys begin last s (get_ota_tx_in_range remote begin last s)

-- A missing row is skipped.
unfoldable pub narrowed : Option Account → ℕ × ℕ → ℕ × ℕ
narrowed none b = b
narrowed (some r) (high_begin, low_end) = (
  if ltb r.last high_begin then r.last else high_begin,
  if ltb low_end r.begin then r.begin else low_end,
)

-- `highBegin` and `lowEnd`: where the upper and the lower range to scan begin and end
unfoldable pub scan_bounds : List String → List Account → ℕ × ℕ → Result (ℕ × ℕ)
unfolding narrowed read
scan_bounds [] accounts b = ok b
scan_bounds (id ∷ keys) accounts b =
    read acct_rows (some id) accounts >>= λ row. scan_bounds keys accounts (narrowed row b)

-- the upper range ends a batch further, or at the hard end
unfoldable pub high_end : ℕ → ℕ → ℕ → ℕ
high_end size hard_end high_begin =
    if ltb (high_begin + size) hard_end then high_begin + size else hard_end

unfoldable pub scan_high : Library → Remote → List String → ℕ → ℕ → ℕ → Tables → Tables × Result ℤ
unfolding scan_range high_end
scan_high lib remote keys size hard_end high_begin s =
    if ltb high_begin hard_end
    then scan_range lib remote keys high_begin (high_end size hard_end high_begin) s
    else (s, ok (pos 0))

-- subtraction stops at 0
unfoldable pub scan_low : Library → Remote → List String → ℕ → ℕ → Tables → Tables × Result ℤ
unfolding scan_range
scan_low lib remote keys size low_end s =
    if ltb 0 low_end then scan_range lib remote keys (low_end - size) low_end s else (s, ok (pos 0))

abbrev pub low_count : ℤ → Result ℤ → ℤ
low_count n (err e) = negsuc 0
low_count n (ok m) = n +ℤ m

-- the lower range, unless scanning the upper one threw; `_lastOTAinBatch` and the tables
unfoldable pub after_high : Library → Remote → List String → ℕ → ℕ → Tables × Result ℤ → ℤ × Tables
unfolding scan_low
after_high lib remote keys size low_end (s, err e) = (negsuc 0, s)
after_high lib remote keys size low_end (s, ok n) =
    let (after, counted) = scan_low lib remote keys size low_end s in (low_count n counted, after)

unfoldable pub scan_between :
    Library → Remote → List String → ℕ → ℕ → Tables → Result (ℕ × ℕ) → ℤ × Tables
unfolding scan_high after_high
scan_between lib remote keys size hard_end s (err e) = (negsuc 0, s)
scan_between lib remote keys size hard_end s (ok (high_begin, low_end)) =
    after_high lib remote keys size low_end (scan_high lib remote keys size hard_end high_begin s)

-- one round, on the block number that the chain answers with
unfoldable pub scan : Config → Library → Remote → List String → Result ℕ → Scanner → Scanner
unfolding adjust_batch_size scan_bounds scan_between
scan c lib remote keys (err e) s = record s { last_count = negsuc 0 }
scan c lib remote keys (ok latest) s =
    let hard_end = latest - c.boundary in
    let size = adjust_batch_size c s.last_count s.last_size in
    let (count, tables) =
      scan_between lib remote keys size hard_end s.tables
        (scan_bounds keys s.tables.accounts (hard_end, 0)) in
    record { last_count = count; last_size = size; tables = tables }

-- the rounds that the timer starts, each with the block number and the replies of its time
unfoldable pub rounds :
    Config → Library → List String → List (Result ℕ × Remote) → Scanner → Scanner
unfolding scan
rounds c lib keys [] s = s
rounds c lib keys ((latest, remote) ∷ more) s =
    rounds c lib keys more (scan c lib remote keys latest s)
