-- ===== src/OtaMonitor/Fetch.antt =====
-- `fetchTransaction` and `_doFetch` of src/core/monitorOTA.js, which fetch the OTA transactions of
-- all accounts ahead of the scan. `add_ota` is `_addOTAAddress`, whose errors are caught. A time-out
-- of the requests is an error of one of them.
use wanchain_js_sdk.Prelude.{
  ℕ, zero, suc, String, ◌+◌, ◌-◌, ℤ, pos, negsuc, ltb, ◌&&◌, str_eq, Option, none, some, List, [],
  ◌∷◌, ◌++◌, string_eq, if◌then◌else◌,
}
use wanchain_js_sdk.Prelude.Result.{Result, ok, err, Error, duplicate_record, ◌>>=◌}
use wanchain_js_sdk.Table.{insert, update, read}
use wanchain_js_sdk.OtaMonitor.{Config, Tx, Library, Account, acct_rows, tx_rows, Tables, my_acct}
use wanchain_js_sdk.OtaMonitor.Scan.{Remote, listed}
use wanchain_js_sdk.OtaMonitor.Sizes.{adjust_pre_fetch_size}
use wanchain_js_sdk.OtaStorage.{Storage, add_ota_if_not_exist}

-- `_lastFetchTime`, `_lastFetchSize`, `_fetchInterval`, the tables and the storage of OTAs
pub record Fetcher : Type 0 where
  pub last_time : ℤ
  pub last_size : ℕ
  pub fetch_interval : ℕ
  pub tables : Tables
  pub storage : Storage

-- what the node answers with, by block and by address, and the milliseconds that it takes
pub record Node : Type 0 where
  pub by_block : ℕ → Result (Option (List Tx))
  pub by_address : Remote
  pub took : ℕ

-- `getTxByBlock`, for a number of blocks
unfoldable pub gather : Node → ℕ → ℕ → Result (List Tx)
gather node zero i = ok []
gather node (suc n) i =
    node.by_block i >>= λ txs. gather node n (i + 1) >>= λ rest. ok (listed txs ++ rest)

-- the API that is configured; the loop over the blocks includes `end`
unfoldable pub fetch_by : Config → Node → ℕ → ℕ → Result (Option (List Tx))
unfolding gather
fetch_by c node bgn last =
    if c.by_block
    then (gather node (last + 1 - bgn) bgn >>= λ txs. ok (some txs))
    else node.by_address bgn (last - 1)

unfoldable pub add_ota_address : String → String → Storage → Storage
unfolding add_ota_if_not_exist
add_ota_address addr value s = elim (add_ota_if_not_exist addr value s) [
  | err e ↦ s
  | ok after ↦ after
]

-- the `catch` around the insert of a transaction
unfoldable pub keep_fetched : List Tx → Result (List Tx) → Result (List Tx)
keep_fetched txs (ok after) = ok after
keep_fetched txs (err e) = elim e [ duplicate_record ↦ ok txs | other ↦ err other ]

unfoldable pub store_call :
    Tx → List Tx × Storage → Result (String × String) → (List Tx × Storage) × Option Error
unfolding add_ota_address keep_fetched insert
store_call tx s (err e) = (s, some e)
store_call tx (txs, storage) (ok (ota, value)) =
    elim (keep_fetched txs (insert tx_rows (some tx) txs)) [
      | err e ↦ ((txs, add_ota_address ota value storage), some e)
      | ok after ↦ ((after, add_ota_address ota value storage), none)
    ]

unfoldable pub store_tx : Library → Tx → List Tx × Storage → (List Tx × Storage) × Option Error
unfolding store_call
store_tx lib tx s =
    if str_eq tx.to lib.contract && str_eq tx.sign lib.buy_sign
    then store_call tx s (lib.decode tx.args)
    else (s, none)

abbrev pub unless_failed :
    (List Tx × Storage) × Option Error
    → (List Tx × Storage) × Option Error
    → (List Tx × Storage) × Option Error
unless_failed (s, some e) rest = (s, some e)
unless_failed (s, none) rest = rest

unfoldable pub store_txs :
    Library → List Tx → List Tx × Storage → (List Tx × Storage) × Option Error
unfolding store_tx
store_txs lib [] s = (s, none)
store_txs lib (tx ∷ txs) s =
    unless_failed (store_tx lib tx s) (store_txs lib txs (store_tx lib tx s).0)

-- `_lastFetchTime` is -1 after an error
unfoldable pub stored : Node → Fetcher → (List Tx × Storage) × Option Error → Fetcher × Option Error
stored node s ((txs, storage), none) = (
  record s {
    last_time = pos node.took;
    tables = record s.tables { fetched = txs };
    storage = storage;
  },
  none,
)
stored node s ((txs, storage), some e) = (
  record s { last_time = negsuc 0; tables = record s.tables { fetched = txs }; storage = storage },
  some e,
)

unfoldable pub do_fetch : Config → Library → Node → ℕ → ℕ → Fetcher → Fetcher × Option Error
unfolding fetch_by store_txs stored
do_fetch c lib node bgn last s = elim (fetch_by c node bgn last) [
  | err e ↦ (record s { last_time = negsuc 0 }, some e)
  | ok txs ↦ stored node s (store_txs lib (listed txs) (s.tables.fetched, s.storage))
]

-- The row is the one of the table itself, so a change of it holds before the update does.
unfoldable pub set_mine : ℕ → ℕ → Fetcher → Fetcher
unfolding update
set_mine begin last s =
    let row : Account = record { acct_id = my_acct; begin = begin; last = last } in
    elim (update acct_rows (some my_acct) (some row) s.tables.accounts) [
      | err e ↦ s
      | ok accounts ↦ record s { tables = record s.tables { accounts = accounts } }
    ]

-- fetches upwards from the end of the row, if there is something
unfoldable pub fetch_up : Config → Library → Node → ℕ → Account → Fetcher → Fetcher × Option Error
unfolding do_fetch set_mine
fetch_up c lib node last r s =
    if ltb r.last last
    then (let (after, failed) = do_fetch c lib node r.last last s in
        elim failed [ some e ↦ (after, some e) | none ↦ (set_mine r.begin last after, none) ])
    else (s, none)

-- and downwards from its begin; `last` is the end of the row by then
unfoldable pub fetch_down :
    Config → Library → Node → ℕ → ℕ → Account → Fetcher → Fetcher × Option Error
unfolding do_fetch set_mine
fetch_down c lib node bgn last r s =
    if ltb bgn r.begin
    then (let (after, failed) = do_fetch c lib node bgn r.begin s in
        elim failed [ some e ↦ (after, some e) | none ↦ (set_mine bgn last after, none) ])
    else (s, none)

-- the row that is read, or a new one at the latest block
unfoldable pub my_row : ℕ → List Account → Result (Account × List Account)
unfolding insert read
my_row latest accounts = read acct_rows (some my_acct) accounts >>= λ row. elim row [
  | some r ↦ ok (r, accounts)
  | none ↦
      let r : Account = record { acct_id = my_acct; begin = latest; last = latest } in
      insert acct_rows (some r) accounts >>= λ after. ok (r, after)
]

-- `_FETCH_FINISHED_CONDITION` is 10
unfoldable pub interval_of : Config → ℕ → ℕ → Account → ℕ
interval_of c bgn last r =
    if ltb last (r.last + 10) && ltb r.begin (bgn + 10)
    then c.fetch_interval
    else c.min_fetch_interval

unfoldable pub fetch_from : Config → Library → Node → ℕ → Account → Fetcher → Fetcher
unfolding adjust_pre_fetch_size interval_of fetch_up fetch_down
fetch_from c lib node latest r s =
    let (size, last_size) = adjust_pre_fetch_size c s.last_time s.last_size in
    let hard_end = latest - c.boundary in
    let bgn = r.begin - size in
    let last = if ltb (r.last + size) hard_end then r.last + size else hard_end in
    let top = if ltb r.last last then last else r.last in
    let sized = record s { last_size = last_size; fetch_interval = interval_of c bgn last r } in
    let (after, failed) = fetch_up c lib node last r sized in
    elim failed [ some e ↦ after | none ↦ (fetch_down c lib node bgn top r after).0 ]

-- One round: an error is logged and ends it. Numbers from 0 stand for a hard end below 0 as well,
-- where nothing is fetched upwards.
unfoldable pub fetch_transaction : Config → Library → Node → Result ℕ → Fetcher → Fetcher
unfolding my_row fetch_from
fetch_transaction c lib node (err e) s = s
fetch_transaction c lib node (ok latest) s = elim (my_row latest s.tables.accounts) [
  | err e ↦ s
  | ok (r, accounts) ↦
      fetch_from c lib node latest r (record s { tables = record s.tables { accounts = accounts } })
]
