-- ===== src/OtaMonitor/Matching.antt =====
-- `_isOtaUsed` and the loops of `_scanRange` of src/core/monitorOTA.js: the transactions of a range
-- are matched against the accounts, and the ranges of the accounts are widened.
use wanchain_js_sdk.Prelude.{
  ℕ, String, Bool, str_eq, ltb, Option, none, some, List, [], ◌∷◌, string_eq, if◌then◌else◌,
}
use wanchain_js_sdk.Prelude.Result.{
  Result, ok, err, Error, not_found, not_ready, duplicate_record, reference_error, ◌>>=◌,
}
use wanchain_js_sdk.Table.{insert, update, read}
use wanchain_js_sdk.Normal.{Ota, ota_rows}
use wanchain_js_sdk.OtaMonitor.{Tx, Library, Account, acct_rows}

-- how a loop over transactions ends: at their end, by returning -1, or by an error
pub data Ending : Type 0 where
  went_on halted : Ending
  thrown : Error → Ending

unfoldable pub is_ota_used : Library → String → String → Result Bool
is_ota_used lib key ota = elim (lib.mix ota >>= λ set. lib.check_used key ota set) [
  | err e ↦ err (elim e [ not_found ↦ not_ready | other ↦ other ])
  | ok used ↦ ok used
]

-- the first account that owns the OTA
unfoldable pub owner : Library → List String → String → Option String
owner lib [] ota = none
owner lib (key ∷ keys) ota = if lib.owns key ota then some key else owner lib keys ota

-- the `catch` around the insert
unfoldable pub caught : Error → Ending
caught e = elim e [ duplicate_record ↦ went_on | not_ready ↦ halted | other ↦ thrown other ]

unfoldable pub my_ota : Tx → String → String → String → Bool → Ota
my_ota tx key ota value used = record {
  txhash = tx.hash;
  to_ota = ota;
  to_acct_id = key;
  value = value;
  sender = tx.sender;
  block_no = tx.block_number;
  state = if used then "Refund" else "Found";
}

unfoldable pub recorded : List Ota → Result (List Ota) → List Ota × Ending
unfolding caught
recorded user (err e) = (user, caught e)
recorded user (ok after) = (after, went_on)

unfoldable pub found_ota : Library → Tx → String → String → String → List Ota → List Ota × Ending
unfolding is_ota_used my_ota recorded insert
found_ota lib tx key ota value user =
    recorded user (
      is_ota_used lib key ota >>= λ used.
      insert ota_rows (some (my_ota tx key ota value used)) user)

unfoldable pub match_owned :
    Library → Tx → String → String → List Ota → Option String → List Ota × Ending
unfolding found_ota
match_owned lib tx ota value user none = (user, went_on)
match_owned lib tx ota value user (some key) = found_ota lib tx key ota value user

-- The test of `tx.to` stands in the loop over the accounts.
unfoldable pub match_call :
    Library → List String → Tx → List Ota → Result (String × String) → List Ota × Ending
unfolding owner match_owned
match_call lib keys tx user (err e) = (user, thrown e)
match_call lib keys tx user (ok (ota, value)) =
    if str_eq tx.to lib.contract
    then match_owned lib tx ota value user (owner lib keys ota)
    else (user, went_on)

unfoldable pub match_tx : Library → List String → Tx → List Ota → List Ota × Ending
unfolding match_call
match_tx lib keys tx user =
    if str_eq tx.sign lib.buy_sign
    then match_call lib keys tx user (lib.decode tx.args)
    else (user, went_on)

-- the rest of a loop, unless it has ended
unfoldable pub and_then : List Ota × Ending → List Ota × Ending → List Ota × Ending
and_then (user, went_on) rest = rest
and_then (user, halted) rest = (user, halted)
and_then (user, thrown e) rest = (user, thrown e)

unfoldable pub match_txs : Library → List String → List Tx → List Ota → List Ota × Ending
unfolding match_tx and_then
match_txs lib keys [] user = (user, went_on)
match_txs lib keys (tx ∷ txs) user =
    and_then (match_tx lib keys tx user) (match_txs lib keys txs (match_tx lib keys tx user).0)

unfoldable pub widened : ℕ → ℕ → String → Account → Account
widened begin last key prev = record {
  acct_id = key;
  begin = if ltb begin prev.begin then begin else prev.begin;
  last = if ltb prev.last last then last else prev.last;
}

-- The log of a missing row names a variable that is not there, which throws.
unfoldable pub widen_row : ℕ → ℕ → String → List Account → Option Account → Result (List Account)
unfolding widened update
widen_row begin last key accounts none = err reference_error
widen_row begin last key accounts (some prev) =
    update acct_rows (some key) (some (widened begin last key prev)) accounts

-- the rows that were written, and the error that ended the loop
unfoldable pub update_scanned : ℕ → ℕ → List String → List Account → List Account × Option Error
unfolding widen_row read
update_scanned begin last [] accounts = (accounts, none)
update_scanned begin last (key ∷ keys) accounts =
    elim (read acct_rows (some key) accounts >>= λ prev. widen_row begin last key accounts prev) [
      | err e ↦ (accounts, some e)
      | ok after ↦ update_scanned begin last keys after
    ]
