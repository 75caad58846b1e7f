-- ===== src/OtaMonitor/Examples.antt =====
-- A purchase in block 7 for an account that has scanned nothing below block 10.
use wanchain_js_sdk.Prelude.{
  ◌≡◌, ◌≢◌, refl, true, false, pos, negsuc, some, [], ◌∷◌, map, str_eq, arith, string_eq,
}
use wanchain_js_sdk.Prelude.Result.{ok}
use wanchain_js_sdk.Table.Find.{find, has_key, assign_first}
use wanchain_js_sdk.OtaMonitor.{Config, Tx, Library, Account, acct_rows, Tables, Scanner}
use wanchain_js_sdk.OtaMonitor.Matching.{is_ota_used}
use wanchain_js_sdk.OtaMonitor.Scan.{Remote, scan_range, scan_bounds, rounds}
use wanchain_js_sdk.OtaMonitor.Known.{IsQuiet}
use wanchain_js_sdk.OtaMonitor.Covering.{covers}
use wanchain_js_sdk.OtaMonitor.Ranges.{IsComplete, Invariant}
use wanchain_js_sdk.OtaMonitor.Rounds.{rounds-Invariant}
use wanchain_js_sdk.OtaMonitor.Answering.{Answers, answered_at}
use wanchain_js_sdk.OtaMonitor.Progress.{rounds-reach_zero}
use wanchain_js_sdk.OtaMonitor.Apart.{scan_range-claims}
use wanchain_js_sdk.OtaMonitor.Missing.{scan_range-missing}
use wanchain_js_sdk.OtaMonitor.Extremes.{least_last, greatest_begin, present, scan_bounds-extremes}

-- the settings that are the defaults
abbrev config : Config
config = record {
  batch_size = 1000;
  batch_max = 10000;
  batch_min = 100;
  interval = 60000;
  boundary = 5;
  fetch_interval = 30000;
  min_fetch_interval = 5000;
  by_block = true;
  increase = 500;
  decrease = 10000;
}

abbrev purchase : Tx
purchase = record {
  hash = "0xt";
  sender = "0x3";
  to = "0xc";
  sign = "beef";
  args = "0x11";
  block_number = 7;
}

abbrev lib : Library
lib = record {
  buy_sign = "beef";
  contract = "0xc";
  decode = λ args. ok ("0xota", "10");
  owns = λ key ota. str_eq key "MTpt";
  mix = λ ota. ok ("0xota" ∷ []);
  check_used = λ key ota set. ok false;
}

quiet : IsQuiet lib
unfolding is_ota_used
quiet key ota = λ h. cc

answers : Answers lib "MTpt"
unfolding is_ota_used
answers = (λ args. (("0xota", "10"), refl), λ ota own. (false, refl))

abbrev remote : Remote
remote b e = ok (some (purchase ∷ []))

complete : IsComplete lib "MTpt" "0xt" 7 remote
complete b e = ground arith

abbrev account : Account
account = record { acct_id = "MTpt"; begin = 10; last = 10 }

abbrev behind : Account
behind = record { acct_id = "Mjpt"; begin = 0; last = 4 }

abbrev tables : Tables
tables = record { accounts = account ∷ []; fetched = []; user = [] }

abbrev scanner : Scanner
scanner = record { last_count = negsuc 0; last_size = 1000; tables = tables }

rounds-Invariant_example :
    Invariant lib "MTpt" "0xt" 7
      (rounds config lib ("MTpt" ∷ []) ((ok 20, remote) ∷ []) scanner).tables
unfolding find has_key
rounds-Invariant_example =
    rounds-Invariant lib "MTpt" "0xt" 7 quiet refl refl config ((ok 20, remote) ∷ []) scanner
      (complete, tt) (refl, refl, refl)

rounds-reach_zero_example :
    (r' : Account) × (find acct_rows "MTpt"
        (rounds config lib
          ("MTpt" ∷ [])
          (map answered_at ((20, remote) ∷ []))
          scanner).tables.accounts
      ≡ some r')
    × (r'.begin ≡ 0)
unfolding find has_key
rounds-reach_zero_example =
    rounds-reach_zero lib "MTpt" answers config ((20, remote) ∷ []) account scanner (omega arith)
      (omega arith) (λ b e. (some (purchase ∷ []), refl), tt) refl (omega arith)

-- another account ends at block 4, where the upper range begins; block 7 is beyond the range
scan_range-claims_example :
    covers "MTpt" 7
      (scan_range lib remote
        ("Mjpt" ∷ "MTpt" ∷ [])
        4
        6
        (record { accounts = behind ∷ account ∷ []; fetched = []; user = [] })).0.accounts
    ≡ true
unfolding scan_range find has_key assign_first
scan_range-claims_example =
    scan_range-claims lib ("Mjpt" ∷ "MTpt" ∷ []) "MTpt" account 4 6 7 1 refl (omega arith)
      (omega arith) remote (record { accounts = behind ∷ account ∷ []; fetched = []; user = [] })
      refl refl

scan_bounds-extremes_example :
    scan_bounds ("Mjpt" ∷ "MTpt" ∷ "none" ∷ []) (behind ∷ account ∷ []) (15, 0)
    ≡ ok (
      least_last 15 (present ("Mjpt" ∷ "MTpt" ∷ "none" ∷ []) (behind ∷ account ∷ [])),
      greatest_begin 0 (present ("Mjpt" ∷ "MTpt" ∷ "none" ∷ []) (behind ∷ account ∷ [])),
    )
scan_bounds-extremes_example =
    scan_bounds-extremes ("Mjpt" ∷ "MTpt" ∷ "none" ∷ []) (behind ∷ account ∷ []) 15 0

scan_range-missing_example :
    (scan_range lib remote
      ("MTpt" ∷ "none" ∷ [])
      4
      6
      (record { accounts = behind ∷ account ∷ []; fetched = []; user = [] })).1
    ≢ ok (pos 1)
unfolding find has_key
scan_range-missing_example =
    scan_range-missing lib ("MTpt" ∷ "none" ∷ []) "none" 4 6 1 refl remote
      (record { accounts = behind ∷ account ∷ []; fetched = []; user = [] }) refl
