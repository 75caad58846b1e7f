-- ===== src/OtaMonitor.antt =====
-- `MonitorOTA` of src/core/monitorOTA.js, which looks for the one-time addresses (OTA) of the user's
-- accounts in the blocks of Wanchain: its configuration, what it asks of the libraries, the rows of
-- its tables and the state that its timers share.
pub mod Sizes
pub mod Matching
pub mod Scan
pub mod Fetch
pub mod Bounds
pub mod Widening
pub mod Known
pub mod Recording
pub mod Covering
pub mod Ranges
pub mod Extremes
pub mod Apart
pub mod Start
pub mod Missing
pub mod Rounds
pub mod Answering
pub mod Progress
mod Examples
use wanchain_js_sdk.Prelude.{ℕ, String, Bool, ℤ, Option, some, List}
use wanchain_js_sdk.Prelude.Result.{Result}
use wanchain_js_sdk.Table.Find.{Rows}
use wanchain_js_sdk.Normal.{Ota}

-- the settings that `init` reads
pub record Config : Type 0 where
  pub batch_size : ℕ
  pub batch_max : ℕ
  pub batch_min : ℕ
  pub interval : ℕ
  pub boundary : ℕ
  pub fetch_interval : ℕ
  pub min_fetch_interval : ℕ
  -- whether the fetch API is `getTransByBlock`
  pub by_block : Bool
  pub increase : ℕ
  pub decrease : ℕ

-- A transaction. `sign` and `args` are the two slices of its input.
pub record Tx : Type 0 where
  pub hash : String
  pub sender : String
  pub to : String
  pub sign : String
  pub args : String
  pub block_number : ℕ

-- What the monitor asks of the libraries: the sign of `buyCoinNote` and the contract's address;
-- `decode` gives the OTA and the value of a call's arguments, or throws; `owns` compares the A1 of
-- an account's keys with that of an OTA; `mix` and `check_used` are the two calls of `_isOtaUsed`.
pub record Library : Type 0 where
  pub buy_sign : String
  pub contract : String
  pub decode : String → Result (String × String)
  pub owns : String → String → Bool
  pub mix : String → Result (List String)
  pub check_used : String → String → List String → Result Bool

-- a row of the account table, with the blocks that were scanned, `last` not included
pub record Account : Type 0 where
  pub acct_id : String
  pub begin : ℕ
  pub last : ℕ

-- `Object.assign` writes all the fields.
abbrev pub acct_rows : Rows Account String
acct_rows = record {
  key = λ a. some a.acct_id;
  assign = λ old new. new;
  key-assign = λ old new k h. h;
}

abbrev pub tx_rows : Rows Tx String
tx_rows = record { key = λ t. some t.hash; assign = λ old new. new; key-assign = λ old new k h. h }

-- the tables of accounts, of OTA transactions that were fetched, and of the user's OTAs
pub record Tables : Type 0 where
  pub accounts : List Account
  pub fetched : List Tx
  pub user : List Ota

-- `_lastOTAinBatch` and `_lastBatchSize`
pub record Scanner : Type 0 where
  pub last_count : ℤ
  pub last_size : ℕ
  pub tables : Tables

-- `_MY_ACCT` in base 64
abbrev pub my_acct : String
my_acct = "d2FsbGV0QFdhbmNoYWluLm9yZw=="
