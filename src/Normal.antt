-- ===== src/Normal.antt =====
-- src/core/monitorNormal.js: the handler that watches a transaction within one chain, and the row of
-- the OTA table (src/db/wanotadb.js) that a private refund marks.
pub mod Outcomes
pub mod Round
pub mod Marking
mod Examples
use wanchain_js_sdk.Prelude.{
  ℕ, String, ◌+◌, Bool, true, false, not, Option, none, some, List, if◌then◌else◌, string_eq,
}
use wanchain_js_sdk.Prelude.Result.{Result, ok, err, ◌>>=◌}
use wanchain_js_sdk.Cross.{ChainType, is_eos}
use wanchain_js_sdk.Monitor.Replies.{Network, Receipt, is_text, confirmed, block_of, executed}
use wanchain_js_sdk.Table.{read, update}
use wanchain_js_sdk.Table.Find.{Rows}

pub data Status : Type 0 where
  sending sent success failed : Status

-- what the transactions of src/trans/normal-chain insert, as far as the SDK reads it again
pub record NormalRecord : Type 0 where
  pub hash_x : String
  pub tx_hash : String
  pub chain_type : ChainType
  pub status : Status
  pub sent_time : Option ℕ
  pub success_time : Option ℕ
  pub annotate : Option String
  pub ota_tx_hash : Option String

-- a row of `getUsrOTATable()`, with its key `txhash`
pub record Ota : Type 0 where
  pub txhash : String
  pub to_ota : String
  pub to_acct_id : String
  pub value : String
  pub sender : String
  pub block_no : ℕ
  pub state : String

-- All fields are assigned.
abbrev pub ota_rows : Rows Ota String
ota_rows = record {
  key = λ o. some o.txhash;
  assign = λ old new. new;
  key-assign = λ old new k h. h;
}

pub record Outcome : Type 0 where
  pub item : NormalRecord
  pub writes : ℕ
  pub otas : List Ota

-- `receiptFailOrNot` of this file reads `trx` without a test
receipt_fail : Receipt → NormalRecord → Result Bool
unfolding executed
receipt_fail rc r =
    if is_text "0x1" rc.status
    then ok false
    else if is_eos r.chain_type
    then (do b ← executed rc; ok (not b))
    else ok true

fail_check : Receipt → Outcome → Outcome
unfolding receipt_fail
fail_check rc o = elim (receipt_fail rc o.item) [
  | err e ↦ o
  | ok bad ↦
      if bad
      then record o { item = record o.item { status = failed }; writes = o.writes + 1 }
      else o
]

-- the row of the original transaction becomes "Refund"
unfoldable pub mark_refund : String → List Ota → List Ota
mark_refund h otas = elim (read ota_rows (some h) otas) [
  | err e ↦ otas
  | ok found ↦ elim found [
    | none ↦ otas
    | some ota ↦ elim (update ota_rows (some h) (some (record ota { state = "Refund" })) otas) [
      | err e ↦ otas
      | ok after ↦ after
    ]
  ]
]

pub private_refund : NormalRecord → List Ota → List Ota
unfolding mark_refund
private_refund r otas =
    if is_text "PrivateRefund" r.annotate
    then elim r.ota_tx_hash [ none ↦ otas | some h ↦ mark_refund h otas ]
    else otas

-- the status is set before the block is awaited
succeeded : Result ℕ → Receipt → NormalRecord → List Ota → Outcome
unfolding private_refund fail_check
succeeded (err e) rc r otas = record {
  item = record r { status = success };
  writes = 0;
  otas = otas;
}
succeeded (ok t) rc r otas = fail_check rc (record {
  item = record r { status = success; success_time = some t };
  writes = 1;
  otas = private_refund r otas;
})

module _ (net : Network) (confirm_blocks : ℕ) where
  with_receipt : Option Receipt → NormalRecord → List Ota → Outcome
  unfolding confirmed block_of succeeded
  with_receipt none r otas = record { item = r; writes = 0; otas = otas }
  with_receipt (some rc) r otas = elim (confirmed r.chain_type rc) [
    | err e ↦ record { item = r; writes = 0; otas = otas }
    | ok b ↦
        if b
        then succeeded (net.block_time (block_of r.chain_type rc) r.chain_type) rc r otas
        else fail_check rc (record { item = r; writes = 0; otas = otas })
  ]

  -- `done` is `self.done`: the server is shutting down
  unfoldable pub wait_normal_confirm : Bool → NormalRecord → List Ota → Outcome
  unfolding with_receipt
  wait_normal_confirm done r otas =
      if done
      then record { item = r; writes = 0; otas = otas }
      else elim (net.wait_confirm r.tx_hash confirm_blocks r.chain_type) [
        | err e ↦ record { item = r; writes = 0; otas = otas }
        | ok receipt ↦ with_receipt receipt r otas
      ]

  dispatch : Status → Bool → NormalRecord → List Ota → Outcome
  unfolding wait_normal_confirm
  dispatch sent done r otas = wait_normal_confirm done r otas
  dispatch _ done r otas = record { item = r; writes = 0; otas = otas }

  unfoldable pub monitor_record : Bool → NormalRecord → List Ota → Outcome
  unfolding dispatch
  monitor_record done r otas = dispatch r.status done r otas
