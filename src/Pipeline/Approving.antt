-- ===== src/Pipeline/Approving.antt =====
-- The stages of CrossChainE20Approve and CrossChainEosApprove (src/trans/cross-chain). `r` is the
-- record that `preSendTrans` inserts: its hash and its preimage are those of the common data.
use wanchain_js_sdk.Prelude.{String, Bool, Option, none, some, if◌then◌else◌}
use wanchain_js_sdk.Cross.{
  CrossRecord, approve_sending, approve_sent, approve_fail, approve_zero_sending, approve_zero_sent,
}
use wanchain_js_sdk.Items.{Db, insert_item, get_item}
use wanchain_js_sdk.Pipeline.{Stage, passed, Methods, by_hash_x, change_item}
use wanchain_js_sdk.Pipeline.Closing.{change_input_item}

module _ (r : CrossRecord) (approve_zero : Bool) where
  unfoldable pub approve_insert : Db CrossRecord → Db CrossRecord
  unfolding insert_item
  approve_insert db =
      insert_item
        (record r {
          status = if approve_zero then approve_zero_sending else approve_sending;
          approve_tx_hash = r.hash_x;
        })
        db

  -- a record of the hash that is there is sent again, be it for zero or not
  unfoldable pub approve_pre_send_trans : Db CrossRecord → Stage × Db CrossRecord
  unfolding approve_insert change_item
  approve_pre_send_trans db = elim (get_item (by_hash_x r.hash_x) db) [
    | none ↦ (passed, approve_insert db)
    | some old ↦
        change_item r.hash_x
          (λ y. record y { status = approve_sending; contract_value = r.contract_value }) db
  ]

  unfoldable pub approve_post_send_trans : String → Db CrossRecord → Stage × Db CrossRecord
  unfolding change_item
  approve_post_send_trans tx db =
      change_item r.hash_x
        (λ y.
          if approve_zero
          then record y { status = approve_zero_sent; approve_zero_tx_hash = tx }
          else record y { status = approve_sent; approve_tx_hash = tx })
        db

  -- `hash_x` is `input.hashX`, by which `transFailed` looks, not the hash of the record
  unfoldable pub approve_methods :
      Option String → Methods (Db CrossRecord) → Methods (Db CrossRecord)
  unfolding approve_pre_send_trans approve_post_send_trans change_input_item
  approve_methods hash_x base = record base {
    pre_send_trans = approve_pre_send_trans;
    trans_failed = change_input_item hash_x (λ y. record y { status = approve_fail });
    post_send_trans = approve_post_send_trans;
  }
