-- ===== src/Pipeline/Stranded.antt =====
-- Where the approval of a token cannot be sent.
use wanchain_js_sdk.Prelude.{◌≡◌, refl, ap, true, false, none, string_eq}
use wanchain_js_sdk.Prelude.Result.{ok}
use wanchain_js_sdk.Cross.{CrossRecord, approve_sending}
use wanchain_js_sdk.Items.{Db, get_item, insert_item}
use wanchain_js_sdk.Pipeline.{attempts, run, by_hash_x, failed_by}
use wanchain_js_sdk.Pipeline.Changes.{Stored, get_item-inserted}
use wanchain_js_sdk.Pipeline.Sending.{IsReady, run-failed}
use wanchain_js_sdk.Pipeline.Closing.{change_input_item}
use wanchain_js_sdk.Pipeline.Approving.{approve_insert, approve_methods}
use wanchain_js_sdk.Pipeline.TokenLock.{Locking, approved, approve_run, approvals, e20_lock}
use wanchain_js_sdk.Pipeline.Locked.{approve_pre-absent}

module _ (l : Locking) (ready : IsReady l.approve_base)
    (unsent : attempts l.approve_base l.try_times 0 ≡ none) (db : Db CrossRecord)
    (absent : get_item (by_hash_x l.item.hash_x) db ≡ none) where
  inserted : Db CrossRecord
  inserted =
      insert_item (record l.item { status = approve_sending; approve_tx_hash = l.item.hash_x }) db

  fails :
      run (approve_methods l.item false none l.approve_base) l.try_times db
      ≡ record { code = false; rejected = true; state = inserted; holes = 1; hash = none }
  unfolding approve_methods approve_insert change_input_item failed_by attempts inserted
  fails =
      run-failed (approve_methods l.item false none l.approve_base) l.try_times db inserted ready
        (approve_pre-absent l.item false db absent) unsent

  -- If the first approval of a token, without an allowance before it, cannot be sent, the lock fails
  -- and one nonce goes back, but the record that was inserted stays as one that is being sent, since
  -- the failure is recorded under a hash that the input does not have yet.
  pub e20_lock-stranded :
      l.allowance ≡ ok 0
      → let o = e20_lock l false db in
        (o.code ≡ false)
        × (o.holes ≡ 1)
        × Stored l.item.hash_x
            (record l.item { status = approve_sending; approve_tx_hash = l.item.hash_x })
            o.state
  unfolding e20_lock approvals approve_run approved inserted
  e20_lock-stranded allowed =
      let ran = ap (λ reply. approvals l false reply db) allowed in
      rw (ran, fails) (refl, refl, get_item-inserted _ db absent)
