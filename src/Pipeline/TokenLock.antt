-- ===== src/Pipeline/TokenLock.antt =====
-- `run` of CrossChainE20Lock and CrossChainEosLock (src/trans/cross-chain): a token is locked after
-- its contract was approved, and a previous allowance is approved to zero first.
use wanchain_js_sdk.Prelude.{
  ℕ, ◌+◌, String, Bool, true, false, Option, none, some, nat_beq, if◌then◌else◌,
}
use wanchain_js_sdk.Prelude.Result.{Result, ok, err}
use wanchain_js_sdk.Cross.{CrossRecord, lock_sending, lock_sent, lock_fail}
use wanchain_js_sdk.Items.{Db, insert_item}
use wanchain_js_sdk.Pipeline.{Stage, passed, Methods, Run, run, change_item}
use wanchain_js_sdk.Pipeline.Approving.{approve_methods}

-- the lock's own stages; `inserts` where no approval has inserted the record
module _ (r : CrossRecord) (inserts : Bool) (zero_hash : String) where
  unfoldable pub token_lock_pre_send_trans : Db CrossRecord → Stage × Db CrossRecord
  unfolding insert_item change_item
  token_lock_pre_send_trans db =
      if inserts
      then (passed, insert_item (record r { status = lock_sending; lock_tx_hash = r.hash_x }) db)
      else change_item r.hash_x (λ y. record y { status = lock_sending; to_addr = r.to_addr }) db

  unfoldable pub token_lock_methods : Methods (Db CrossRecord) → Methods (Db CrossRecord)
  unfolding token_lock_pre_send_trans change_item
  token_lock_methods base = record base {
    pre_send_trans = token_lock_pre_send_trans;
    trans_failed = change_item r.hash_x (λ y. record y { status = lock_fail });
    post_send_trans = λ tx.
        change_item r.hash_x (λ y. record y {
          status = lock_sent;
          lock_tx_hash = tx;
          approve_zero_tx_hash = zero_hash;
        });
  }

-- The other stages of the three runs, and the allowance that the chain answers with, or the error of
-- the replies before. The record holds the fresh preimage and its hash, which the runs share; the
-- input has neither at first.
pub record Locking : Type 0 where
  pub allowance : Result ℕ
  pub item : CrossRecord
  pub zero_base : Methods (Db CrossRecord)
  pub approve_base : Methods (Db CrossRecord)
  pub lock_base : Methods (Db CrossRecord)
  pub try_times : ℕ

-- a run that ended without success before the lock, with the nonces that went back before it
abbrev pub after_holes : ℕ → Run (Db CrossRecord) → Run (Db CrossRecord)
after_holes n o = record o { holes = n + o.holes; rejected = false }

abbrev pub hash_text : Option String → String
hash_text none = ""
hash_text (some h) = h

module _ (l : Locking) where
  unfoldable pub lock_run : ℕ → String → Bool → Db CrossRecord → Run (Db CrossRecord)
  unfolding token_lock_methods
  lock_run n zero_hash inserts db =
      after_holes n (run (token_lock_methods l.item inserts zero_hash l.lock_base) l.try_times db)

  -- an exception of a run, or of reading its common data, is caught
  unfoldable pub approved : ℕ → String → Run (Db CrossRecord) → Run (Db CrossRecord)
  unfolding lock_run
  approved n zero_hash o =
      if o.code then lock_run (n + o.holes) zero_hash false o.state else after_holes n o

  -- `hash_x` is `input.hashX`, known from the approval of zero, if there was one
  unfoldable pub approve_run : ℕ → String → Option String → Db CrossRecord → Run (Db CrossRecord)
  unfolding approved approve_methods
  approve_run n zero_hash hash_x db =
      approved n zero_hash (run (approve_methods l.item false hash_x l.approve_base) l.try_times db)

  unfoldable pub zero_approved : Run (Db CrossRecord) → Run (Db CrossRecord)
  unfolding approve_run
  zero_approved o =
      if o.code
      then approve_run o.holes (hash_text o.hash) (some l.item.hash_x) o.state
      else after_holes 0 o

  unfoldable pub zero_run : Db CrossRecord → Run (Db CrossRecord)
  unfolding zero_approved approve_methods
  zero_run db = zero_approved (
      run (approve_methods (record l.item { contract_value = 0 }) true none l.zero_base) l.try_times
        db)

  abbrev pub unstarted : Db CrossRecord → Run (Db CrossRecord)
  unstarted db = record { code = false; rejected = false; state = db; holes = 0; hash = none }

  -- `test` is whether the input has `testOrNot`, which skips the approvals
  unfoldable pub approvals : Bool → Result ℕ → Db CrossRecord → Run (Db CrossRecord)
  unfolding zero_run approve_run lock_run
  approvals test (err e) db = unstarted db
  approvals true (ok n) db = lock_run 0 "" true db
  approvals false (ok n) db = if nat_beq n 0 then approve_run 0 "" none db else zero_run db

  unfoldable pub e20_lock : Bool → Db CrossRecord → Run (Db CrossRecord)
  unfolding approvals
  e20_lock test db = approvals test l.allowance db

  -- a lock on EOS itself inserts the record and needs no approval
  unfoldable pub eos_lock : Bool → Bool → Db CrossRecord → Run (Db CrossRecord)
  unfolding approvals
  eos_lock from_wan test db =
      if from_wan then approvals test l.allowance db else approvals true l.allowance db
