-- ===== src/Monitor.antt =====
-- src/core/monitor.js: the handlers that watch a cross-chain record, and `monitorRecord`, which
-- calls the one for the record's status. A handler is a function of its record, which is a live
-- reference into the database, and of the replies that it awaits.
pub mod Replies
pub mod CrossType
pub mod Buddy
pub mod Graph
pub mod Locking
pub mod Failures
pub mod Round
mod Examples
use wanchain_js_sdk.Prelude.{String, ◌+◌, ◌*◌, Option, none, some, if◌then◌else◌}
use wanchain_js_sdk.Prelude.Result.{Result, ok, err}
use wanchain_js_sdk.Cross.{
  Status, approve_sent, approved, approve_zero_sent, approved_zero, lock_fail, lock_sent, locked,
  redeem_fail, redeem_sent, redeemed, revoke_fail, revoke_sent, revoked, CrossRecord, lock_time,
}
use wanchain_js_sdk.Monitor.Replies.{
  Env, Receipt, Log, redeem, revoke, Outcome, unchanged, written, mined, confirmed, block_of,
  receipt_fail,
}
use wanchain_js_sdk.Monitor.CrossType.{event_of}
use wanchain_js_sdk.Monitor.Buddy.{wait_buddy_lock_confirm}

-- the second test of `waitLockConfirm`
lock_failed : Receipt → Outcome → Outcome
unfolding receipt_fail
lock_failed rc o =
    if receipt_fail rc o.item
    then record { item = record o.item { status = lock_fail }; writes = o.writes + 1 }
    else o

-- `waitLockConfirm`: the block is awaited before the record changes
lock_confirmed : Env → Receipt → CrossRecord → Outcome
unfolding lock_failed
lock_confirmed env rc r =
    elim (env.net.block_time (block_of r.src_chain_type rc) r.src_chain_type) [
      | err e ↦ unchanged r
      | ok t ↦ lock_failed rc (
          written (record r {
            locked_time = some t;
            htlc_time_out = some (t + 2 * lock_time env.times r.token_stand);
            status = locked;
          }))
    ]

lock_receipt : Env → Option Receipt → CrossRecord → Outcome
unfolding confirmed block_of lock_time lock_confirmed
lock_receipt env none r = unchanged r
lock_receipt env (some rc) r = elim (confirmed r.src_chain_type rc) [
  | err e ↦ unchanged r
  | ok b ↦ if b then lock_confirmed env rc r else lock_failed rc (unchanged r)
]

unfoldable pub wait_lock_confirm : Env → CrossRecord → Outcome
unfolding lock_receipt
wait_lock_confirm env r =
    elim (env.net.wait_confirm r.lock_tx_hash env.confirm_blocks r.src_chain_type) [
      | err e ↦ unchanged r
      | ok receipt ↦ lock_receipt env receipt r
    ]

abbrev tx_hash_or : Option String → String → String
tx_hash_or none old = old
tx_hash_or (some h) old = h

-- the answer of `getRedeemEvent` after a failed receipt
redeem_event : Result (Option Log) → Outcome → Outcome
redeem_event (err e) o = o
redeem_event (ok none) o = record {
  item = record o.item { status = redeem_fail };
  writes = o.writes + 1;
}
redeem_event (ok (some evt)) o = record {
  item = record o.item {
    redeem_tx_hash = tx_hash_or evt.transaction_hash o.item.redeem_tx_hash;
    status = redeemed;
  };
  writes = o.writes + 1;
}

unfoldable pub redeem_failed : Env → Receipt → Outcome → Outcome
unfolding receipt_fail redeem_event
redeem_failed env rc o =
    if receipt_fail rc o.item then redeem_event (event_of redeem env o.item) o else o

redeem_receipt : Env → Option Receipt → CrossRecord → Outcome
unfolding confirmed
redeem_receipt env none r = unchanged r
redeem_receipt env (some rc) r = elim (confirmed r.dst_chain_type rc) [
  | err e ↦ unchanged r
  | ok b ↦
      redeem_failed env rc (if b then written (record r { status = redeemed }) else unchanged r)
]

unfoldable pub wait_redeem_confirm : Env → CrossRecord → Outcome
unfolding redeem_receipt
wait_redeem_confirm env r =
    elim (env.net.wait_confirm r.redeem_tx_hash env.confirm_blocks r.dst_chain_type) [
      | err e ↦ unchanged r
      | ok receipt ↦ redeem_receipt env receipt r
    ]

revoke_event : Result (Option Log) → Outcome → Outcome
revoke_event (err e) o = o
revoke_event (ok none) o = record {
  item = record o.item { status = revoke_fail };
  writes = o.writes + 1;
}
revoke_event (ok (some evt)) o = record {
  item = record o.item {
    revoke_tx_hash = tx_hash_or evt.transaction_hash o.item.revoke_tx_hash;
    status = revoked;
  };
  writes = o.writes + 1;
}

unfoldable pub revoke_failed : Env → Receipt → Outcome → Outcome
unfolding receipt_fail revoke_event
revoke_failed env rc o =
    if receipt_fail rc o.item then revoke_event (event_of revoke env o.item) o else o

revoke_receipt : Env → Option Receipt → CrossRecord → Outcome
unfolding confirmed
revoke_receipt env none r = unchanged r
revoke_receipt env (some rc) r = elim (confirmed r.src_chain_type rc) [
  | err e ↦ unchanged r
  | ok b ↦ revoke_failed env rc (if b then written (record r { status = revoked }) else unchanged r)
]

unfoldable pub wait_revoke_confirm : Env → CrossRecord → Outcome
unfolding revoke_receipt
wait_revoke_confirm env r =
    elim (env.net.wait_confirm r.revoke_tx_hash env.confirm_blocks r.src_chain_type) [
      | err e ↦ unchanged r
      | ok receipt ↦ revoke_receipt env receipt r
    ]

abbrev when_mined : Option Receipt → Status → CrossRecord → Outcome
when_mined none s r = unchanged r
when_mined (some rc) s r = if mined rc then written (record r { status = s }) else unchanged r

unfoldable pub wait_approve_confirm : Env → CrossRecord → Outcome
unfolding mined
wait_approve_confirm env r =
    elim (env.net.wait_confirm r.approve_tx_hash env.confirm_blocks r.src_chain_type) [
      | err e ↦ unchanged r
      | ok receipt ↦ when_mined receipt approved r
    ]

unfoldable pub wait_approve_zero_confirm : Env → CrossRecord → Outcome
unfolding mined
wait_approve_zero_confirm env r =
    elim (env.net.wait_confirm r.approve_zero_tx_hash env.confirm_blocks r.src_chain_type) [
      | err e ↦ unchanged r
      | ok receipt ↦ when_mined receipt approved_zero r
    ]

-- the `switch` of `monitorRecord`; the last clause is for all cases that only `break`
dispatch : Status → Env → Option Status → CrossRecord → Outcome
unfolding wait_approve_confirm wait_approve_zero_confirm wait_lock_confirm wait_buddy_lock_confirm
    wait_redeem_confirm wait_revoke_confirm
dispatch approve_sent env current r = wait_approve_confirm env r
dispatch approve_zero_sent env current r = wait_approve_zero_confirm env r
dispatch lock_sent env current r = wait_lock_confirm env r
dispatch locked env current r = wait_buddy_lock_confirm env current r
dispatch redeem_sent env current r = wait_redeem_confirm env r
dispatch revoke_sent env current r = wait_revoke_confirm env r
dispatch _ env current r = unchanged r

unfoldable pub monitor_record : Env → Option Status → CrossRecord → Outcome
unfolding dispatch
monitor_record env current r = dispatch r.status env current r
