-- ===== src/Monitor/Locking.antt =====
-- The times that the monitor writes when it sees the two locks of a crossing.
use wanchain_js_sdk.Prelude.{
  ℕ, String, ◌+◌, ◌*◌, ◌≤◌, ◌≡◌, ◌≢◌, true, false, Option, some, sym, ap, ◌∙◌, arith,
}
use wanchain_js_sdk.Prelude.Result.{ok}
use wanchain_js_sdk.Cross.{
  Status, locked, buddy_locked, lock_sent, CrossRecord, lock_time, number, can_redeem, can_revoke,
}
use wanchain_js_sdk.Cross.Window.{redeem_revoke_disjoint}
use wanchain_js_sdk.Monitor.Replies.{Env, Receipt, confirmed, block_of, receipt_fail}
use wanchain_js_sdk.Monitor.Buddy.{wait_buddy_lock_confirm}
use wanchain_js_sdk.Monitor.{dispatch, wait_lock_confirm, monitor_record}

-- A receipt that confirms a transaction on either chain of a record is no failure.
pub confirmed-not-fail_src :
    (rc : Receipt) (r : CrossRecord)
    → confirmed r.src_chain_type rc ≡ ok true
    → receipt_fail rc r ≡ false
unfolding confirmed receipt_fail
confirmed-not-fail_src rc r h = ground arith

pub confirmed-not-fail_dst :
    (rc : Receipt) (r : CrossRecord)
    → confirmed r.dst_chain_type rc ≡ ok true
    → receipt_fail rc r ≡ false
unfolding confirmed receipt_fail
confirmed-not-fail_dst rc r h = ground arith

module _ (env : Env) (r : CrossRecord) where
  -- The record after a lock at time `t`.
  abbrev pub locked_at : ℕ → CrossRecord
  locked_at t = record r {
    locked_time = some t;
    htlc_time_out = some (t + 2 * lock_time env.times r.token_stand);
    status = locked;
  }

  -- The receipt of the lock confirms it, and the block's time is known: the record is locked,
  -- with both times, and is written once.
  pub lock_mined_lem :
      (rc : Receipt) (t : ℕ)
      → env.net.wait_confirm r.lock_tx_hash env.confirm_blocks r.src_chain_type ≡ ok (some rc)
      → confirmed r.src_chain_type rc ≡ ok true
      → env.net.block_time (block_of r.src_chain_type rc) r.src_chain_type ≡ ok t
      → wait_lock_confirm env r ≡ record { item = locked_at t; writes = 1 }
  unfolding wait_lock_confirm
  lock_mined_lem rc t h k b = ground (arith, confirmed-not-fail_src rc (locked_at t) k)

  -- If the wait for a sent lock leaves the record locked, the record has the time of the lock and a
  -- time-out two lock times later, and was written exactly once.
  pub locked-HasLockTimes :
      r.status ≡ lock_sent
      → (wait_lock_confirm env r).item.status ≡ locked
      → (t : ℕ) × (wait_lock_confirm env r ≡ record { item = locked_at t; writes = 1 })
  unfolding wait_lock_confirm
  locked-HasLockTimes s h = (number (wait_lock_confirm env r).item.locked_time, ground arith)

  -- The record after the storeman's lock of transaction `tx` at time `t`.
  abbrev pub buddy_locked_record : String → ℕ → CrossRecord
  buddy_locked_record tx t = record r {
    status = buddy_locked;
    buddy_locked_time = some t;
    buddy_lock_tx_hash = tx;
    buddy_locked_time_out = some (t + lock_time env.times r.token_stand);
  }

  -- A storeman's lock that the monitor writes has its times, and was seen while the database still
  -- held the record as locked.
  pub written-HasBuddyTimes :
      (current : Option Status)
      → (wait_buddy_lock_confirm env current r).writes ≡ 1
      → (current ≡ some locked)
        × (tx : String) × (t : ℕ) × (wait_buddy_lock_confirm env current r
            ≡ record { item = buddy_locked_record tx t; writes = 1 })
  unfolding wait_buddy_lock_confirm
  written-HasBuddyTimes current h =
      let o = wait_buddy_lock_confirm env current r in
      (ground arith, o.item.buddy_lock_tx_hash, number o.item.buddy_locked_time, ground arith)

  -- If the user has meanwhile moved the record on, the monitor leaves it alone.
  pub moved_on-unchanged :
      (s : Status)
      → s ≢ locked
      → wait_buddy_lock_confirm env (some s) r ≡ record { item = r; writes = 0 }
  unfolding wait_buddy_lock_confirm
  moved_on-unchanged s h = ground arith

module _ (env : Env) (current : Option Status) (r : CrossRecord) where
  monitor-lock_sent : r.status ≡ lock_sent → monitor_record env current r ≡ wait_lock_confirm env r
  unfolding monitor_record dispatch
  monitor-lock_sent h = ap (λ s. dispatch s env current r) h

  monitor-locked :
      r.status ≡ locked → monitor_record env current r ≡ wait_buddy_lock_confirm env current r
  unfolding monitor_record dispatch
  monitor-locked h = ap (λ s. dispatch s env current r) h

two_locks_disjoint :
    (env env' : Env) (r r₁ r₂ : CrossRecord) (t b now : ℕ) (tx : String)
    → env.times ≡ env'.times
    → r₁ ≡ locked_at env r t
    → r₂ ≡ buddy_locked_record env' r₁ tx b
    → number r₂.buddy_locked_time ≤ number r₁.locked_time + lock_time env.times r.token_stand
    → (can_redeem now r₂).code ≡ true
    → (can_revoke now r₂).code ≡ false
two_locks_disjoint env env' r r₁ r₂ t b now tx g p q h k =
    redeem_revoke_disjoint env.times r₂ t b now (ground arith) (ground arith) (ground arith) k

-- A crossing that the monitor has followed through both locks can at no time be redeemed and
-- revoked, if the storeman's block came at most one lock time after the user's.
pub followed_disjoint :
    (env env' : Env) (current current' : Option Status) (r r₁ r₂ : CrossRecord) (now : ℕ)
    → env.times ≡ env'.times
    → r.status ≡ lock_sent
    → monitor_record env current r ≡ record { item = r₁; writes = 1 }
    → r₁.status ≡ locked
    → monitor_record env' current' r₁ ≡ record { item = r₂; writes = 1 }
    → number r₂.buddy_locked_time ≤ number r₁.locked_time + lock_time env.times r.token_stand
    → (can_redeem now r₂).code ≡ true
    → (can_revoke now r₂).code ≡ false
followed_disjoint env env' current current' r r₁ r₂ now g s m l m' p k =
    let first : wait_lock_confirm env r ≡ record { item = r₁; writes = 1 } =
      sym (monitor-lock_sent env current r s) ∙ m in
    let (t, lock) = locked-HasLockTimes env r s (ap (λ o. o.item.status) first ∙ l) in
    let second : wait_buddy_lock_confirm env' current' r₁ ≡ record { item = r₂; writes = 1 } =
      sym (monitor-locked env' current' r₁ l) ∙ m' in
    let (was_locked, tx, b, buddy) =
      written-HasBuddyTimes env' r₁ current' (ap (λ o. o.writes) second) in
    let r₁_eq : r₁ ≡ locked_at env r t = ap (λ o. o.item) (sym first ∙ lock) in
    let r₂_eq : r₂ ≡ buddy_locked_record env' r₁ tx b = ap (λ o. o.item) (sym second ∙ buddy) in
    two_locks_disjoint env env' r r₁ r₂ t b now tx g r₁_eq r₂_eq p k
