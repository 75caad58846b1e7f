-- ===== src/Cross/Window.antt =====
-- The time windows in which a crossing can be redeemed and in which it can be revoked.
use wanchain_js_sdk.Prelude.{ℕ, ◌+◌, ◌*◌, ◌≤◌, ◌<◌, ◌≡◌, true, false, some, arith}
use wanchain_js_sdk.Cross.{
  CrossRecord, LockTimes, lock_time, number, redeem_status, can_redeem, can_revoke,
}

-- The times that a lock leaves: the time-out of the HTLC is two lock times after the lock.
abbrev pub HasLockTimes : LockTimes → CrossRecord → ℕ → Type 0
HasLockTimes g r t =
    (r.locked_time ≡ some t) × (r.htlc_time_out ≡ some (t + 2 * lock_time g r.token_stand))

-- The times that the storeman's lock leaves: its time-out is one lock time after it.
abbrev pub HasBuddyTimes : LockTimes → CrossRecord → ℕ → Type 0
HasBuddyTimes g r t =
    (r.buddy_locked_time ≡ some t)
    × (r.buddy_locked_time_out ≡ some (t + lock_time g r.token_stand))

-- A record is redeemable exactly in one of four states and before the storeman's time-out.
pub can_redeem_iff :
    (now : ℕ) (r : CrossRecord)
    → ((can_redeem now r).code ≡ true
        → (redeem_status r.status ≡ true) × (now < number r.buddy_locked_time_out))
      × (redeem_status r.status ≡ true
          → now < number r.buddy_locked_time_out
          → (can_redeem now r).code ≡ true)
unfolding can_redeem
can_redeem_iff now r = (λ h. ground arith, λ h k. ground arith)

-- No record can be redeemed and revoked at the same time, if the storeman locked at most one lock
-- time after the user did.
pub redeem_revoke_disjoint :
    (g : LockTimes) (r : CrossRecord) (t b now : ℕ)
    → HasLockTimes g r t
    → HasBuddyTimes g r b
    → b ≤ t + lock_time g r.token_stand
    → (can_redeem now r).code ≡ true
    → (can_revoke now r).code ≡ false
unfolding can_redeem can_revoke
redeem_revoke_disjoint g r t b now l k h p = ground arith

-- Once the time-out of the HTLC has passed, every state that `can_redeem` accepts can be revoked.
pub revocable_after_timeout :
    (now : ℕ) (r : CrossRecord)
    → redeem_status r.status ≡ true
    → number r.htlc_time_out < now
    → (can_revoke now r).code ≡ true
unfolding can_revoke redeem_status
revocable_after_timeout now r s h = ground arith
