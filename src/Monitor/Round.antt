-- ===== src/Monitor/Round.antt =====
-- `monitorTask` of src/core/monitor.js: one round over the records that are not final. The handlers
-- run side by side, each on its own record.
use wanchain_js_sdk.Prelude.{
  Bool, true, false, some, List, [], ◌∷◌, map, if◌then◌else◌, Bool-cases, inl, inr,
}
use wanchain_js_sdk.Cross.{
  Status, redeemed, revoked, lock_sent, locked, lock_fail, buddy_locked, CrossRecord,
}
use wanchain_js_sdk.Monitor.Replies.{Env}
use wanchain_js_sdk.Monitor.Graph.{
  ◌⟶◌, stay, approve_mined, approve_zero_mined, lock_mined, lock_reverted, storeman_locked,
  redeem_mined, redeem_reverted, revoke_mined, revoke_reverted, monitor_record-⟶,
}
use wanchain_js_sdk.Monitor.{monitor_record}

abbrev pub is_final : Status → Bool
is_final redeemed = true
is_final revoked = true
is_final _ = false

-- One record in a round: `filterNotContains` leaves out the final ones, and the status that
-- `waitBuddyLockConfirm` finds again is the record's own, as long as nobody else writes.
unfoldable pub visit : (CrossRecord → Env) → CrossRecord → CrossRecord
visit env_of r = if is_final r.status then r else (monitor_record (env_of r) (some r.status) r).item

-- `done` is `self.done`, which ends the loop
unfoldable pub monitor_task : Bool → (CrossRecord → Env) → List CrossRecord → List CrossRecord
unfolding visit
monitor_task done env_of records = if done then records else map (visit env_of) records

-- rounds, each with its own replies
unfoldable pub rounds : List (CrossRecord → Env) → CrossRecord → CrossRecord
rounds [] r = r
rounds (env_of ∷ more) r = rounds more (visit env_of r)

visit-⟶ : (env_of : CrossRecord → Env) (r : CrossRecord) → r.status ⟶ (visit env_of r).status
unfolding visit
visit-⟶ env_of r = elim (Bool-cases (is_final r.status)) [
  | inl h ↦ rw h stay
  | inr h ↦ rw h (monitor_record-⟶ (env_of r) (some r.status) r)
]

-- where a lock can go
pub data Locks : Status → Type 0 where
  sent : Locks lock_sent
  failed : Locks lock_fail
  mined : Locks locked
  both : Locks buddy_locked

Locks-⟶ : {s t : Status} → s ⟶ t → Locks s → Locks t
Locks-⟶ stay l = l
Locks-⟶ lock_mined l = mined
Locks-⟶ lock_reverted l = failed
Locks-⟶ storeman_locked l = both
Locks-⟶ approve_mined l = elim l [ ]
Locks-⟶ approve_zero_mined l = elim l [ ]
Locks-⟶ redeem_mined l = elim l [ ]
Locks-⟶ redeem_reverted l = elim l [ ]
Locks-⟶ revoke_mined l = elim l [ ]
Locks-⟶ revoke_reverted l = elim l [ ]

-- Left to the monitor, a crossing whose lock was sent is never redeemed or revoked: after any
-- rounds, whatever the chains answered, its lock is sent, failed, mined, or met by the storeman's.
pub rounds-Locks :
    (envs : List (CrossRecord → Env)) (r : CrossRecord)
    → Locks r.status
    → Locks (rounds envs r).status
unfolding rounds
rounds-Locks [] r l = l
rounds-Locks (env_of ∷ more) r l = rounds-Locks more (visit env_of r) (Locks-⟶ (visit-⟶ env_of r) l)
