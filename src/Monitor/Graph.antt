-- ===== src/Monitor/Graph.antt =====
-- The steps that the monitor can make with the status of a record.
use wanchain_js_sdk.Prelude.{◌≡◌, ◌⊎◌, inl, inr, refl, Option, arith}
use wanchain_js_sdk.Cross.{
  Status, approve_sent, approved, approve_zero_sent, approved_zero, lock_fail, lock_sent, locked,
  buddy_locked, redeem_fail, redeem_sent, redeemed, revoke_fail, revoke_sent, revoked, CrossRecord,
}
use wanchain_js_sdk.Monitor.Replies.{Env, Receipt, Outcome}
use wanchain_js_sdk.Monitor.Buddy.{wait_buddy_lock_confirm}
use wanchain_js_sdk.Monitor.{
  wait_approve_confirm, wait_approve_zero_confirm, wait_lock_confirm, wait_redeem_confirm,
  redeem_failed, wait_revoke_confirm, revoke_failed, dispatch, monitor_record,
}

infix 40 ◌⟶◌
pub data ◌⟶◌ : Status → Status → Type 0 where
  stay : {s : Status} → s ⟶ s
  approve_mined : approve_sent ⟶ approved
  approve_zero_mined : approve_zero_sent ⟶ approved_zero
  lock_mined : lock_sent ⟶ locked
  lock_reverted : lock_sent ⟶ lock_fail
  storeman_locked : locked ⟶ buddy_locked
  redeem_mined : redeem_sent ⟶ redeemed
  redeem_reverted : redeem_sent ⟶ redeem_fail
  revoke_mined : revoke_sent ⟶ revoked
  revoke_reverted : revoke_sent ⟶ revoke_fail

-- What a handler may make of the status: it keeps it, or it sets one of two.
abbrev Sets : Status → Status → CrossRecord → Outcome → Type 0
Sets a b r o = (o.item.status ≡ r.status) ⊎ (o.item.status ≡ a) ⊎ (o.item.status ≡ b)

module _ (env : Env) (r : CrossRecord) where
  approve-Sets : Sets approved approved r (wait_approve_confirm env r)
  unfolding wait_approve_confirm
  approve-Sets = ground arith

  approve_zero-Sets : Sets approved_zero approved_zero r (wait_approve_zero_confirm env r)
  unfolding wait_approve_zero_confirm
  approve_zero-Sets = ground arith

  lock-Sets : Sets locked lock_fail r (wait_lock_confirm env r)
  unfolding wait_lock_confirm
  lock-Sets = ground arith

  redeem_failed-Sets :
      (rc : Receipt) (o : Outcome)
      → (redeem_failed env rc o).item.status ≡ o.item.status
        ⊎ (redeem_failed env rc o).item.status ≡ redeemed
        ⊎ (redeem_failed env rc o).item.status ≡ redeem_fail
  unfolding redeem_failed
  redeem_failed-Sets rc o = ground arith

  revoke_failed-Sets :
      (rc : Receipt) (o : Outcome)
      → (revoke_failed env rc o).item.status ≡ o.item.status
        ⊎ (revoke_failed env rc o).item.status ≡ revoked
        ⊎ (revoke_failed env rc o).item.status ≡ revoke_fail
  unfolding revoke_failed
  revoke_failed-Sets rc o = ground arith

  redeem-Sets : Sets redeemed redeem_fail r (wait_redeem_confirm env r)
  unfolding wait_redeem_confirm
  redeem-Sets = grind (arith, redeem_failed-Sets)

  revoke-Sets : Sets revoked revoke_fail r (wait_revoke_confirm env r)
  unfolding wait_revoke_confirm
  revoke-Sets = grind (arith, revoke_failed-Sets)

  buddy-Sets :
      (current : Option Status)
      → Sets buddy_locked buddy_locked r (wait_buddy_lock_confirm env current r)
  unfolding wait_buddy_lock_confirm
  buddy-Sets current = ground arith

-- A status that was kept, or set along one of two edges.
edge_of : {a b r s t : Status} → (t ≡ r) ⊎ (t ≡ a) ⊎ (t ≡ b) → r ≡ s → s ⟶ a → s ⟶ b → s ⟶ t
edge_of (inl kept) h p q = rw (kept, h) stay
edge_of (inr (inl first)) h p q = rw first p
edge_of (inr (inr second)) h p q = rw second q

dispatch-⟶ :
    (s : Status) (env : Env) (current : Option Status) (r : CrossRecord)
    → r.status ≡ s
    → s ⟶ (dispatch s env current r).item.status
unfolding dispatch
dispatch-⟶ approve_sent env current r h = edge_of (approve-Sets env r) h approve_mined approve_mined
dispatch-⟶ approve_zero_sent env current r h =
    edge_of (approve_zero-Sets env r) h approve_zero_mined approve_zero_mined
dispatch-⟶ lock_sent env current r h = edge_of (lock-Sets env r) h lock_mined lock_reverted
dispatch-⟶ locked env current r h =
    edge_of (buddy-Sets env r current) h storeman_locked storeman_locked
dispatch-⟶ redeem_sent env current r h = edge_of (redeem-Sets env r) h redeem_mined redeem_reverted
dispatch-⟶ revoke_sent env current r h = edge_of (revoke-Sets env r) h revoke_mined revoke_reverted
dispatch-⟶ _ env current r h = rw h stay

-- Whatever the chains answer, `monitor_record` moves the status of a record along an edge of the
-- diagram, or leaves it.
pub monitor_record-⟶ :
    (env : Env) (current : Option Status) (r : CrossRecord)
    → r.status ⟶ (monitor_record env current r).item.status
unfolding monitor_record
monitor_record-⟶ env current r = dispatch-⟶ r.status env current r refl
