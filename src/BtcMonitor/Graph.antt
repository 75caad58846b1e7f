-- ===== src/BtcMonitor/Graph.antt =====
-- The steps that the monitor of BTC can make with the status of a record.
use wanchain_js_sdk.Prelude.{◌≡◌, ◌⊎◌, inl, inr, refl, arith}
use wanchain_js_sdk.Cross.{
  Status, lock_sending, lock_sent, locked, buddy_locked, redeem_sending, redeem_sent,
  redeem_send_fail, redeemed, revoke_sending, revoke_sent, revoke_send_fail, revoked,
  sent_hash_failed,
}
use wanchain_js_sdk.BtcMonitor.Replies.{BtcRecord, BtcEnv, Outcome}
use wanchain_js_sdk.BtcMonitor.Online.{check_cross_hash_online}
use wanchain_js_sdk.BtcMonitor.{
  check_hash_receipt_online_btc, check_hash_receipt_online_wan, check_hash_confirm_btc,
  check_hash_confirm_wan, check_locked, check_revoke_online_btc, check_revoke_online_wan,
  check_revoke_confirm, check_x_online_wan, check_x_online_btc, check_x_confirm, storeman_online,
  check_cross_hash_confirm_deposit, check_cross_hash_confirm_withdraw, dispatch, monitor_record,
}

infix 40 ◌↝◌
pub data ◌↝◌ : Status → Status → Type 0 where
  stay : {s : Status} → s ↝ s
  lock_seen : lock_sending ↝ lock_sent
  lock_reverted : lock_sending ↝ sent_hash_failed
  lock_counted : lock_sent ↝ locked
  storeman_counted : locked ↝ buddy_locked
  refund_pending : locked ↝ redeem_sending
  refund_seen : redeem_sending ↝ redeem_sent
  refund_reverted : redeem_sending ↝ redeem_send_fail
  refund_counted : redeem_sent ↝ redeemed
  revoke_seen : revoke_sending ↝ revoke_sent
  revoke_reverted : revoke_sending ↝ revoke_send_fail
  revoke_counted : revoke_sent ↝ revoked

-- What a handler may make of a record: it keeps the chain, and it keeps the status or sets one of
-- two.
abbrev Sets : Status → Status → BtcRecord → Outcome → Type 0
Sets a b r o =
    ((o.item.status ≡ r.status) ⊎ (o.item.status ≡ a) ⊎ (o.item.status ≡ b))
    × (o.item.chain ≡ r.chain)

edge_of : {a b r s t : Status} → (t ≡ r) ⊎ (t ≡ a) ⊎ (t ≡ b) → r ≡ s → s ↝ a → s ↝ b → s ↝ t
edge_of (inl kept) h p q = rw (kept, h) stay
edge_of (inr (inl first)) h p q = rw first p
edge_of (inr (inr second)) h p q = rw second q

module _ (env : BtcEnv) (r : BtcRecord) where
  lock_sending-Sets : Sets lock_sent sent_hash_failed r (dispatch lock_sending env r)
  unfolding dispatch check_hash_receipt_online_btc check_hash_receipt_online_wan
  lock_sending-Sets = (ground arith, ground arith)

  lock_sent-Sets : Sets locked locked r (dispatch lock_sent env r)
  unfolding dispatch check_hash_confirm_btc check_hash_confirm_wan
  lock_sent-Sets = (ground arith, ground arith)

  pub online-keeps :
      ((check_cross_hash_online env r).item.status ≡ r.status)
      × ((check_cross_hash_online env r).item.chain ≡ r.chain)
  unfolding check_cross_hash_online
  online-keeps = (ground arith, ground arith)

  storeman_online-Sets : Sets buddy_locked redeem_sending r (storeman_online env r)
  unfolding storeman_online check_cross_hash_confirm_deposit check_cross_hash_confirm_withdraw
  storeman_online-Sets = (ground arith, ground arith)

  revoke_sending-Sets : Sets revoke_sent revoke_send_fail r (dispatch revoke_sending env r)
  unfolding dispatch check_revoke_online_btc check_revoke_online_wan
  revoke_sending-Sets = (ground arith, ground arith)

  revoke_sent-Sets : Sets revoked revoked r (dispatch revoke_sent env r)
  unfolding dispatch check_revoke_confirm
  revoke_sent-Sets = (ground arith, ground arith)

  redeem_sending-Sets : Sets redeem_sent redeem_send_fail r (dispatch redeem_sending env r)
  unfolding dispatch check_x_online_wan check_x_online_btc
  redeem_sending-Sets = (ground arith, ground arith)

  redeem_sent-Sets : Sets redeemed redeemed r (dispatch redeem_sent env r)
  unfolding dispatch check_x_confirm
  redeem_sent-Sets = (ground arith, ground arith)

locked-Sets :
    (env : BtcEnv) (r : BtcRecord) → Sets buddy_locked redeem_sending r (check_locked env r)
unfolding check_locked
locked-Sets env r =
    let (status, chain) = online-keeps env r in
    let (set, kept) = storeman_online-Sets env (check_cross_hash_online env r).item in
    (ground (arith, status, set), ground (arith, chain, kept))

dispatch-↝ :
    (s : Status) (env : BtcEnv) (r : BtcRecord) → r.status ≡ s → s ↝ (dispatch s env r).item.status
unfolding dispatch
dispatch-↝ lock_sending env r h = edge_of (lock_sending-Sets env r).0 h lock_seen lock_reverted
dispatch-↝ lock_sent env r h = edge_of (lock_sent-Sets env r).0 h lock_counted lock_counted
dispatch-↝ locked env r h = edge_of (locked-Sets env r).0 h storeman_counted refund_pending
dispatch-↝ redeem_sending env r h =
    edge_of (redeem_sending-Sets env r).0 h refund_seen refund_reverted
dispatch-↝ redeem_sent env r h = edge_of (redeem_sent-Sets env r).0 h refund_counted refund_counted
dispatch-↝ revoke_sending env r h =
    edge_of (revoke_sending-Sets env r).0 h revoke_seen revoke_reverted
dispatch-↝ revoke_sent env r h = edge_of (revoke_sent-Sets env r).0 h revoke_counted revoke_counted
dispatch-↝ _ env r h = rw h stay

-- Whatever the chains answer, the monitor of BTC moves the status of a record along an edge of the
-- diagram, or leaves it.
pub monitor_record-↝ :
    (env : BtcEnv) (r : BtcRecord) → r.status ↝ (monitor_record env r).item.status
unfolding monitor_record
monitor_record-↝ env r = dispatch-↝ r.status env r refl

dispatch-chain :
    (s : Status) (env : BtcEnv) (r : BtcRecord) → (dispatch s env r).item.chain ≡ r.chain
unfolding dispatch
dispatch-chain lock_sending env r = (lock_sending-Sets env r).1
dispatch-chain lock_sent env r = (lock_sent-Sets env r).1
dispatch-chain locked env r = (locked-Sets env r).1
dispatch-chain redeem_sending env r = (redeem_sending-Sets env r).1
dispatch-chain redeem_sent env r = (redeem_sent-Sets env r).1
dispatch-chain revoke_sending env r = (revoke_sending-Sets env r).1
dispatch-chain revoke_sent env r = (revoke_sent-Sets env r).1
dispatch-chain _ env r = refl

pub monitor_record-chain :
    (env : BtcEnv) (r : BtcRecord) → (monitor_record env r).item.chain ≡ r.chain
unfolding monitor_record
monitor_record-chain env r = dispatch-chain r.status env r
