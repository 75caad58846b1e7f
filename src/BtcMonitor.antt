-- ===== src/BtcMonitor.antt =====
-- src/core/monitorBtc.js: the handlers that watch a crossing of BTC, and `monitorRecord`. Every
-- handler catches its own exceptions, and keeps what it has changed before one.
pub mod Replies
pub mod Online
pub mod Graph
pub mod Counting
pub mod Handling
pub mod Handled
mod Examples
use Prim.Native.String.{◌++◌}
use wanchain_js_sdk.Prelude.{
  ℕ, String, ◌+◌, Bool, not, Option, none, some, ltb, leb, str_eq, if◌then◌else◌,
}
use wanchain_js_sdk.Prelude.Result.{Result, ok, err}
use wanchain_js_sdk.Cross.{
  Status, lock_sending, lock_sent, locked, buddy_locked, redeem_sending, redeem_sent,
  redeem_send_fail, redeemed, revoke_sending, revoke_sent, revoke_send_fail, revoked,
  sent_hash_failed,
}
use wanchain_js_sdk.Monitor.Replies.{Receipt, is_text}
use wanchain_js_sdk.BtcMonitor.Replies.{
  BtcRecord, BtcEnv, is_btc, reply_of, btc_confirmed, Outcome, unchanged, written,
}
use wanchain_js_sdk.BtcMonitor.Online.{check_cross_hash_online}

-- the blocks that are waited for: as many as rounds were counted, and at most `n`
abbrev pub wait_block : ℕ → ℕ → ℕ
wait_block counted n = if ltb counted n then counted else n

abbrev set_status : Bool → Status → Status → Status
set_status reached s old = if reached then s else old

module _ (env : BtcEnv) (r : BtcRecord) where
  unfoldable pub check_x_online_btc : Outcome
  unfolding btc_confirmed
  check_x_online_btc =
      if btc_confirmed 0 (env.btc_transaction r.btc_refund_tx_hash)
      then written (record r { status = redeem_sent })
      else unchanged r

  unfoldable pub check_revoke_online_btc : Outcome
  unfolding btc_confirmed
  check_revoke_online_btc =
      if btc_confirmed 1 (env.btc_transaction r.btc_revoke_tx_hash)
      then written (record r { status = revoke_sent })
      else unchanged r

  unfoldable pub check_hash_confirm_wan : Outcome
  check_hash_confirm_wan =
      elim (reply_of (
        env.wait_confirm ("0x" ++ r.lock_tx_hash)
          (wait_block r.lock_confirmed env.confirm_blocks))) [
            | none ↦ unchanged r
            | some rc ↦ written (record r {
              lock_confirmed = r.lock_confirmed + 1;
              status = set_status (leb env.confirm_blocks (r.lock_confirmed + 1)) locked r.status;
            })
          ]

  unfoldable pub check_x_online_wan : Outcome
  check_x_online_wan = elim (reply_of (env.wait_confirm ("0x" ++ r.refund_tx_hash) 0)) [
    | none ↦ unchanged r
    | some rc ↦
        written
          (record r { status = set_status (is_text "0x1" rc.status) redeem_sent redeem_send_fail })
  ]

  unfoldable pub check_revoke_online_wan : Outcome
  check_revoke_online_wan = elim (reply_of (env.wait_confirm ("0x" ++ r.revoke_tx_hash) 0)) [
    | none ↦ unchanged r
    | some rc ↦
        written
          (record r { status = set_status (is_text "0x1" rc.status) revoke_sent revoke_send_fail })
  ]

  unfoldable pub check_hash_confirm_btc : Outcome
  unfolding btc_confirmed
  check_hash_confirm_btc =
      if btc_confirmed env.btc_confirm_blocks (env.btc_transaction r.btc_lock_tx_hash)
      then written (record r { status = locked })
      else unchanged r

  -- the receipt of the lock: the block is awaited before the record changes
  lock_receipt : Receipt → Outcome
  lock_receipt rc =
      if is_text "0x1" rc.status
      then (elim (env.block_time rc.block_number) [
        | err e ↦ unchanged r
        | ok t ↦ written (record r { time = t; status = lock_sent })
      ])
      else written (record r { status = sent_hash_failed })

  unfoldable pub check_hash_receipt_online_wan : Outcome
  unfolding lock_receipt
  check_hash_receipt_online_wan = elim (reply_of (env.wait_confirm ("0x" ++ r.lock_tx_hash) 0)) [
    | none ↦ unchanged r
    | some rc ↦ lock_receipt rc
  ]

  unfoldable pub check_hash_receipt_online_btc : Outcome
  check_hash_receipt_online_btc = elim (reply_of (env.btc_transaction r.btc_lock_tx_hash)) [
    | none ↦ unchanged r
    | some tx ↦ written (record r { status = lock_sent })
  ]

  unfoldable pub check_x_confirm : Outcome
  unfolding btc_confirmed
  check_x_confirm =
      if is_btc r.chain
      then (elim (reply_of (
          env.wait_confirm ("0x" ++ r.refund_tx_hash)
            (wait_block r.refund_confirmed env.confirm_blocks))) [
              | none ↦ unchanged r
              | some rc ↦ written (record r {
                refund_confirmed = r.refund_confirmed + 1;
                status =
                    set_status (leb env.confirm_blocks (r.refund_confirmed + 1)) redeemed r.status;
              })
            ])
      else if btc_confirmed env.btc_confirm_blocks (env.btc_transaction r.btc_refund_tx_hash)
      then written (record r { status = redeemed })
      else unchanged r

  unfoldable pub check_revoke_confirm : Outcome
  unfolding btc_confirmed
  check_revoke_confirm =
      if is_btc r.chain
      then (if btc_confirmed env.btc_confirm_blocks (env.btc_transaction r.btc_revoke_tx_hash)
          then written (record r { status = revoked })
          else unchanged r)
      else elim (reply_of (
          env.wait_confirm ("0x" ++ r.revoke_tx_hash)
            (wait_block r.revoke_confirmed env.confirm_blocks))) [
              | none ↦ unchanged r
              | some rc ↦ written (record r {
                revoke_confirmed = r.revoke_confirmed + 1;
                status =
                    set_status (leb env.confirm_blocks (r.revoke_confirmed + 1)) revoked r.status;
              })
            ]

  -- without `crossConfirmed` (`undefined`) the comparison is false
  cross_wait : ℕ
  cross_wait = elim r.cross_confirmed [
    | none ↦ env.confirm_blocks
    | some c ↦ wait_block c env.confirm_blocks
  ]

  abbrev cross_counted : ℕ
  cross_counted = elim r.cross_confirmed [ none ↦ 1 | some c ↦ c + 1 ]

  -- the count is written only when it is reached
  unfoldable pub check_cross_hash_confirm_deposit : String → Outcome
  unfolding cross_wait
  check_cross_hash_confirm_deposit lock_hash =
      elim (reply_of (env.wait_confirm lock_hash cross_wait)) [
        | none ↦ unchanged r
        | some rc ↦
            if leb env.confirm_blocks cross_counted
            then written (record r { cross_confirmed = some cross_counted; status = buddy_locked })
            else unchanged (record r { cross_confirmed = some cross_counted })
      ]

  unfoldable pub check_cross_hash_confirm_withdraw : Outcome
  unfolding btc_confirmed
  check_cross_hash_confirm_withdraw =
      if btc_confirmed env.btc_confirm_blocks (env.btc_transaction r.btc_lock_tx_hash)
      then written (record r { status = buddy_locked })
      else unchanged r

-- a crossing whose storeman's side is online: with a refund sent, it goes on to redeeming
storeman_online : BtcEnv → BtcRecord → Outcome
unfolding check_cross_hash_confirm_deposit check_cross_hash_confirm_withdraw
storeman_online env r =
    if not (str_eq r.refund_tx_hash "")
    then written (record r { status = redeem_sending })
    else if is_btc r.chain
    then check_cross_hash_confirm_deposit env r
        (elim r.cross_lock_hash [ none ↦ "undefined" | some h ↦ h ])
    else check_cross_hash_confirm_withdraw env r

unfoldable pub check_locked : BtcEnv → BtcRecord → Outcome
unfolding check_cross_hash_online storeman_online
check_locked env r =
    let o = check_cross_hash_online env r in
    if o.found then storeman_online env o.item else unchanged o.item

abbrev by_chain : BtcRecord → Outcome → Outcome → Outcome
by_chain r deposit withdraw = if is_btc r.chain then deposit else withdraw

-- the `switch` of `monitorRecord`; the last clause is for all cases that only `break`
dispatch : Status → BtcEnv → BtcRecord → Outcome
unfolding check_hash_receipt_online_btc check_hash_receipt_online_wan check_hash_confirm_btc
    check_hash_confirm_wan check_locked check_revoke_online_btc check_revoke_online_wan
    check_revoke_confirm check_x_online_wan check_x_online_btc check_x_confirm
dispatch lock_sending env r =
    by_chain r (check_hash_receipt_online_btc env r) (check_hash_receipt_online_wan env r)
dispatch lock_sent env r = by_chain r (check_hash_confirm_btc env r) (check_hash_confirm_wan env r)
dispatch locked env r = check_locked env r
dispatch revoke_sending env r =
    by_chain r (check_revoke_online_btc env r) (check_revoke_online_wan env r)
dispatch revoke_sent env r = check_revoke_confirm env r
dispatch redeem_sending env r = by_chain r (check_x_online_wan env r) (check_x_online_btc env r)
dispatch redeem_sent env r = check_x_confirm env r
dispatch _ env r = unchanged r

unfoldable pub monitor_record : BtcEnv → BtcRecord → Outcome
unfolding dispatch
monitor_record env r = dispatch r.status env r
