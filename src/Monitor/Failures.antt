-- ===== src/Monitor/Failures.antt =====
-- What the monitor makes of a transaction that failed, and of a reply that does not come.
use wanchain_js_sdk.Prelude.{
  ℕ, String, ◌≡◌, refl, Bool, true, false, Option, none, some, List, arith,
}
use wanchain_js_sdk.Prelude.Result.{Result, Error, ok, err, type_error}
use wanchain_js_sdk.Cross.{
  TokenStand, e20, eos_token, locked, buddy_locked, redeem_fail, redeemed, CrossRecord, Status,
  can_redeem,
}
use wanchain_js_sdk.Monitor.Replies.{
  Env, Receipt, Log, Purpose, redeem, revoke, unchanged, written, confirmed, block_of, receipt_fail,
}
use wanchain_js_sdk.Monitor.CrossType.{direction, to_address, event_of, event_chain, first_of_logs}
use wanchain_js_sdk.Monitor.Buddy.{kind_of, buddy_lock, wait_buddy_lock_confirm}
use wanchain_js_sdk.Monitor.{
  wait_redeem_confirm, redeem_failed, wait_revoke_confirm, revoke_failed, monitor_record,
  tx_hash_or, redeem_event, revoke_event,
}

-- The storeman's lock is confirmed and the record still locked, but the reply with the block fails:
-- the record in memory becomes `buddy_locked`, unwritten and without the storeman's times. From
-- then on it cannot be redeemed at any time, and the monitor never changes it again.
pub block_failure_strands :
    (env : Env) (r : CrossRecord) (tx : String) (rc : Receipt) (e : Error)
    → buddy_lock env r ≡ ok (some (tx, rc))
    → env.net.block_time (block_of r.dst_chain_type rc) r.dst_chain_type ≡ err e
    → r.buddy_locked_time_out ≡ none
    → let o = wait_buddy_lock_confirm env (some locked) r in
      (o ≡ record { item = record r { status = buddy_locked }; writes = 0 })
      × ((now : ℕ) → (can_redeem now o.item).code ≡ false)
      × ((env' : Env) (current : Option Status)
          → monitor_record env' current o.item ≡ unchanged o.item)
unfolding wait_buddy_lock_confirm
block_failure_strands env r tx rc e l b t =
    let same : wait_buddy_lock_confirm env (some locked) r
        ≡ unchanged (record r { status = buddy_locked }) =
      ground arith in
    rw same (
      ground arith,
      λ now. unfold can_redeem in ground arith,
      λ env' current. unfold monitor_record in ground arith,
    )

abbrev pub is_token : TokenStand → Bool
is_token e20 = true
is_token eos_token = true
is_token _ = false

module _ (env : Env) (r : CrossRecord) where
  -- For a coin `checkCrossType` returns nothing, and reading its fields throws.
  event_of-coin :
      (p : Purpose) (inbound : Bool) (stand : TokenStand)
      → direction env r ≡ ok (inbound, stand)
      → is_token stand ≡ false
      → (e : Error) × (event_of p env r ≡ err e)
  unfolding event_of
  event_of-coin p inbound stand d c = go (to_address env r) refl
    where
      go : (a : Result String) → to_address env r ≡ a → (e : Error) × (event_of p env r ≡ err e)
      go (err e) h = (e, ground arith)
      go (ok addr) h = (type_error, ground arith)

  event_of-token :
      (p : Purpose) (inbound : Bool) (stand : TokenStand) (addr : String) (logs : List Log)
      → to_address env r ≡ ok addr
      → direction env r ≡ ok (inbound, stand)
      → is_token stand ≡ true
      → env.net.events p inbound (kind_of stand) (event_chain p r) r.hash_x addr ≡ ok logs
      → event_of p env r ≡ ok (first_of_logs logs)
  unfolding event_of
  event_of-token p inbound stand addr logs a d c l = ground arith

  redeem_reverted :
      (rc : Receipt)
      → env.net.wait_confirm r.redeem_tx_hash env.confirm_blocks r.dst_chain_type ≡ ok (some rc)
      → confirmed r.dst_chain_type rc ≡ ok false
      → receipt_fail rc r ≡ true
      → wait_redeem_confirm env r ≡ redeem_event (event_of redeem env r) (unchanged r)
  unfolding wait_redeem_confirm redeem_failed
  redeem_reverted rc h k bad = ground arith

  revoke_reverted :
      (rc : Receipt)
      → env.net.wait_confirm r.revoke_tx_hash env.confirm_blocks r.src_chain_type ≡ ok (some rc)
      → confirmed r.src_chain_type rc ≡ ok false
      → receipt_fail rc r ≡ true
      → wait_revoke_confirm env r ≡ revoke_event (event_of revoke env r) (unchanged r)
  unfolding wait_revoke_confirm revoke_failed
  revoke_reverted rc h k bad = ground arith

module _ (env : Env) (r : CrossRecord) (rc : Receipt) (inbound : Bool) (stand : TokenStand) where
  -- The crossing is of a token, its redeeming transaction failed, and the chain answers with the
  -- redeem events: without an event the redeeming has failed, and with one it has happened, by the
  -- transaction of the event. The record is written once.
  pub token_redeem_reverted :
      (addr : String) (logs : List Log)
      → env.net.wait_confirm r.redeem_tx_hash env.confirm_blocks r.dst_chain_type ≡ ok (some rc)
      → confirmed r.dst_chain_type rc ≡ ok false
      → receipt_fail rc r ≡ true
      → to_address env r ≡ ok addr
      → direction env r ≡ ok (inbound, stand)
      → is_token stand ≡ true
      → env.net.events redeem inbound (kind_of stand) r.dst_chain_type r.hash_x addr ≡ ok logs
      → wait_redeem_confirm env r ≡ elim (first_of_logs logs) [
        | none ↦ written (record r { status = redeem_fail })
        | some l ↦ written (record r {
          redeem_tx_hash = tx_hash_or l.transaction_hash r.redeem_tx_hash;
          status = redeemed;
        })
      ]
  unfolding event_chain redeem_event
  token_redeem_reverted addr logs h k bad a d c l =
      rw
        (
          redeem_reverted env r rc h k bad,
          event_of-token env r redeem inbound stand addr logs a d c l,
        )
        (ground arith)

  -- The crossing is of a coin (no token of ERC20 or EOS), and its redeeming transaction failed: the
  -- record stays as it is and is not written, whatever events the chain holds.
  pub coin_redeem_reverted :
      env.net.wait_confirm r.redeem_tx_hash env.confirm_blocks r.dst_chain_type ≡ ok (some rc)
      → confirmed r.dst_chain_type rc ≡ ok false
      → receipt_fail rc r ≡ true
      → direction env r ≡ ok (inbound, stand)
      → is_token stand ≡ false
      → wait_redeem_confirm env r ≡ unchanged r
  unfolding redeem_event
  coin_redeem_reverted h k bad d c =
      let (e, thrown) = event_of-coin env r redeem inbound stand d c in
      rw (redeem_reverted env r rc h k bad, thrown)

  -- The same of a revoking transaction that failed.
  pub coin_revoke_reverted :
      env.net.wait_confirm r.revoke_tx_hash env.confirm_blocks r.src_chain_type ≡ ok (some rc)
      → confirmed r.src_chain_type rc ≡ ok false
      → receipt_fail rc r ≡ true
      → direction env r ≡ ok (inbound, stand)
      → is_token stand ≡ false
      → wait_revoke_confirm env r ≡ unchanged r
  unfolding revoke_event
  coin_revoke_reverted h k bad d c =
      let (e, thrown) = event_of-coin env r revoke inbound stand d c in
      rw (revoke_reverted env r rc h k bad, thrown)
