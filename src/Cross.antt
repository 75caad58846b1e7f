-- ===== src/Cross.antt =====
-- The records of cross-chain transactions and the states that they pass through:
-- src/trans/status/Status.js, the record that `preSendTrans` of src/trans/cross-chain inserts, and
-- `canRedeem` and `canRevoke` of src/api/ccUtil.js.
--
-- A time is a number of milliseconds. The source keeps seconds in text, and "" where the time is
-- not known yet: `none`. A number in hexadecimal text is the number.
mod Record
pub mod Window
unfoldable pub use Record.*
use wanchain_js_sdk.Prelude.{ℕ, String, Bool, true, false, Option, none, some, ltb, if◌then◌else◌}

-- `{code, result}`, the value of src/trans/transUtil.js that the operations answer with
pub record Ret : Type 0 where
  pub code : Bool
  pub result : Option String

-- the message stands for what the source puts into `result`
abbrev pub refused : String → Ret
refused message = record { code = false; result = some message }

abbrev pub granted : Ret
granted = record { code = true; result = none }

unfoldable pub redeem_status : Status → Bool
redeem_status buddy_locked = true
redeem_status redeem_sent = true
redeem_status redeem_sending = true
redeem_status redeem_fail = true
redeem_status _ = false

unfoldable pub revoke_status : Status → Bool
revoke_status buddy_locked = true
revoke_status locked = true
revoke_status redeem_sending = true
revoke_status redeem_sent = true
revoke_status revoke_sent = true
revoke_status revoke_sending = true
revoke_status revoke_fail = true
revoke_status redeem_fail = true
revoke_status revoke_send_fail = true
revoke_status redeem_send_fail = true
revoke_status _ = false

-- `now` is `Date.now()`
unfoldable pub can_redeem : ℕ → CrossRecord → Ret
unfolding redeem_status
can_redeem now r =
    if redeem_status r.status
    then (if ltb now (number r.buddy_locked_time_out)
        then granted
        else refused "Hash lock time is not meet.")
    else refused "waiting buddy lock"

unfoldable pub can_revoke : ℕ → CrossRecord → Ret
unfolding revoke_status
can_revoke now r =
    if revoke_status r.status
    then (if ltb (number r.htlc_time_out) now
        then granted
        else refused "Hash lock time is not meet.")
    else refused "Can not revoke,status is not BuddyLocked or Locked"
