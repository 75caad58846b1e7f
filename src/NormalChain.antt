-- ===== src/NormalChain.antt =====
-- `run` of src/trans/normal-chain/common/NormalChain.js: the stages of a transaction within a chain.
-- They are those of a crossing, but an error of the sending may end the attempts.
pub mod Classes
pub mod Special
pub mod Refund
pub mod Refunding
mod Examples
use wanchain_js_sdk.Prelude.{
  ℕ, zero, suc, String, ◌+◌, Bool, true, false, Option, none, some, if◌then◌else◌,
}
use wanchain_js_sdk.Pipeline.{Attempt, sent, known, failed, Methods, Run, staged, concluded}

module _ {S : Type 0} (m : Methods S) (handle_error : ℕ → S → Bool × S) where
  -- `handleSendTranError` for the error of an attempt, and the attempts after it
  abbrev after_error : Bool × S → Option String × S → Option String × S
  after_error (true, s) later = (none, s)
  after_error (false, s) later = later

  -- an exception "known transaction" is an error like another
  unfoldable pub attempted : Attempt → Bool × S → S → Option String × S → Option String × S
  attempted (sent h) handled s later = (some h, s)
  attempted (known h) handled s later = after_error handled later
  attempted failed handled s later = after_error handled later

  -- the loop over `tryTimes` attempts, from attempt `i` on
  unfoldable pub tries : ℕ → ℕ → S → Option String × S
  unfolding attempted
  tries zero i s = (none, s)
  tries (suc n) i s =
      let handled = handle_error i s in
      attempted (m.send_trans i) handled s (tries n (i + 1) handled.1)

  unfoldable pub normal_send : ℕ → S → Run S
  unfolding tries concluded
  normal_send try_times s =
      let (sent_hash, after) = tries try_times 0 s in concluded m sent_hash after

  unfoldable pub normal_run : ℕ → S → Run S
  unfolding staged normal_send
  normal_run try_times s = staged m (normal_send try_times) s
