-- ===== src/Monitor/Buddy.antt =====
-- `waitBuddyLockConfirm` of src/core/monitor.js: the wait for the lock of the storeman on the
-- other chain.
use wanchain_js_sdk.Prelude.{
  ℕ, String, ◌+◌, Bool, true, false, Option, none, some, nat_beq, if◌then◌else◌,
}
use wanchain_js_sdk.Prelude.Result.{Result, ok, err, type_error, ◌>>=◌}
use wanchain_js_sdk.Cross.{
  ChainType, is_eos, TokenStand, e20, eos_token, Status, locked, buddy_locked, CrossRecord,
  lock_time,
}
use wanchain_js_sdk.Monitor.Replies.{
  Env, Receipt, Log, stg_lock, Kind, e20_kind, eos_kind, coin_kind, confirmed, block_of, Outcome,
  unchanged, written,
}
use wanchain_js_sdk.Monitor.CrossType.{to_address, direction, first_of_logs}

abbrev pub kind_of : TokenStand → Kind
kind_of e20 = e20_kind
kind_of eos_token = eos_kind
kind_of _ = coin_kind

-- steps 1 and 2: the first log of the storeman's lock
unfoldable pub buddy_event : Env → CrossRecord → Result (Option Log)
unfolding to_address direction
buddy_event env r = do
  addr ← to_address env r
  d ← direction env r
  logs ← env.net.events stg_lock d.0 (kind_of d.1) r.dst_chain_type r.hash_x addr
  ok (first_of_logs logs)

-- `receipt &&` guards the first half of the condition only: on EOS a missing receipt throws
unfoldable pub buddy_confirmed : ChainType → Option Receipt → Result Bool
unfolding confirmed
buddy_confirmed c none = if is_eos c then err type_error else ok false
buddy_confirmed c (some rc) = confirmed c rc

abbrev when_confirmed : String → Option Receipt → Bool → Option (String × Receipt)
when_confirmed tx (some rc) true = some (tx, rc)
when_confirmed tx _ _ = none

buddy_transaction : Env → CrossRecord → Option String → Result (Option (String × Receipt))
unfolding buddy_confirmed
buddy_transaction env r none = ok none
buddy_transaction env r (some tx) = do
  receipt ← env.net.wait_confirm tx env.confirm_blocks r.dst_chain_type
  done ← buddy_confirmed r.dst_chain_type receipt
  ok (when_confirmed tx receipt done)

buddy_log : Env → CrossRecord → Option Log → Result (Option (String × Receipt))
unfolding buddy_transaction
buddy_log env r none = ok none
buddy_log env r (some l) =
    if nat_beq l.value r.contract_value then buddy_transaction env r l.transaction_hash else ok none

-- steps 1 to 4: the storeman's lock of the right value, once it is confirmed
unfoldable pub buddy_lock : Env → CrossRecord → Result (Option (String × Receipt))
unfolding buddy_event buddy_log
buddy_lock env r = do found ← buddy_event env r; buddy_log env r found

abbrev pub is_locked : Status → Bool
is_locked locked = true
is_locked _ = false

-- step 5: the status is set before the block is awaited
unfoldable pub buddy_locked_at : Env → String → Result ℕ → CrossRecord → Outcome
buddy_locked_at env tx (err e) r = unchanged (record r { status = buddy_locked })
buddy_locked_at env tx (ok t) r = written (record r {
  status = buddy_locked;
  buddy_locked_time = some t;
  buddy_lock_tx_hash = tx;
  buddy_locked_time_out = some (t + lock_time env.times r.token_stand);
})

-- `current` is the status that the database holds when the receipt has come
unfoldable pub buddy_checked :
    Env → Option Status → Option (String × Receipt) → CrossRecord → Outcome
unfolding block_of buddy_locked_at
buddy_checked env current none r = unchanged r
buddy_checked env none (some found) r = unchanged r
buddy_checked env (some s) (some (tx, rc)) r =
    if is_locked s
    then buddy_locked_at env tx (env.net.block_time (block_of r.dst_chain_type rc) r.dst_chain_type)
        r
    else unchanged r

unfoldable pub wait_buddy_lock_confirm : Env → Option Status → CrossRecord → Outcome
unfolding buddy_lock buddy_checked
wait_buddy_lock_confirm env current r = elim (buddy_lock env r) [
  | err e ↦ unchanged r
  | ok found ↦ buddy_checked env current found r
]
