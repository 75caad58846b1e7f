-- ===== src/BtcMonitor/Handling.antt =====
-- `handlingList` and the sweep of `monitorTaskBtc` in src/core/monitorBtc.js: which records a sweep
-- hands to `monitorRecord`. The clock stands still during a sweep, whose loop never waits, and a time is
-- not 0. `monitorRecord` is called without `await`: it runs to its first `await`, and at once to its end,
-- which frees the hash, for a status whose case has none.
use wanchain_js_sdk.Prelude.{
  ℕ, String, ◌+◌, Bool, true, false, not, Option, none, some, List, [], ◌∷◌, ltb, ◌==◌, string_eq,
  if◌then◌else◌,
}
use wanchain_js_sdk.Cross.{
  Status, lock_sending, lock_sent, locked, redeem_sending, redeem_sent, redeemed, revoke_sending,
  revoke_sent, revoked, sent_hash_failed,
}
use wanchain_js_sdk.BtcMonitor.Replies.{BtcRecord}

-- the time at which the handling of a hash began
abbrev pub HandlingList : Type 0
HandlingList = String → Option ℕ

unfoldable pub begin_at : ℕ → String → HandlingList → HandlingList
begin_at now h l = λ k. if k == h then some now else l k

-- the end of `monitorRecord`: `delete` of an entry, if there is one
unfoldable pub finish : String → HandlingList → HandlingList
finish h l = λ k. if k == h then none else l k

-- an entry holds for 300000 ms
unfoldable pub busy : ℕ → Option ℕ → Bool
busy now none = false
busy now (some t) = not (ltb (t + 300000) now)

-- whether the case of a status awaits a handler
unfoldable pub awaits : Status → Bool
awaits lock_sending = true
awaits lock_sent = true
awaits locked = true
awaits revoke_sending = true
awaits revoke_sent = true
awaits redeem_sending = true
awaits redeem_sent = true
awaits _ = false

-- the list when the call of `monitorRecord` comes back to the loop
unfoldable pub called : ℕ → BtcRecord → HandlingList → HandlingList
unfolding begin_at finish awaits
called now r l =
    if awaits r.status then begin_at now r.hash_x l else finish r.hash_x (begin_at now r.hash_x l)

-- the records handed on, and the list after the loop
unfoldable pub sweep : ℕ → List BtcRecord → HandlingList → List BtcRecord × HandlingList
unfolding called busy
sweep now [] l = ([], l)
sweep now (r ∷ rs) l =
    let skip = busy now (l r.hash_x) in
    let rest = sweep now rs (if skip then l else called now r l) in
    if skip then rest else (r ∷ rest.0, rest.1)

abbrev pub is_final : Status → Bool
is_final redeemed = true
is_final revoked = true
is_final sent_hash_failed = true
is_final _ = false

unfoldable pub history : List BtcRecord → List BtcRecord
history [] = []
history (r ∷ rs) = let rest = history rs in if is_final r.status then rest else r ∷ rest

-- `done` is `self.done`
unfoldable pub monitor_task_btc :
    Bool → ℕ → List BtcRecord → HandlingList → List BtcRecord × HandlingList
unfolding history sweep
monitor_task_btc done now records l = if done then ([], l) else sweep now (history records) l

-- What happens to the list: a sweep over the records of the database at a time, or the end of a
-- `monitorRecord` that had awaited its handler.
pub data Event : Type 0 where
  swept : Bool → ℕ → List BtcRecord → Event
  ended : String → Event

-- the records that each of the sweeps hands on
unfoldable pub handed_on : List Event → HandlingList → List (List BtcRecord)
unfolding monitor_task_btc finish
handed_on [] l = []
handed_on (swept done now records ∷ events) l =
    let swept_now = monitor_task_btc done now records l in
    let rest = handed_on events swept_now.1 in swept_now.0 ∷ rest
handed_on (ended h ∷ events) l = handed_on events (finish h l)
