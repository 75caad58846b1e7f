-- ===== src/Pipeline/TokenExamples.antt =====
-- Tokens that are locked with and without an allowance, and one that is redeemed.
use wanchain_js_sdk.Prelude.{ℕ, ◌⊎◌, ◌≡◌, refl, true, false, none, some, [], ◌∷◌, arith}
use wanchain_js_sdk.Prelude.Result.{ok}
use wanchain_js_sdk.Cross.{
  CrossRecord, LockTimes, lock_time, e20, buddy_locked, approve_sending, redeem_sent, can_redeem,
  redeem_status,
}
use wanchain_js_sdk.Items.{Db, get_item, first}
use wanchain_js_sdk.Pipeline.{Methods, failed, attempts, by_hash_x}
use wanchain_js_sdk.Pipeline.Changes.{Stored}
use wanchain_js_sdk.Pipeline.Sending.{success}
use wanchain_js_sdk.Pipeline.Closing.{token_redeem, token_revoke}
use wanchain_js_sdk.Pipeline.TokenLock.{Locking, e20_lock, eos_lock}
use wanchain_js_sdk.Pipeline.Locked.{Sends, fully_locked, e20_lock-sent}
use wanchain_js_sdk.Pipeline.Stranded.{e20_lock-stranded}
use wanchain_js_sdk.Pipeline.Apart.{eos_lock-apart}
use wanchain_js_sdk.Pipeline.Closed.{token_close-disjoint, token_redeem-recorded}
use wanchain_js_sdk.Pipeline.Examples.{lock, base, empty}

-- no attempt gets through
abbrev deaf : Methods (Db CrossRecord)
deaf = record base { send_trans = λ i. failed }

abbrev locking : ℕ → Methods (Db CrossRecord) → Locking
locking n approve = record {
  allowance = ok n;
  item = record lock { token_stand = e20 };
  zero_base = base;
  approve_base = approve;
  lock_base = base;
  try_times = 3;
}

base_sends : Sends base 3 "0xaa"
unfolding attempts
base_sends = ((refl, refl, refl, refl, refl, refl, refl), refl)

e20_lock-sent_example :
    (after : Db CrossRecord) × (e20_lock (locking 7 base) false empty ≡ success "0xaa" after)
    × Stored "h"
        (fully_locked (locking 7 base) "0xaa" "0xaa" "0xaa" base_sends base_sends base_sends 7)
        after
unfolding get_item first
e20_lock-sent_example =
    e20_lock-sent (locking 7 base) "0xaa" "0xaa" "0xaa" base_sends base_sends base_sends 7 empty
      refl refl

e20_lock-stranded_example :
    let o = e20_lock (locking 0 deaf) false empty in
    (o.code ≡ false)
    × (o.holes ≡ 1)
    × Stored "h"
        (record (locking 0 deaf).item { status = approve_sending; approve_tx_hash = "h" })
        o.state
unfolding attempts get_item first
e20_lock-stranded_example =
    e20_lock-stranded (locking 0 deaf) (refl, refl, refl, refl, refl, refl, refl) refl empty refl
      refl

-- a crossing that the storeman has locked as well
abbrev locked_on_both : CrossRecord
locked_on_both = record lock {
  hash_x = "b";
  token_stand = e20;
  status = buddy_locked;
  locked_time = some 1000;
  htlc_time_out = some 201000;
  buddy_locked_time = some 2000;
  buddy_locked_time_out = some 102000;
}

abbrev holding : Db CrossRecord
holding = record { memory = locked_on_both ∷ []; disk = locked_on_both ∷ [] }

eos_lock-apart_example :
    (get_item (by_hash_x "b") (e20_lock (locking 0 deaf) false holding).state
      ≡ get_item (by_hash_x "b") holding)
    × (get_item (by_hash_x "b") (eos_lock (locking 0 deaf) true false holding).state
        ≡ get_item (by_hash_x "b") holding)
eos_lock-apart_example = eos_lock-apart (locking 0 deaf) "b" true false holding refl

abbrev times : LockTimes
times = record { locked_time = 50; locked_time_e20 = 100; locked_time_eos = 70 }

token_close-disjoint_example :
    ((token_redeem 9000 "b" base 3 holding).hash ≡ none)
    ⊎ ((token_revoke 9000 "b" base 3 holding).hash ≡ none)
unfolding get_item first lock_time
token_close-disjoint_example =
    token_close-disjoint times 9000 3 3 1000 2000 "b" base base holding locked_on_both refl
      (refl, refl) (refl, refl) (omega arith)

token_redeem-recorded_example :
    Stored "b"
      (record locked_on_both { status = redeem_sent; redeem_tx_hash = "0xaa" })
      (token_redeem 9000 "b" base 3 holding).state
unfolding get_item first attempts can_redeem redeem_status
token_redeem-recorded_example =
    token_redeem-recorded 9000 "b" base 3 holding locked_on_both refl
      (refl, refl, refl, refl, refl, refl, refl) refl
