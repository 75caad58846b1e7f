-- ===== src/BtcMonitor/Examples.antt =====
-- A deposit of BTC and a withdrawal of WBTC, with chains that answer at once.
use wanchain_js_sdk.Prelude.{
  ℕ, String, ◌≡◌, ◌≢◌, refl, false, none, string_eq, some, List, [], ◌∷◌, All, arith,
}
use wanchain_js_sdk.Prelude.Result.{ok}
use wanchain_js_sdk.Cross.{ChainType, btc, wan, Status, lock_sent, locked, buddy_locked}
use wanchain_js_sdk.Monitor.Replies.{Receipt}
use wanchain_js_sdk.BtcMonitor.Replies.{BtcRecord, BtcEnv}
use wanchain_js_sdk.BtcMonitor.{monitor_record}
use wanchain_js_sdk.BtcMonitor.Graph.{◌↝◌, monitor_record-↝}
use wanchain_js_sdk.BtcMonitor.Counting.{rounds, rounds-counted, rounds-not_buddy_locked}
use wanchain_js_sdk.BtcMonitor.Handling.{
  HandlingList, begin_at, finish, busy, awaits, called, sweep, history, monitor_task_btc, swept,
  ended, handed_on,
}
use wanchain_js_sdk.BtcMonitor.Handled.{begins, Without, monitor_task_btc-apart}

abbrev receipt : Receipt
receipt = record { block_number = some 7; status = some "0x1"; block_num = none; trx = none }

abbrev env : ℕ → BtcEnv
env blocks = record {
  confirm_blocks = blocks;
  btc_confirm_blocks = 1;
  wait_confirm = λ tx n. ok (some receipt);
  block_time = λ n. ok 1000;
  btc_transaction = λ tx. ok (some (record { confirmations = some 6; locktime = 0; paid = none }));
  encode_topic = λ a. ok a;
  deposit_locks = λ x a. ok (record { lock_hash = "0xbb"; value = 5 } ∷ []);
  notices = λ x a. ok [];
  p2sh = λ x t a s. ok "p2sh";
}

abbrev crossing : String → ChainType → Status → BtcRecord
crossing hash chain status = record {
  hash_x = hash;
  chain = chain;
  cross_address = "aa";
  value = 5;
  status = status;
  time = 0;
  lock_confirmed = 0;
  refund_confirmed = 0;
  revoke_confirmed = 0;
  cross_confirmed = none;
  cross_lock_hash = none;
  storeman_btc_h160 = none;
  btc_redeem_lock_time_stamp = none;
  lock_tx_hash = "cc";
  refund_tx_hash = "";
  revoke_tx_hash = "";
  btc_lock_tx_hash = "dd";
  btc_refund_tx_hash = "";
  btc_revoke_tx_hash = "";
  btc_notice_txhash = "";
  btc_cross_addr = none;
  wan_address = none;
}

monitor_record-↝_example :
    lock_sent ↝ (monitor_record (env 2) (crossing "h" wan lock_sent)).item.status
monitor_record-↝_example = monitor_record-↝ (env 2) (crossing "h" wan lock_sent)

-- the third round counts the third confirmation, which locks it
rounds-counted_example :
    rounds (env 3 ∷ env 3 ∷ env 3 ∷ []) (crossing "h" wan lock_sent)
    ≡ record (crossing "h" wan locked) { lock_confirmed = 3 }
rounds-counted_example =
    rounds-counted 3 (env 3 ∷ env 3 ∷ env 3 ∷ []) (crossing "h" wan lock_sent) refl refl
      (omega arith) (omega arith)
      (refl, (receipt, refl), (refl, (receipt, refl), (refl, (receipt, refl), tt)))

rounds-not_buddy_locked_example :
    (rounds (env 3 ∷ env 3 ∷ env 3 ∷ env 3 ∷ []) (crossing "h" btc locked)).status ≢ buddy_locked
rounds-not_buddy_locked_example =
    rounds-not_buddy_locked (env 3 ∷ env 3 ∷ env 3 ∷ env 3 ∷ []) (crossing "h" btc locked)
      (omega arith, (omega arith, (omega arith, (omega arith, tt)))) refl (λ h. cc)

-- the third record has the hash of the first, and the second, whose case only breaks, is free at once
abbrev three : List BtcRecord
three = crossing "h" btc locked ∷ crossing "k" btc buddy_locked ∷ crossing "h" btc locked ∷ []

abbrev nothing : HandlingList
nothing = λ k. none

monitor_task_btc-apart_example : All (Without "h") (
    handed_on
      (swept false 22000 three ∷ ended "k" ∷ swept false 39000 three ∷ [])
      (monitor_task_btc false 5000 three nothing).1)
unfolding begins awaits monitor_task_btc history sweep called begin_at finish busy
monitor_task_btc-apart_example =
    monitor_task_btc-apart false 5000 three nothing "h"
      (swept false 22000 three ∷ ended "k" ∷ swept false 39000 three ∷ []) refl
      (omega arith, (refl, (omega arith, tt)))

-- Each sweep hands the free record on.
hands_free_on :
    handed_on (swept false 22000 three ∷ []) (monitor_task_btc false 5000 three nothing).1
    ≡ (crossing "k" btc buddy_locked ∷ []) ∷ []
unfolding handed_on awaits monitor_task_btc history sweep called begin_at finish busy
hands_free_on = refl
