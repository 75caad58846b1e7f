-- ===== src/BtcPipeline/Examples.antt =====
-- A lock of BTC whose notice does not get through, and a redemption.
use wanchain_js_sdk.Prelude.{String, ◌≡◌, refl, false, none, some, [], ◌∷◌, string_eq}
use wanchain_js_sdk.Prelude.Result.{ok}
use wanchain_js_sdk.Cross.{btc, wan, locked, redeem_sent}
use wanchain_js_sdk.Items.{Db, get_item, first}
use wanchain_js_sdk.Monitor.Replies.{Receipt}
use wanchain_js_sdk.BtcMonitor.Replies.{BtcRecord, BtcEnv, btc_confirmed}
use wanchain_js_sdk.Pipeline.{Methods, passed, sent, failed, attempts, run}
use wanchain_js_sdk.BtcPipeline.{
  BtcLock, lock_hash, btc_lock_record, btc_locked_by, btc_lock, redeemed_hash, btc_redeem_methods,
  btc_stage,
}
use wanchain_js_sdk.BtcPipeline.Recorded.{BtcStored}
use wanchain_js_sdk.BtcPipeline.Noticed.{btc_lock-noticed}
use wanchain_js_sdk.BtcPipeline.Watched.{Watched, btc_redeem-Watched}

abbrev sending : Methods (Db BtcRecord)
sending = record {
  check_pre_condition = passed;
  create_trans = passed;
  create_data_creator = passed;
  create_data_sign = passed;
  create_common_data = passed;
  create_contract_data = passed;
  sign = passed;
  pre_send_trans = λ db. (passed, db);
  send_trans = λ i. sent "0xaa";
  trans_failed = λ db. (passed, db);
  post_send_trans = λ h db. (passed, db);
}

abbrev deaf : Methods (Db BtcRecord)
deaf = record sending { send_trans = λ i. failed }

abbrev lock : BtcLock
lock = record {
  chain = btc;
  hash_x = "0xcafe";
  h160_cross_addr = "";
  cross_addr = none;
  wan_address = some "m/44'/5718350'/0'/0/0";
  from_addr = "0x01";
  value = 5;
  amount = 5;
  redeem_lock_time_stamp = 9000;
  now = 1000;
}

abbrev empty : Db BtcRecord
empty = record { memory = []; disk = [] }

-- The lock is recorded with the hash of its transaction, and the answer is a failure.
btc_lock-noticed_example :
    let o = btc_lock lock sending deaf 2 empty in
    (o.code ≡ false)
    × (o.hash ≡ none)
    × BtcStored (lock_hash lock) (btc_locked_by lock "0xaa" (btc_lock_record lock)) o.state
unfolding get_item first attempts
btc_lock-noticed_example =
    btc_lock-noticed lock refl sending deaf 2 empty "m/44'/5718350'/0'/0/0" refl
      (refl, refl, refl, refl, refl, refl, refl) (refl, refl, refl, refl, refl, refl, refl) refl

abbrev receipt : Receipt
receipt = record { block_number = some 7; status = some "0x1"; block_num = none; trx = none }

abbrev env : BtcEnv
env = record {
  confirm_blocks = 2;
  btc_confirm_blocks = 1;
  wait_confirm = λ tx n. ok (some receipt);
  block_time = λ n. ok 1000;
  btc_transaction = λ tx. ok (some (record { confirmations = some 6; locktime = 0; paid = none }));
  encode_topic = λ a. ok a;
  deposit_locks = λ x a. ok [];
  notices = λ x a. ok [];
  p2sh = λ x t a s. ok "p2sh";
}

-- the record of the lock under the hash "h", on both sides
abbrev crossing : BtcRecord
crossing = record {
  hash_x = "h";
  chain = btc;
  cross_address = "01";
  value = 5;
  status = locked;
  time = 1000;
  lock_confirmed = 2;
  refund_confirmed = 0;
  revoke_confirmed = 0;
  cross_confirmed = none;
  cross_lock_hash = none;
  storeman_btc_h160 = none;
  btc_redeem_lock_time_stamp = some 9000;
  lock_tx_hash = "";
  refund_tx_hash = "";
  revoke_tx_hash = "";
  btc_lock_tx_hash = "dd";
  btc_refund_tx_hash = "";
  btc_revoke_tx_hash = "";
  btc_notice_txhash = "ee";
  btc_cross_addr = none;
  wan_address = none;
}

abbrev holding : Db BtcRecord
holding = record { memory = crossing ∷ []; disk = crossing ∷ [] }

abbrev sha_of : String → String
sha_of x = "h"

-- a redemption of WBTC, whose transaction has a hash of Bitcoin, without a prefix
abbrev withdrawn : Db BtcRecord
withdrawn = let r = record crossing { chain = wan } in record { memory = r ∷ []; disk = r ∷ [] }

abbrev sending_bare : Methods (Db BtcRecord)
sending_bare = record sending { send_trans = λ i. sent "aa" }

btc_redeem-Watched_example :
    Watched env
      (redeemed_hash sha_of btc "0xbb" "")
      (run (btc_redeem_methods sha_of btc "0xbb" "" sending) 2 holding).state
      redeem_sent
    × Watched env
        (redeemed_hash sha_of wan "" "h")
        (run (btc_redeem_methods sha_of wan "" "h" sending_bare) 2 withdrawn).state
        redeem_sent
unfolding attempts get_item first redeemed_hash btc_redeem_methods btc_stage btc_confirmed
btc_redeem-Watched_example = (
  btc_redeem-Watched env btc "" "0xaa" sending 2 holding crossing refl refl sha_of "0xbb" refl
      (refl, refl, refl, refl, refl, refl, refl) (receipt, refl, refl),
  btc_redeem-Watched env wan "h" "aa" sending_bare 2 withdrawn (record crossing { chain = wan })
      refl refl sha_of "" refl (refl, refl, refl, refl, refl, refl, refl) refl,
)
