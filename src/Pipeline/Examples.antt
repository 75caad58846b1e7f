-- ===== src/Pipeline/Examples.antt =====
-- A lock of ETH, and stages that send at the second attempt.
use wanchain_js_sdk.Prelude.{ℕ, none, [], nat_beq, if◌then◌else◌}
use wanchain_js_sdk.Cross.{CrossRecord, lock_sending, eth, wan, eth_coin}
use wanchain_js_sdk.Items.{Db}
use wanchain_js_sdk.Pipeline.{Methods, Attempt, sent, failed, passed}

abbrev pub lock : CrossRecord
lock = record {
  hash_x = "h";
  x = "x";
  to_addr = "0x01";
  src_chain_addr = "ETH";
  dst_chain_addr = "WAN";
  src_chain_type = eth;
  dst_chain_type = wan;
  token_stand = eth_coin;
  contract_value = 5;
  status = lock_sending;
  approve_tx_hash = "";
  approve_zero_tx_hash = "";
  lock_tx_hash = "";
  redeem_tx_hash = "";
  revoke_tx_hash = "";
  buddy_lock_tx_hash = "";
  locked_time = none;
  buddy_locked_time = none;
  htlc_time_out = none;
  buddy_locked_time_out = none;
}

abbrev second_attempt : ℕ → Attempt
second_attempt i = if nat_beq i 1 then sent "0xaa" else failed

abbrev pub base : Methods (Db CrossRecord)
base = record {
  check_pre_condition = passed;
  create_trans = passed;
  create_data_creator = passed;
  create_data_sign = passed;
  create_common_data = passed;
  create_contract_data = passed;
  sign = passed;
  pre_send_trans = λ db. (passed, db);
  send_trans = second_attempt;
  trans_failed = λ db. (passed, db);
  post_send_trans = λ h db. (passed, db);
}

abbrev pub empty : Db CrossRecord
empty = record { memory = []; disk = [] }
