-- ===== src/Monitor/Examples.antt =====
-- A crossing of ETH to Wanchain and one of an ERC20 token, with the replies of two chains.
use wanchain_js_sdk.Prelude.{ℕ, String, ◌≡◌, refl, true, false, Option, none, some, [], ◌∷◌, arith}
use wanchain_js_sdk.Prelude.Result.{Result, ok, err, timeout}
use wanchain_js_sdk.Cross.{
  Status, lock_sent, locked, buddy_locked, redeem_sent, CrossRecord, TokenStand, eth_coin, e20, eth,
  wan, lock_time, can_redeem, can_revoke,
}
use wanchain_js_sdk.Invoker.{
  Invoker, TokenInfo, CrossConfig, get_src_chain_name_by_contract_addr, is_in_src_chains_map,
}
use wanchain_js_sdk.Monitor.Replies.{
  Env, Network, Receipt, unchanged, confirmed, block_of, receipt_fail,
}
use wanchain_js_sdk.Monitor.CrossType.{direction, to_address}
use wanchain_js_sdk.Monitor.Buddy.{buddy_lock, wait_buddy_lock_confirm}
use wanchain_js_sdk.Monitor.{wait_lock_confirm, wait_redeem_confirm, monitor_record}
use wanchain_js_sdk.Monitor.Graph.{◌⟶◌, monitor_record-⟶}
use wanchain_js_sdk.Monitor.Locking.{locked_at, buddy_locked_record, followed_disjoint}
use wanchain_js_sdk.Monitor.Failures.{block_failure_strands, coin_redeem_reverted}
use wanchain_js_sdk.Monitor.Round.{Locks, sent, rounds, rounds-Locks}

abbrev token : TokenStand → TokenInfo
token stand = record { token_stand = stand; token_type = eth; token_decimals = 18 }

abbrev config : TokenStand → CrossConfig
config stand = record { src_chain_type = eth; dst_chain_type = wan; token_stand = stand }

abbrev invoker : Invoker
invoker = record {
  token_info_map =
      (eth, ("ETH", token eth_coin) ∷ ("0xzrx", token e20) ∷ [])
      ∷ (wan, ("WAN", token eth_coin) ∷ [])
      ∷ [];
  inbound_info_map = (eth, ("ETH", config eth_coin) ∷ ("0xzrx", config e20) ∷ []) ∷ [];
  outbound_info_map = [];
}

abbrev receipt : String → Receipt
receipt s = record { block_number = some 7; status = some s; block_num = none; trx = none }

-- `status` is the status of every receipt, and `block` the reply with a block
abbrev network : String → Result ℕ → Network
network status block = record {
  wait_confirm = λ tx n c. ok (some (receipt status));
  block_time = λ n c. block;
  encode_topic = λ a. ok a;
  events = λ p inbound k c h a. ok (record { transaction_hash = some "0xbb"; value = 5 } ∷ []);
}

abbrev env : String → Result ℕ → Env
env status block = record {
  net = network status block;
  invoker = invoker;
  times = record { locked_time = 60; locked_time_e20 = 60; locked_time_eos = 60 };
  confirm_blocks = 2;
}

abbrev crossing : String → TokenStand → Status → CrossRecord
crossing addr stand status = record {
  hash_x = "h";
  x = "x";
  to_addr = "0x01";
  src_chain_addr = addr;
  dst_chain_addr = "WAN";
  src_chain_type = eth;
  dst_chain_type = wan;
  token_stand = stand;
  contract_value = 5;
  status = status;
  approve_tx_hash = "";
  approve_zero_tx_hash = "";
  lock_tx_hash = "0xaa";
  redeem_tx_hash = "0xcc";
  revoke_tx_hash = "0xdd";
  buddy_lock_tx_hash = "";
  locked_time = none;
  buddy_locked_time = none;
  htlc_time_out = none;
  buddy_locked_time_out = none;
}

abbrev started : CrossRecord
started = crossing "ETH" eth_coin lock_sent

abbrev good : ℕ → Env
good t = env "0x1" (ok t)

monitor_record-⟶_example :
    lock_sent ⟶ (monitor_record (good 1000) (some lock_sent) started).item.status
monitor_record-⟶_example = monitor_record-⟶ (good 1000) (some lock_sent) started

abbrev first_lock : CrossRecord
first_lock = locked_at (good 1000) started 1000

abbrev second_lock : CrossRecord
second_lock = buddy_locked_record (good 2000) first_lock "0xbb" 2000

followed_disjoint_example : (can_revoke 3000 second_lock).code ≡ false
unfolding monitor_record wait_lock_confirm wait_buddy_lock_confirm lock_time can_redeem direction
    to_address get_src_chain_name_by_contract_addr is_in_src_chains_map
followed_disjoint_example =
    followed_disjoint (good 1000) (good 2000) none (some locked) started first_lock second_lock 3000
      refl refl refl refl refl (omega arith) refl

block_failure_strands_example :
    let o = wait_buddy_lock_confirm (env "0x1" (err timeout)) (some locked) first_lock in
    (o ≡ record { item = record first_lock { status = buddy_locked }; writes = 0 })
    × ((now : ℕ) → (can_redeem now o.item).code ≡ false)
    × ((env' : Env) (current : Option Status)
        → monitor_record env' current o.item ≡ unchanged o.item)
unfolding buddy_lock direction to_address get_src_chain_name_by_contract_addr is_in_src_chains_map
    block_of
block_failure_strands_example =
    block_failure_strands (env "0x1" (err timeout)) first_lock "0xbb" (receipt "0x1") timeout refl
      refl refl

coin_redeem_reverted_example :
    let r = crossing "ETH" eth_coin redeem_sent in
    wait_redeem_confirm (env "0x0" (ok 1)) r ≡ unchanged r
unfolding confirmed receipt_fail direction get_src_chain_name_by_contract_addr is_in_src_chains_map
coin_redeem_reverted_example =
    coin_redeem_reverted (env "0x0" (ok 1)) (crossing "ETH" eth_coin redeem_sent) (receipt "0x0")
      true eth_coin refl refl refl refl refl

rounds-Locks_example : Locks (rounds ((λ r. good 1000) ∷ (λ r. good 2000) ∷ []) started).status
rounds-Locks_example = rounds-Locks ((λ r. good 1000) ∷ (λ r. good 2000) ∷ []) started sent

-- The two locks are seen, and the token can then be redeemed.
follows : (monitor_record (good 1000) none started).item ≡ first_lock
unfolding monitor_record wait_lock_confirm lock_time
follows = refl
