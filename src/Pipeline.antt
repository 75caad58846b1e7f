-- ===== src/Pipeline.antt =====
-- `run` of src/trans/cross-chain/common/CrossChain.js: the stages of a transaction, with the nonce
-- that goes back to the list of holes when one of them fails, and the methods with which
-- src/trans/cross-chain/eth/CrossChainEthLock.js overrides the stages that write the database.
pub mod Changes
pub mod Kept
pub mod Sending
pub mod Closing
pub mod Approving
pub mod TokenLock
pub mod Locked
pub mod Stranded
pub mod Apart
pub mod Closed
pub mod Outcomes
mod Examples
mod TokenExamples
use wanchain_js_sdk.Prelude.{
  ℕ, zero, suc, String, ◌+◌, Bool, true, false, Option, none, some, str_eq, if◌then◌else◌,
}
use wanchain_js_sdk.Prelude.Result.{Result, ok, err}
use wanchain_js_sdk.Cross.{CrossRecord, lock_sending, lock_sent, lock_fail}
use wanchain_js_sdk.Items.{Db, insert_item, update_item, get_item}

-- how a stage ends: `ret.code` is true or false, or an exception is thrown
pub data Stage : Type 0 where
  passed refused threw : Stage

-- an attempt of `sendTrans`: the hash of the answer, the hash in an exception "known transaction",
-- or another exception
pub data Attempt : Type 0 where
  sent : String → Attempt
  known : String → Attempt
  failed : Attempt

-- The methods of a class that extends CrossChain, over the state `S` of the database. What they
-- compute for the next stage is left out.
pub record Methods (S : Type 0) : Type 0 where
  pub check_pre_condition : Stage
  pub create_trans : Stage
  pub create_data_creator : Stage
  pub create_data_sign : Stage
  pub create_common_data : Stage
  pub create_contract_data : Stage
  pub sign : Stage
  pub pre_send_trans : S → Stage × S
  pub send_trans : ℕ → Attempt
  pub trans_failed : S → Stage × S
  pub post_send_trans : String → S → Stage × S

-- `rejected`: an exception of `transFailed` leaves `run`, and there is no `code`. `holes` is how
-- often `addNonceHoleToList` was called, which finds no nonce and does nothing before the common
-- data is set; `hash` is the transaction that was sent
pub record Run (S : Type 0) : Type 0 where
  pub code : Bool
  pub rejected : Bool
  pub state : S
  pub holes : ℕ
  pub hash : Option String

module _ {S : Type 0} (m : Methods S) where
  abbrev pub stopped : ℕ → S → Run S
  stopped holes s = record { code = false; rejected = false; state = s; holes = holes; hash = none }

  -- a stage of the first block before the data is made: only an exception gives a nonce back
  unfoldable pub early : Stage → S → Run S → Run S
  early passed s next = next
  early refused s next = stopped 0 s
  early threw s next = stopped 1 s

  unfoldable pub late : Stage → S → Run S → Run S
  late passed s next = next
  late refused s next = stopped 1 s
  late threw s next = stopped 1 s

  abbrev hash_of : Attempt → Option String
  hash_of (sent h) = some h
  hash_of (known h) = some h
  hash_of failed = none

  -- the loop over `tryTimes` attempts, from attempt `i` on
  unfoldable pub attempts : ℕ → ℕ → Option String
  attempts zero i = none
  attempts (suc n) i =
      let later = attempts n (i + 1) in
      elim (hash_of (m.send_trans i)) [ none ↦ later | some h ↦ some h ]

  unfoldable pub posted : String → Stage × S → Run S
  posted h (passed, s) = record {
    code = true;
    rejected = false;
    state = s;
    holes = 0;
    hash = some h;
  }
  posted h (refused, s) = record {
    code = true;
    rejected = false;
    state = s;
    holes = 0;
    hash = some h;
  }
  posted h (threw, s) = record {
    code = false;
    rejected = false;
    state = s;
    holes = 0;
    hash = some h;
  }

  unfoldable pub failed_by : Stage × S → Run S
  failed_by (threw, s) = record (stopped 1 s) { rejected = true }
  failed_by (passed, s) = stopped 1 s
  failed_by (refused, s) = stopped 1 s

  -- after the loop; the nonce is given back before `transFailed`
  unfoldable pub concluded : Option String → S → Run S
  unfolding posted failed_by
  concluded none s = failed_by (m.trans_failed s)
  concluded (some h) s = posted h (m.post_send_trans h s)

  unfoldable pub send : ℕ → S → Run S
  unfolding attempts concluded
  send try_times s = concluded (attempts try_times 0) s

  -- the stages up to `preSendTrans`, which `next` goes on from
  unfoldable pub staged : (S → Run S) → S → Run S
  unfolding early late
  staged next s = early m.check_pre_condition s (
      early m.create_trans s (
        early m.create_data_creator s (
          early m.create_data_sign s (
            late m.create_common_data s (
              late m.create_contract_data s (
                late m.sign s (
                  late (m.pre_send_trans s).0 (m.pre_send_trans s).1
                    (next (m.pre_send_trans s).1))))))))

  unfoldable pub run : ℕ → S → Run S
  unfolding staged send
  run try_times s = staged (send try_times) s

-- `getItem`, a change of the item, and `updateItem`; without an item the change throws
unfoldable pub change_found {ℓ} : {R : Type ℓ} → (R → Bool) → (R → R) → Db R → Stage × Db R
unfolding get_item update_item
change_found test change db = elim (get_item test db) [
  | none ↦ (threw, db)
  | some r ↦ (passed, update_item test change db)
]

abbrev pub by_hash_x : String → CrossRecord → Bool
by_hash_x h r = str_eq r.hash_x h

unfoldable pub change_item :
    String → (CrossRecord → CrossRecord) → Db CrossRecord → Stage × Db CrossRecord
unfolding change_found
change_item h change db = change_found (by_hash_x h) change db

-- CrossChainEthLock: `r` is the record that `preSendTrans` inserts; its own fields are `input`
module _ (r : CrossRecord) where
  unfoldable pub lock_pre_send_trans : Db CrossRecord → Stage × Db CrossRecord
  unfolding insert_item
  lock_pre_send_trans db = (passed, insert_item (record r { status = lock_sending }) db)

  unfoldable pub lock_trans_failed : Db CrossRecord → Stage × Db CrossRecord
  unfolding change_item
  lock_trans_failed db = change_item r.hash_x (λ old. record old { status = lock_fail }) db

  unfoldable pub lock_post_send_trans : String → Db CrossRecord → Stage × Db CrossRecord
  unfolding change_item
  lock_post_send_trans h db =
      change_item r.hash_x (λ old. record old { status = lock_sent; lock_tx_hash = h }) db

  -- the other stages are those of `base`
  abbrev pub lock_methods : Methods (Db CrossRecord) → Methods (Db CrossRecord)
  lock_methods base = record base {
    pre_send_trans = lock_pre_send_trans;
    trans_failed = lock_trans_failed;
    post_send_trans = lock_post_send_trans;
  }
