-- ===== src/BtcPipeline.antt =====
-- src/trans/cross-chain/btc: the stages with which crossings of BTC and WBTC are locked, noticed,
-- redeemed and revoked. The other stages, the creators and signers of data, are those of `base`.
pub mod Recorded
pub mod Noticed
pub mod Ended
pub mod Watched
mod Examples
use wanchain_js_sdk.Prelude.{
  ℕ, String, Bool, true, false, Option, none, some, List, [], ◌∷◌, str_eq, if◌then◌else◌,
}
use wanchain_js_sdk.Cross.{
  ChainType, eth, wan, btc, eos, lock_sending, redeem_sending, revoke_sending, sent_hash_failed,
}
use wanchain_js_sdk.Items.{Db, insert_item}
use wanchain_js_sdk.BtcMonitor.Replies.{BtcRecord, is_btc}
use wanchain_js_sdk.Hex.{hex_trip0x, hex_add0x}
use wanchain_js_sdk.Pipeline.{Stage, passed, refused, threw, Methods, Run, run, change_found}
use wanchain_js_sdk.NormalChain.Classes.{has_all}

abbrev pub by_btc_hash : String → BtcRecord → Bool
by_btc_hash h r = str_eq r.hash_x h

-- `createTrans`, `createDataCreator` and `createDataSign` of a lock, a redemption and a revocation
unfoldable pub btc_stage : ChainType → Stage
btc_stage btc = passed
btc_stage wan = passed
btc_stage eth = refused
btc_stage eos = refused

-- where a record that is missing gives an answer, and not an exception
abbrev pub or_answer {ℓ} : {R : Type ℓ} → Stage → Stage × Db R → Stage × Db R
or_answer answer (threw, db) = (answer, db)
or_answer answer (passed, db) = (passed, db)
or_answer answer (refused, db) = (refused, db)

-- What a lock reads of its input and of the common data, and the time. `from_addr` is the Wanchain
-- address of the notice, the text of `wan_address`.
pub record BtcLock : Type 0 where
  pub chain : ChainType
  pub hash_x : String
  pub h160_cross_addr : String
  pub cross_addr : Option String
  pub wan_address : Option String
  pub from_addr : String
  pub value : ℕ
  pub amount : ℕ
  pub redeem_lock_time_stamp : ℕ
  pub now : ℕ

-- the attributes that a notice wants
abbrev pub notice_attributes : List String
notice_attributes =
    "from" ∷ "storeman" ∷ "userH160" ∷ "gasPrice" ∷ "gas" ∷ "hashX" ∷ "txHash" ∷ "lockedTimestamp"
    ∷ []

-- the attributes of the input that `run` of the lock makes for the notice, but for the password
abbrev pub notice_given : List String
notice_given =
    "storeman" ∷ "gasPrice" ∷ "gas" ∷ "walletID" ∷ "BIP44Path" ∷ "from" ∷ "userH160" ∷ "hashX"
    ∷ "txHash" ∷ "lockedTimestamp" ∷ "chainType" ∷ []

module _ (l : BtcLock) where
  abbrev pub lock_hash : String
  lock_hash = hex_trip0x l.hash_x

  unfoldable pub btc_lock_record : BtcRecord
  unfolding hex_trip0x
  btc_lock_record = record {
    hash_x = hex_trip0x l.hash_x;
    chain = l.chain;
    cross_address = if is_btc l.chain then "" else l.h160_cross_addr;
    value = if is_btc l.chain then l.value else l.amount;
    status = lock_sending;
    time = l.now;
    lock_confirmed = 0;
    refund_confirmed = 0;
    revoke_confirmed = 0;
    cross_confirmed = none;
    cross_lock_hash = none;
    storeman_btc_h160 = none;
    btc_redeem_lock_time_stamp = if is_btc l.chain then some l.redeem_lock_time_stamp else some 0;
    lock_tx_hash = "";
    refund_tx_hash = "";
    revoke_tx_hash = "";
    btc_lock_tx_hash = "";
    btc_refund_tx_hash = "";
    btc_revoke_tx_hash = "";
    btc_notice_txhash = "";
    btc_cross_addr = none;
    wan_address = none;
  }

  -- the BTC's own hash is kept as it is
  unfoldable pub btc_locked_by : String → BtcRecord → BtcRecord
  unfolding hex_trip0x
  btc_locked_by tx r =
      if is_btc l.chain
      then record r { btc_lock_tx_hash = tx }
      else record r { lock_tx_hash = hex_trip0x tx; btc_cross_addr = l.cross_addr }

  unfoldable pub btc_lock_methods : Methods (Db BtcRecord) → Methods (Db BtcRecord)
  unfolding btc_stage btc_lock_record btc_locked_by hex_trip0x change_found insert_item
  btc_lock_methods base = record base {
    create_trans = btc_stage l.chain;
    create_data_creator = btc_stage l.chain;
    create_data_sign = btc_stage l.chain;
    pre_send_trans = λ db. (passed, insert_item btc_lock_record db);
    trans_failed = λ db.
        or_answer passed
          (change_found (by_btc_hash lock_hash) (λ r. record r { status = sent_hash_failed }) db);
    post_send_trans =
        λ tx db. or_answer refused (change_found (by_btc_hash lock_hash) (btc_locked_by tx) db);
  }

  -- CrossChainBtcLockNotice
  unfoldable pub btc_noticed_by : String → BtcRecord → BtcRecord
  unfolding hex_trip0x
  btc_noticed_by tx r = record r {
    cross_address = hex_trip0x l.from_addr;
    wan_address = l.wan_address;
    btc_notice_txhash = hex_trip0x tx;
    status = lock_sending;
  }

  unfoldable pub btc_notice_methods : List String → Methods (Db BtcRecord) → Methods (Db BtcRecord)
  unfolding has_all btc_noticed_by hex_trip0x hex_add0x change_found
  btc_notice_methods given base = record base {
    check_pre_condition = if has_all notice_attributes given then passed else refused;
    create_trans = passed;
    create_data_creator = passed;
    create_data_sign = passed;
    pre_send_trans = λ db. (passed, db);
    trans_failed = λ db. (passed, db);
    post_send_trans = λ tx db.
        or_answer refused
          (change_found (by_btc_hash (hex_trip0x (hex_add0x l.hash_x))) (btc_noticed_by tx) db);
  }

  unfoldable pub btc_notice_run : Methods (Db BtcRecord) → ℕ → Db BtcRecord → Run (Db BtcRecord)
  unfolding btc_notice_methods
  btc_notice_run base try_times db = run (btc_notice_methods notice_given base) try_times db

  -- the answer is that of the notice, if its input can be made: without `wanAddress` there is an
  -- exception, which is caught
  unfoldable pub btc_after_lock :
      Methods (Db BtcRecord) → ℕ → Run (Db BtcRecord) → Run (Db BtcRecord)
  unfolding btc_notice_run
  btc_after_lock notice_base try_times o =
      let noticed = btc_notice_run notice_base try_times o.state in
      if o.code
      then if is_btc l.chain then elim l.wan_address [ none ↦ o | some a ↦ noticed ] else o
      else o

  -- no nonce goes back for a lock of BTC
  abbrev pub without_holes : Run (Db BtcRecord) → Run (Db BtcRecord)
  without_holes o = if is_btc l.chain then record o { holes = 0 } else o

  unfoldable pub btc_lock :
      Methods (Db BtcRecord) → Methods (Db BtcRecord) → ℕ → Db BtcRecord → Run (Db BtcRecord)
  unfolding btc_after_lock btc_lock_methods
  btc_lock base notice_base try_times db =
      btc_after_lock notice_base try_times
        (without_holes (run (btc_lock_methods base) try_times db))

-- CrossChainBtcRedeem: `x` and `hash_x` are of the input, and `sha256` is the hash of bitcoinjs-lib,
-- of and into hexadecimal text
module _ (sha256 : String → String) (chain : ChainType) (x hash_x : String) where
  unfoldable pub redeemed_hash : String
  unfolding hex_trip0x
  redeemed_hash = if is_btc chain then sha256 (hex_trip0x x) else hash_x

  unfoldable pub btc_redeemed_by : String → BtcRecord → BtcRecord
  unfolding hex_trip0x
  btc_redeemed_by tx r =
      if is_btc chain
      then record r { refund_tx_hash = hex_trip0x tx; status = redeem_sending }
      else record r { btc_refund_tx_hash = hex_trip0x tx; status = redeem_sending }

  unfoldable pub btc_redeem_methods : Methods (Db BtcRecord) → Methods (Db BtcRecord)
  unfolding btc_stage redeemed_hash btc_redeemed_by change_found
  btc_redeem_methods base = record base {
    create_trans = btc_stage chain;
    create_data_creator = btc_stage chain;
    create_data_sign = btc_stage chain;
    pre_send_trans = λ db. (passed, db);
    trans_failed = λ db. (passed, db);
    post_send_trans = λ tx. change_found (by_btc_hash redeemed_hash) (btc_redeemed_by tx);
  }

-- CrossChainBtcRevoke; a record that is missing is an answer, not an exception
module _ (chain : ChainType) (hash_x : String) where
  unfoldable pub btc_revoked_by : String → BtcRecord → BtcRecord
  unfolding hex_trip0x
  btc_revoked_by tx r =
      if is_btc chain
      then record r { btc_revoke_tx_hash = hex_trip0x tx; status = revoke_sending }
      else record r { revoke_tx_hash = hex_trip0x tx; status = revoke_sending }

  unfoldable pub btc_revoke_methods : Methods (Db BtcRecord) → Methods (Db BtcRecord)
  unfolding btc_stage btc_revoked_by change_found
  btc_revoke_methods base = record base {
    create_trans = btc_stage chain;
    create_data_creator = btc_stage chain;
    create_data_sign = btc_stage chain;
    pre_send_trans = λ db. (passed, db);
    trans_failed = λ db. (passed, db);
    post_send_trans =
        λ tx db. or_answer passed (change_found (by_btc_hash hash_x) (btc_revoked_by tx) db);
  }
