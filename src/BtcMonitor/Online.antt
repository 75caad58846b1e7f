-- ===== src/BtcMonitor/Online.antt =====
-- `checkCrossHashOnline` of src/core/monitorBtc.js: is the storeman's side of a crossing there?
use Prim.Native.String.{◌++◌}
use wanchain_js_sdk.Prelude.{
  ℕ, String, Bool, true, false, Option, none, some, List, [], ◌∷◌, nat_beq, str_eq, ◌&&◌,
  if◌then◌else◌,
}
use wanchain_js_sdk.Prelude.Result.{Result, ok, err, ◌>>=◌}
use wanchain_js_sdk.BtcMonitor.Replies.{
  BtcRecord, BtcTx, DepositLock, Notice, BtcEnv, is_btc, has_confirmations,
}

-- the answer, and the record, which may have changed
pub record Online : Type 0 where
  pub found : Bool
  pub item : BtcRecord

abbrev offline : BtcRecord → Online
offline r = record { found = false; item = r }

-- the fields are set before the value is compared
deposit_online : List DepositLock → BtcRecord → Online
deposit_online [] r = offline r
deposit_online (l ∷ ls) r = record {
  found = nat_beq l.value r.value;
  item = record r { cross_confirmed = some 1; cross_lock_hash = some l.lock_hash };
}

-- the storeman's transaction pays the value to the address of the contract
withdraw_paid : Notice → String → ℕ × String → BtcRecord → Online
withdraw_paid n p2sh (value, addr) r =
    if nat_beq value r.value && str_eq addr p2sh
    then record {
      found = true;
      item = record r {
        cross_confirmed = some 1;
        cross_lock_hash = some n.notice_hash;
        storeman_btc_h160 = some n.storeman_btc_h160;
        btc_redeem_lock_time_stamp = some n.redeem_lock_time_stamp;
        btc_lock_tx_hash = n.btc_lock_tx_hash;
      };
    }
    else offline r

withdraw_sent : Notice → String → Option BtcTx → BtcRecord → Online
unfolding has_confirmations withdraw_paid
withdraw_sent n p2sh none r = offline r
withdraw_sent n p2sh (some tx) r =
    if has_confirmations 0 tx && nat_beq tx.locktime 0
    then (elim tx.paid [ none ↦ offline r | some paid ↦ withdraw_paid n p2sh paid r ])
    else offline r

withdraw_online : BtcEnv → List Notice → BtcRecord → Online
unfolding withdraw_sent
withdraw_online env [] r = offline r
withdraw_online env (n ∷ ns) r = elim (env.btc_transaction n.btc_lock_tx_hash) [
  | err e ↦ offline r
  | ok reply ↦
      elim (env.p2sh r.hash_x n.redeem_lock_time_stamp r.cross_address n.storeman_btc_h160) [
        | err e ↦ offline r
        | ok p2sh ↦ withdraw_sent n p2sh reply r
      ]
]

deposit_locks_of : BtcEnv → BtcRecord → Result (List DepositLock)
deposit_locks_of env r = do
  addr ← env.encode_topic ("0x" ++ r.cross_address)
  env.deposit_locks ("0x" ++ r.hash_x) addr

notices_of : BtcEnv → BtcRecord → Result (List Notice)
notices_of env r = do addr ← env.encode_topic r.cross_address; env.notices ("0x" ++ r.hash_x) addr

unfoldable pub check_cross_hash_online : BtcEnv → BtcRecord → Online
unfolding deposit_locks_of notices_of deposit_online withdraw_online
check_cross_hash_online env r =
    if is_btc r.chain
    then (elim (deposit_locks_of env r) [ err e ↦ offline r | ok logs ↦ deposit_online logs r ])
    else (elim (notices_of env r) [ err e ↦ offline r | ok logs ↦ withdraw_online env logs r ])
