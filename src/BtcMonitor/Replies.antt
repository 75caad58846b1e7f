-- ===== src/BtcMonitor/Replies.antt =====
-- The record of a crossing of BTC as src/trans/cross-chain/btc makes it, and what
-- src/core/monitorBtc.js reads from outside: the replies of the Bitcoin node and of Wanchain.
use wanchain_js_sdk.Prelude.{ℕ, String, Bool, true, false, Option, none, some, List, ltb, leb, ◌&&◌}
use wanchain_js_sdk.Prelude.Result.{Result, ok, err}
use wanchain_js_sdk.Cross.{ChainType, btc, Status}
use wanchain_js_sdk.Monitor.Replies.{Receipt}

-- "" is a transaction that was not sent; the address in a wallet of the user is a text
pub record BtcRecord : Type 0 where
  pub hash_x : String
  pub chain : ChainType
  pub cross_address : String
  pub value : ℕ
  pub status : Status
  pub time : ℕ
  pub lock_confirmed : ℕ
  pub refund_confirmed : ℕ
  pub revoke_confirmed : ℕ
  pub cross_confirmed : Option ℕ
  pub cross_lock_hash : Option String
  pub storeman_btc_h160 : Option String
  pub btc_redeem_lock_time_stamp : Option ℕ
  pub lock_tx_hash : String
  pub refund_tx_hash : String
  pub revoke_tx_hash : String
  pub btc_lock_tx_hash : String
  pub btc_refund_tx_hash : String
  pub btc_revoke_tx_hash : String
  pub btc_notice_txhash : String
  pub btc_cross_addr : Option String
  pub wan_address : Option String

-- `value` is `vout[0].value` in satoshi and `p2sh` the first address of `vout[0]`: `none`, where
-- reading them throws
pub record BtcTx : Type 0 where
  pub confirmations : Option ℕ
  pub locktime : ℕ
  pub paid : Option (ℕ × String)

-- the storeman's lock of a deposit
pub record DepositLock : Type 0 where
  pub lock_hash : String
  pub value : ℕ

-- the storeman's notice of a withdrawal: the slices of its data and of its second topic
pub record Notice : Type 0 where
  pub notice_hash : String
  pub btc_lock_tx_hash : String
  pub redeem_lock_time_stamp : ℕ
  pub storeman_btc_h160 : String

-- The functions of ccUtil.js that ask the chains, and `hashtimelockcontract(...).p2sh`.
pub record BtcEnv : Type 0 where
  pub confirm_blocks : ℕ
  pub btc_confirm_blocks : ℕ
  pub wait_confirm : String → ℕ → Result (Option Receipt)
  pub block_time : Option ℕ → Result ℕ
  pub btc_transaction : String → Result (Option BtcTx)
  pub encode_topic : String → Result String
  pub deposit_locks : String → String → Result (List DepositLock)
  pub notices : String → String → Result (List Notice)
  pub p2sh : String → ℕ → String → String → Result String

abbrev pub is_btc : ChainType → Bool
is_btc btc = true
is_btc _ = false

-- an exception and a missing reply end a handler in the same way
abbrev pub reply_of {ℓ} : {A : Type ℓ} → Result (Option A) → Option A
reply_of (err e) = none
reply_of (ok reply) = reply

-- `confirmations && confirmations >= n`
unfoldable pub has_confirmations : ℕ → BtcTx → Bool
has_confirmations n tx = elim tx.confirmations [ none ↦ false | some c ↦ ltb 0 c && leb n c ]

-- `btcTx && btcTx.confirmations && btcTx.confirmations >= n`
unfoldable pub btc_confirmed : ℕ → Result (Option BtcTx) → Bool
unfolding has_confirmations
btc_confirmed n reply = elim (reply_of reply) [ none ↦ false | some tx ↦ has_confirmations n tx ]

pub record Outcome : Type 0 where
  pub item : BtcRecord
  pub writes : ℕ

abbrev pub unchanged : BtcRecord → Outcome
unchanged r = record { item = r; writes = 0 }

abbrev pub written : BtcRecord → Outcome
written r = record { item = r; writes = 1 }
