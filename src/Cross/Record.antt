-- ===== src/Cross/Record.antt =====
-- The data of a cross-chain transaction, and the lock times.
use wanchain_js_sdk.Prelude.{ℕ, String, Bool, true, false, Option, none, some, ◌*◌}

-- Status.js, and the literals that the monitors write beside it
pub data Status : Type 0 where
  approve_sending approve_fail approve_send_fail approve_send_fail_after_retries : Status
  approve_sent approved : Status
  approve_zero_sending approve_zero_send_fail approve_zero_send_fail_after_retries : Status
  approve_zero_sent approved_zero : Status
  lock_sending lock_fail lock_send_fail lock_send_fail_after_retries lock_sent locked : Status
  buddy_locked : Status
  redeem_sending redeem_fail redeem_send_fail redeem_send_fail_after_retries : Status
  redeem_sent redeemed : Status
  revoke_sending revoke_fail revoke_send_fail revoke_send_fail_after_retries : Status
  revoke_sent revoked : Status
  sent_hash_failed suspending : Status

pub data ChainType : Type 0 where
  eth wan btc eos : ChainType

abbrev pub is_eos : ChainType → Bool
is_eos eos = true
is_eos _ = false

-- `tokenStand`: the coins of ETH, BTC and WAN have standards of their own
pub data TokenStand : Type 0 where
  eth_coin btc_coin wan_coin e20 eos_token : TokenStand

pub record CrossRecord : Type 0 where
  pub hash_x : String
  pub x : String
  pub to_addr : String
  pub src_chain_addr : String
  pub dst_chain_addr : String
  pub src_chain_type : ChainType
  pub dst_chain_type : ChainType
  pub token_stand : TokenStand
  pub contract_value : ℕ
  pub status : Status
  pub approve_tx_hash : String
  pub approve_zero_tx_hash : String
  pub lock_tx_hash : String
  pub redeem_tx_hash : String
  pub revoke_tx_hash : String
  pub buddy_lock_tx_hash : String
  pub locked_time : Option ℕ
  pub buddy_locked_time : Option ℕ
  pub htlc_time_out : Option ℕ
  pub buddy_locked_time_out : Option ℕ

-- `Number(text)`, which is 0 for ""
abbrev pub number : Option ℕ → ℕ
number none = 0
number (some t) = t

-- `global.lockedTime`, `lockedTimeE20` and `lockedTimeEOS`, in seconds
pub record LockTimes : Type 0 where
  pub locked_time : ℕ
  pub locked_time_e20 : ℕ
  pub locked_time_eos : ℕ

-- the lock time of a token standard, in milliseconds
unfoldable pub lock_time : LockTimes → TokenStand → ℕ
lock_time g e20 = g.locked_time_e20 * 1000
lock_time g eos_token = g.locked_time_eos * 1000
lock_time g _ = g.locked_time * 1000
