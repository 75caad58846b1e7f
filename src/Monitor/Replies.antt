-- ===== src/Monitor/Replies.antt =====
-- What the monitor of src/core/monitor.js reads from outside: the replies of the chains, which
-- arrive through the RPC client, and the configuration.
use wanchain_js_sdk.Prelude.{
  ℕ, String, Bool, true, false, Option, none, some, List, str_eq, ◌&&◌, ◌||◌, not, if◌then◌else◌,
}
use wanchain_js_sdk.Prelude.Result.{Result, ok, err, type_error}
use wanchain_js_sdk.Cross.{ChainType, is_eos, CrossRecord, LockTimes}
use wanchain_js_sdk.Invoker.{Invoker}

-- A receipt as a reply of the server. `none` is a missing property; `trx` is
-- `receipt.trx.receipt.status`.
pub record Receipt : Type 0 where
  pub block_number : Option ℕ
  pub status : Option String
  pub block_num : Option ℕ
  pub trx : Option String

-- An event, decoded. `value` is `args.value`, or the quantity of an EOS action in its last decimal.
pub record Log : Type 0 where
  pub transaction_hash : Option String
  pub value : ℕ

pub data Purpose : Type 0 where
  stg_lock redeem revoke : Purpose

pub data Kind : Type 0 where
  e20_kind eos_kind coin_kind : Kind

-- `events purpose inbound kind` is the function of ccUtil.js of that name:
-- `events redeem true e20_kind` is `getInErc20RedeemEvent`. A block's time is that of `newTime`.
pub record Network : Type 0 where
  pub wait_confirm : String → ℕ → ChainType → Result (Option Receipt)
  pub block_time : Option ℕ → ChainType → Result ℕ
  pub encode_topic : String → Result String
  pub events : Purpose → Bool → Kind → ChainType → String → String → Result (List Log)

pub record Env : Type 0 where
  pub net : Network
  pub invoker : Invoker
  pub times : LockTimes
  pub confirm_blocks : ℕ

abbrev pub present {ℓ} : {A : Type ℓ} → Option A → Bool
present none = false
present (some a) = true

abbrev pub is_text : String → Option String → Bool
is_text s none = false
is_text s (some t) = str_eq t s

-- `hasOwnProperty('blockNumber') && receipt.status === '0x1'`
unfoldable pub mined : Receipt → Bool
mined rc = present rc.block_number && is_text "0x1" rc.status

-- `receipt.trx.receipt.status === 'executed'`
unfoldable pub executed : Receipt → Result Bool
executed rc = elim rc.trx [ none ↦ err type_error | some s ↦ ok (str_eq s "executed") ]

-- the condition under which a receipt confirms a transaction on `chain`
unfoldable pub confirmed : ChainType → Receipt → Result Bool
unfolding mined executed
confirmed chain rc =
    if mined rc
    then ok true
    else if is_eos chain && present rc.block_num
    then executed rc
    else ok false

unfoldable pub block_of : ChainType → Receipt → Option ℕ
block_of chain rc = if is_eos chain then rc.block_num else rc.block_number

-- `receiptFailOrNot`, for a receipt that is there
unfoldable pub receipt_fail : Receipt → CrossRecord → Bool
receipt_fail rc r = not (
    is_text "0x1" rc.status
    || is_eos r.src_chain_type && is_text "executed" rc.trx
    || is_eos r.dst_chain_type && is_text "executed" rc.trx)

-- What is left of a handler: the record, and how often `updateRecord` wrote it. An exception ends
-- a handler with what it has changed so far.
pub record Outcome : Type 0 where
  pub item : CrossRecord
  pub writes : ℕ

abbrev pub unchanged : CrossRecord → Outcome
unchanged r = record { item = r; writes = 0 }

abbrev pub written : CrossRecord → Outcome
written r = record { item = r; writes = 1 }
