-- ===== src/Monitor/CrossType.antt =====
-- `checkCrossType`, `getRevokeEvent` and `getRedeemEvent` of src/core/monitor.js.
use wanchain_js_sdk.Prelude.{String, Bool, Option, none, some, List, [], ◌∷◌, if◌then◌else◌}
use wanchain_js_sdk.Prelude.Result.{Result, ok, err, type_error, ◌>>=◌}
use wanchain_js_sdk.Cross.{ChainType, is_eos, TokenStand, e20, eos_token, CrossRecord}
use wanchain_js_sdk.Invoker.{get_src_chain_name_by_contract_addr, is_in_src_chains_map}
use wanchain_js_sdk.Monitor.Replies.{Env, Log, Purpose, revoke, Kind, e20_kind, eos_kind}

-- `toAddress`: the topic of the address, or on EOS the address
unfoldable pub to_address : Env → CrossRecord → Result String
to_address env r = if is_eos r.dst_chain_type then ok r.to_addr else env.net.encode_topic r.to_addr

-- a name that is not there is `null`, and reading its fields throws
abbrev pub dereference {ℓ} : {A : Type ℓ} → Option A → Result A
dereference none = err type_error
dereference (some a) = ok a

-- `bInbound`, and the standard of the token that crosses, `chainNameItem[1].tokenStand`
unfoldable pub direction : Env → CrossRecord → Result (Bool × TokenStand)
direction env r = do
  let src = get_src_chain_name_by_contract_addr env.invoker r.src_chain_addr r.src_chain_type
  let dst = get_src_chain_name_by_contract_addr env.invoker r.dst_chain_addr r.dst_chain_type
  name ← dereference src
  let inbound = is_in_src_chains_map env.invoker name
  item ← dereference (if inbound then src else dst)
  ok (inbound, item.1.token_stand)

pub record CrossType : Type 0 where
  pub inbound : Bool
  pub kind : Kind
  pub to_address : String

abbrev typed : TokenStand → Bool → String → Option CrossType
typed e20 inbound addr = some (record { inbound = inbound; kind = e20_kind; to_address = addr })
typed eos_token inbound addr =
    some (record { inbound = inbound; kind = eos_kind; to_address = addr })
typed _ inbound addr = none

-- `none` is `undefined`: the function falls off its end for a coin
unfoldable pub check_cross_type : Env → CrossRecord → Result (Option CrossType)
check_cross_type env r = do addr ← to_address env r; d ← direction env r; ok (typed d.1 d.0 addr)

-- the chain that is asked: that of the redeeming or of the revoking transaction
unfoldable pub event_chain : Purpose → CrossRecord → ChainType
event_chain revoke r = r.src_chain_type
event_chain _ r = r.dst_chain_type

abbrev pub first_of_logs : List Log → Option Log
first_of_logs [] = none
first_of_logs (l ∷ ls) = some l

-- `getRedeemEvent` and `getRevokeEvent`. `none` is `null`; otherwise the first of the logs, which
-- is all that the callers read.
unfoldable pub event_of : Purpose → Env → CrossRecord → Result (Option Log)
unfolding check_cross_type event_chain
event_of p env r = do
  found ← check_cross_type env r
  t ← dereference found
  logs ← env.net.events p t.inbound t.kind (event_chain p r) r.hash_x t.to_address
  ok (first_of_logs logs)
