-- ===== src/TxData/Token.antt =====
-- The creators of src/trans/tx-data-creator/erc20 for crossings: approving, locking, redeeming and
-- revoking a token.
use wanchain_js_sdk.Prelude.{ℕ, String, Bool, Option, none, some, [], ◌∷◌, if◌then◌else◌}
use wanchain_js_sdk.Prelude.Result.{Result, ok, err, ◌>>=◌}
use wanchain_js_sdk.Cross.{eth, wan}
use wanchain_js_sdk.Hex.{hex_add0x}
use wanchain_js_sdk.Invoker.{same_chain}
use wanchain_js_sdk.Nonce.{NonceMap}
use wanchain_js_sdk.TxData.{
  Place, Kit, TxInput, TxConfig, CommonData, Made, token_to_wei_hex, get_gwei_to_wei,
  calculate_loc_wan_fee, ask_nonce, wan_type, required, caught,
}

module _ (kit : Kit) (config : TxConfig) (input : TxInput) where
  -- what the four classes share; there is no check of the input
  unfoldable pub token_data : String → Option Place → Made CommonData
  unfolding hex_add0x
  token_data contract place = do
    at ← required place
    addr ← kit.address_at input.chain_type at
    price ← get_gwei_to_wei kit input.gas_price
    ok (
        some (record {
          from = hex_add0x addr;
          to = contract;
          value = 0;
          gas_price = price;
          gas_limit = input.gas_limit;
          nonce = 0;
          tx_type = wan_type kit input.chain_type;
          chain_id = none;
          x = none;
          hash_x = none;
        }))

  -- the nonce for tests, or the account's: the classes do not look at a nonce of the input
  unfoldable pub token_asked : CommonData → NonceMap → Made CommonData × NonceMap
  unfolding ask_nonce
  token_asked cd m = elim input.test_or_not [
    | some n ↦ (ok (some (record cd { nonce = n })), m)
    | none ↦ ask_nonce kit cd input.chain_type m
  ]

  unfoldable pub then_asked : Made CommonData → NonceMap → Made CommonData × NonceMap
  unfolding token_asked
  then_asked (err e) m = (err e, m)
  then_asked (ok none) m = (ok none, m)
  then_asked (ok (some cd)) m = token_asked cd m

  abbrev pub on_wan : Bool
  on_wan = same_chain input.chain_type wan

  -- the preimage and its hash, made after the nonce; their exception is an answer
  abbrev keyed : Made CommonData → Made CommonData
  keyed (err e) = err e
  keyed (ok none) = ok none
  keyed (ok (some cd)) = caught (do
    x ← elim input.x [ none ↦ kit.generate_private_key | some x ↦ ok x ]
    ok (record cd { x = some x; hash_x = some (kit.hash_key x) }))

  unfoldable pub approve_common_data : NonceMap → Made CommonData × NonceMap
  unfolding token_data then_asked
  approve_common_data m =
      let (made, m') =
        then_asked
          (token_data (if on_wan then config.buddy_sc_addr else config.src_sc_addr) input.from) m in
      (keyed made, m')

  unfoldable pub approve_contract_data : Made String
  approve_contract_data = caught (do
    value ← token_to_wei_hex kit input.amount config.token_decimals
    kit.encode config.src_sc_addr config.approve_sc_func
        (config.mid_sc_addr ∷ kit.hex_of value ∷ []))

  -- the fee of a lock on Wanchain, which is made after the nonce and is not caught
  abbrev pub lock_value : Result ℕ
  lock_value =
      if on_wan
      then (do calculate_loc_wan_fee kit input.amount config.token_to_wan_ratio input.tx_fee_ratio)
      else ok 0

  abbrev pub valued : Made CommonData → Made CommonData
  valued (err e) = err e
  valued (ok none) = lock_value >>= (λ v. ok none)
  valued (ok (some cd)) = do
    v ← lock_value
    ok (some (record cd { value = v; x = input.x; hash_x = input.hash_x }))

  unfoldable pub token_lock_common_data : NonceMap → Made CommonData × NonceMap
  unfolding token_data then_asked calculate_loc_wan_fee
  token_lock_common_data m =
      let (made, m') = then_asked (token_data config.mid_sc_addr input.from) m in (valued made, m')

  -- the address on the other chain
  unfoldable pub token_lock_contract_data : Made String
  unfolding hex_add0x
  token_lock_contract_data = caught (do
    to ← required input.to
    addr ← kit.address_at (if on_wan then eth else wan) to
    h ← required input.hash_x
    storeman ← required input.storeman
    value ← token_to_wei_hex kit input.amount config.token_decimals
    kit.encode config.mid_sc_addr config.lock_sc_func
        (config.src_sc_addr ∷ h ∷ storeman ∷ hex_add0x addr ∷ kit.hex_of value ∷ []))

  -- `place` is the record's `to` for a redemption, and its `from` for a revocation
  unfoldable pub token_redeem_common_data : Option Place → NonceMap → Made CommonData × NonceMap
  unfolding token_data then_asked
  token_redeem_common_data place m = then_asked (token_data config.dst_sc_addr place) m

  -- `x` is the record's, which the input gets with the common data
  unfoldable pub token_redeem_contract_data : String → Made String
  token_redeem_contract_data x =
      caught (kit.encode config.mid_sc_addr config.redeem_sc_func (config.src_sc_addr ∷ x ∷ []))

  unfoldable pub token_revoke_common_data : Option Place → NonceMap → Made CommonData × NonceMap
  unfolding token_data then_asked
  token_revoke_common_data place m = then_asked (token_data config.mid_sc_addr place) m

  unfoldable pub token_revoke_contract_data : Made String
  token_revoke_contract_data = caught (do
    h ← required input.hash_x
    kit.encode config.mid_sc_addr config.revoke_sc_func (config.src_sc_addr ∷ h ∷ []))
