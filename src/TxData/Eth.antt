-- ===== src/TxData/Eth.antt =====
-- The creators of src/trans/tx-data-creator/eth for crossings: locking, redeeming and revoking.
use wanchain_js_sdk.Prelude.{ℕ, String, Option, none, some, [], ◌∷◌}
use wanchain_js_sdk.Prelude.Result.{Result, ok, err, type_error, ◌>>=◌}
use wanchain_js_sdk.Cross.{ChainType, eth, wan, btc, eos}
use wanchain_js_sdk.Hex.{hex_add0x}
use wanchain_js_sdk.Nonce.{NonceMap}
use wanchain_js_sdk.TxData.{
  Place, Kit, TxInput, TxConfig, CommonData, Made, token_to_wei_hex, get_gwei_to_wei,
  calculate_loc_wan_fee, then_nonce, wan_type, required, caught,
}

module _ (kit : Kit) (config : TxConfig) (input : TxInput) where
  -- the fee on Wanchain, the amount on Ethereum; on another chain RuntimeError is called without new
  unfoldable pub eth_lock_value : Option String → ChainType → Result ℕ
  unfolding calculate_loc_wan_fee
  eth_lock_value amount wan = do
    ratio ← kit.coin_to_wan_ratio
    calculate_loc_wan_fee kit amount ratio input.tx_fee_ratio
  eth_lock_value amount eth = token_to_wei_hex kit amount config.token_decimals
  eth_lock_value amount btc = err type_error
  eth_lock_value amount eos = err type_error

  -- a missing attribute throws: InvalidParameter is called without new
  unfoldable pub eth_lock_data : Made CommonData
  unfolding eth_lock_value hex_add0x
  eth_lock_data = do
    from ← required input.from
    to ← required input.to
    storeman ← required input.storeman
    amount ← required input.amount
    gas_price ← required input.gas_price
    gas_limit ← required input.gas_limit
    value ← eth_lock_value (some amount) input.chain_type
    addr ← kit.address_at input.chain_type from
    price ← get_gwei_to_wei kit (some gas_price)
    ok (
        some (record {
          from = hex_add0x addr;
          to = config.mid_sc_addr;
          value = value;
          gas_price = price;
          gas_limit = some gas_limit;
          nonce = 0;
          tx_type = wan_type kit input.chain_type;
          chain_id = none;
          x = none;
          hash_x = none;
        }))

  unfoldable pub eth_lock_common_data : NonceMap → Made CommonData × NonceMap
  unfolding eth_lock_data then_nonce
  eth_lock_common_data m = then_nonce kit input.nonce input.chain_type eth_lock_data m

  -- what a lock makes of its contract's call, with the preimage and the hash that the input gets
  unfoldable pub eth_lock_call : Result (String × String × String)
  unfolding hex_add0x
  eth_lock_call = do
    x ← elim input.x [ none ↦ kit.generate_private_key | some x ↦ ok x ]
    storeman ← required input.storeman
    to ← required input.to
    call ← elim input.chain_type [
      | eth ↦ (do
        addr ← kit.address_at wan to
        kit.encode config.mid_sc_addr config.lock_sc_func
            (kit.hash_key x ∷ storeman ∷ hex_add0x addr ∷ []))
      | wan ↦ (do
        addr ← kit.address_at eth to
        value ← token_to_wei_hex kit input.amount config.token_decimals
        kit.encode config.mid_sc_addr config.lock_sc_func
            (kit.hash_key x ∷ storeman ∷ hex_add0x addr ∷ kit.hex_of value ∷ []))
      | btc ↦ err type_error
      | eos ↦ err type_error
    ]
    ok (call, x, kit.hash_key x)

  unfoldable pub eth_lock_contract_data : Made (String × String × String)
  unfolding eth_lock_call
  eth_lock_contract_data = caught eth_lock_call

  -- a missing attribute is an answer; a record that is not there throws. `place` is where the record
  -- has the address that pays: its `to` for a redemption, and its `from` for a revocation.
  unfoldable pub eth_close_data : String → Option Place → Made CommonData
  unfolding hex_add0x
  eth_close_data contract place = elim input.hash_x [
    | none ↦ ok none
    | some h ↦ elim input.gas_price [
      | none ↦ ok none
      | some gas_price ↦ elim input.gas_limit [
        | none ↦ ok none
        | some gas_limit ↦ do
          at ← required place
          addr ← kit.address_at input.chain_type at
          price ← get_gwei_to_wei kit (some gas_price)
          ok (
              some (record {
                from = hex_add0x addr;
                to = contract;
                value = 0;
                gas_price = price;
                gas_limit = some gas_limit;
                nonce = 0;
                tx_type = wan_type kit input.chain_type;
                chain_id = none;
                x = none;
                hash_x = none;
              }))
      ]
    ]
  ]

  unfoldable pub eth_redeem_common_data : Option Place → NonceMap → Made CommonData × NonceMap
  unfolding eth_close_data then_nonce
  eth_redeem_common_data place m =
      then_nonce kit input.nonce input.chain_type
        (elim input.x [ none ↦ ok none | some x ↦ eth_close_data config.dst_sc_addr place ]) m

  unfoldable pub eth_redeem_contract_data : Made String
  eth_redeem_contract_data =
      caught
        (required input.x >>= (λ x. kit.encode config.dst_sc_addr config.redeem_sc_func (x ∷ [])))

  unfoldable pub eth_revoke_common_data : Option Place → NonceMap → Made CommonData × NonceMap
  unfolding eth_close_data then_nonce
  eth_revoke_common_data place m =
      then_nonce kit input.nonce input.chain_type (eth_close_data config.src_sc_addr place) m

  unfoldable pub eth_revoke_contract_data : Made String
  eth_revoke_contract_data = caught (
      required input.hash_x >>= (λ h. kit.encode config.dst_sc_addr config.revoke_sc_func (h ∷ [])))
