-- ===== src/TxData/Stake.antt =====
-- The creators of src/trans/tx-data-creator/wan that stake and delegate. The contract's address and
-- the other inputs of a call are arguments.
use wanchain_js_sdk.Prelude.{ℕ, String, none, some, [], ◌∷◌, if◌then◌else◌}
use wanchain_js_sdk.Prelude.Result.{Result, ok, err, ◌>>=◌}
use wanchain_js_sdk.Nonce.{NonceMap}
use wanchain_js_sdk.TxData.{
  Kit, TxInput, TxConfig, CommonData, Made, token_to_wei_hex, get_gwei_to_wei, ask_nonce, ask_web3,
  wan_chain_id, caught,
}

module _ (kit : Kit) (config : TxConfig) (input : TxInput) (contract : String) where
  -- before the nonce, and with the chain's ID that is set after it
  unfoldable pub stake_data : Result ℕ → Result CommonData
  stake_data amount = do
    value ← amount
    price ← get_gwei_to_wei kit input.gas_price
    ok (record {
      from = input.from_addr;
      to = contract;
      value = value;
      gas_price = price;
      gas_limit = input.gas_limit;
      nonce = 0;
      tx_type = some "0x01";
      chain_id = wan_chain_id kit input.chain_id;
      x = none;
      hash_x = none;
    })

  unfoldable pub stake_common : Result ℕ → NonceMap → Made CommonData × NonceMap
  unfolding stake_data ask_nonce ask_web3
  stake_common amount m = elim (stake_data amount) [
    | err e ↦ (err e, m)
    | ok cd ↦
        if config.use_local_node then ask_web3 kit cd m else ask_nonce kit cd input.chain_type m
  ]

  abbrev of_input : Result ℕ
  of_input = token_to_wei_hex kit input.amount config.token_decimals

  unfoldable pub delegate_common_data : NonceMap → Made CommonData × NonceMap
  unfolding stake_common
  delegate_common_data m = stake_common of_input m

  -- an unknown function sets a refusal, which is overwritten
  unfoldable pub delegate_contract_data : String → String → Made String
  delegate_contract_data fn validator = caught (kit.encode contract fn (validator ∷ []))

  unfoldable pub stake_append_common_data : NonceMap → Made CommonData × NonceMap
  unfolding stake_common
  stake_append_common_data m = stake_common of_input m

  unfoldable pub stake_append_contract_data : String → Made String
  stake_append_contract_data miner = caught (kit.encode contract "stakeAppend" (miner ∷ []))

  unfoldable pub stake_in_common_data : NonceMap → Made CommonData × NonceMap
  unfolding stake_common
  stake_in_common_data m = stake_common of_input m

  unfoldable pub stake_in_contract_data : String → String → String → String → Made String
  stake_in_contract_data secpub g1pub lock_time fee_rate =
      caught (kit.encode contract "stakeIn" (secpub ∷ g1pub ∷ lock_time ∷ fee_rate ∷ []))

  unfoldable pub stake_register_common_data : NonceMap → Made CommonData × NonceMap
  unfolding stake_common
  stake_register_common_data m = stake_common of_input m

  unfoldable pub stake_register_contract_data :
      String → String → String → String → String → Made String
  stake_register_contract_data sec_pk bn256_pk lock_epoch fee_rate max_fee_rate = caught (
      kit.encode contract "stakeRegister"
        (sec_pk ∷ bn256_pk ∷ lock_epoch ∷ fee_rate ∷ max_fee_rate ∷ []))

  unfoldable pub stake_update_common_data : NonceMap → Made CommonData × NonceMap
  unfolding stake_common
  stake_update_common_data m = stake_common (ok 0) m

  unfoldable pub stake_update_contract_data : String → String → Made String
  stake_update_contract_data miner lock_time =
      caught (kit.encode contract "stakeUpdate" (miner ∷ lock_time ∷ []))

  unfoldable pub stake_update_fee_rate_common_data : NonceMap → Made CommonData × NonceMap
  unfolding stake_common
  stake_update_fee_rate_common_data m = stake_common of_input m

  unfoldable pub stake_update_fee_rate_contract_data : String → String → Made String
  stake_update_fee_rate_contract_data miner fee_rate =
      caught (kit.encode contract "stakeUpdateFeeRate" (miner ∷ fee_rate ∷ []))
