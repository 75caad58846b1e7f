-- ===== src/TxData/Normal.antt =====
-- NormalTxEthDataCreator and NormalTxE20DataCreator of src/trans/tx-data-creator: transfers of a coin
-- or a token within a chain.
use wanchain_js_sdk.Prelude.{ℕ, String, Bool, not, ◌&&◌, Option, none, some, [], ◌∷◌, if◌then◌else◌}
use wanchain_js_sdk.Prelude.Result.{Result, ok, err, ◌>>=◌}
use wanchain_js_sdk.Cross.{ChainType, wan}
use wanchain_js_sdk.Invoker.{same_chain}
use wanchain_js_sdk.Nonce.{NonceMap}
use wanchain_js_sdk.TxData.{
  Kit, TxInput, TxConfig, CommonData, Made, given, token_to_wei_hex, get_gwei_to_wei, ask_nonce,
  ask_web3, with_nonce, wan_chain_id, wan_type, caught,
}

-- the configuration of a transfer beside the contracts, and the data of its input:
-- `transfers_coin` is `transferCoin`
pub record Transfer : Type 0 where
  pub src_chain_type : ChainType
  pub transfers_coin : Bool
  pub token_sc_addr : String
  pub transfer_sc_func : String
  pub call_data : Option String

module _ (kit : Kit) (config : TxConfig) (transfer : Transfer) (input : TxInput) where
  -- a token on Wanchain is moved by its contract
  abbrev pub by_contract : Bool
  by_contract = same_chain transfer.src_chain_type wan && not transfer.transfers_coin

  abbrev pub of_chain : Option String
  of_chain = if same_chain input.chain_type wan then wan_chain_id kit input.chain_id else none

  abbrev data_of : String → Result ℕ → Result CommonData
  data_of to amount = do
    value ← amount
    price ← get_gwei_to_wei kit input.gas_price
    ok (record {
      from = input.from_addr;
      to = to;
      value = value;
      gas_price = price;
      gas_limit = input.gas_limit;
      nonce = 0;
      tx_type = wan_type kit input.chain_type;
      chain_id = of_chain;
      x = none;
      hash_x = none;
    })

  unfoldable pub normal_eth_data : Result CommonData
  normal_eth_data =
      if by_contract
      then data_of transfer.token_sc_addr (ok 0)
      else data_of input.to_addr (token_to_wei_hex kit input.amount config.token_decimals)

  -- the local node is asked for a nonce on Wanchain, if it is used, and the input has none
  unfoldable pub normal_eth_asked : CommonData → NonceMap → Made CommonData × NonceMap
  unfolding with_nonce ask_web3
  normal_eth_asked cd m = elim input.test_or_not [
    | some n ↦ (ok (some (record cd { nonce = n })), m)
    | none ↦
        if same_chain transfer.src_chain_type wan && config.use_local_node
        then elim (given kit input.nonce) [
          | some n ↦ (ok (some (record cd { nonce = n })), m)
          | none ↦ ask_web3 kit cd m
        ]
        else with_nonce kit input.nonce cd input.chain_type m
  ]

  unfoldable pub normal_eth_common_data : NonceMap → Made CommonData × NonceMap
  unfolding normal_eth_data normal_eth_asked
  normal_eth_common_data m = elim normal_eth_data [
    | err e ↦ (err e, m)
    | ok cd ↦ normal_eth_asked cd m
  ]

  unfoldable pub normal_eth_contract_data : Made (Option String)
  normal_eth_contract_data =
      if by_contract
      then caught (do
        value ← token_to_wei_hex kit input.amount config.token_decimals
        call ←
            kit.encode transfer.token_sc_addr transfer.transfer_sc_func
              (input.to_addr ∷ kit.hex_of value ∷ [])
        ok (some call))
      else ok (some transfer.call_data)

  unfoldable pub normal_e20_asked : CommonData → NonceMap → Made CommonData × NonceMap
  unfolding ask_nonce
  normal_e20_asked cd m = elim input.test_or_not [
    | some n ↦ (ok (some (record cd { nonce = n })), m)
    | none ↦ ask_nonce kit cd input.chain_type m
  ]

  unfoldable pub normal_e20_common_data : NonceMap → Made CommonData × NonceMap
  unfolding normal_e20_asked
  normal_e20_common_data m =
      let contract =
        if same_chain input.chain_type wan then config.buddy_sc_addr else config.src_sc_addr in
      elim (data_of contract (ok 0)) [
        | err e ↦ (err e, m)
        | ok cd ↦ normal_e20_asked (record cd { chain_id = none }) m
      ]

  unfoldable pub normal_e20_contract_data : Made String
  normal_e20_contract_data = caught (do
    value ← token_to_wei_hex kit input.amount config.token_decimals
    kit.encode config.src_sc_addr transfer.transfer_sc_func (input.to_addr ∷ kit.hex_of value ∷ []))
