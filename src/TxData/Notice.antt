-- ===== src/TxData/Notice.antt =====
-- LockNoticeDataCreator of src/trans/tx-data-creator/btc: the notice to Wanchain of a lock of BTC.
use wanchain_js_sdk.Prelude.{ℕ, String, Bool, Option, none, some, List, if◌then◌else◌}
use wanchain_js_sdk.Prelude.Result.{Result, ok, err, ◌>>=◌}
use wanchain_js_sdk.Cross.{wan}
use wanchain_js_sdk.Hex.{hex_add0x}
use wanchain_js_sdk.Nonce.{NonceMap}
use wanchain_js_sdk.TxData.{Place, Kit, TxInput, CommonData, Made, get_gwei_to_wei, ask_nonce}

-- the attributes of a notice beside those of other inputs
pub record NoticeInput : Type 0 where
  pub user_h160 : Option String
  pub tx_hash : Option String
  pub locked_timestamp : Option String

-- `htlc` is the address of Wanchain's contract for BTC, and `is_wan_address` the test of ccUtil.js
module _ (kit : Kit) (htlc : String) (is_wan_address : String → Bool) (input : TxInput)
    (notice : NoticeInput) where
  -- the attributes that are wanted, or none if one is missing
  unfoldable pub notice_wanted : Option (Place × String × ℕ)
  notice_wanted = elim input.from [
    | none ↦ none
    | some from ↦ elim input.storeman [
      | none ↦ none
      | some storeman ↦
          if is_wan_address storeman
          then elim notice.user_h160 [
            | none ↦ none
            | some user ↦ elim input.gas_price [
              | none ↦ none
              | some price ↦ elim input.hash_x [
                | none ↦ none
                | some h ↦ elim notice.tx_hash [
                  | none ↦ none
                  | some tx ↦ elim notice.locked_timestamp [
                    | none ↦ none
                    | some time ↦ elim input.gas_limit [
                      | none ↦ none
                      | some gas ↦ some (from, price, gas)
                    ]
                  ]
                ]
              ]
            ]
          ]
          else none
    ]
  ]

  unfoldable pub notice_data : Place × String × ℕ → Result CommonData
  unfolding hex_add0x
  notice_data (from, gas_price, gas) = do
    addr ← kit.address_at wan from
    price ← get_gwei_to_wei kit (some gas_price)
    ok (record {
      from = hex_add0x addr;
      to = htlc;
      value = 0;
      gas_price = price;
      gas_limit = some gas;
      nonce = 0;
      tx_type = some "0x01";
      chain_id = none;
      x = none;
      hash_x = none;
    })

  unfoldable pub notice_common_data : NonceMap → Made CommonData × NonceMap
  unfolding notice_wanted notice_data ask_nonce
  notice_common_data m = elim notice_wanted [
    | none ↦ (ok none, m)
    | some wanted ↦ elim (notice_data wanted) [
      | err e ↦ (err e, m)
      | ok cd ↦ ask_nonce kit cd input.chain_type m
    ]
  ]

  -- the code is set to true after an exception was caught as well: the error is then the result
  unfoldable pub notice_contract_data : String → String → List String → Made (Result String)
  notice_contract_data contract func args = ok (some (kit.encode contract func args))
