-- ===== src/NormalChain/Special.antt =====
-- The classes of src/trans/wan-special, which stake, delegate, and send private transactions on
-- Wanchain. `given` are the attributes that the input has.
use wanchain_js_sdk.Prelude.{ℕ, String, Bool, some, List, [], ◌∷◌, ◌&&◌, if◌then◌else◌, string_eq}
use wanchain_js_sdk.Cross.{ChainType, wan}
use wanchain_js_sdk.Invoker.{same_chain}
use wanchain_js_sdk.Items.{Db}
use wanchain_js_sdk.Normal.{NormalRecord}
use wanchain_js_sdk.Pipeline.{Stage, passed, refused, threw, Methods, Run}
use wanchain_js_sdk.NormalChain.{normal_run}
use wanchain_js_sdk.NormalChain.Classes.{no_handling, has_all, normal_methods}

unfoldable pub check_attributes : List String → List String → Stage
unfolding has_all
check_attributes wanted given = if has_all wanted given then passed else refused

-- on another chain, `error.RuntimeError(..)` without `new` throws
unfoldable pub wan_data_sign : ChainType → Stage
wan_data_sign chain = if same_chain chain wan then passed else threw

-- the stages that the classes share
unfoldable pub special_methods :
    List String
    → String
    → NormalRecord
    → ℕ
    → List String
    → Methods (Db NormalRecord)
    → Methods (Db NormalRecord)
unfolding check_attributes wan_data_sign normal_methods
special_methods wanted annotate r now given base =
    normal_methods (record r { tx_hash = ""; annotate = some annotate }) now
      (record base {
        check_pre_condition = check_attributes wanted given;
        create_trans = passed;
        create_data_creator = passed;
        create_data_sign = wan_data_sign r.chain_type;
      })

abbrev pub SpecialRun : Type 0
SpecialRun =
    NormalRecord
    → ℕ
    → List String
    → Methods (Db NormalRecord)
    → ℕ
    → Db NormalRecord
    → Run (Db NormalRecord)

unfoldable pub pos_delegate_in : SpecialRun
unfolding special_methods normal_run
pos_delegate_in r now given base =
    normal_run
      (special_methods
        ("from" ∷ "walletID" ∷ "BIP44Path" ∷ "amount" ∷ "validatorAddr" ∷ "gasPrice" ∷ "gasLimit"
          ∷ [])
        "DelegateIn" r now given base)
      no_handling

unfoldable pub pos_delegate_out : SpecialRun
unfolding special_methods normal_run
pos_delegate_out r now given base =
    normal_run
      (special_methods
        ("from" ∷ "walletID" ∷ "BIP44Path" ∷ "validatorAddr" ∷ "gasPrice" ∷ "gasLimit" ∷ [])
        "DelegateOut" r now given base)
      no_handling

unfoldable pub pos_stake_append : SpecialRun
unfolding special_methods normal_run
pos_stake_append r now given base =
    normal_run
      (special_methods
        ("from" ∷ "walletID" ∷ "BIP44Path" ∷ "minerAddr" ∷ "gasPrice" ∷ "gasLimit" ∷ [])
        "StakeAppend" r now given base)
      no_handling

unfoldable pub pos_stake_in : SpecialRun
unfolding special_methods normal_run
pos_stake_in r now given base =
    normal_run
      (special_methods
        ("from" ∷ "walletID" ∷ "BIP44Path" ∷ "amount" ∷ "minerAddr" ∷ "secpub" ∷ "g1pub" ∷ "feeRate"
          ∷ "lockTime" ∷ "gasPrice" ∷ "gasLimit" ∷ [])
        "StakeIn" r now given base)
      no_handling

unfoldable pub pos_stake_register : SpecialRun
unfolding special_methods normal_run
pos_stake_register r now given base =
    normal_run
      (special_methods
        ("from" ∷ "walletID" ∷ "BIP44Path" ∷ "amount" ∷ "secPk" ∷ "bn256Pk" ∷ "feeRate"
          ∷ "maxFeeRate" ∷ "lockEpoch" ∷ "gasPrice" ∷ "gasLimit" ∷ [])
        "StakeRegister" r now given base)
      no_handling

unfoldable pub pos_stake_update : SpecialRun
unfolding special_methods normal_run
pos_stake_update r now given base =
    normal_run
      (special_methods
        ("from" ∷ "walletID" ∷ "BIP44Path" ∷ "minerAddr" ∷ "lockTime" ∷ "gasPrice" ∷ "gasLimit"
          ∷ [])
        "StakeUpdate" r now given base)
      no_handling

unfoldable pub pos_stake_update_fee_rate : SpecialRun
unfolding special_methods normal_run
pos_stake_update_fee_rate r now given base =
    normal_run
      (special_methods
        ("from" ∷ "walletID" ∷ "BIP44Path" ∷ "minerAddr" ∷ "feeRate" ∷ "gasPrice" ∷ "gasLimit" ∷ [])
        "StakeUpdateFeeRate" r now given base)
      no_handling

abbrev pub send_attributes : List String
send_attributes = "from" ∷ "walletID" ∷ "BIP44Path" ∷ "to" ∷ "amount" ∷ "gasPrice" ∷ "gasLimit" ∷ []

-- `is_waddress` is whether `to` is a text of the length of a private address
unfoldable pub private_send_methods :
    Bool → NormalRecord → ℕ → List String → Methods (Db NormalRecord) → Methods (Db NormalRecord)
unfolding special_methods
private_send_methods is_waddress r now given base =
    record (special_methods send_attributes "PrivateSend" r now given base) {
      check_pre_condition =
          if has_all send_attributes given && is_waddress then passed else refused;
    }

unfoldable pub private_chain_wan_send : Bool → SpecialRun
unfolding private_send_methods normal_run
private_chain_wan_send is_waddress r now given base =
    normal_run (private_send_methods is_waddress r now given base) no_handling
