-- ===== src/NormalChain/Examples.antt =====
-- A private refund whose node says that the one-time address is used up.
use wanchain_js_sdk.Prelude.{ℕ, refl, true, none, [], ◌∷◌, string_eq}
use wanchain_js_sdk.Cross.{wan}
use wanchain_js_sdk.Items.{Db, get_item, first}
use wanchain_js_sdk.Table.{read}
use wanchain_js_sdk.Table.Find.{find, has_key}
use wanchain_js_sdk.Normal.{NormalRecord, Ota, sending}
use wanchain_js_sdk.Pipeline.{Methods, passed, failed}
use wanchain_js_sdk.NormalChain.Classes.{has_all, normal_methods}
use wanchain_js_sdk.NormalChain.Special.{special_methods, check_attributes, wan_data_sign}
use wanchain_js_sdk.NormalChain.Refund.{
  SendError, reused, refund_attributes, refund_methods, private_chain_wan_refund,
}
use wanchain_js_sdk.NormalChain.Refunding.{
  Settles, outcomes, outcome, private_chain_wan_refund-Settles,
}

abbrev refund : NormalRecord
refund = record {
  hash_x = "h";
  tx_hash = "";
  chain_type = wan;
  status = sending;
  sent_time = none;
  success_time = none;
  annotate = none;
  ota_tx_hash = none;
}

abbrev ota : Ota
ota = record {
  txhash = "0xb";
  to_ota = "0x02";
  to_acct_id = "MTptLzQ0";
  value = "10";
  sender = "0x03";
  block_no = 7;
  state = "Found";
}

abbrev base : Methods (Db NormalRecord)
base = record {
  check_pre_condition = passed;
  create_trans = passed;
  create_data_creator = passed;
  create_data_sign = passed;
  create_common_data = passed;
  create_contract_data = passed;
  sign = passed;
  pre_send_trans = λ db. (passed, db);
  send_trans = λ i. failed;
  trans_failed = λ db. (passed, db);
  post_send_trans = λ h db. (passed, db);
}

abbrev empty : Db NormalRecord
empty = record { memory = []; disk = [] }

abbrev used_up : ℕ → SendError
used_up i = reused

-- The run fails, and marks the OTA.
private_chain_wan_refund-Settles_example :
    Settles refund "0xb" used_up 9 refund_attributes base 3 empty
      (ota ∷ [])
      (none, true)
      (private_chain_wan_refund refund "0xb" used_up 9 refund_attributes base 3
        (empty, ota ∷ [])).state
unfolding outcomes outcome refund_methods special_methods check_attributes wan_data_sign
    normal_methods has_all get_item first read find has_key
private_chain_wan_refund-Settles_example =
    private_chain_wan_refund-Settles refund "0xb" used_up 9 refund_attributes base 3 empty
      (ota ∷ []) ota (refl, refl, refl, refl, refl, refl, refl) refl refl
