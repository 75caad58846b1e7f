-- ===== src/NormalChain/Refund.antt =====
-- src/trans/wan-special/PrivateChainWanRefund.js, which also marks the OTA that it refunds where the
-- node says that it is used up.
use wanchain_js_sdk.Prelude.{
  ℕ, String, Bool, true, false, Option, none, some, List, [], ◌∷◌, string_eq,
}
use wanchain_js_sdk.Prelude.Result.{ok, err}
use wanchain_js_sdk.Items.{Db}
use wanchain_js_sdk.Table.{read}
use wanchain_js_sdk.Normal.{NormalRecord, Ota, ota_rows, mark_refund}
use wanchain_js_sdk.Pipeline.{Methods, Run}
use wanchain_js_sdk.NormalChain.{normal_run}
use wanchain_js_sdk.NormalChain.Special.{special_methods}

-- the database, and the user's OTAs
abbrev pub State : Type 0
State = Db NormalRecord × List Ota

-- what the text of an error holds: "OTA is reused", "can't find ota address balance!", or neither
pub data SendError : Type 0 where
  reused no_balance other : SendError

-- the methods of a class that does not touch the OTAs
abbrev pub beside_otas : Methods (Db NormalRecord) → Methods State
beside_otas m = record {
  check_pre_condition = m.check_pre_condition;
  create_trans = m.create_trans;
  create_data_creator = m.create_data_creator;
  create_data_sign = m.create_data_sign;
  create_common_data = m.create_common_data;
  create_contract_data = m.create_contract_data;
  sign = m.sign;
  pre_send_trans = λ (db, otas). ((m.pre_send_trans db).0, ((m.pre_send_trans db).1, otas));
  send_trans = m.send_trans;
  trans_failed = λ (db, otas). ((m.trans_failed db).0, ((m.trans_failed db).1, otas));
  post_send_trans =
      λ h (db, otas). ((m.post_send_trans h db).0, ((m.post_send_trans h db).1, otas));
}

-- `log` is not defined, so that the branch of "can't find ota address balance!" throws before it
-- marks the OTA, and the exception is caught
unfoldable pub handled_found : SendError → String → List Ota → Option Ota → Bool × List Ota
handled_found reused h otas (some ota) = (true, mark_refund h otas)
handled_found no_balance h otas (some ota) = (false, otas)
handled_found other h otas (some ota) = (false, otas)
handled_found e h otas none = (false, otas)

unfoldable pub handle_send_tran_error : SendError → String → List Ota → Bool × List Ota
unfolding handled_found
handle_send_tran_error e h otas = elim (read ota_rows (some h) otas) [
  | err x ↦ (false, otas)
  | ok found ↦ handled_found e h otas found
]

abbrev pub refund_attributes : List String
refund_attributes =
    "from" ∷ "walletID" ∷ "BIP44Path" ∷ "OTA" ∷ "otaTxHash" ∷ "amount" ∷ "gasPrice" ∷ "gasLimit"
    ∷ []

-- `errors` are those of the attempts, and `h` is `input.otaTxHash`
module _ (r : NormalRecord) (h : String) (errors : ℕ → SendError) where
  unfoldable pub refund_methods : ℕ → List String → Methods (Db NormalRecord) → Methods State
  unfolding special_methods
  refund_methods now given base = beside_otas (
      special_methods refund_attributes "PrivateRefund" (record r { ota_tx_hash = some h }) now
        given base)

  unfoldable pub refund_handler : ℕ → State → Bool × State
  unfolding handle_send_tran_error
  refund_handler i (db, otas) =
      let (stop, after) = handle_send_tran_error (errors i) h otas in (stop, (db, after))

  unfoldable pub private_chain_wan_refund :
      ℕ → List String → Methods (Db NormalRecord) → ℕ → State → Run State
  unfolding refund_methods refund_handler normal_run
  private_chain_wan_refund now given base =
      normal_run (refund_methods now given base) refund_handler
