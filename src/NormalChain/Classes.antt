-- ===== src/NormalChain/Classes.antt =====
-- The classes of src/trans/normal-chain: the stages that write the database, and those that look at
-- the input. `r` is the record, under the hash that the constructor makes; `base` gives the other
-- stages.
use wanchain_js_sdk.Prelude.{
  ℕ, String, Bool, true, false, some, List, [], ◌∷◌, ◌&&◌, any, str_eq, if◌then◌else◌,
}
use wanchain_js_sdk.Cross.{ChainType, eth, wan, eos}
use wanchain_js_sdk.Items.{Db, insert_item}
use wanchain_js_sdk.Normal.{NormalRecord, sending, sent, success, failed}
use wanchain_js_sdk.Pipeline.{Stage, passed, refused, threw, Methods, Run, change_found}
use wanchain_js_sdk.NormalChain.{normal_run}
use wanchain_js_sdk.Hex.{hex_trip0x}

abbrev pub by_hash : String → NormalRecord → Bool
by_hash h r = str_eq r.hash_x h

-- `handleSendTranError` of NormalChain
abbrev pub no_handling : {S : Type 0} → ℕ → S → Bool × S
no_handling i s = (false, s)

-- `now` is the time at which the transaction was sent
module _ (r : NormalRecord) (now : ℕ) where
  unfoldable pub normal_pre_send_trans : Db NormalRecord → Stage × Db NormalRecord
  unfolding insert_item
  normal_pre_send_trans db = (passed, insert_item (record r { status = sending }) db)

  unfoldable pub normal_trans_failed : Db NormalRecord → Stage × Db NormalRecord
  unfolding change_found
  normal_trans_failed db = change_found (by_hash r.hash_x) (λ y. record y { status = failed }) db

  unfoldable pub normal_post_send_trans : String → Db NormalRecord → Stage × Db NormalRecord
  unfolding change_found
  normal_post_send_trans tx db =
      change_found (by_hash r.hash_x)
        (λ y. record y { status = sent; tx_hash = tx; sent_time = some now }) db

  unfoldable pub normal_methods : Methods (Db NormalRecord) → Methods (Db NormalRecord)
  unfolding normal_pre_send_trans normal_trans_failed normal_post_send_trans
  normal_methods base = record base {
    pre_send_trans = normal_pre_send_trans;
    trans_failed = normal_trans_failed;
    post_send_trans = normal_post_send_trans;
  }

-- which data sign `createDataSign` makes, by the chain
unfoldable pub eth_data_sign : ChainType → Stage
eth_data_sign eth = passed
eth_data_sign wan = passed
eth_data_sign _ = refused

unfoldable pub eos_data_sign : ChainType → Stage
eos_data_sign eos = passed
eos_data_sign _ = refused

-- NormalChainEth, NormalChainE20 and NormalChainEos; the record holds the hash as the transaction's
-- until it is sent
unfoldable pub normal_chain_eth :
    NormalRecord → ℕ → Methods (Db NormalRecord) → ℕ → Db NormalRecord → Run (Db NormalRecord)
unfolding normal_methods eth_data_sign normal_run
normal_chain_eth r now base =
    normal_run
      (normal_methods (record r { tx_hash = r.hash_x }) now
        (record base { create_data_sign = eth_data_sign r.chain_type }))
      no_handling

unfoldable pub normal_chain_e20 :
    NormalRecord → ℕ → Methods (Db NormalRecord) → ℕ → Db NormalRecord → Run (Db NormalRecord)
unfolding normal_methods normal_run
normal_chain_e20 r now base =
    normal_run
      (normal_methods (record r { tx_hash = r.hash_x }) now
        (record base { create_data_sign = passed }))
      no_handling

unfoldable pub normal_chain_eos :
    NormalRecord → ℕ → Methods (Db NormalRecord) → ℕ → Db NormalRecord → Run (Db NormalRecord)
unfolding normal_methods eos_data_sign normal_run
normal_chain_eos r now base =
    normal_run
      (normal_methods (record r { tx_hash = r.hash_x }) now
        (record base { create_data_sign = eos_data_sign r.chain_type }))
      no_handling

-- whether an input has all attributes
unfoldable pub has_all : List String → List String → Bool
has_all [] given = true
has_all (a ∷ more) given =
    let rest = has_all more given in if any (λ g. str_eq g a) given then rest else false

-- a record that is missing is no exception in NormalChainBtc
unfoldable pub or_refused : Stage × Db NormalRecord → Stage × Db NormalRecord
or_refused (threw, db) = (refused, db)
or_refused (passed, db) = (passed, db)
or_refused (refused, db) = (refused, db)

abbrev pub btc_attributes : List String
btc_attributes = "from" ∷ "to" ∷ "value" ∷ "changeAddress" ∷ "feeRate" ∷ []

-- NormalChainBtc; `is_list` is whether `from` is an array. Its transactions have no nonce to give
-- back, and count as successful once they are sent.
unfoldable pub btc_methods :
    NormalRecord → List String → Bool → Methods (Db NormalRecord) → Methods (Db NormalRecord)
unfolding has_all or_refused change_found normal_pre_send_trans normal_trans_failed hex_trip0x
btc_methods r given is_list base = record base {
  check_pre_condition = if has_all btc_attributes given && is_list then passed else refused;
  create_trans = passed;
  create_data_creator = passed;
  create_data_sign = passed;
  pre_send_trans = normal_pre_send_trans (record r { tx_hash = r.hash_x }) 0;
  trans_failed = λ db. or_refused (normal_trans_failed r 0 db);
  post_send_trans = λ tx db. or_refused (
      change_found (by_hash r.hash_x) (λ y. record y { status = success; tx_hash = hex_trip0x tx })
        db);
}

unfoldable pub normal_chain_btc :
    NormalRecord
    → List String
    → Bool
    → Methods (Db NormalRecord)
    → ℕ
    → Db NormalRecord
    → Run (Db NormalRecord)
unfolding btc_methods normal_run
normal_chain_btc r given is_list base try_times db =
    record (normal_run (btc_methods r given is_list base) no_handling try_times db) { holes = 0 }
