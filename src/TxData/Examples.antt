-- ===== src/TxData/Examples.antt =====
-- Locks of ETH and of a token on Wanchain, of an account that used its nonces up to 7, which are not
-- sent.
use wanchain_js_sdk.Prelude.{
  nat_beq, if◌then◌else◌, ℕ, ◌≤◌, ◌≡◌, refl, none, some, [], ◌∷◌, arith, false, string_eq,
}
use wanchain_js_sdk.Prelude.Result.{Result, ok, err, plain_error}
use wanchain_js_sdk.Cross.{eth, wan}
use wanchain_js_sdk.Hex.{hex_add0x}
use wanchain_js_sdk.Nonce.{AccountNonce, NonceMap, take_nonce, member}
use wanchain_js_sdk.Nonce.Fresh.{taken}
use wanchain_js_sdk.Pipeline.{
  Methods, passed, failed, run, staged, early, late, send, attempts, concluded, failed_by,
}
use wanchain_js_sdk.TxData.{
  Kit, TxInput, TxConfig, CommonData, calculate_loc_wan_fee, then_nonce, with_nonce, ask_nonce,
}
use wanchain_js_sdk.TxData.Eth.{eth_lock_value, eth_lock_data, eth_lock_common_data}
use wanchain_js_sdk.TxData.Token.{token_data, token_lock_common_data}
use wanchain_js_sdk.TxData.Accounted.{accounted_run, made_stage}
use wanchain_js_sdk.TxData.Accounted.Lossless.{Lossless}
use wanchain_js_sdk.TxData.Accounted.Lost.{
  eth_lock-Lossless, token_lock-loses, eth_lock-hands_out_twice,
}

abbrev kit : Result ℕ → Kit
kit amount = record {
  address_at = λ c place. ok "0x01";
  times_power = λ text n. amount;
  pending = λ addr c. ok 5;
  nonce_by_web3 = λ addr. ok 5;
  is_on_main_net = false;
  generate_private_key = ok "0x02";
  hash_key = λ x. "0x03";
  coin_to_wan_ratio = ok 3;
  encode = λ contract func args. ok "0x04";
  hex_of = λ n. "0x05";
}

abbrev config : TxConfig
config = record {
  mid_sc_addr = "0xa1";
  src_sc_addr = "0xa2";
  dst_sc_addr = "0xa3";
  buddy_sc_addr = "0xa4";
  lock_sc_func = "lock";
  redeem_sc_func = "redeem";
  revoke_sc_func = "revoke";
  approve_sc_func = "approve";
  token_decimals = 18;
  token_to_wan_ratio = 3;
  use_local_node = false;
}

abbrev input : TxInput
input = record {
  chain_type = eth;
  from = some (1, "m/44'/60'/0'/0/0");
  to = some (1, "m/44'/5718350'/0'/0/0");
  from_addr = "";
  to_addr = "";
  storeman = some "0x06";
  amount = some "1";
  gas_price = some "10";
  gas_limit = some 21000;
  tx_fee_ratio = 1;
  nonce = none;
  x = none;
  hash_x = none;
  test_or_not = none;
  chain_id = none;
}

abbrev account : AccountNonce
account = record { used_pending_nonce = 7; nonce_hole_list = [] }

abbrev nonces : NonceMap
nonces c addr = some account

-- every stage passes, and nothing gets through
abbrev deaf : Methods ℕ
deaf = record {
  check_pre_condition = passed;
  create_trans = passed;
  create_data_creator = passed;
  create_data_sign = passed;
  create_common_data = passed;
  create_contract_data = passed;
  sign = passed;
  pre_send_trans = λ s. (passed, s);
  send_trans = λ i. failed;
  trans_failed = λ s. (passed, s);
  post_send_trans = λ h s. (passed, s);
}

eth_lock-Lossless_example :
    Lossless
      (kit (ok 9))
      (eth_lock_data (kit (ok 9)) config input)
      eth
      nonces
      (accounted_run deaf (eth_lock_common_data (kit (ok 9)) config input) eth 2 0 nonces).1
unfolding accounted_run made_stage eth_lock_common_data eth_lock_data eth_lock_value then_nonce
    with_nonce ask_nonce run staged early late send attempts concluded failed_by
eth_lock-Lossless_example =
    eth_lock-Lossless (kit (ok 9)) config input deaf 2 0 nonces (refl, refl, refl, refl) refl refl

-- the amount is not a number that BigNumber reads, but the price of gas is
abbrev unreadable : Kit
unreadable = record (kit (ok 9)) {
  times_power = λ text n. if nat_beq n 18 then err plain_error else ok 9;
}

abbrev token_input : TxInput
token_input = record input { chain_type = wan; amount = some "one" }

abbrev token_common : CommonData
token_common = record {
  from = "0x01";
  to = "0xa1";
  value = 0;
  gas_price = 9;
  gas_limit = some 21000;
  nonce = 0;
  tx_type = some "0x01";
  chain_id = none;
  x = none;
  hash_x = none;
}

-- The nonce 8 is lost.
token_lock-loses_example :
    let ran =
      accounted_run deaf (token_lock_common_data unreadable config token_input) wan 2 0 nonces in
    let lost = (take_nonce 5 (some account)).0 in
    (ran.0.hash ≡ none)
    × ((a' : AccountNonce) × (ran.1 wan "0x01" ≡ some a')
        × (member lost a'.nonce_hole_list ≡ false)
        × (lost ≤ a'.used_pending_nonce))
unfolding token_data calculate_loc_wan_fee hex_add0x
token_lock-loses_example =
    token_lock-loses unreadable config token_input deaf 2 0 nonces (refl, refl, refl, refl)
      token_common 5 account plain_error refl refl refl refl refl refl (tt, tt)

abbrev own : TxInput
own = record input { nonce = some 8 }

abbrev eth_common : CommonData
eth_common = record token_common { value = 9; tx_type = none }

eth_lock-hands_out_twice_example :
    let after =
      (accounted_run deaf (eth_lock_common_data (kit (ok 9)) config own) eth 2 0 nonces).1 in
    (a' : AccountNonce) × (after eth "0x01" ≡ some a') × (taken (5 ∷ 5 ∷ []) a' ≡ 8 ∷ 8 ∷ [])
unfolding accounted_run made_stage eth_lock_common_data eth_lock_data eth_lock_value then_nonce
    with_nonce ask_nonce run staged early late send attempts concluded failed_by hex_add0x
eth_lock-hands_out_twice_example =
    eth_lock-hands_out_twice (kit (ok 9)) config own deaf 2 0 nonces (refl, refl, refl, refl)
      eth_common account 5 5 refl refl refl refl (omega arith) (omega arith) refl
