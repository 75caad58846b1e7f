-- ===== src/TxData.antt =====
-- src/trans/tx-data-creator: the common data of a transaction and the call of its contract, as the
-- creators of the classes make them, with the nonce that they ask for.
pub mod Eth
pub mod Token
pub mod Stake
pub mod Normal
pub mod Notice
pub mod Accounted
mod Examples
use wanchain_js_sdk.Prelude.{
  ℕ, zero, suc, ◌*◌, ◌/◌, String, Bool, Option, none, some, List, if◌then◌else◌,
}
use wanchain_js_sdk.Prelude.Result.{Result, ok, err, type_error, ◌>>=◌}
use wanchain_js_sdk.Cross.{ChainType, wan}
use wanchain_js_sdk.Invoker.{same_chain}
use wanchain_js_sdk.Nonce.{NonceMap, get_nonce_by_local}

-- a wallet's ID and a path in it
abbrev pub Place : Type 0
Place = ℕ × String

-- What the creators call outside: the address of a chain at a place, BigNumber's product of a
-- decimal text, or undefined, and a power of ten, the replies with the pending nonce,
-- the local node's with its nonce, whether the SDK is on the main net, the random key, its hash by
-- Keccak, the reply with the ratio of a coin, and web3's encoding of a call, by the contract, the
-- function and the texts of its arguments.
pub record Kit : Type 0 where
  pub address_at : ChainType → Place → Result String
  pub times_power : Option String → ℕ → Result ℕ
  pub pending : String → ChainType → Result ℕ
  pub nonce_by_web3 : String → Result ℕ
  pub is_on_main_net : Bool
  pub generate_private_key : Result String
  pub hash_key : String → String
  pub coin_to_wan_ratio : Result ℕ
  pub encode : String → String → List String → Result String
  pub hex_of : ℕ → String

-- `test_or_not` holds the next nonce for tests, if the input has the attribute; `from_addr` is an
-- address where `from` is one. Gas and ratios are numbers where the input may have their texts.
pub record TxInput : Type 0 where
  pub chain_type : ChainType
  pub from : Option Place
  pub to : Option Place
  pub from_addr : String
  pub to_addr : String
  pub storeman : Option String
  pub amount : Option String
  pub gas_price : Option String
  pub gas_limit : Option ℕ
  pub tx_fee_ratio : ℕ
  pub nonce : Option ℕ
  pub x : Option String
  pub hash_x : Option String
  pub test_or_not : Option ℕ
  pub chain_id : Option String

-- the addresses of the contracts, and the names of their functions
pub record TxConfig : Type 0 where
  pub mid_sc_addr : String
  pub src_sc_addr : String
  pub dst_sc_addr : String
  pub buddy_sc_addr : String
  pub lock_sc_func : String
  pub redeem_sc_func : String
  pub revoke_sc_func : String
  pub approve_sc_func : String
  pub token_decimals : ℕ
  pub token_to_wan_ratio : ℕ
  pub use_local_node : Bool

-- a limit of gas that is not a number is `none`
pub record CommonData : Type 0 where
  pub from : String
  pub to : String
  pub value : ℕ
  pub gas_price : ℕ
  pub gas_limit : Option ℕ
  pub nonce : ℕ
  pub tx_type : Option String
  pub chain_id : Option String
  pub x : Option String
  pub hash_x : Option String

-- `ok none` is an answer whose code is false, `err` an exception that leaves the method
abbrev pub Made : Type 0 → Type 0
Made A = Result (Option A)

module _ (kit : Kit) where
  -- a hexadecimal text is its number
  abbrev pub token_to_wei_hex : Option String → ℕ → Result ℕ
  token_to_wei_hex amount decimals = kit.times_power amount decimals

  abbrev pub get_gwei_to_wei : Option String → Result ℕ
  get_gwei_to_wei amount = kit.times_power amount 9

  -- the ratios count ten-thousandths
  unfoldable pub calculate_loc_wan_fee : Option String → ℕ → ℕ → Result ℕ
  calculate_loc_wan_fee amount ratio fee_ratio = do
    wei ← kit.times_power amount 18
    ok (wei * ratio * fee_ratio / 10000 / 10000)

  -- a nonce of the input that is not 0
  abbrev given : Option ℕ → Option ℕ
  given none = none
  given (some zero) = none
  given (some (suc n)) = some (suc n)

  -- the end of `createCommonData`: an exception of getNonceByLocal is an answer
  abbrev pub noted : CommonData → Result ℕ × NonceMap → Made CommonData × NonceMap
  noted cd (err e, m) = (ok none, m)
  noted cd (ok n, m) = (ok (some (record cd { nonce = n })), m)

  unfoldable pub ask_nonce : CommonData → ChainType → NonceMap → Made CommonData × NonceMap
  unfolding get_nonce_by_local
  ask_nonce cd chain m = noted cd (get_nonce_by_local (kit.pending cd.from chain) cd.from chain m)

  unfoldable pub with_nonce :
      Option ℕ → CommonData → ChainType → NonceMap → Made CommonData × NonceMap
  unfolding ask_nonce
  with_nonce own cd chain m = elim (given own) [
    | some n ↦ (ok (some (record cd { nonce = n })), m)
    | none ↦ ask_nonce cd chain m
  ]

  -- a nonce of the local node, whose exception is an answer too
  unfoldable pub ask_web3 : CommonData → NonceMap → Made CommonData × NonceMap
  ask_web3 cd m = elim (kit.nonce_by_web3 cd.from) [
    | err e ↦ (ok none, m)
    | ok n ↦ (ok (some (record cd { nonce = n })), m)
  ]

  -- what is made before the nonce is asked for; an exception of it leaves the method
  unfoldable pub then_nonce :
      Option ℕ → ChainType → Made CommonData → NonceMap → Made CommonData × NonceMap
  unfolding with_nonce
  then_nonce own chain (err e) m = (err e, m)
  then_nonce own chain (ok none) m = (ok none, m)
  then_nonce own chain (ok (some cd)) m = with_nonce own cd chain m

  -- the chain's ID of the input, or that of Wanchain's main or test net
  abbrev pub wan_chain_id : Option String → Option String
  wan_chain_id none = some (if kit.is_on_main_net then "0x01" else "0x03")
  wan_chain_id (some id) = some id

  -- `Txtype` is set on Wanchain
  abbrev pub wan_type : ChainType → Option String
  wan_type chain = if same_chain chain wan then some "0x01" else none

-- an attribute that is missing, where what is made of it throws
abbrev pub required {ℓ} : {A : Type ℓ} → Option A → Result A
required none = err type_error
required (some a) = ok a

-- a call whose exception is caught
abbrev pub caught {ℓ} : {A : Type ℓ} → Result A → Result (Option A)
caught (err e) = ok none
caught (ok a) = ok (some a)
