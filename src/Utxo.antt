-- ===== src/Utxo.antt =====
-- `btcCoinSelect`, `btcGetTxSize` and `getUTXOSBalance` of src/api/ccUtil.js: the outputs that pay
-- for a transaction of Bitcoin. A value is a number of satoshi, so rounding it changes nothing.
pub mod Select
mod Examples
use wanchain_js_sdk.Prelude.{ℕ, ◌+◌, ◌-◌, ◌*◌, List, [], ◌∷◌, ◌++◌, leb, ltb, length, if◌then◌else◌}
use wanchain_js_sdk.Prelude.Result.{Result, ok, err, plain_error}

pub record Utxo : Type 0 where
  pub value : ℕ
  pub confirmations : ℕ

unfoldable pub get_utxos_balance : List Utxo → ℕ
get_utxos_balance [] = 0
get_utxos_balance (u ∷ us) = u.value + get_utxos_balance us

unfoldable pub btc_get_tx_size : ℕ → ℕ → ℕ
btc_get_tx_size vin vout = vin * 180 + vout * 34 + 10 + vin

-- the state of the loop: `availableSat`, `ninputs` and `inputs`
pub record Selected : Type 0 where
  pub available_sat : ℕ
  pub ninputs : ℕ
  pub inputs : List Utxo

pub record Selection : Type 0 where
  pub inputs : List Utxo
  pub change : ℕ
  pub fee : ℕ

abbrev pub add_input : Utxo → Selected → Selected
add_input u s = record {
  available_sat = s.available_sat + u.value;
  ninputs = s.ninputs + 1;
  inputs = s.inputs ++ u ∷ [];
}

-- the fee of a transaction with `n` inputs, for the payee and the change
unfoldable pub fee_of : ℕ → ℕ → ℕ
unfolding btc_get_tx_size
fee_of fee_rate n = btc_get_tx_size n 2 * fee_rate

module _ (value fee_rate min_confirm : ℕ) where
  -- the loop, with its `break`
  unfoldable pub select : List Utxo → Selected → Selected
  unfolding fee_of
  select [] s = s
  select (u ∷ us) s =
      let taken = add_input u s in
      let go_on = select us taken in
      let pass = select us s in
      if leb min_confirm u.confirmations
      then if leb (value + fee_of fee_rate taken.ninputs) taken.available_sat then taken else go_on
      else pass

  unfoldable pub settle : Selected → Result Selection
  unfolding fee_of
  settle s =
      let fee = fee_of fee_rate s.ninputs in
      if ltb s.available_sat (value + fee)
      then err plain_error
      else ok (record { inputs = s.inputs; change = s.available_sat - value - fee; fee = fee })

  -- `sort` is `Array.prototype.sort` by `keysort('value', true)`
  unfoldable pub btc_coin_select : (List Utxo → List Utxo) → List Utxo → Result Selection
  unfolding select settle
  btc_coin_select sort utxos =
      settle (select (sort utxos) (record { available_sat = 0; ninputs = 0; inputs = [] }))
