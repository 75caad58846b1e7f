-- ===== src/Utxo/Examples.antt =====
-- Three outputs, of which one is too young, and a payment that two of them cover.
use wanchain_js_sdk.Prelude.{ℕ, ◌+◌, ◌≡◌, ◌≤◌, ◌<◌, refl, List, [], ◌∷◌, length, All}
use wanchain_js_sdk.Prelude.Result.{plain_error}
use wanchain_js_sdk.Utxo.{
  Utxo, Selection, get_utxos_balance, fee_of, select, settle, btc_coin_select,
}
use wanchain_js_sdk.Utxo.Select.{eligible, btc_coin_select-ok, btc_coin_select-err}

abbrev output : ℕ → ℕ → Utxo
output value confirmations = record { value = value; confirmations = confirmations }

abbrev outputs : List Utxo
outputs = output 9000 1 ∷ output 5000 0 ∷ output 8000 6 ∷ output 4000 2 ∷ []

abbrev picked : Selection
picked = record { inputs = output 9000 1 ∷ output 8000 6 ∷ []; change = 6120; fee = 880 }

btc_coin_select-ok_example :
    (get_utxos_balance picked.inputs ≡ 10000 + picked.change + picked.fee)
    × (picked.fee ≡ fee_of 2 (length picked.inputs))
    × All (λ u. 1 ≤ u.confirmations) picked.inputs
unfolding btc_coin_select select settle fee_of
btc_coin_select-ok_example = btc_coin_select-ok 10000 2 1 (λ us. us) outputs picked refl

btc_coin_select-err_example :
    get_utxos_balance (eligible 1 outputs) < 90000 + fee_of 2 (length (eligible 1 outputs))
unfolding btc_coin_select select settle fee_of
btc_coin_select-err_example = btc_coin_select-err 90000 2 1 (λ us. us) outputs plain_error refl
