-- ===== src/Safe.antt =====
-- `Safe` of src/hdwallet/safe.js: the wallets that are open, by the IDs of
-- src/hdwallet/wallets/walletids.js, and their health checks. `this._wallet` is a JavaScript object,
-- whose integer keys are enumerated in ascending order. Making, opening and closing a wallet are
-- parameters.
pub mod Registry
pub mod Health
mod Examples
use wanchain_js_sdk.Prelude.{
  ℕ, String, ◌+◌, Bool, true, false, Option, none, some, List, [], ◌∷◌, ltb, leb, nat_beq, map,
  if◌then◌else◌,
}
use wanchain_js_sdk.Prelude.Result.{
  Result, ok, err, invalid_parameter, not_found, logic_error, runtime_error, ◌>>=◌,
}

-- WALLET_ID_*
abbrev pub native_id : ℕ
native_id = 1

abbrev pub ledger_id : ℕ
ledger_id = 2

abbrev pub keystore_id : ℕ
keystore_id = 5

abbrev pub rawkey_id : ℕ
rawkey_id = 6

pub record WalletInfo (W : Type 0) : Type 0 where
  pub name : String
  pub wallet : W
  pub last_fail : Option ℕ
  pub last_check : Option ℕ
  pub consecutive_fail : ℕ

-- the keys ascend
abbrev pub Wallets : Type 0 → Type 0
Wallets W = List (ℕ × WalletInfo W)

abbrev pub opened_info : {W : Type 0} → String → W → WalletInfo W
opened_info name w = record {
  name = name;
  wallet = w;
  last_fail = none;
  last_check = none;
  consecutive_fail = 0;
}

module _ {W : Type 0} where
  unfoldable pub look_up : ℕ → Wallets W → Option (WalletInfo W)
  look_up id [] = none
  look_up id ((j, info) ∷ ws) = if nat_beq j id then some info else look_up id ws

  -- `this._wallet[id] = winfo`
  unfoldable pub put : ℕ → WalletInfo W → Wallets W → Wallets W
  put id new [] = (id, new) ∷ []
  put id new ((j, info) ∷ ws) =
      let later = (j, info) ∷ put id new ws in
      if ltb id j
      then (id, new) ∷ (j, info) ∷ ws
      else if nat_beq id j
      then (id, new) ∷ ws
      else later

  -- `delete this._wallet[id]`
  unfoldable pub erase : ℕ → Wallets W → Wallets W
  erase id [] = []
  erase id ((j, info) ∷ ws) =
      let rest = (j, info) ∷ erase id ws in if nat_beq j id then ws else rest

  -- `none` and 0 are falsy
  unfoldable pub get_wallet_info : Option ℕ → Wallets W → Result (WalletInfo W)
  unfolding look_up
  get_wallet_info none ws = err invalid_parameter
  get_wallet_info (some id) ws =
      if nat_beq id 0
      then err invalid_parameter
      else elim (look_up id ws) [ none ↦ err not_found | some info ↦ ok info ]

  unfoldable pub get_wallet : Option ℕ → Wallets W → Result W
  unfolding get_wallet_info
  get_wallet id ws = get_wallet_info id ws >>= λ info. ok info.wallet

  -- `newNativeWallet`, `newRawKeyWallet` and `newKeyStoreWallet`, by their ID and name
  unfoldable pub new_wallet : ℕ → String → Result W → Wallets W → Result (W × Wallets W)
  unfolding look_up put
  new_wallet id name made ws = elim (look_up id ws) [
    | some old ↦ err logic_error
    | none ↦ made >>= λ w. ok (w, put id (opened_info name w) ws)
  ]

  -- an exception of `close` is caught, and the wallet stays
  unfoldable pub delete_wallet : ℕ → (W → Result Bool) → Wallets W → Wallets W
  unfolding look_up erase
  delete_wallet id close ws = elim (look_up id ws) [
    | none ↦ ws
    | some info ↦ elim (close info.wallet) [ err e ↦ ws | ok closed ↦ erase id ws ]
  ]

  ledger_opened : W → Bool → Wallets W → Result W × Wallets W
  unfolding put
  ledger_opened w true ws = (ok w, put ledger_id (opened_info "Ledger" w) ws)
  ledger_opened w false ws = (err runtime_error, ws)

  -- an old ledger wallet is deleted first; `opened` is the answer of `w.open()`
  unfoldable pub new_ledger_wallet :
      (W → Result Bool) → W → Result Bool → Wallets W → Result W × Wallets W
  unfolding delete_wallet ledger_opened
  new_ledger_wallet close w opened ws =
      let cleared = delete_wallet ledger_id close ws in
      elim opened [ err e ↦ (err e, cleared) | ok success ↦ ledger_opened w success cleared ]

  unfoldable pub get_wallets : Wallets W → List (ℕ × String)
  get_wallets ws = map (λ w. (w.0, w.1.name)) ws

  -- one wallet in `healthCheck`: `healthy` is its answer in time, and false for an exception
  unfoldable pub check_wallet : ℕ → Bool → WalletInfo W → WalletInfo W
  check_wallet now true info = record info { consecutive_fail = 0; last_check = some now }
  check_wallet now false info = record info {
    last_fail = some now;
    consecutive_fail = info.consecutive_fail + 1;
    last_check = some now;
  }

  -- the wallets after `healthCheck`, and the names and counts of its EVENT_PROBELOSS
  unfoldable pub health_check : ℕ → ℕ → (ℕ → Bool) → Wallets W → Wallets W × List (String × ℕ)
  unfolding check_wallet
  health_check now threshold healthy [] = ([], [])
  health_check now threshold healthy ((id, info) ∷ ws) =
      let rest = health_check now threshold healthy ws in
      let info' = check_wallet now (healthy id) info in
      (
        (id, info') ∷ rest.0,
        if leb threshold info'.consecutive_fail
            then (info'.name, info'.consecutive_fail) ∷ rest.1
            else rest.1,
      )
