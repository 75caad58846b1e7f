-- ===== src/UserAccounts.antt =====
-- The user's accounts of src/api/hdUtil.js: the attribute of a wallet's BIP44 path, kept in the user
-- table by chain. `parse` splits the text of a path, as `splitBip44Path` takes it.
pub mod Imported
pub mod Writing
pub mod Refinement
mod Examples
use wanchain_js_sdk.Prelude.{
  ℕ, String, Bool, true, false, Option, none, some, List, [], ◌∷◌, string_eq, nat_eq,
}
use wanchain_js_sdk.Prelude.Result.{Result, ok, err, invalid_parameter, not_found, ◌>>=◌}
use wanchain_js_sdk.Objects.{Object, get, set, unset}
use wanchain_js_sdk.Table.{read, update}
use wanchain_js_sdk.Table.Find.{Rows}
use wanchain_js_sdk.Table.Upsert.{upsert}
use wanchain_js_sdk.Bip44.{PathElem, get_chain_id_from_bip44_path}

-- the accounts of a chain, by path and by wallet ID
pub record ChainAccounts (A : Type 0) : Type 0 where
  pub chain_id : ℕ
  pub accounts : Object String (Object ℕ A)

unfoldable pub chain_of : (String → List PathElem) → String → Result ℕ
unfolding get_chain_id_from_bip44_path
chain_of parse path = get_chain_id_from_bip44_path (parse path)

module _ {A : Type 0} where
  -- All fields are assigned.
  abbrev pub user_rows : Rows (ChainAccounts A) ℕ
  user_rows = record {
    key = λ c. some c.chain_id;
    assign = λ old new. new;
    key-assign = λ old new k h. h;
  }

  abbrev pub or_empty : Option (Object ℕ A) → Object ℕ A
  or_empty none = []
  or_empty (some wallets) = wallets

  -- `ainfo.accounts[path]`, or the empty object that is put there
  unfoldable pub at_path : String → Object String (Object ℕ A) → Object ℕ A
  unfolding get
  at_path path accounts = or_empty (get path accounts)

  -- `ainfo.accounts[path][wid]`, if all of it is there
  unfoldable pub account_at : String → ℕ → Option (ChainAccounts A) → Option A
  unfolding at_path get
  account_at path wid none = none
  account_at path wid (some r) = get wid (at_path path r.accounts)

  unfoldable pub new_row : ℕ → String → ℕ → A → ChainAccounts A
  new_row chain path wid attr = record {
    chain_id = chain;
    accounts = (path, (wid, attr) ∷ []) ∷ [];
  }

  unfoldable pub with_account : String → ℕ → A → ChainAccounts A → ChainAccounts A
  unfolding at_path set
  with_account path wid attr r = record r {
    accounts = set path (set wid attr (at_path path r.accounts)) r.accounts;
  }

  unfoldable pub without_account : String → ℕ → ChainAccounts A → ChainAccounts A
  unfolding at_path set unset
  without_account path wid r = record r {
    accounts = set path (unset wid (at_path path r.accounts)) r.accounts;
  }

  -- the row is inserted or updated
  unfoldable pub write_account :
      ℕ → String → ℕ → A → List (ChainAccounts A) → Result (Bool × List (ChainAccounts A))
  unfolding new_row with_account upsert
  write_account chain path wid attr t =
      upsert user_rows (new_row chain path wid attr) (with_account path wid attr) chain t >>= λ t'.
      ok (true, t')

  unfoldable pub create_at :
      ℕ
      → String
      → ℕ
      → A
      → List (ChainAccounts A)
      → Option A
      → Result (Bool × List (ChainAccounts A))
  unfolding write_account
  create_at chain path wid attr t none = write_account chain path wid attr t
  create_at chain path wid attr t (some old) = ok (false, t)

  unfoldable pub delete_row :
      ℕ
      → String
      → ℕ
      → List (ChainAccounts A)
      → Option (ChainAccounts A)
      → Result (Bool × List (ChainAccounts A))
  unfolding without_account update
  delete_row chain path wid t none = ok (false, t)
  delete_row chain path wid t (some r) =
      update user_rows (some chain) (some (without_account path wid r)) t >>= λ t'. ok (true, t')

  unfoldable pub delete_at :
      ℕ
      → String
      → ℕ
      → List (ChainAccounts A)
      → Option (ChainAccounts A)
      → Option A
      → Result (Bool × List (ChainAccounts A))
  delete_at chain path wid t row none = ok (false, t)
  delete_at chain path wid t row (some old) = delete_row chain path wid t row

  -- `none` for an attribute that is undefined
  module _ (parse : String → List PathElem) where
    unfoldable pub create_user_account :
        ℕ → String → Option A → List (ChainAccounts A) → Result (Bool × List (ChainAccounts A))
    unfolding chain_of account_at create_at read
    create_user_account wid path none t = err invalid_parameter
    create_user_account wid path (some attr) t = do
      chain ← chain_of parse path
      row ← read user_rows (some chain) t
      create_at chain path wid attr t (account_at path wid row)

    unfoldable pub get_user_account : ℕ → String → List (ChainAccounts A) → Result A
    unfolding chain_of account_at read
    get_user_account wid path t = do
      chain ← chain_of parse path
      row ← read user_rows (some chain) t
      elim (account_at path wid row) [ none ↦ err not_found | some attr ↦ ok attr ]

    unfoldable pub update_user_account :
        ℕ → String → Option A → List (ChainAccounts A) → Result (Bool × List (ChainAccounts A))
    unfolding chain_of write_account
    update_user_account wid path none t = err invalid_parameter
    update_user_account wid path (some attr) t = do
      chain ← chain_of parse path
      write_account chain path wid attr t

    unfoldable pub delete_user_account :
        ℕ → String → List (ChainAccounts A) → Result (Bool × List (ChainAccounts A))
    unfolding chain_of account_at delete_at read
    delete_user_account wid path t = do
      chain ← chain_of parse path
      row ← read user_rows (some chain) t
      delete_at chain path wid t row (account_at path wid row)

  -- `none` stands for the empty object
  unfoldable pub get_user_account_for_chain :
      ℕ → List (ChainAccounts A) → Result (Option (ChainAccounts A))
  unfolding read
  get_user_account_for_chain chain t = read user_rows (some chain) t
