-- ===== src/UserAccounts/Imported.antt =====
-- Accounts that were imported under a name, as on EOS, of src/api/hdUtil.js: the public keys by
-- account, permission, wallet ID and path, in the table of the main net or of the test net.
use wanchain_js_sdk.Prelude.{
  ℕ, String, Option, none, some, List, [], ◌∷◌, ◌++◌, str_eq, map, string_eq, nat_eq, if◌then◌else◌,
}
use wanchain_js_sdk.Prelude.Result.{Result, ok, err, not_found, type_error, ◌>>=◌}
use wanchain_js_sdk.Objects.{Object, get, set}
use wanchain_js_sdk.Table.{read}
use wanchain_js_sdk.Table.Find.{Rows}
use wanchain_js_sdk.Table.Upsert.{upsert}
use wanchain_js_sdk.Bip44.{PathElem, get_chain_id_from_bip44_path}

-- public keys by wallet ID and path
abbrev pub PubKeys : Type 0
PubKeys = Object ℕ (Object String String)

-- `keys` by account and permission; a permission may lack it, and a row its accounts
abbrev pub Permissions : Type 0
Permissions = Object String (Option PubKeys)

pub record Imports : Type 0 where
  pub chain_id : ℕ
  pub accounts : Option (Object String Permissions)

abbrev pub import_rows : Rows Imports ℕ
import_rows = record {
  key = λ r. some r.chain_id;
  assign = λ old new. new;
  key-assign = λ old new k h. h;
}

-- a row of the wallet table, as far as `getChainTypeByChainID` reads it
pub record WalletRow : Type 0 where
  pub chain_id : ℕ
  pub chain : Option String

abbrev pub wallet_rows : Rows WalletRow ℕ
wallet_rows = record {
  key = λ r. some r.chain_id;
  assign = λ old new. new;
  key-assign = λ old new k h. h;
}

unfoldable pub get_chain_type_by_chain_id : ℕ → List WalletRow → Result String
unfolding read
get_chain_type_by_chain_id chain t = read wallet_rows (some chain) t >>= λ row. elim row [
  | none ↦ err not_found
  | some r ↦ elim r.chain [ none ↦ err not_found | some name ↦ ok name ]
]

-- the two tables, and the one that the network's name picks
pub record NetTables : Type 0 where
  pub test : List Imports
  pub main : List Imports

unfoldable pub net_table : String → NetTables → List Imports
net_table network nets = if str_eq network "testnet" then nets.test else nets.main

unfoldable pub with_table : String → List Imports → NetTables → NetTables
with_table network t nets =
    if str_eq network "testnet" then record nets { test = t } else record nets { main = t }

abbrev pub or_new {κ ℓ} : {K : Type κ} {V : Type ℓ} → Option (Object K V) → Object K V
or_new none = []
or_new (some m) = m

abbrev pub flat : Option (Option PubKeys) → PubKeys
flat none = []
flat (some keys) = or_new keys

unfoldable pub import_row : ℕ → String → String → ℕ → String → String → Imports
import_row chain account perm wid path key = record {
  chain_id = chain;
  accounts = some ((account, (perm, some ((wid, (path, key) ∷ []) ∷ [])) ∷ []) ∷ []);
}

-- the objects that are missing are made on the way to the key
unfoldable pub with_key : String → String → ℕ → String → String → Imports → Imports
unfolding get set
with_key account perm wid path key r =
    let accounts = or_new r.accounts in
    let perms = or_new (get account accounts) in
    let keys = flat (get perm perms) in
    let paths = or_new (get wid keys) in
    record r {
      accounts =
          some (set account (set perm (some (set wid (set path key paths) keys)) perms) accounts);
    }

-- `getChainTypeByChainID` is called for its error
unfoldable pub import_user_account :
    (String → List PathElem)
    → List WalletRow
    → String
    → ℕ
    → String
    → String
    → String
    → String
    → NetTables
    → Result NetTables
unfolding get_chain_type_by_chain_id net_table with_table import_row with_key upsert
import_user_account parse wallets network wid path account key perm nets = do
  chain ← get_chain_id_from_bip44_path (parse path)
  kind ← get_chain_type_by_chain_id chain wallets
  t ←
      upsert import_rows (import_row chain account perm wid path key)
        (with_key account perm wid path key) chain (net_table network nets)
  ok (with_table network t nets)

unfoldable pub get_import_accounts_for_chain : String → ℕ → NetTables → Result (Option Imports)
unfolding net_table read
get_import_accounts_for_chain network chain nets =
    read import_rows (some chain) (net_table network nets)

-- `Object.keys` of the accounts, which throws if the row has none
unfoldable pub get_import_account_names_for_chain : String → ℕ → NetTables → Result (List String)
unfolding get_import_accounts_for_chain
get_import_account_names_for_chain network chain nets =
    get_import_accounts_for_chain network chain nets >>= λ row. elim row [
      | none ↦ ok []
      | some r ↦ elim r.accounts [
        | none ↦ err type_error
        | some accounts ↦ ok (map (λ a. a.0) accounts)
      ]
    ]

-- `ainfo.accounts[account][permission].keys`, if all of it is there
unfoldable pub keys_at : String → String → Imports → Option PubKeys
unfolding get
keys_at account perm r = elim r.accounts [
  | none ↦ none
  | some accounts ↦ elim (get account accounts) [
    | none ↦ none
    | some perms ↦ elim (get perm perms) [ none ↦ none | some keys ↦ keys ]
  ]
]

-- `keys`, or an object with the one entry `keys[undefined]`, which is undefined
pub data KeysReply : Type 0 where
  nothing undefined_entry : KeysReply
  keys_of : PubKeys → KeysReply

unfoldable pub get_import_account_keys_for_chain :
    String → ℕ → String → String → Option ℕ → NetTables → Result KeysReply
unfolding get_import_accounts_for_chain keys_at
get_import_account_keys_for_chain network chain account perm wid nets =
    get_import_accounts_for_chain network chain nets >>= λ row. elim row [
      | none ↦ ok nothing
      | some r ↦ elim (keys_at account perm r) [
        | none ↦ ok nothing
        | some keys ↦ elim wid [ none ↦ ok undefined_entry | some w ↦ ok (keys_of keys) ]
      ]
    ]

-- the loop over the paths of a wallet ID: an account is pushed for each that has the key
unfoldable pub pushed : String → String → Object String String → List String
pushed key account [] = []
pushed key account ((path, other) ∷ paths) =
    let rest = pushed key account paths in if str_eq other key then account ∷ rest else rest

-- without the permission or its keys the access throws; there may be none of the wallet ID
unfoldable pub matches : String → ℕ → String → String → Permissions → Result (List String)
unfolding get pushed
matches perm wid key account perms = elim (get perm perms) [
  | none ↦ err type_error
  | some found ↦ elim found [
    | none ↦ err type_error
    | some keys ↦ ok (pushed key account (or_new (get wid keys)))
  ]
]

unfoldable pub all_matches : String → ℕ → String → Object String Permissions → Result (List String)
unfolding matches
all_matches perm wid key [] = ok []
all_matches perm wid key ((account, perms) ∷ accounts) = do
  first ← matches perm wid key account perms
  rest ← all_matches perm wid key accounts
  ok (first ++ rest)

abbrev pub caught_empty : Result (List String) → List String
caught_empty (err e) = []
caught_empty (ok accounts) = accounts

-- An error is logged, and no account is returned.
unfoldable pub get_import_accounts_by_pub_key_for_chain :
    String → ℕ → String → ℕ → String → NetTables → List String
unfolding get_import_accounts_for_chain all_matches
get_import_accounts_by_pub_key_for_chain network chain key wid perm nets = caught_empty (
    get_import_accounts_for_chain network chain nets >>= λ row. elim row [
      | none ↦ ok []
      | some r ↦ elim r.accounts [
        | none ↦ ok []
        | some accounts ↦ all_matches perm wid key accounts
      ]
    ])
