-- ===== src/RawKey.antt =====
-- `RawKeyWallet` of src/hdwallet/wallets/rawkey.js: private keys that were imported, by chain, in
-- the raw key table of the wallet database. Encrypting is a parameter: `encrypt` takes the random
-- texts (iv and salt) as a number. A path is what `splitBip44Path` returns.
pub mod Laws
mod Examples
use wanchain_js_sdk.Prelude.{
  ℕ, String, ◌+◌, Bool, true, false, Option, none, some, List, [], ◌∷◌, ◌++◌, nat_beq, nat_eq,
  str_eq, if◌then◌else◌,
}
use wanchain_js_sdk.Prelude.Result.{
  Result, ok, err, Error, invalid_parameter, not_found, logic_error, ◌>>=◌,
}
use wanchain_js_sdk.Table.{insert, update, read}
use wanchain_js_sdk.Table.Find.{Rows}
use wanchain_js_sdk.Bip44.{PathElem, levels_of}

-- the keys of a chain, by index
pub record ChainKey (E : Type 0) : Type 0 where
  pub chain_id : ℕ
  pub count : ℕ
  pub keys : List (ℕ × E)

module _ {E : Type 0} where
  -- All fields are assigned.
  abbrev pub key_rows : Rows (ChainKey E) ℕ
  key_rows = record {
    key = λ c. some c.chain_id;
    assign = λ old new. new;
    key-assign = λ old new k h. h;
  }

  -- `keys[index]`
  unfoldable pub key_at : ℕ → List (ℕ × E) → Option E
  key_at i [] = none
  key_at i ((j, e) ∷ keys) = if nat_beq j i then some e else key_at i keys

  abbrev pub grown : E → ChainKey E → ChainKey E
  grown e ck = record ck { count = ck.count + 1; keys = ck.keys ++ (ck.count, e) ∷ [] }

  -- a chain that is there: the key goes under the count
  unfoldable pub append_key : E → ChainKey E → List (ChainKey E) → Result (ℕ × List (ChainKey E))
  unfolding key_at update
  append_key e ck t = elim (key_at ck.count ck.keys) [
    | some old ↦ err logic_error
    | none ↦ update key_rows (some ck.chain_id) (some (grown e ck)) t >>= λ t'. ok (ck.count, t')
  ]

  new_chain : ℕ → E → List (ChainKey E) → Result (ℕ × List (ChainKey E))
  unfolding insert
  new_chain chain e t =
      insert key_rows (some (record { chain_id = chain; count = 1; keys = (0, e) ∷ [] })) t
      >>= λ t'. ok (0, t')

  -- the end of `importPrivateKey`, with the index that it returns
  unfoldable pub add_key : ℕ → E → List (ChainKey E) → Result (ℕ × List (ChainKey E))
  unfolding new_chain append_key read
  add_key chain e t = elim (read key_rows (some chain) t) [
    | err x ↦ err x
    | ok found ↦ elim found [ none ↦ new_chain chain e t | some ck ↦ append_key e ck t ]
  ]

  unfoldable pub size : ℕ → List (ChainKey E) → Result ℕ
  unfolding read
  size chain t =
      read key_rows (some chain) t >>= λ found. ok (elim found [ none ↦ 0 | some ck ↦ ck.count ])

  -- the encrypted key that `_getPrivateKey` finds
  unfoldable pub encrypted_at : ℕ → ℕ → List (ChainKey E) → Result E
  unfolding read key_at
  encrypted_at chain index t = read key_rows (some chain) t >>= λ found. elim found [
    | none ↦ err not_found
    | some ck ↦ elim (key_at index ck.keys) [ none ↦ err not_found | some e ↦ ok e ]
  ]

-- `opt.password || this._seed`: an empty password counts as a missing one
abbrev pub password_of : String → Option String → String
password_of seed none = seed
password_of seed (some password) = if str_eq password "" then seed else password

module _ {E : Type 0} (encrypt : ℕ → String → String → E)
    (decrypt : E → String → Result String) where
  -- `opt` is the password, if one was given; `seed` is the wallet's own
  unfoldable pub import_private_key :
      String
      → ℕ
      → List PathElem
      → String
      → Option String
      → List (ChainKey E)
      → Result (ℕ × List (ChainKey E))
  unfolding levels_of add_key
  import_private_key seed random path key opt t = do
    levels ← levels_of path
    add_key levels.chain_id (encrypt random key (password_of seed opt)) t

  -- `opt.forcechk || true` is always true, so a password is always asked for, and not an empty one
  unfoldable pub get_private_key_at : ℕ → ℕ → Option String → List (ChainKey E) → Result String
  unfolding encrypted_at
  get_private_key_at chain index none t = err invalid_parameter
  get_private_key_at chain index (some password) t =
      if str_eq password ""
      then err invalid_parameter
      else (encrypted_at chain index t >>= λ e. decrypt e password)

  unfoldable pub get_private_key : List PathElem → Option String → List (ChainKey E) → Result String
  unfolding levels_of get_private_key_at
  get_private_key path opt t = do
    levels ← levels_of path
    get_private_key_at levels.chain_id levels.index opt t
