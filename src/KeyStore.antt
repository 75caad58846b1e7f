-- ===== src/KeyStore.antt =====
-- `KeyStoreWallet` of src/hdwallet/wallets/keystore.js: keystores that were imported, by chain, in
-- the keystore table of the wallet database. What it asks of JavaScript and of keythereum is a
-- record of parameters. A path is what `splitBip44Path` returns.
pub mod Storing
pub mod PrivateKeys
pub mod Duplicates
mod Examples
use wanchain_js_sdk.Prelude.{
  ℕ, String, ◌+◌, Bool, true, false, not, Option, none, some, List, [], ◌∷◌, nat_beq, str_eq, zero,
  suc, ◌&&◌, ◌||◌, nat_eq, if◌then◌else◌,
}
use wanchain_js_sdk.Prelude.Result.{
  Result, ok, err, Error, invalid_parameter, wrong_password, not_support, not_found, logic_error,
  type_error, ◌>>=◌,
}
use wanchain_js_sdk.Objects.{Object, get, set}
use wanchain_js_sdk.Table.{insert, update, read}
use wanchain_js_sdk.Table.Find.{Rows}
use wanchain_js_sdk.Bip44.{PathElem, levels_of}

-- A keystore object. `C` stands for the encrypted parts with their version.
pub record Keys (C : Type 0) : Type 0 where
  pub address : Option String
  pub waddress : Option String
  pub crypto : C
  pub crypto2 : Option C

-- What is stored: the text that was imported, or the object of a re-encrypted keystore.
pub data Stored (C : Type 0) : Type 0 where
  text : String → Stored C
  object : Keys C → Stored C

pub record ChainStore (C : Type 0) : Type 0 where
  pub chain_id : ℕ
  pub count : ℕ
  pub keystore : Object ℕ (Stored C)

-- `JSON.parse`, `toLowerCase`, keythereum's `recover`, and `dump` with its random texts as a number.
pub record Crypto (C : Type 0) : Type 0 where
  pub parse : String → Result (Keys C)
  pub lower : String → String
  pub recover : String → C → Result String
  pub dump : ℕ → String → String → Option String × C

-- the options of `importKeyStore`; `none` for what is missing or empty
pub record ImportOpt : Type 0 where
  pub check_duplicate : Bool
  pub old_password : Option String
  pub new_password : Option String
  pub chkfunc : Option (String → Bool)

-- the options of `_getPrivateKey`, where `forcechk` is set if it is missing
pub record KeyOpt : Type 0 where
  pub forcechk : Bool
  pub password : Option String
  pub chkfunc : Option (String → Bool)

abbrev pub chain_wan : ℕ
chain_wan = 5718350

abbrev pub or_else : Option String → String → String
or_else none seed = seed
or_else (some password) seed = password

unfoldable pub check_password : Option (String → Bool) → String → Result Bool
check_password none password = err invalid_parameter
check_password (some chk) password = if chk password then ok true else err wrong_password

-- the chains of `_CHAIN_GET_PUBKEY`, ETH and WAN
unfoldable pub guard_supported : ℕ → Result Bool
guard_supported chain =
    if nat_beq chain 60 || nat_beq chain chain_wan then ok true else err not_support

unfoldable pub check_key_opt : KeyOpt → Result Bool
unfolding check_password
check_key_opt opt = elim opt.forcechk [
  | false ↦ ok true
  | true ↦ elim opt.password [
    | none ↦ err invalid_parameter
    | some password ↦ check_password opt.chkfunc password
  ]
]

module _ {C : Type 0} where
  -- All fields are assigned.
  abbrev pub store_rows : Rows (ChainStore C) ℕ
  store_rows = record {
    key = λ c. some c.chain_id;
    assign = λ old new. new;
    key-assign = λ old new k h. h;
  }

  unfoldable pub recover_second : Crypto C → String → Option C → Result String
  recover_second lib password none = err type_error
  recover_second lib password (some crypto) = lib.recover password crypto

  -- the new keystore, from the private key; one of WAN has a second key
  unfoldable pub changed_keys :
      Crypto C → ℕ → Keys C → String → String → Bool → String → Result (Keys C)
  unfolding recover_second
  changed_keys lib random ks old new false priv = ok (record {
    address = (lib.dump random new priv).0;
    waddress = none;
    crypto = (lib.dump random new priv).1;
    crypto2 = none;
  })
  changed_keys lib random ks old new true priv = recover_second lib old ks.crypto2 >>= λ priv2.
      ok (record {
        address = (lib.dump random new priv).0;
        waddress = ks.waddress;
        crypto = (lib.dump random new priv).1;
        crypto2 = some (lib.dump (random + 1) new priv2).1;
      })

  -- `_changeKeyStore`; the random texts of the second key are those after the first one's
  unfoldable pub change_key_store : Crypto C → ℕ → Keys C → ℕ → String → String → Result (Keys C)
  unfolding changed_keys
  change_key_store lib random ks chain old new =
      lib.recover old ks.crypto >>= changed_keys lib random ks old new (nat_beq chain chain_wan)

  -- a text has no address
  unfoldable pub same_address : String → Stored C → Bool
  same_address address (text t) = false
  same_address address (object ks) = elim ks.address [
    | none ↦ false
    | some other ↦ str_eq other address
  ]

  unfoldable pub at_address : String → Option (Stored C) → Bool
  unfolding same_address
  at_address address none = false
  at_address address (some s) = same_address address s

  -- the loop over the indices below a number
  unfoldable pub duplicate_below : String → ℕ → Object ℕ (Stored C) → Bool
  unfolding at_address get
  duplicate_below address zero keystore = false
  duplicate_below address (suc i) keystore =
      at_address address (get i keystore) || duplicate_below address i keystore

  unfoldable pub has_duplicate : String → Option (ChainStore C) → Bool
  unfolding duplicate_below
  has_duplicate address none = false
  has_duplicate address (some chains) = duplicate_below address chains.count chains.keystore

  unfoldable pub check_duplicate : Crypto C → Bool → Keys C → Option (ChainStore C) → Result Bool
  unfolding has_duplicate
  check_duplicate lib false ks row = ok true
  check_duplicate lib true ks row = elim ks.address [
    | none ↦ err invalid_parameter
    | some address ↦
        if has_duplicate (lib.lower address) row then err invalid_parameter else ok true
  ]

  -- what is stored: re-encrypted if the old password is given
  unfoldable pub re_encrypted :
      Crypto C → String → ℕ → ℕ → String → Keys C → ImportOpt → Option String → Result (Stored C)
  unfolding check_password change_key_store
  re_encrypted lib seed random chain keystore ks opt none = ok (text keystore)
  re_encrypted lib seed random chain keystore ks opt (some old) = do
    checked ← check_password opt.chkfunc (or_else opt.new_password seed)
    changed ← change_key_store lib random ks chain old (or_else opt.new_password seed)
    ok (object changed)

  -- the end of `importKeyStore`, with the index that it returns
  unfoldable pub add_key_store :
      ℕ → Stored C → List (ChainStore C) → Option (ChainStore C) → Result (ℕ × List (ChainStore C))
  unfolding set
  add_key_store chain s t none =
      insert store_rows (some (record { chain_id = chain; count = 1; keystore = (0, s) ∷ [] })) t
      >>= λ t'. ok (0, t')
  add_key_store chain s t (some ck) = elim (get ck.count ck.keystore) [
    | some old ↦ err logic_error
    | none ↦
        update store_rows (some chain)
          (some (record ck { count = ck.count + 1; keystore = set ck.count s ck.keystore })) t
        >>= λ t'. ok (ck.count, t')
  ]

  abbrev pub no_json : Result (Keys C) → Result (Keys C)
  no_json (err e) = err invalid_parameter
  no_json (ok ks) = ok ks

  unfoldable pub import_key_store :
      Crypto C
      → String
      → ℕ
      → List PathElem
      → String
      → ImportOpt
      → List (ChainStore C)
      → Result (ℕ × List (ChainStore C))
  unfolding levels_of guard_supported check_duplicate re_encrypted add_key_store
  import_key_store lib seed random path keystore opt t = do
    levels ← levels_of path
    known ← guard_supported levels.chain_id
    ks ← no_json (lib.parse keystore)
    row ← read store_rows (some levels.chain_id) t
    single ← check_duplicate lib opt.check_duplicate ks row
    s ← re_encrypted lib seed random levels.chain_id keystore ks opt opt.old_password
    add_key_store levels.chain_id s t row

  abbrev pub of_chain : Error → Option (ChainStore C) → Result (ChainStore C)
  of_chain e none = err e
  of_chain e (some ck) = ok ck

  abbrev pub of_index : Option (Stored C) → Result (Stored C)
  of_index none = err not_found
  of_index (some s) = ok s

  -- `missing` is thrown where the chain is
  unfoldable pub stored_at : Error → ℕ → ℕ → List (ChainStore C) → Result (Stored C)
  unfolding get read
  stored_at missing chain index t = do
    row ← read store_rows (some chain) t
    ck ← of_chain missing row
    of_index (get index ck.keystore)

  unfoldable pub export_key_store : List PathElem → List (ChainStore C) → Result (Stored C)
  unfolding levels_of stored_at
  export_key_store path t = do
    levels ← levels_of path
    stored_at not_support levels.chain_id levels.index t

  -- the address of a text is undefined
  abbrev pub address_of : Stored C → Option String
  address_of (text t) = none
  address_of (object ks) = ks.address

  unfoldable pub get_address : List PathElem → List (ChainStore C) → Result (Option String)
  unfolding levels_of stored_at
  get_address path t = do
    levels ← levels_of path
    s ← stored_at not_support levels.chain_id levels.index t
    ok (address_of s)

  unfoldable pub size : ℕ → List (ChainStore C) → Result ℕ
  unfolding read
  size chain t =
      read store_rows (some chain) t >>= λ row. ok (elim row [ none ↦ 0 | some ck ↦ ck.count ])

  unfoldable pub keys_of : Crypto C → Stored C → Result (Keys C)
  keys_of lib (text t) = lib.parse t
  keys_of lib (object ks) = ok ks

  -- the second key is that of a private address of WAN
  unfoldable pub recover_key : Crypto C → ℕ → ℕ → String → Keys C → Result String
  unfolding recover_second
  recover_key lib chain internal password ks =
      if nat_beq chain chain_wan && not (nat_beq internal 0)
      then recover_second lib password ks.crypto2
      else lib.recover password ks.crypto

  unfoldable pub get_private_key :
      Crypto C → String → List PathElem → KeyOpt → List (ChainStore C) → Result String
  unfolding levels_of check_key_opt
  get_private_key lib seed path opt t = do
    levels ← levels_of path
    checked ← check_key_opt opt
    s ← stored_at not_found levels.chain_id levels.index t
    ks ← keys_of lib s
    recover_key lib levels.chain_id levels.internal (or_else opt.password seed) ks
