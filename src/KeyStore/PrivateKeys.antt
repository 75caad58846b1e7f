-- ===== src/KeyStore/PrivateKeys.antt =====
-- What is imported is exported, and a re-encrypted keystore holds the same private keys.
use wanchain_js_sdk.Prelude.{
  ℕ, String, ◌+◌, ◌≡◌, sym, ap, ◌∙◌, Bool, true, false, not, none, some, List, nat_beq, ◌&&◌,
  nat_eq, if◌then◌else◌,
}
use wanchain_js_sdk.Prelude.Result.{Result, ok, not_support, not_found, ◌>>=◌, >>=-eq-ok}
use wanchain_js_sdk.Bip44.{PathElem, Levels, levels_of}
use wanchain_js_sdk.KeyStore.{
  Keys, Stored, text, object, ChainStore, Crypto, ImportOpt, chain_wan, or_else, check_password,
  recover_second, changed_keys, change_key_store, re_encrypted, no_json, import_key_store,
  export_key_store, keys_of, recover_key, check_key_opt, get_private_key,
}
use wanchain_js_sdk.KeyStore.Storing.{import-stored, row_eq}

module _ {C : Type 0} where
  -- A keystore that was imported as it is is exported as it is, by any path of its chain that ends
  -- in the index that the import returned.
  pub export_key_store-import :
      (lib : Crypto C) (seed keystore : String) (random i : ℕ) (path path' : List PathElem)
      (l l' : Levels) (opt : ImportOpt) (t t' : List (ChainStore C))
      → levels_of path ≡ ok l
      → levels_of path' ≡ ok l'
      → l'.chain_id ≡ l.chain_id
      → l'.index ≡ i
      → opt.old_password ≡ none
      → import_key_store lib seed random path keystore opt t ≡ ok (i, t')
      → export_key_store path' t' ≡ ok (text keystore)
  unfolding export_key_store re_encrypted
  export_key_store-import lib seed keystore random i path path' l l' opt t t' p p' c j o h =
      let (ks, s, parsed, stored, there) =
        import-stored lib seed keystore random i path l opt t t' not_support p h in
      let as_text : text keystore ≡ s = row_eq (rw o at stored) in
      rw (p', c, j) (there ∙ ap ok (sym as_text))

  -- Recovering with the new password inverts encrypting with it.
  abbrev pub IsCipher : Crypto C → Type 0
  IsCipher lib =
      (random : ℕ) (password priv : String)
      → lib.recover password (lib.dump random password priv).1 ≡ ok priv

  -- the first or the second private key, by whether the chain is WAN and the address private
  abbrev recovered : Crypto C → Bool → Bool → String → Keys C → Result String
  recovered lib wan second password ks =
      if wan && second
      then recover_second lib password ks.crypto2
      else lib.recover password ks.crypto

  changed-recovered :
      (lib : Crypto C) (random : ℕ) (second : Bool) (ks changed : Keys C) (wan : Bool)
      (old new first priv : String)
      → IsCipher lib
      → lib.recover old ks.crypto ≡ ok first
      → changed_keys lib random ks old new wan first ≡ ok changed
      → recovered lib wan second old ks ≡ ok priv
      → recovered lib wan second new changed ≡ ok priv
  unfolding changed_keys
  changed-recovered lib random second ks changed false old new first priv cipher got h r =
      let same : first ≡ priv = row_eq (sym got ∙ r) in
      rw (← row_eq h) (cipher random new first ∙ ap ok same)
  changed-recovered lib random false ks changed true old new first priv cipher got h r =
      let (priv2, got2, made) = >>=-eq-ok (recover_second lib old ks.crypto2) _ h in
      let same : first ≡ priv = row_eq (sym got ∙ r) in
      rw (← row_eq made) (cipher random new first ∙ ap ok same)
  changed-recovered lib random true ks changed true old new first priv cipher got h r =
      let (priv2, got2, made) = >>=-eq-ok (recover_second lib old ks.crypto2) _ h in
      let same : priv2 ≡ priv = row_eq (sym got2 ∙ r) in
      rw (← row_eq made) (unfold recover_second in cipher (random + 1) new priv2 ∙ ap ok same)

  re_encrypted-recovers :
      (lib : Crypto C) (seed keystore : String) (random chain internal : ℕ) (ks : Keys C)
      (s : Stored C) (opt : ImportOpt) (old new priv : String)
      → IsCipher lib
      → opt.new_password ≡ some new
      → re_encrypted lib seed random chain keystore ks opt (some old) ≡ ok s
      → recover_key lib chain internal old ks ≡ ok priv
      → (keys_of lib s >>= recover_key lib chain internal new) ≡ ok priv
  unfolding re_encrypted change_key_store recover_key keys_of
  re_encrypted-recovers lib seed keystore random chain internal ks s opt old new priv cipher n h r =
      let (checked, c, h₁) =
        >>=-eq-ok (check_password opt.chkfunc (or_else opt.new_password seed)) _ h in
      let (changed, m, h₂) =
        >>=-eq-ok
          (lib.recover old ks.crypto
            >>= changed_keys lib random ks old (or_else opt.new_password seed)
                (nat_beq chain chain_wan))
          _ h₁ in
      let (first, got, made) = >>=-eq-ok (lib.recover old ks.crypto) _ m in
      let password : or_else opt.new_password seed ≡ new = ap (λ x. or_else x seed) n in
      let made' : changed_keys lib random ks old new (nat_beq chain chain_wan) first ≡ ok changed =
        rw (← password) made in
      let stored : object changed ≡ s = row_eq h₂ in
      rw (← stored) (
        changed-recovered lib random (not (nat_beq internal 0)) ks changed (nat_beq chain chain_wan)
          old new first priv cipher got made' r)

  -- A keystore that was imported with its old password and a new one gives, with the new password and
  -- a check that accepts it, each private key that the old password recovers from the imported text,
  -- by any path of its chain that ends in the index that the import returned.
  pub get_private_key-import_key_store :
      (lib : Crypto C) (seed keystore old new priv : String) (random i : ℕ)
      (path path' : List PathElem) (l l' : Levels) (ks : Keys C) (opt : ImportOpt)
      (chk : String → Bool) (t t' : List (ChainStore C))
      → IsCipher lib
      → levels_of path ≡ ok l
      → levels_of path' ≡ ok l'
      → l'.chain_id ≡ l.chain_id
      → l'.index ≡ i
      → opt.old_password ≡ some old
      → opt.new_password ≡ some new
      → chk new ≡ true
      → lib.parse keystore ≡ ok ks
      → recover_key lib l'.chain_id l'.internal old ks ≡ ok priv
      → import_key_store lib seed random path keystore opt t ≡ ok (i, t')
      → get_private_key lib seed path'
          (record { forcechk = true; password = some new; chkfunc = some chk })
          t'
        ≡ ok priv
  unfolding get_private_key check_key_opt check_password
  get_private_key-import_key_store lib seed keystore old new priv random i path path' l l' ks opt
        chk t t' cipher p p' c j o n k parsed r h =
      let (ks₁, s, parsed₁, stored, there) =
        import-stored lib seed keystore random i path l opt t t' not_found p h in
      let same : ks₁ ≡ ks = row_eq (sym parsed₁ ∙ ap no_json parsed) in
      let stored' : re_encrypted lib seed random l.chain_id keystore ks opt (some old) ≡ ok s =
        rw (← same, ← o) stored in
      let r' : recover_key lib l.chain_id l'.internal old ks ≡ ok priv = rw (← c) r in
      let done =
        re_encrypted-recovers lib seed keystore random l.chain_id l'.internal ks s opt old new priv
          cipher n stored' r' in
      rw (p', k, c, j, there) done
