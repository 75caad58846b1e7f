-- ===== src/RawKey/Laws.antt =====
-- The raw key table as a map from a chain and an index to a key.
use wanchain_js_sdk.Prelude.{
  ℕ, String, ◌≡◌, refl, sym, ap, ◌∙◌, false, Option, none, some, List, [], ◌∷◌, ◌++◌, nat_beq,
  nat_beq_iff, nat_eq, ◌==◌, ◌&&◌, str_eq, if◌then◌else◌, arith, Bool-cases, inl, inr,
}
use wanchain_js_sdk.Prelude.Result.{Result, ok, err, not_found, logic_error, ◌>>=◌, >>=-eq-ok}
use wanchain_js_sdk.Table.{read, insert, update}
use wanchain_js_sdk.Table.Find.{find, find-key}
use wanchain_js_sdk.Table.Reads.{read-insert, read-update}
use wanchain_js_sdk.RawKey.{
  ChainKey, key_rows, key_at, append_key, grown, new_chain, add_key, encrypted_at, password_of,
  import_private_key, get_private_key_at, get_private_key,
}
use wanchain_js_sdk.Bip44.{PathElem, Levels, levels_of}

some_eq : {a b : ℕ} → some a ≡ some b → a ≡ b
some_eq h = cc

ok_eq : {A : Type 0} {a b : A} → ok a ≡ ok b → a ≡ b
ok_eq h = cc

module _ {E : Type 0} where
  abbrev value : Option E → Result E
  value none = err not_found
  value (some e) = ok e

  abbrev stored : ℕ → Option (ChainKey E) → Result E
  stored j none = err not_found
  stored j (some ck) = value (key_at j ck.keys)

  key_at-append :
      (i j : ℕ) (e : E) (keys : List (ℕ × E))
      → key_at j (keys ++ (i, e) ∷ [])
        ≡ elim (key_at j keys) [ none ↦ (if nat_beq i j then some e else none) | some x ↦ some x ]
  unfolding key_at
  key_at-append i j e [] = refl
  key_at-append i j e ((k, x) ∷ keys) = ground (arith, key_at-append i j e keys)

  -- What a successful `add_key` left: the chain's keys are those of before and the new one.
  abbrev Added : ℕ → E → ℕ → List (ChainKey E) → List (ChainKey E) → Type 0
  Added chain e i t t' =
      (ck : ChainKey E) × ((c : ℕ)
        → read key_rows (some c) t'
          ≡ (if chain == c then ok (some ck) else read key_rows (some c) t))
      × ((j : ℕ) → stored j (some ck) ≡ (if i == j then ok e else stored j (find key_rows chain t)))

  abbrev answer : ℕ → List (ChainKey E) → Result (ℕ × List (ChainKey E))
  answer i t = ok (i, t)

  pair_eq : {i j : ℕ} {t u : List (ChainKey E)} → answer i t ≡ answer j u → (i ≡ j) × (t ≡ u)
  pair_eq h = (cc, cc)

  new_chain-Added :
      (chain : ℕ) (e : E) (i : ℕ) (t t' : List (ChainKey E))
      → find key_rows chain t ≡ none
      → new_chain chain e t ≡ ok (i, t')
      → Added chain e i t t'
  unfolding new_chain
  new_chain-Added chain e i t t' f h =
      let ck : ChainKey E = record { chain_id = chain; count = 1; keys = (0, e) ∷ [] } in
      let (t₁, made, same) = >>=-eq-ok (insert key_rows (some ck) t) (λ u. ok (0, u)) h in
      let (zero_i, t_eq) = pair_eq same in
      (
        ck,
        λ c. rw (← t_eq) (read-insert key_rows ck chain c t t₁ refl made),
        λ j. rw (f, ← zero_i) (unfold key_at in ground arith),
      )

  read_replaced :
      (chain c : ℕ) (ck new : ChainKey E) (t t' : List (ChainKey E))
      → new.chain_id ≡ chain
      → find key_rows chain t ≡ some ck
      → update key_rows (some chain) (some new) t ≡ ok t'
      → read key_rows (some c) t' ≡ (if chain == c then ok (some new) else read key_rows (some c) t)
  read_replaced chain c ck new t t' p f h =
      read-update key_rows new chain c t t' (ap some p) h ∙ elim (Bool-cases (chain == c)) [
        | inl same ↦
            let there : find key_rows c t ≡ some ck = rw (← (nat_beq_iff chain c).0 same) f in
            rw (same, there) refl
        | inr other ↦ rw other refl
      ]

  key_of-append :
      (i j : ℕ) (e : E) (keys : List (ℕ × E))
      → key_at i keys ≡ none
      → key_at j (keys ++ (i, e) ∷ []) ≡ (if i == j then some e else key_at j keys)
  key_of-append i j e keys free = key_at-append i j e keys ∙ elim (Bool-cases (nat_beq i j)) [
    | inl same ↦
        let there : key_at j keys ≡ none = rw (← (nat_beq_iff i j).0 same) free in
        rw there (ground (arith, same))
    | inr other ↦ rw other (ground arith)
  ]

  append_key-Added :
      (chain : ℕ) (e : E) (i : ℕ) (t t' : List (ChainKey E)) (ck : ChainKey E)
      → find key_rows chain t ≡ some ck
      → append_key e ck t ≡ ok (i, t')
      → Added chain e i t t'
  unfolding append_key
  append_key-Added chain e i t t' ck f h = free (key_at ck.count ck.keys) refl h
    where
      free :
          (k : Option E)
          → key_at ck.count ck.keys ≡ k
          → elim k [
            | some old ↦ err logic_error
            | none ↦
                update key_rows (some ck.chain_id) (some (grown e ck)) t >>= λ u. ok (ck.count, u)
          ]
            ≡ answer i t'
          → Added chain e i t t'
      free (some old) k h = cc
      free none k h =
          let (t₁, made, same) =
            >>=-eq-ok (update key_rows (some ck.chain_id) (some (grown e ck)) t)
              (λ u. ok (ck.count, u)) h in
          let (count_i, t_eq) = pair_eq same in
          let key : ck.chain_id ≡ chain = some_eq (find-key key_rows chain t ck f) in
          (
            grown e ck,
            λ c. rw (← t_eq) (read_replaced chain c ck (grown e ck) t t₁ key f (rw (← key) made)),
            λ j.
                rw (f, ← count_i)
                  (ap value (key_of-append ck.count j e ck.keys k) ∙ (ground arith)),
          )

  added :
      (chain : ℕ) (e : E) (i : ℕ) (t t' : List (ChainKey E))
      → add_key chain e t ≡ ok (i, t')
      → Added chain e i t t'
  unfolding add_key read
  added chain e i t t' h = go (find key_rows chain t) refl h
    where
      go :
          (found : Option (ChainKey E))
          → find key_rows chain t ≡ found
          → elim found [ none ↦ new_chain chain e t | some ck ↦ append_key e ck t ] ≡ answer i t'
          → Added chain e i t t'
      go none f k = new_chain-Added chain e i t t' f k
      go (some ck) f k = append_key-Added chain e i t t' ck f k

  encrypted-stored :
      (c j : ℕ) (t : List (ChainKey E)) → encrypted_at c j t ≡ stored j (find key_rows c t)
  unfolding encrypted_at read
  encrypted-stored c j t = ground arith

  found_in :
      (c : ℕ) (t : List (ChainKey E)) (found : Option (ChainKey E))
      → read key_rows (some c) t ≡ ok found
      → find key_rows c t ≡ found
  unfolding read
  found_in c t found h = ok_eq h

  -- After a successful import, the key of a chain and an index is the new one exactly at the chain
  -- of the import and the index that it returned; every other key is what it was.
  pub encrypted_at-add_key :
      (chain : ℕ) (e : E) (i : ℕ) (t t' : List (ChainKey E)) (c j : ℕ)
      → add_key chain e t ≡ ok (i, t')
      → encrypted_at c j t' ≡ (if (chain == c) && (i == j) then ok e else encrypted_at c j t)
  encrypted_at-add_key chain e i t t' c j h =
      let (ck, reads, stores) = added chain e i t t' h in
      rw (encrypted-stored c j t', encrypted-stored c j t)
        (elim (Bool-cases (chain == c)) [
          | inl same ↦
              let there = found_in c t' (some ck) (reads c ∙ (rw same refl)) in
              rw (there, same, ← (nat_beq_iff chain c).0 same) (stores j)
          | inr other ↦
              let there =
                found_in c t' (find key_rows c t) (reads c ∙ (rw other (unfold read in refl))) in
              rw (there, other) refl
        ])

module _ {E : Type 0} (encrypt : ℕ → String → String → E)
    (decrypt : E → String → Result String) where
  -- Decrypting with the password of the encrypting gives the text back.
  abbrev pub IsCipher : Type 0
  IsCipher =
      (random : ℕ) (text password : String)
      → decrypt (encrypt random text password) password ≡ ok text

  import-add_key :
      (seed : String) (random : ℕ) (path : List PathElem) (l : Levels) (key : String)
      (opt : Option String) (t : List (ChainKey E))
      → levels_of path ≡ ok l
      → import_private_key encrypt decrypt seed random path key opt t
        ≡ add_key l.chain_id (encrypt random key (password_of seed opt)) t
  unfolding import_private_key
  import-add_key seed random path l key opt t p = rw p refl

  get-stored :
      (path : List PathElem) (l : Levels) (e : E) (password : String) (t : List (ChainKey E))
      → levels_of path ≡ ok l
      → str_eq password "" ≡ false
      → encrypted_at l.chain_id l.index t ≡ ok e
      → get_private_key encrypt decrypt path (some password) t ≡ decrypt e password
  unfolding get_private_key get_private_key_at
  get-stored path l e password t p given h = rw (p, given, h) refl

  -- A private key that was imported with a password is got with that password, and one that was
  -- imported without a password, or with an empty one, is got with the wallet's seed: by any path of
  -- its chain that ends in the index that the import returned, if decrypting inverts encrypting, and
  -- if the password, or the seed in its place, is not empty.
  pub get_private_key-import :
      (seed : String) (random : ℕ) (path path' : List PathElem) (l l' : Levels) (key : String)
      (opt : Option String) (i : ℕ) (t t' : List (ChainKey E))
      → IsCipher
      → levels_of path ≡ ok l
      → levels_of path' ≡ ok l'
      → l'.chain_id ≡ l.chain_id
      → l'.index ≡ i
      → str_eq (password_of seed opt) "" ≡ false
      → import_private_key encrypt decrypt seed random path key opt t ≡ ok (i, t')
      → get_private_key encrypt decrypt path' (some (password_of seed opt)) t' ≡ ok key
  get_private_key-import seed random path path' l l' key opt i t t' cipher p p' c j given h =
      let password = password_of seed opt in
      let e = encrypt random key password in
      let made = sym (import-add_key seed random path l key opt t p) ∙ h in
      let there : encrypted_at l'.chain_id l'.index t' ≡ ok e =
        encrypted_at-add_key l.chain_id e i t t' l'.chain_id l'.index made
        ∙ (rw (c, j) (ground arith)) in
      get-stored path' l' e password t' p' given there ∙ cipher random key password
