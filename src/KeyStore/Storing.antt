-- ===== src/KeyStore/Storing.antt =====
-- What a successful import stores.
use wanchain_js_sdk.Prelude.{
  ℕ, String, ◌+◌, ◌≡◌, refl, sym, ap, ◌∙◌, Option, none, some, List, [], ◌∷◌, nat_eq, beq_refl,
}
use wanchain_js_sdk.Prelude.Result.{Result, ok, err, Error, logic_error, ◌>>=◌, >>=-eq-ok}
use wanchain_js_sdk.Objects.{get, set, get-set}
use wanchain_js_sdk.Table.{insert, update, read}
use wanchain_js_sdk.Table.Find.{find, find-key}
use wanchain_js_sdk.Table.Reads.{read-insert, read-update}
use wanchain_js_sdk.Bip44.{PathElem, Levels, levels_of}
use wanchain_js_sdk.KeyStore.{
  Keys, Stored, ChainStore, Crypto, ImportOpt, store_rows, check_duplicate, re_encrypted,
  add_key_store, no_json, guard_supported, import_key_store, of_chain, of_index, stored_at,
}

pub row_eq : {A : Type 0} {a b : A} → ok a ≡ ok b → a ≡ b
row_eq h = cc

module _ {C : Type 0} where
  -- what `stored_at` makes of a row
  at_row : Error → ℕ → Option (ChainStore C) → Result (Stored C)
  unfolding get
  at_row e i row = of_chain e row >>= λ ck. of_index (get i ck.keystore)

  found :
      (chain : ℕ) (t : List (ChainStore C)) (row : Option (ChainStore C))
      → read store_rows (some chain) t ≡ ok row
      → find store_rows chain t ≡ row
  unfolding read
  found chain t row h = row_eq h

  stored-row :
      (e : Error) (chain i : ℕ) (t : List (ChainStore C)) (row : Option (ChainStore C))
      → find store_rows chain t ≡ row
      → stored_at e chain i t ≡ at_row e i row
  unfolding stored_at at_row
  stored-row e chain i t row h =
      ap (λ (r : Option (ChainStore C)). of_chain e r >>= λ ck. of_index (get i ck.keystore)) h

  abbrev pub answer : ℕ → List (ChainStore C) → Result (ℕ × List (ChainStore C))
  answer i t = ok (i, t)

  pair_eq : {i j : ℕ} {t u : List (ChainStore C)} → answer i t ≡ answer j u → (i ≡ j) × (t ≡ u)
  pair_eq h = (cc, cc)

  abbrev grown : Stored C → ChainStore C → ChainStore C
  grown s ck = record ck { count = ck.count + 1; keystore = set ck.count s ck.keystore }

  added_to :
      (e : Error) (chain i : ℕ) (s : Stored C) (t t' : List (ChainStore C)) (ck : ChainStore C)
      → find store_rows chain t ≡ some ck
      → (update store_rows (some chain) (some (grown s ck)) t >>= λ u. ok (ck.count, u))
        ≡ answer i t'
      → stored_at e chain i t' ≡ ok s
  unfolding at_row
  added_to e chain i s t t' ck f h =
      let (t₁, made, same) =
        >>=-eq-ok (update store_rows (some chain) (some (grown s ck)) t) (λ u. ok (ck.count, u))
          h in
      let (count_i, t_eq) = pair_eq same in
      let key : some ck.chain_id ≡ some chain = find-key store_rows chain t ck f in
      let here : get ck.count (set ck.count s ck.keystore) ≡ some s =
        get-set ck.count ck.count s ck.keystore ∙ rw (beq_refl ck.count) refl in
      let there : read store_rows (some chain) t₁ ≡ ok (some (grown s ck)) =
        read-update store_rows (grown s ck) chain chain t t₁ key made
        ∙ rw (beq_refl chain, f) refl in
      stored-row e chain i t' (some (grown s ck))
        (rw (← t_eq) (found chain t₁ (some (grown s ck)) there))
      ∙ rw (← count_i) (ap of_index here)

  -- A keystore that was added is stored under the index that was returned.
  stored-add_key_store :
      (e : Error) (chain i : ℕ) (s : Stored C) (t t' : List (ChainStore C))
      (row : Option (ChainStore C))
      → find store_rows chain t ≡ row
      → add_key_store chain s t row ≡ answer i t'
      → stored_at e chain i t' ≡ ok s
  unfolding add_key_store at_row
  stored-add_key_store e chain i s t t' none f h =
      let new : ChainStore C = record { chain_id = chain; count = 1; keystore = (0, s) ∷ [] } in
      let (t₁, made, same) = >>=-eq-ok (insert store_rows (some new) t) (λ u. ok (0, u)) h in
      let (zero_i, t_eq) = pair_eq same in
      let there : read store_rows (some chain) t₁ ≡ ok (some new) =
        read-insert store_rows new chain chain t t₁ refl made ∙ rw (beq_refl chain) refl in
      stored-row e chain i t' (some new) (rw (← t_eq) (found chain t₁ (some new) there))
      ∙ rw (← zero_i) (unfold get in refl)
  stored-add_key_store e chain i s t t' (some ck) f h = go (get ck.count ck.keystore) h
    where
      go :
          (old : Option (Stored C))
          → elim old [
            | some old ↦ err logic_error
            | none ↦ update store_rows (some chain) (some (grown s ck)) t >>= λ u. ok (ck.count, u)
          ]
            ≡ answer i t'
          → stored_at e chain i t' ≡ ok s
      go none h = added_to e chain i s t t' ck f h
      go (some old) h = cc

  -- What a successful import did: it stored the keystore of the text, re-encrypted if need be.
  pub import-stored :
      (lib : Crypto C) (seed keystore : String) (random i : ℕ) (path : List PathElem) (l : Levels)
      (opt : ImportOpt) (t t' : List (ChainStore C)) (e : Error)
      → levels_of path ≡ ok l
      → import_key_store lib seed random path keystore opt t ≡ answer i t'
      → (ks : Keys C) × (s : Stored C) × (no_json (lib.parse keystore) ≡ ok ks)
        × (re_encrypted lib seed random l.chain_id keystore ks opt opt.old_password ≡ ok s)
        × (stored_at e l.chain_id i t' ≡ ok s)
  unfolding import_key_store
  import-stored lib seed keystore random i path l opt t t' e p h =
      let (l₁, p₁, h₁) = >>=-eq-ok (levels_of path) _ h in
      let (known, p₂, h₂) = >>=-eq-ok (guard_supported l₁.chain_id) _ h₁ in
      let (ks, p₃, h₃) = >>=-eq-ok (no_json (lib.parse keystore)) _ h₂ in
      let (row, p₄, h₄) = >>=-eq-ok (read store_rows (some l₁.chain_id) t) _ h₃ in
      let (single, p₅, h₅) = >>=-eq-ok (check_duplicate lib opt.check_duplicate ks row) _ h₄ in
      let (s, p₆, h₆) =
        >>=-eq-ok (re_encrypted lib seed random l₁.chain_id keystore ks opt opt.old_password) _
          h₅ in
      let same : l₁ ≡ l = row_eq (sym p₁ ∙ p) in
      let chain : l₁.chain_id ≡ l.chain_id = ap (λ x. x.chain_id) same in
      (
        ks,
        s,
        p₃,
        rw (← chain) p₆,
        rw (← chain)
            (stored-add_key_store e l₁.chain_id i s t t' row (found l₁.chain_id t row p₄) h₆),
      )
