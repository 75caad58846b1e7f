-- ===== src/Table/Unique.antt =====
-- The key of a table names at most one row.
use wanchain_js_sdk.Prelude.{
  ◌≡◌, refl, sym, false, Option, none, some, List, [], ◌∷◌, ◌++◌, arith, Eq, ◌∙◌, beq_sym,
  Bool-cases, inl, inr,
}
use wanchain_js_sdk.Prelude.Result.{ok, err, invalid_parameter}
use wanchain_js_sdk.Table.Find.{
  Rows, has_key, has_key_iff, find, assign_first, remove, has_key_of_key, find-append_last,
  find-remove, find-assign_first,
}
use wanchain_js_sdk.Table.{insert, delete, update, push_new}

pub same_key {κ} : {K : Type κ} {a b : K} → some a ≡ some b → a ≡ b
same_key h = cc

module _ {ℓ κ} {R : Type ℓ} {K : Type κ} ⦃e : Eq K⦄ (rows : Rows R K) where
  -- no later row has the key of a row
  abbrev pub IsUnique : List R → Type (ℓ ⊔ κ)
  IsUnique [] = Unit
  IsUnique (r ∷ t) = ((k : K) → rows.key r ≡ some k → find rows k t ≡ none) × IsUnique t

  find-cons_none :
      (k : K) (x : R) (t : List R)
      → find rows k (x ∷ t) ≡ none
      → (has_key rows k x ≡ false) × (find rows k t ≡ none)
  unfolding find
  find-cons_none k x t f = ground arith

  append_last-IsUnique :
      (t : List R) (r : R) (k : K)
      → rows.key r ≡ some k
      → find rows k t ≡ none
      → IsUnique t
      → IsUnique (t ++ r ∷ [])
  append_last-IsUnique [] r k h f u = (λ j p. unfold find in refl, tt)
  append_last-IsUnique (x ∷ t) r k h f u =
      let (other, later) = find-cons_none k x t f in
      (
        λ j p.
            rw (find-append_last rows j t r, u.0 j p)
              (ground (
                arith,
                has_key_of_key rows k j r h,
                has_key_of_key rows j k x p,
                beq_sym j k,
                other,
              )),
        append_last-IsUnique t r k h later u.1,
      )

  -- What a successful `insert` did.
  pub insert-eq-ok :
      (r : R) (t t' : List R)
      → insert rows (some r) t ≡ ok t'
      → (k : K) × (rows.key r ≡ some k) × (find rows k t ≡ none) × (t' ≡ t ++ r ∷ [])
  unfolding insert
  insert-eq-ok r t t' h = keyed (rows.key r) refl h
    where
      fresh :
          (k : K)
          → rows.key r ≡ some k
          → (f : Option R) → find rows k t ≡ f
          → push_new f r t ≡ ok t'
          → (k : K) × (rows.key r ≡ some k) × (find rows k t ≡ none) × (t' ≡ t ++ r ∷ [])
      fresh k p none q h = (k, p, q, cc)
      fresh k p (some old) q h = cc

      keyed :
          (o : Option K)
          → rows.key r ≡ o
          → (elim o [ none ↦ err invalid_parameter | some k ↦ push_new (find rows k t) r t ])
            ≡ ok t'
          → (k : K) × (rows.key r ≡ some k) × (find rows k t ≡ none) × (t' ≡ t ++ r ∷ [])
      keyed none p h = cc
      keyed (some k) p h = fresh k p (find rows k t) refl h

  -- A row that is inserted under a new key leaves the keys unique.
  pub insert-IsUnique :
      (r : R) (t t' : List R) → IsUnique t → insert rows (some r) t ≡ ok t' → IsUnique t'
  insert-IsUnique r t t' u h =
      let (k, p, f, made) = insert-eq-ok r t t' h in rw made (append_last-IsUnique t r k p f u)

  remove-IsUnique : (id : K) (t : List R) → IsUnique t → IsUnique (remove rows id t)
  unfolding remove
  remove-IsUnique id [] u = tt
  remove-IsUnique id (r ∷ t) u = elim (Bool-cases (has_key rows id r)) [
    | inl h ↦ rw h (remove-IsUnique id t u.1)
    | inr h ↦
        rw h (λ k p. rw (find-remove rows id k t, u.0 k p) (ground arith), remove-IsUnique id t u.1)
  ]

  pub assign_first-IsUnique :
      (id : K) (new : R) (t : List R)
      → rows.key new ≡ some id
      → IsUnique t
      → IsUnique (assign_first rows id new t)
  unfolding assign_first
  assign_first-IsUnique id new [] h u = tt
  assign_first-IsUnique id new (r ∷ t) h u = elim (Bool-cases (has_key rows id r)) [
    | inl k ↦ rw k (
      λ j p.
          let same : some id ≡ some j = sym (rows.key-assign r new id h) ∙ p in
          rw (← same_key same) (u.0 id ((has_key_iff rows id r).0 k)),
      u.1,
    )
    | inr k ↦ rw k (
      λ j p. rw (find-assign_first rows id j new t h, u.0 j p) (ground arith),
      assign_first-IsUnique id new t h u.1,
    )
  ]

  -- A delete leaves unique keys unique.
  pub delete-IsUnique :
      (id : K) (t t' : List R) → IsUnique t → delete rows (some id) t ≡ ok t' → IsUnique t'
  unfolding delete
  delete-IsUnique id t t' u h =
      let same : remove rows id t ≡ t' = cc in rw (← same) (remove-IsUnique id t u)

  -- What a successful `update` did.
  pub update-eq-ok :
      (id : K) (r : R) (t t' : List R)
      → update rows (some id) (some r) t ≡ ok t'
      → t' ≡ assign_first rows id r t
  unfolding update
  update-eq-ok id r t t' h = ground arith

  -- An update that keeps the key of the row leaves the keys unique.
  pub update-IsUnique :
      (id : K) (r : R) (t t' : List R)
      → rows.key r ≡ some id
      → IsUnique t
      → update rows (some id) (some r) t ≡ ok t'
      → IsUnique t'
  update-IsUnique id r t t' p u h = rw (update-eq-ok id r t t' h) (assign_first-IsUnique id r t p u)
