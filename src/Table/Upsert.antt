-- ===== src/Table/Upsert.antt =====
-- What callers of src/db/table.js write out: a row is read, and inserted if it is missing or else
-- updated.
use wanchain_js_sdk.Prelude.{
  ◌≡◌, refl, ap, ◌∙◌, Option, none, some, List, [], ◌∷◌, ◌++◌, arith, Eq, ◌==◌, if◌then◌else◌,
  Bool-cases, inl, inr,
}
use wanchain_js_sdk.Prelude.Result.{Result, ok, ◌>>=◌}
use wanchain_js_sdk.Table.Find.{
  Rows, find, find-key, assign_first, find-assign_first, find-append_last, has_key_of_key,
}
use wanchain_js_sdk.Table.{insert, update, read}

module _ {ℓ κ} {R : Type ℓ} {K : Type κ} ⦃e : Eq K⦄ (rows : Rows R K) where
  unfoldable pub upsert_row : R → (R → R) → K → List R → Option R → Result (List R)
  unfolding insert update
  upsert_row fresh change k t none = insert rows (some fresh) t
  upsert_row fresh change k t (some r) = update rows (some k) (some (change r)) t

  unfoldable pub upsert : R → (R → R) → K → List R → Result (List R)
  unfolding upsert_row read
  upsert fresh change k t = read rows (some k) t >>= upsert_row fresh change k t

  abbrev pub changed : R → (R → R) → Option R → R
  changed fresh change none = fresh
  changed fresh change (some r) = change r

  -- Reading and writing back succeeds, and changes what is read under the key, and nothing else.
  pub find-upsert :
      (fresh : R) (change : R → R) (k : K) (t : List R)
      → ((old new : R) → rows.assign old new ≡ new)
      → rows.key fresh ≡ some k
      → ((r : R) → rows.key r ≡ some k → rows.key (change r) ≡ some k)
      → (t' : List R) × (upsert fresh change k t ≡ ok t')
        × ((j : K)
            → find rows j t'
              ≡ (if k == j then some (changed fresh change (find rows k t)) else find rows j t))
  unfolding upsert upsert_row read insert update
  find-upsert fresh change k t whole key key' = go (find rows k t) refl
    where
      go :
          (row : Option R)
          → find rows k t ≡ row
          → (t' : List R) × (upsert_row fresh change k t row ≡ ok t')
            × ((j : K)
                → find rows j t'
                  ≡ (if k == j then some (changed fresh change row) else find rows j t))
      go none f = (
        t ++ fresh ∷ [],
        ground (arith, key, f),
        λ j. rw (find-append_last rows j t fresh) (elim (Bool-cases (k == j)) [
          | inl same ↦
              let absent : find rows j t ≡ none = rw (← (e.same_iff k j).0 same) f in
              rw (same, absent) (ground (arith, has_key_of_key rows k j fresh key))
          | inr other ↦ rw other (ground (arith, has_key_of_key rows k j fresh key))
        ]),
      )
      go (some r) f =
          let new_key = key' r (find-key rows k t r f) in
          (
            assign_first rows k (change r) t,
            ground (arith, new_key),
            λ j. find-assign_first rows k j (change r) t new_key ∙ elim (Bool-cases (k == j)) [
              | inl same ↦
                  let present : find rows j t ≡ some r = rw (← (e.same_iff k j).0 same) f in
                  rw (same, present) (ap some (whole r (change r)))
              | inr other ↦ rw other refl
            ],
          )
