-- ===== src/Table/Reads.antt =====
-- A table as a finite map: what `read` returns after each operation.
use mathlib.Core.Option
use wanchain_js_sdk.Prelude.{
  ◌≡◌, none, some, List, arith, Eq, ◌==◌, if◌then◌else◌, Bool-cases, inl, inr, sym, ◌∙◌,
}
use wanchain_js_sdk.Prelude.Result.{ok, err, duplicate_record}
use wanchain_js_sdk.Table.Find.{
  Rows, find, remove, find-append_last, find-remove, find-assign_first, has_key_of_key,
}
use wanchain_js_sdk.Table.Unique.{same_key, insert-eq-ok, update-eq-ok}
use wanchain_js_sdk.Table.{insert, delete, update, read}

module _ {ℓ κ} {R : Type ℓ} {K : Type κ} ⦃e : Eq K⦄ (rows : Rows R K) where
  -- After a successful insert, the new row is read under its key, and under every other key what was
  -- read before.
  pub read-insert :
      (r : R) (k j : K) (t t' : List R)
      → rows.key r ≡ some k
      → insert rows (some r) t ≡ ok t'
      → read rows (some j) t' ≡ (if k == j then ok (some r) else read rows (some j) t)
  unfolding read
  read-insert r k j t t' p h =
      let (k', p', f, made) = insert-eq-ok rows r t t' h in
      rw (made, find-append_last rows j t r)
        (elim (Bool-cases (k == j)) [
          | inl same ↦
              let there : find rows j t ≡ none =
                rw (← same_key (sym p ∙ p'), (e.same_iff k j).0 same) at f in
              rw (same, there) (ground (arith, has_key_of_key rows k j r p))
          | inr other ↦ rw other (ground (arith, has_key_of_key rows k j r p))
        ])

  -- A second row of the same key is refused, whatever else it holds.
  pub insert-eq-duplicate :
      (r old : R) (k : K) (t : List R)
      → rows.key r ≡ some k
      → read rows (some k) t ≡ ok (some old)
      → insert rows (some r) t ≡ err duplicate_record
  unfolding read insert
  insert-eq-duplicate r old k t p h = ground arith

  -- After a delete, nothing is read under the key that was deleted, and under every other key what
  -- was read before.
  pub read-delete :
      (id j : K) (t t' : List R)
      → delete rows (some id) t ≡ ok t'
      → read rows (some j) t' ≡ (if id == j then ok none else read rows (some j) t)
  unfolding read delete
  read-delete id j t t' h =
      let same : remove rows id t ≡ t' = cc in rw (← same, find-remove rows id j t) (ground arith)

  -- After a successful update with a row of the same key, the old row under that key, if there was
  -- one, is read with the new one assigned, and under every other key what was read before.
  pub read-update :
      (r : R) (id j : K) (t t' : List R)
      → rows.key r ≡ some id
      → update rows (some id) (some r) t ≡ ok t'
      → read rows (some j) t' ≡ (
          if id == j
          then ok (Option.map (λ old. rows.assign old r) (find rows j t))
          else read rows (some j) t)
  unfolding read
  read-update r id j t t' p h =
      rw (update-eq-ok rows id r t t' h, find-assign_first rows id j r t p) (ground arith)
