-- ===== src/Items/Laws.antt =====
-- What the collections promise to their callers.
use wanchain_js_sdk.Prelude.{
  ◌≡◌, refl, Bool, true, false, none, some, List, [], ◌∷◌, ◌++◌, length, arith, ◌+◌, any, not,
}
use mathlib.Core.Option
use wanchain_js_sdk.Items.{
  Db, first, select, change_first, update_item, get_item, filter_contains, filter_not_contains,
}

module _ {ℓ} {R : Type ℓ} where
  -- An update that keeps the pattern of its item is read back.
  pub first-change_first :
      (test : R → Bool) (f : R → R) (rs : List R)
      → ((r : R) → test r ≡ true → test (f r) ≡ true)
      → first test (change_first test f rs) ≡ Option.map f (first test rs)
  unfolding first change_first
  first-change_first test f [] keep = refl
  first-change_first test f (r ∷ rs) keep =
      ground (arith, keep r, first-change_first test f rs keep)

  -- What the item that is updated does not fit, is not changed.
  pub first-change_first_other :
      (test other : R → Bool) (f : R → R) (rs : List R)
      → ((r : R) → test r ≡ true → other r ≡ false)
      → ((r : R) → test r ≡ true → other (f r) ≡ false)
      → first other (change_first test f rs) ≡ first other rs
  unfolding first change_first
  first-change_first_other test other f [] before after = refl
  first-change_first_other test other f (r ∷ rs) before after =
      ground (arith, before r, after r, first-change_first_other test other f rs before after)

  pub first-append_last :
      (test : R → Bool) (r : R) (rs : List R)
      → first test rs ≡ none
      → test r ≡ true
      → first test (rs ++ r ∷ []) ≡ some r
  unfolding first
  first-append_last test r [] n h = ground arith
  first-append_last test r (x ∷ xs) n h = ground (arith, first-append_last test r xs)

  pub length-change_first :
      (test : R → Bool) (f : R → R) (rs : List R) → length (change_first test f rs) ≡ length rs
  unfolding change_first
  length-change_first test f [] = refl
  length-change_first test f (r ∷ rs) = ground (arith, length-change_first test f rs)

  -- `updateItem`, then `getItem` by the same pattern, gives the item with the data assigned; by a
  -- pattern that neither the old nor the new item fits, it gives what it gave before; and what is
  -- on the disk is what is in memory.
  pub get_item-update_item :
      (test other : R → Bool) (assign : R → R) (db : Db R)
      → ((r : R) → test r ≡ true → test (assign r) ≡ true)
      → ((r : R) → test r ≡ true → other r ≡ false)
      → let db' = update_item test assign db in
        (get_item test db' ≡ Option.map assign (get_item test db))
        × (get_item other db' ≡ get_item other db)
        × (db'.disk ≡ db'.memory)
  unfolding update_item get_item
  get_item-update_item test other assign db keep apart = (
    first-change_first test assign db.memory keep,
    first-change_first_other test other assign db.memory apart (λ r h. apart (assign r) (keep r h)),
    refl,
  )

  length-select :
      (test : R → Bool) (rs : List R)
      → length (select test rs) + length (select (λ r. not (test r)) rs) ≡ length rs
  unfolding select
  length-select test [] = omega arith
  length-select test (r ∷ rs) = ground (arith, length-select test rs)

  -- `filterContains` and `filterNotContains` of the same values share the items out between them.
  pub filters_share {κ} :
      {K : Type κ} (same : K → K → Bool) (field : R → K) (values : List K) (db : Db R)
      → length (filter_contains same field values db)
          + length (filter_not_contains same field values db)
        ≡ length db.memory
  unfolding filter_contains filter_not_contains
  filters_share same field values db = length-select (λ r. any (same (field r)) values) db.memory
