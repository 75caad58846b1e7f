-- ===== src/Items.antt =====
-- The collections of src/db/wandb.js: `insertItem`, `updateItem`, `getItem`, `getItemAll` and the
-- filters. A collection is the list of its items in memory; an operation that ends in `.write()`
-- saves the whole database, so `disk` becomes `memory`. A lodash pattern such as `{hashX: h}` is a
-- test on items.
pub mod Laws
use wanchain_js_sdk.Prelude.{Bool, not, Option, none, some, List, [], ◌∷◌, ◌++◌, any, if◌then◌else◌}

pub record Db {ℓ} (R : Type ℓ) : Type ℓ where
  pub memory : List R
  pub disk : List R

module _ {ℓ} {R : Type ℓ} where
  abbrev pub saved : List R → Db R
  saved items = record { memory = items; disk = items }

  unfoldable pub first : (R → Bool) → List R → Option R
  first test [] = none
  first test (r ∷ rs) = if test r then some r else first test rs

  unfoldable pub select : (R → Bool) → List R → List R
  select test [] = []
  select test (r ∷ rs) = let rest = select test rs in if test r then r ∷ rest else rest

  unfoldable pub change_first : (R → Bool) → (R → R) → List R → List R
  change_first test f [] = []
  change_first test f (r ∷ rs) =
      let rest = r ∷ change_first test f rs in if test r then f r ∷ rs else rest

  unfoldable pub insert_item : R → Db R → Db R
  insert_item item db = saved (db.memory ++ item ∷ [])

  -- `assign item` is `Object.assign(_, item)`
  unfoldable pub update_item : (R → Bool) → (R → R) → Db R → Db R
  unfolding change_first
  update_item test assign db = saved (change_first test assign db.memory)

  unfoldable pub get_item : (R → Bool) → Db R → Option R
  unfolding first
  get_item test db = first test db.memory

  unfoldable pub get_item_all : (R → Bool) → Db R → List R
  unfolding select
  get_item_all test db = select test db.memory

  unfoldable pub filter_contains {κ} :
      {K : Type κ} → (K → K → Bool) → (R → K) → List K → Db R → List R
  unfolding select
  filter_contains same field values db = select (λ r. any (same (field r)) values) db.memory

  unfoldable pub filter_not_contains {κ} :
      {K : Type κ} → (K → K → Bool) → (R → K) → List K → Db R → List R
  unfolding select
  filter_not_contains same field values db =
      select (λ r. not (any (same (field r)) values)) db.memory
