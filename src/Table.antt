-- ===== src/Table.antt =====
-- src/db/table.js: `DBTable`, one table of a lowdb file as the list of its rows. Writing the list
-- to the file is left out. An argument is `none` where the source tests for null, undefined or a
-- value that is no object.
pub mod Find
pub mod Unique
pub mod Reads
pub mod Upsert
mod Examples
use wanchain_js_sdk.Prelude.{
  ℕ, Bool, Option, none, some, List, [], ◌∷◌, ◌++◌, length, Eq, if◌then◌else◌,
}
use wanchain_js_sdk.Table.Find.{Rows, find, assign_first, remove}
use wanchain_js_sdk.Prelude.Result.{Result, ok, err, invalid_parameter, duplicate_record, ◌>>=◌}

module _ {ℓ} {R : Type ℓ} where
  unfoldable pub size : List R → ℕ
  size t = length t

  unfoldable pub truncate : List R → List R
  truncate t = []

  -- the loop of `filter` over the rows
  unfoldable pub matching : (R → Bool) → List R → List R
  matching f [] = []
  matching f (r ∷ t) = let rest = matching f t in if f r then r ∷ rest else rest

  -- `none` stands for an argument that is no function: all rows are returned
  unfoldable pub filter : Option (R → Bool) → List R → List R
  unfolding matching
  filter none t = t
  filter (some f) t = matching f t

abbrev pub push_new {ℓ} : {R : Type ℓ} → Option R → R → List R → Result (List R)
push_new none r t = ok (t ++ r ∷ [])
push_new (some old) r t = err duplicate_record

module _ {ℓ κ} {R : Type ℓ} {K : Type κ} ⦃e : Eq K⦄ (rows : Rows R K) where
  -- the key that `record.hasOwnProperty(this._key)` asks for
  unfoldable pub key_of : Option R → Result K
  key_of none = err invalid_parameter
  key_of (some r) = elim (rows.key r) [ none ↦ err invalid_parameter | some k ↦ ok k ]

  unfoldable pub insert : Option R → List R → Result (List R)
  insert none t = err invalid_parameter
  insert (some r) t = elim (rows.key r) [
    | none ↦ err invalid_parameter
    | some k ↦ push_new (find rows k t) r t
  ]

  unfoldable pub delete : Option K → List R → Result (List R)
  delete none t = err invalid_parameter
  delete (some id) t = ok (remove rows id t)

  unfoldable pub update : Option K → Option R → List R → Result (List R)
  update none r t = err invalid_parameter
  update (some id) none t = err invalid_parameter
  update (some id) (some r) t = elim (rows.key r) [
    | none ↦ err invalid_parameter
    | some k ↦ ok (assign_first rows id r t)
  ]

  unfoldable pub read : Option K → List R → Result (Option R)
  read none t = err invalid_parameter
  read (some id) t = ok (find rows id t)
