-- ===== src/Table/Find.antt =====
-- What `DBTable` asks of lodash: `find`, `find(...).assign` and `remove` by the key of a row.
use mathlib.Core.Option
use wanchain_js_sdk.Prelude.{
  ◌≡◌, refl, ap, ◌↔◌, Bool, true, false, Option, none, some, List, [], ◌∷◌, ◌++◌, arith, Eq, ◌==◌,
  beq_sym, if◌then◌else◌, Bool-cases, inl, inr,
}

-- A type of rows: the value under the table's key, if the row has it, and `Object.assign`, which
-- keeps the key that is written.
pub record Rows {ℓ κ} (R : Type ℓ) (K : Type κ) : Type (ℓ ⊔ κ) where
  pub key : R → Option K
  pub assign : R → R → R
  pub key-assign : (old new : R) (k : K) → key new ≡ some k → key (assign old new) ≡ some k

key_eq {κ} :
    {K : Type κ} ⦃e : Eq K⦄ (o : Option K) (a b : K) → o ≡ some a → o ≡ some b → (a == b) ≡ true
key_eq ⦃e⦄ o a b h k = (e.same_iff a b).1 (cc)

same_some {ℓ} : {R : Type ℓ} {x r : R} → some x ≡ some r → x ≡ r
same_some h = cc

module _ {ℓ κ} {R : Type ℓ} {K : Type κ} ⦃e : Eq K⦄ (rows : Rows R K) where
  -- `{[this._key]: id}` as a test on rows
  unfoldable pub has_key : K → R → Bool
  has_key id r = elim (rows.key r) [ none ↦ false | some k ↦ k == id ]

  -- the first row that fits
  unfoldable pub find : K → List R → Option R
  find id [] = none
  find id (r ∷ t) = if has_key id r then some r else find id t

  -- `.find(...).assign(record)`: changes the first row that fits, or nothing
  unfoldable pub assign_first : K → R → List R → List R
  assign_first id new [] = []
  assign_first id new (r ∷ t) =
      let rest = r ∷ assign_first id new t in if has_key id r then rows.assign r new ∷ t else rest

  -- every row that fits goes
  unfoldable pub remove : K → List R → List R
  remove id [] = []
  remove id (r ∷ t) = let rest = remove id t in if has_key id r then rest else r ∷ rest

  pub has_key_iff : (id : K) (r : R) → (has_key id r ≡ true) ↔ (rows.key r ≡ some id)
  unfolding has_key
  has_key_iff id r = go (rows.key r)
    where
      go : (o : Option K) → ((elim o [ none ↦ false | some k ↦ k == id ]) ≡ true) ↔ (o ≡ some id)
      go none = (λ h. cc, λ h. cc)
      go (some k) = (λ h. ap some ((e.same_iff k id).0 h), λ h. (e.same_iff k id).1 (cc))

  -- A row that has one key has another one exactly if the two are equal.
  pub has_key_eq : (a b : K) (r : R) → has_key a r ≡ true → has_key b r ≡ (a == b)
  has_key_eq a b r h =
      let key : rows.key r ≡ some a = (has_key_iff a r).0 h in
      elim (Bool-cases (a == b)) [
        | inl same ↦ rw same ((has_key_iff b r).1 (rw (← (e.same_iff a b).0 same) key))
        | inr other ↦ rw other (elim (Bool-cases (has_key b r)) [
          | inl yes_b ↦ cc (key_eq (rows.key r) a b key ((has_key_iff b r).0 yes_b))
          | inr no_b ↦ no_b
        ])
      ]

  pub has_key_of_key : (k id : K) (r : R) → rows.key r ≡ some k → has_key id r ≡ (k == id)
  has_key_of_key k id r h = has_key_eq k id r ((has_key_iff k r).1 h)

  -- The row that is found has the key that was asked for.
  pub find-key : (id : K) (t : List R) (r : R) → find id t ≡ some r → rows.key r ≡ some id
  unfolding find
  find-key id [] r h = cc
  find-key id (x ∷ t) r h = elim (Bool-cases (has_key id x)) [
    | inl k ↦ let same : x ≡ r = same_some (rw k at h) in rw (← same) ((has_key_iff id x).0 k)
    | inr k ↦ find-key id t r (rw k at h)
  ]

  pub find-append_last :
      (id : K) (t : List R) (r : R)
      → find id (t ++ r ∷ [])
        ≡ elim (find id t) [ none ↦ (if has_key id r then some r else none) | some x ↦ some x ]
  unfolding find
  find-append_last id [] r = refl
  find-append_last id (x ∷ t) r = ground (arith, find-append_last id t r)

  pub find-remove :
      (id j : K) (t : List R) → find j (remove id t) ≡ (if id == j then none else find j t)
  unfolding find remove
  find-remove id j [] = ground arith
  find-remove id j (r ∷ t) = elim (Bool-cases (has_key id r)) [
    | inl h ↦ rw (h, find-remove id j t, has_key_eq id j r h) (ground arith)
    | inr h ↦ rw h (ground (arith, find-remove id j t, has_key_eq j id r, beq_sym id j))
  ]

  -- Reading after `assign_first` with a row of the same key.
  pub find-assign_first :
      (id j : K) (new : R) (t : List R)
      → rows.key new ≡ some id
      → find j (assign_first id new t)
        ≡ (if id == j then Option.map (λ old. rows.assign old new) (find j t) else find j t)
  unfolding find assign_first
  find-assign_first id j new [] h = ground arith
  find-assign_first id j new (r ∷ t) h = elim (Bool-cases (has_key id r)) [
    | inl k ↦
        let kept = has_key_of_key id j (rows.assign r new) (rows.key-assign r new id h) in
        rw (k, kept, has_key_eq id j r k) (ground arith)
    | inr k ↦ rw k (ground (arith, find-assign_first id j new t h, has_key_eq j id r, beq_sym id j))
  ]
