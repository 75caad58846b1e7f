-- ===== src/Objects.antt =====
-- JavaScript objects that the SDK uses as maps: association lists, in the order of insertion.
use wanchain_js_sdk.Prelude.{
  ◌≡◌, refl, sym, ap, ◌∙◌, Option, none, some, List, [], ◌∷◌, arith, Eq, ◌==◌, if◌then◌else◌,
  Bool-cases, inl, inr, true, false,
}

abbrev pub Object {κ ℓ} : Type κ → Type ℓ → Type (κ ⊔ ℓ)
Object K V = List (K × V)

module _ {κ} {K : Type κ} ⦃e : Eq K⦄ where
  eq_of : (k j x : K) → (j == k) ≡ true → (j == x) ≡ (k == x)
  eq_of k j x h = ap (λ y. y == x) ((e.same_iff j k).0 h)

  -- A key that differs from one of two equal keys differs from the other.
  differs : (k j x : K) → (k == j) ≡ true → (x == k) ≡ false → (x == j) ≡ false
  differs k j x same other = ap (λ y. x == y) (sym ((e.same_iff k j).0 same)) ∙ other

module _ {κ ℓ} {K : Type κ} {V : Type ℓ} ⦃e : Eq K⦄ where
  -- `object[key]`
  unfoldable pub get : K → Object K V → Option V
  get j [] = none
  get j ((k, v) ∷ m) = if k == j then some v else get j m

  -- `object[key] = value`
  unfoldable pub set : K → V → Object K V → Object K V
  set k v [] = (k, v) ∷ []
  set k v ((j, w) ∷ m) = let rest = (j, w) ∷ set k v m in if j == k then (j, v) ∷ m else rest

  -- `delete object[key]`
  unfoldable pub unset : K → Object K V → Object K V
  unset k [] = []
  unset k ((j, w) ∷ m) = let rest = unset k m in if j == k then rest else (j, w) ∷ rest

  pub get-set :
      (k j : K) (v : V) (m : Object K V) → get j (set k v m) ≡ (if k == j then some v else get j m)
  unfolding get set
  get-set k j v [] = refl
  get-set k j v ((x, w) ∷ m) = elim (Bool-cases (x == k)) [
    | inl same ↦ rw (same, eq_of k x j same) (ground arith)
    | inr other ↦
        rw (other, get-set k j v m)
          (elim (Bool-cases (k == j)) [
            | inl kj ↦ rw (kj, differs k j x kj other) refl
            | inr kj ↦ rw kj refl
          ])
  ]

  pub get-unset :
      (k j : K) (m : Object K V) → get j (unset k m) ≡ (if k == j then none else get j m)
  unfolding get unset
  get-unset k j [] = ground arith
  get-unset k j ((x, w) ∷ m) = elim (Bool-cases (x == k)) [
    | inl same ↦ rw (same, get-unset k j m, eq_of k x j same) (ground arith)
    | inr other ↦
        rw (other, get-unset k j m)
          (elim (Bool-cases (k == j)) [
            | inl kj ↦ rw (kj, differs k j x kj other) refl
            | inr kj ↦ rw kj refl
          ])
  ]
