-- ===== src/OtaStorage/Mixing.antt =====
-- A mixing set has the size that was asked for, and draws no address more often than it is there; the
-- swaps that draw it leave the stored addresses as they were, but for their order.
use wanchain_js_sdk.Prelude.{
  ℕ, zero, suc, ◌+◌, ◌≤◌, ◌<◌, ◌≡◌, String, refl, ap, ◌∙◌, Bool-cases, inl, inr, some, List, [],
  ◌∷◌, length, get_elem?, ltb, nat_beq, str_eq, arith, if◌then◌else◌, string_eq, beq_refl,
}
use wanchain_js_sdk.Prelude.Result.{ok, ◌>>=◌}
use wanchain_js_sdk.Table.{read}
use wanchain_js_sdk.Table.Find.{find, find-key, find-assign_first}
use wanchain_js_sdk.OtaStorage.{
  AddrRow, ValueRow, addr_rows, value_rows, Storage, set_at, swapped, draw, mix_of, mixed,
  get_ota_mix_set,
}

abbrev pub hit : String → String → ℕ
hit x o = if str_eq o x then 1 else 0

abbrev pub count : String → List String → ℕ
count x [] = 0
count x (o ∷ os) = hit x o + count x os

-- how often an address stands among the first ones of a list
unfoldable pub count_below : String → ℕ → List String → ℕ
count_below x zero os = 0
count_below x (suc m) [] = 0
count_below x (suc m) (o ∷ os) = hit x o + count_below x m os

count_below-all : (x : String) (os : List String) → count_below x (length os) os ≡ count x os
unfolding count_below
count_below-all x [] = refl
count_below-all x (o ∷ os) = omega (arith, count_below-all x os)

count_below-suc :
    (x : String) (m : ℕ) (t : String) (os : List String)
    → get_elem? os m ≡ some t
    → count_below x (suc m) os ≡ count_below x m os + hit x t
unfolding count_below
count_below-suc x m t [] h = cc
count_below-suc x zero t (o ∷ os) h = ground arith
count_below-suc x (suc m) t (o ∷ os) h = omega (arith, count_below-suc x m t os h)

count_below-set_at :
    (x : String) (m : ℕ) (p : String) (os : List String)
    → count_below x m (set_at m p os) ≡ count_below x m os
unfolding count_below set_at
count_below-set_at x zero p os = refl
count_below-set_at x (suc m) p [] = refl
count_below-set_at x (suc m) p (o ∷ os) = omega (arith, count_below-set_at x m p os)

same_ok : {A : Type 0} {a b : A} → ok a ≡ ok b → a ≡ b
same_ok h = cc

same_some : {a b : String} → some a ≡ some b → a ≡ b
same_some h = cc

-- Of the first places, a swap takes the picked address away.
swap-count :
    (x : String) (i m : ℕ) (p t : String) (os : List String)
    → i ≤ m
    → get_elem? os i ≡ some p
    → get_elem? os m ≡ some t
    → count_below x m (set_at i t (set_at m p os)) + hit x p ≡ count_below x (suc m) os
unfolding count_below set_at
swap-count x i m p t [] le hi hm = cc
swap-count x zero zero p t (o ∷ os) le hi hm = omega (arith, ap (hit x) (same_some hi))
swap-count x zero (suc m) p t (o ∷ os) le hi hm =
    omega
      (arith, ap (hit x) (same_some hi), count_below-set_at x m p os, count_below-suc x m t os hm)
swap-count x (suc i) zero p t (o ∷ os) le hi hm = omega arith
swap-count x (suc i) (suc m) p t (o ∷ os) le hi hm =
    omega (arith, swap-count x i m p t os (omega arith) hi hm)

length-set_at : (i : ℕ) (t : String) (os : List String) → length (set_at i t os) ≡ length os
unfolding set_at
length-set_at i t [] = refl
length-set_at zero t (o ∷ os) = refl
length-set_at (suc i) t (o ∷ os) = ap suc (length-set_at i t os)

none_below : (i : ℕ) → i < 0 → ⊥
none_below i h = omega arith

there : (i : ℕ) (os : List String) → i < length os → (p : String) × (get_elem? os i ≡ some p)
there i [] h = elim (none_below i h) [ ]
there zero (o ∷ os) h = (o, refl)
there (suc i) (o ∷ os) h = there i os (omega arith)

swapped-eq :
    (i m : ℕ) (os : List String) (p t : String)
    → get_elem? os i ≡ some p
    → get_elem? os m ≡ some t
    → swapped i m os ≡ some (p, set_at i t (set_at m p os))
unfolding swapped
swapped-eq i m os p t hi hm = ground arith

count-set_at :
    (x : String) (i : ℕ) (p t : String) (os : List String)
    → get_elem? os i ≡ some p
    → count x (set_at i t os) + hit x p ≡ count x os + hit x t
unfolding set_at
count-set_at x i p t [] h = cc
count-set_at x zero p t (o ∷ os) h = omega (arith, ap (hit x) (same_some h))
count-set_at x (suc i) p t (o ∷ os) h = omega (arith, count-set_at x i p t os h)

get-set_at :
    (i m : ℕ) (p : String) (os : List String)
    → get_elem? os i ≡ some p
    → get_elem? (set_at m p os) i ≡ some p
unfolding set_at
get-set_at i m p [] h = cc
get-set_at zero zero p (o ∷ os) h = refl
get-set_at zero (suc m) p (o ∷ os) h = h
get-set_at (suc i) zero p (o ∷ os) h = h
get-set_at (suc i) (suc m) p (o ∷ os) h = get-set_at i m p os h

swap-all :
    (x : String) (i m : ℕ) (p t : String) (os : List String)
    → get_elem? os i ≡ some p
    → get_elem? os m ≡ some t
    → count x (set_at i t (set_at m p os)) ≡ count x os
swap-all x i m p t os hi hm = omega (
  arith,
  count-set_at x m t p os hm,
  count-set_at x i p t (set_at m p os) (get-set_at i m p os hi),
)

draw-suc :
    (random : ℕ → ℕ) (m size : ℕ) (os : List String) (p t : String)
    → get_elem? os (random (suc m)) ≡ some p
    → get_elem? os m ≡ some t
    → draw random (suc m) (suc size) os ≡ (
        let (drawn, left) = draw random m size (set_at (random (suc m)) t (set_at m p os)) in
        (p ∷ drawn, left))
unfolding draw
draw-suc random m size os p t hi hm = rw (swapped-eq (random (suc m)) m os p t hi hm, draw) refl

-- The draw takes as many addresses as it is asked for, none of them more often than it is among the
-- places that are left, and only reorders the list.
draw-count :
    (random : ℕ → ℕ) (m size : ℕ) (os : List String) (x : String)
    → ((n : ℕ) → random (suc n) ≤ n)
    → size ≤ m
    → m ≤ length os
    → let (drawn, left) = draw random m size os in
      (length drawn ≡ size) × (count x drawn ≤ count_below x m os) × (count x left ≡ count x os)
unfolding draw
draw-count random zero size os x picks s l = (omega arith, omega arith, refl)
draw-count random (suc m) zero os x picks s l = (refl, omega arith, refl)
draw-count random (suc m) (suc size) os x picks s l =
    let i = random (suc m) in
    let (p, hi) = there i os (omega (arith, picks m)) in
    let (t, hm) = there m os (omega arith) in
    let left = set_at i t (set_at m p os) in
    let same : length left ≡ length os = length-set_at i t (set_at m p os) ∙ length-set_at m p os in
    let (len, few, all) =
      draw-count random m size left x picks (omega arith) (omega (arith, same)) in
    rw (draw-suc random m size os p t hi hm) (
      omega (arith, len),
      omega (arith, few, swap-count x i m p t os (picks m) hi hm),
      all ∙ swap-all x i m p t os hi hm,
    )

-- A mixing set that is given has the size that was asked for, and holds no address more often than
-- the list of its value does, if the random indices are below their bounds; the row of the value is
-- there after it and holds every address as often as before.
pub mix-size :
    (random : ℕ → ℕ) (addr x : String) (size : ℕ) (s s' : Storage) (ota : AddrRow) (val : ValueRow)
    (mix : List String)
    → ((n : ℕ) → random (suc n) ≤ n)
    → read addr_rows (some addr) s.ota ≡ ok (some ota)
    → read value_rows (some ota.value) s.val ≡ ok (some val)
    → get_ota_mix_set random addr size s ≡ ok (mix, s')
    → (length mix ≡ size)
      × (count x mix ≤ count x val.otas)
      × (val' : ValueRow) × (read value_rows (some ota.value) s'.val ≡ ok (some val'))
      × (count x val'.otas ≡ count x val.otas)
unfolding get_ota_mix_set mix_of read
mix-size random addr x size s s' ota val mix picks there_ota there_val got =
    elim (Bool-cases (nat_beq size 0)) [
      | inl none_asked ↦ cc (rw none_asked at got)
      | inr some_asked ↦ given (rw (some_asked, there_ota, there_val) at got)
    ]
  where
    found : find value_rows ota.value s.val ≡ some val
    found = same_ok there_val

    given :
        mix_of random size val >>= (λ drawn. ok (mixed ota.value val s drawn)) ≡ ok (mix, s')
        → (length mix ≡ size)
          × (count x mix ≤ count x val.otas)
          × (val' : ValueRow) × (ok (find value_rows ota.value s'.val) ≡ ok (some val'))
          × (count x val'.otas ≡ count x val.otas)
    given h = elim (Bool-cases (ltb (length val.otas) size)) [
      | inl short ↦ cc (rw short at h)
      | inr enough ↦
          let (drawn, left) = draw random (length val.otas) size val.otas in
          let same = same_ok (rw enough at h) in
          let after = ap (λ (q : List String × Storage). q.1.val) same in
          let key = find-key value_rows ota.value s.val val found in
          let (len, few, all) =
            draw-count random (length val.otas) size val.otas x picks (ground arith)
              (omega arith) in
          let now =
            find-assign_first value_rows ota.value ota.value (record val { otas = left }) s.val
              key in
          rw (← ap (λ (q : List String × Storage). q.0) same, ← after)
            (
              len,
              omega (arith, few, count_below-all x val.otas),
              record val { otas = left },
              ap ok (now ∙ (rw (beq_refl ota.value, found) refl)),
              all,
            )
    ]
