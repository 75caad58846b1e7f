-- ===== src/Nonce/Fresh.antt =====
-- No nonce is handed out twice, and a nonce that comes back is handed out again.
use mathlib.Core.Bool.{true≢false}
use wanchain_js_sdk.Prelude.{
  ℕ, ◌+◌, ◌≤◌, ◌<◌, ◌≡◌, ◌⊎◌, inl, inr, refl, true, false, some, List, [], ◌∷◌, ◌++◌, leb, nat_beq,
  All, All-map, All-append, arith, Bool-cases, sym, ap, ◌∙◌, nat_beq_iff,
}
use wanchain_js_sdk.Nonce.{AccountNonce, next_local, take_nonce, member, add_hole}

abbrev pub IsDistinct : List ℕ → Type 0
IsDistinct [] = Unit
IsDistinct (n ∷ ns) = (member n ns ≡ false) × IsDistinct ns

-- The holes are distinct nonces that were used.
abbrev pub IsValid : AccountNonce → Type 0
IsValid a = IsDistinct a.nonce_hole_list × All (λ h. h ≤ a.used_pending_nonce) a.nonce_hole_list

-- the nonces of successive requests, each with the chain's answer
unfoldable pub taken : List ℕ → AccountNonce → List ℕ
taken [] a = []
taken (pending ∷ more) a = let (nonce, a') = take_nonce pending (some a) in nonce ∷ taken more a'

-- a nonce that an account can still hand out
abbrev pub IsLeft : AccountNonce → ℕ → Type 0
IsLeft a n = (member n a.nonce_hole_list ≡ true) ⊎ (a.used_pending_nonce < n)

take_nonce-IsLeft : (p : ℕ) (a : AccountNonce) → IsLeft a (take_nonce p (some a)).0
unfolding take_nonce next_local
take_nonce-IsLeft p a = go a.nonce_hole_list a.used_pending_nonce
  where
    go :
        (holes : List ℕ) (used : ℕ)
        → IsLeft
            (record { used_pending_nonce = used; nonce_hole_list = holes })
            (take_nonce p (some (record { used_pending_nonce = used; nonce_hole_list = holes }))).0
    go [] used = ground arith
    go (h ∷ hs) used = ground arith

take_nonce-shrinks :
    (p : ℕ) (a : AccountNonce) (n : ℕ) → IsLeft (take_nonce p (some a)).1 n → IsLeft a n
unfolding take_nonce next_local
take_nonce-shrinks p a n = go a.nonce_hole_list a.used_pending_nonce
  where
    go :
        (holes : List ℕ) (used : ℕ)
        → IsLeft
            (take_nonce p (some (record { used_pending_nonce = used; nonce_hole_list = holes }))).1
            n
        → IsLeft (record { used_pending_nonce = used; nonce_hole_list = holes }) n
    go [] used l = ground arith
    go (h ∷ hs) used l = ground arith

-- The state after a request is valid, and no longer holds the nonce.
pub take_nonce-IsValid :
    (p : ℕ) (a : AccountNonce)
    → IsValid a
    → let (n, a') = take_nonce p (some a) in
      IsValid a' × (member n a'.nonce_hole_list ≡ false) × (n ≤ a'.used_pending_nonce)
unfolding take_nonce next_local
take_nonce-IsValid p a = go a.nonce_hole_list a.used_pending_nonce
  where
    go :
        (holes : List ℕ) (used : ℕ)
        → IsValid (record { used_pending_nonce = used; nonce_hole_list = holes })
        → let (n, a') =
            take_nonce p (some (record { used_pending_nonce = used; nonce_hole_list = holes })) in
          IsValid a' × (member n a'.nonce_hole_list ≡ false) × (n ≤ a'.used_pending_nonce)
    go [] used v = elim (Bool-cases (leb (used + 1) p)) [
      | inl h ↦ rw h ((tt, tt), refl, omega arith)
      | inr h ↦ rw h ((tt, tt), refl, omega arith)
    ]
    go (h ∷ hs) used v = elim (Bool-cases (leb (used + 1) p)) [
      | inl e ↦ rw e ((tt, tt), refl, omega arith)
      | inr e ↦ rw e ((v.0.1, v.1.1), v.0.0, v.1.0)
    ]

taken-IsLeft : (ps : List ℕ) (a : AccountNonce) → All (IsLeft a) (taken ps a)
unfolding taken
taken-IsLeft [] a = tt
taken-IsLeft (p ∷ ps) a =
    let (n, a') = take_nonce p (some a) in
    (take_nonce-IsLeft p a, All-map (take_nonce-shrinks p a) (taken ps a') (taken-IsLeft ps a'))

left_other :
    (a : AccountNonce) (n m : ℕ)
    → n ≡ m
    → member n a.nonce_hole_list ≡ false
    → n ≤ a.used_pending_nonce
    → IsLeft a m
    → ⊥
left_other a n m e h k (inl there) =
    true≢false (sym there ∙ ap (λ x. member x a.nonce_hole_list) (sym e) ∙ h)
left_other a n m e h k (inr above) = omega arith

not_left-absent :
    (a : AccountNonce) (n : ℕ) (ns : List ℕ)
    → member n a.nonce_hole_list ≡ false
    → n ≤ a.used_pending_nonce
    → All (IsLeft a) ns
    → member n ns ≡ false
not_left-absent a n [] h k l = refl
not_left-absent a n (m ∷ ms) h k l = elim (Bool-cases (nat_beq n m)) [
  | inl e ↦ elim (left_other a n m ((nat_beq_iff n m).0 e) h k l.0) [ ]
  | inr e ↦ rw e (not_left-absent a n ms h k l.1)
]

-- From a valid account, successive requests get distinct nonces, whatever pending nonces the chain
-- answers with.
pub taken-IsDistinct : (ps : List ℕ) (a : AccountNonce) → IsValid a → IsDistinct (taken ps a)
unfolding taken
taken-IsDistinct [] a v = tt
taken-IsDistinct (p ∷ ps) a v =
    let (n, a') = take_nonce p (some a) in
    let (valid, absent, used) = take_nonce-IsValid p a v in
    (
      not_left-absent a' n (taken ps a') absent used (taken-IsLeft ps a'),
      taken-IsDistinct ps a' valid,
    )

member-append_last :
    (n m : ℕ) (ns : List ℕ)
    → member n ns ≡ false
    → nat_beq n m ≡ false
    → member n (ns ++ m ∷ []) ≡ false
member-append_last n m [] h k = ground arith
member-append_last n m (x ∷ xs) h k = ground (arith, member-append_last n m xs)

append_last-IsDistinct :
    (ns : List ℕ) (m : ℕ) → IsDistinct ns → member m ns ≡ false → IsDistinct (ns ++ m ∷ [])
append_last-IsDistinct [] m d h = (refl, tt)
append_last-IsDistinct (n ∷ ns) m d h =
    (member-append_last n m ns d.0 (ground arith), append_last-IsDistinct ns m d.1 (ground arith))

-- A used nonce that comes back leaves the account valid.
pub add_hole-IsValid :
    (n : ℕ) (a : AccountNonce) → n ≤ a.used_pending_nonce → IsValid a → IsValid (add_hole n a)
unfolding add_hole
add_hole-IsValid n a h v = elim (Bool-cases (member n a.nonce_hole_list)) [
  | inl there ↦ rw there v
  | inr absent ↦ rw absent (
    append_last-IsDistinct a.nonce_hole_list n v.0 absent,
    All-append (λ h. h ≤ a.used_pending_nonce) a.nonce_hole_list (n ∷ []) v.1 (h, tt),
  )
]

-- A nonce that comes back to an account without holes is handed out next, and the account is then
-- what it was, unless the chain has moved on.
pub take_nonce-add_hole :
    (n p : ℕ) (a : AccountNonce)
    → a.nonce_hole_list ≡ []
    → p ≤ a.used_pending_nonce
    → take_nonce p (some (add_hole n a)) ≡ (n, a)
unfolding take_nonce next_local add_hole
take_nonce-add_hole n p a h k = ground arith
