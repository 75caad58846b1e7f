-- ===== src/Discovery/Consecutive.antt =====
-- The addresses that are discovered have consecutive indices.
use mathlib.Core.List.{append_assoc, append-nil}
use wanchain_js_sdk.Prelude.{
  ℕ, zero, suc, ◌+◌, ◌≤◌, ◌≡◌, String, refl, sym, ap, ◌∙◌, ◌⊎◌, inl, inr, Bool, true, false, Option,
  none, some, List, [], ◌∷◌, ◌++◌, arith, Bool-cases, not, ◌||◌, nat_beq, ltb,
}
use wanchain_js_sdk.Prelude.Result.{Result, ok, err}
use wanchain_js_sdk.Discovery.{
  AddressInfo, Search, Answers, gap_limit, tx_count_of, noted, stepped, pushed, counted, pass,
  continued, search, discover_address,
}

-- `n` numbers from `i` on
abbrev pub iota : ℕ → ℕ → List ℕ
iota i zero = []
iota i (suc n) = i ∷ iota (i + 1) n

unfoldable pub indices : List AddressInfo → List ℕ
indices [] = []
indices (a ∷ rest) = a.index ∷ indices rest

indices-append_last :
    (l : List AddressInfo) (a : AddressInfo) → indices (l ++ a ∷ []) ≡ indices l ++ a.index ∷ []
unfolding indices
indices-append_last [] a = refl
indices-append_last (x ∷ l) a = ap (λ k. x.index ∷ k) (indices-append_last l a)

same_search : {s t : Search} → some s ≡ some t → s ≡ t
same_search h = cc

-- A pass that goes on adds the address of its index, another one adds none.
abbrev Adds : ℕ → Search → Search × Bool → Type 0
Adds i s p =
    ((p.1 ≡ true) × (indices p.0.found ≡ indices s.found ++ i ∷ []))
    ⊎ ((p.1 ≡ false) × (indices p.0.found ≡ indices s.found))

noted-found : (skip : Bool) (n i : ℕ) (s : Search) → (noted skip n i s).found ≡ s.found
unfolding noted
noted-found skip n i s = elim (Bool-cases (not (nat_beq n 0) || skip)) [
  | inl used ↦ rw used refl
  | inr unused ↦ rw unused refl
]

stepped-found : (skip : Bool) (s next : Search) → stepped skip s ≡ some next → next.found ≡ s.found
unfolding stepped
stepped-found skip s next h = elim (Bool-cases (ltb gap_limit s.gap)) [
  | inr near ↦ let same : s ≡ next = same_search (rw near at h) in rw (← same) refl
  | inl far ↦ elim (Bool-cases (ltb 0 s.account_tx || skip)) [
    | inr done ↦ cc (rw (far, done) at h)
    | inl on ↦
        let same : record s { account = s.account + 1; account_tx = 0 } ≡ next =
          same_search (rw (far, on) at h) in
        rw (← same) refl
  ]
]

counted-Adds :
    (skip : Bool) (n i : ℕ) (address : String) (s : Search) → Adds i s (counted skip n i address s)
unfolding counted
counted-Adds skip n i address s = go (stepped skip (noted skip n i s)) refl
  where
    go :
        (r : Option Search)
        → stepped skip (noted skip n i s) ≡ r
        → Adds i s (elim r [
          | none ↦ (noted skip n i s, false)
          | some next ↦ (pushed s.account address i next, true)
        ])
    go none h = inr (refl, ap indices (noted-found skip n i s))
    go (some next) h =
        let same : next.found ≡ s.found =
          stepped-found skip (noted skip n i s) next h ∙ noted-found skip n i s in
        inl (
          refl,
          unfold pushed in indices-append_last next.found _ ∙ ap (λ l. indices l ++ i ∷ []) same,
        )

pass-Adds : (a : Answers) (skip : Bool) (i : ℕ) (s : Search) → Adds i s (pass a skip i s)
unfolding pass
pass-Adds a skip i s = go (a.address_of s.account i)
  where
    count :
        (address : String) (r : Result ℕ)
        → Adds i s (elim r [ err e ↦ (s, false) | ok n ↦ counted skip n i address s ])
    count address (err e) = inr (refl, refl)
    count address (ok n) = counted-Adds skip n i address s

    go :
        (r : Result String)
        → Adds i s (elim r [
          | err e ↦ (s, false)
          | ok address ↦ elim (tx_count_of a skip address) [
            | err e ↦ (s, false)
            | ok n ↦ counted skip n i address s
          ]
        ])
    go (err e) = inr (refl, refl)
    go (ok address) = count address (tx_count_of a skip address)

search-indices :
    (a : Answers) (skip : Bool) (total i : ℕ) (s : Search)
    → (n : ℕ) × (n ≤ total)
      × (indices (search a skip total i s).found ≡ indices s.found ++ iota i n)
unfolding search
search-indices a skip zero i s = (0, omega arith, sym (append-nil (indices s.found)))
search-indices a skip (suc total) i s =
    go (pass a skip i s) _ (pass-Adds a skip i s)
      (search-indices a skip total (i + 1) (pass a skip i s).0)
  where
    go :
        (p : Search × Bool) (rest : Search)
        → Adds i s p
        → (n : ℕ) × (n ≤ total) × (indices rest.found ≡ indices p.0.found ++ iota (i + 1) n)
        → (n : ℕ) × (n ≤ suc total)
          × (indices (continued p rest).found ≡ indices s.found ++ iota i n)
    go (after, true) last (inl (on, added)) (n, few, rest) = (
      suc n,
      omega arith,
      rest
          ∙ ap (λ l. l ++ iota (i + 1) n) added
          ∙ append_assoc (indices s.found) (i ∷ []) (iota (i + 1) n),
    )
    go (after, true) last (inr (off, same)) ih = cc
    go (after, false) last (inl (on, added)) ih = cc
    go (after, false) last (inr (off, same)) ih =
        (0, omega arith, same ∙ sym (append-nil (indices s.found)))

-- Whatever the wallet and the chain answer, the addresses that are discovered have the indices from
-- the first one on, with no gap and none twice, and there are at most as many as were asked for.
pub discover_address-indices :
    (a : Answers) (account start total : ℕ) (skip : Bool)
    → (n : ℕ) × (n ≤ total)
      × (indices (discover_address a account start total skip).found ≡ iota start n)
unfolding discover_address
discover_address-indices a account start total skip =
    let (n, few, all) = search-indices a skip total start _ in
    (n, few, all ∙ unfold indices in refl)
