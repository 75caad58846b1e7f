-- ===== src/Safe/Registry.antt =====
-- The wallets as a finite map, and what creating and deleting do to it.
use wanchain_js_sdk.Prelude.{
  ℕ, String, ◌<◌, ◌≡◌, ◌≢◌, refl, ◌∙◌, Bool, Option, none, some, [], ◌∷◌, nat_beq, nat_beq_iff, ltb,
  ltb→lt, arith, Bool-cases, inl, inr, if◌then◌else◌, All, All-map,
}
use wanchain_js_sdk.Prelude.Result.{Result, ok, err}
use wanchain_js_sdk.Safe.{
  WalletInfo, Wallets, opened_info, look_up, put, erase, get_wallet_info, get_wallet, new_wallet,
  delete_wallet,
}

module _ {W : Type 0} where
  -- The IDs ascend.
  abbrev pub IsSorted : Wallets W → Type 0
  IsSorted [] = Unit
  IsSorted (w ∷ ws) = All (λ v. w.0 < v.0) ws × IsSorted ws

  look_up-below : (id : ℕ) (ws : Wallets W) → All (λ v. id < v.0) ws → look_up id ws ≡ none
  unfolding look_up
  look_up-below id [] h = refl
  look_up-below id ((j, info) ∷ ws) h = ground (arith, h.0, look_up-below id ws h.1)

  pub look_up-put :
      (id j : ℕ) (new : WalletInfo W) (ws : Wallets W)
      → look_up j (put id new ws) ≡ (if nat_beq id j then some new else look_up j ws)
  unfolding look_up put
  look_up-put id j new [] = refl
  look_up-put id j new ((k, info) ∷ ws) = ground (arith, look_up-put id j new ws)

  pub look_up-erase :
      (id j : ℕ) (ws : Wallets W)
      → IsSorted ws
      → look_up j (erase id ws) ≡ (if nat_beq id j then none else look_up j ws)
  unfolding look_up erase
  look_up-erase id j [] s = ground arith
  look_up-erase id j ((k, info) ∷ ws) s =
      ground (arith, look_up-below k ws s.0, look_up-erase id j ws s.1)

  All-put :
      (m id : ℕ) (new : WalletInfo W) (ws : Wallets W)
      → m < id
      → All (λ v. m < v.0) ws
      → All (λ v. m < v.0) (put id new ws)
  unfolding put
  All-put m id new [] h a = (h, tt)
  All-put m id new ((j, info) ∷ ws) h a = elim (Bool-cases (ltb id j)) [
    | inl before ↦ rw before (h, a)
    | inr not_before ↦ elim (Bool-cases (nat_beq id j)) [
      | inl same ↦ rw (not_before, same) (h, a.1)
      | inr other ↦ rw (not_before, other) (a.0, All-put m id new ws h a.1)
    ]
  ]

  pub put-IsSorted :
      (id : ℕ) (new : WalletInfo W) (ws : Wallets W) → IsSorted ws → IsSorted (put id new ws)
  unfolding put
  put-IsSorted id new [] s = (tt, tt)
  put-IsSorted id new ((j, info) ∷ ws) s = elim (Bool-cases (ltb id j)) [
    | inl before ↦
        let below : id < j = ltb→lt id j before in
        rw before ((below, All-map (λ v h. omega arith) ws s.0), s)
    | inr not_before ↦ elim (Bool-cases (nat_beq id j)) [
      | inl same ↦
          rw (not_before, same)
            (All-map (λ v h. omega (arith, (nat_beq_iff id j).0 same)) ws s.0, s.1)
      | inr other ↦
          let above : j < id = ground arith in
          rw (not_before, other) (All-put j id new ws above s.0, put-IsSorted id new ws s.1)
    ]
  ]

  All-erase : (m id : ℕ) (ws : Wallets W) → All (λ v. m < v.0) ws → All (λ v. m < v.0) (erase id ws)
  unfolding erase
  All-erase m id [] a = tt
  All-erase m id ((j, info) ∷ ws) a = elim (Bool-cases (nat_beq j id)) [
    | inl same ↦ rw same a.1
    | inr other ↦ rw other (a.0, All-erase m id ws a.1)
  ]

  pub erase-IsSorted : (id : ℕ) (ws : Wallets W) → IsSorted ws → IsSorted (erase id ws)
  unfolding erase
  erase-IsSorted id [] s = tt
  erase-IsSorted id ((j, info) ∷ ws) s = elim (Bool-cases (nat_beq j id)) [
    | inl same ↦ rw same s.1
    | inr other ↦ rw other (All-erase j id ws s.0, erase-IsSorted id ws s.1)
  ]

  -- What a successful `new_wallet` did.
  new_wallet-eq-ok :
      (id : ℕ) (name : String) (made : Result W) (w : W) (ws ws' : Wallets W)
      → new_wallet id name made ws ≡ ok (w, ws')
      → ws' ≡ put id (opened_info name w) ws
  unfolding new_wallet
  new_wallet-eq-ok id name made w ws ws' h = ground arith

  -- A wallet that was created is the one that its ID gets; under every other ID stands what stood
  -- there before; and the IDs still ascend.
  pub get_wallet-new_wallet :
      (id j : ℕ) (name : String) (made : Result W) (w : W) (ws ws' : Wallets W)
      → id ≢ 0
      → IsSorted ws
      → new_wallet id name made ws ≡ ok (w, ws')
      → (get_wallet (some j) ws' ≡ (if nat_beq id j then ok w else get_wallet (some j) ws))
        × IsSorted ws'
  unfolding get_wallet get_wallet_info
  get_wallet-new_wallet id j name made w ws ws' n s h =
      rw (new_wallet-eq-ok id name made w ws ws' h) (
        ground (arith, look_up-put id j (opened_info name w) ws),
        put-IsSorted id (opened_info name w) ws s,
      )

  -- What a delete leaves under every ID, if every wallet closes.
  look_up-delete_wallet :
      (id j : ℕ) (close : W → Result Bool) (ws : Wallets W)
      → ((v : W) → (b : Bool) × (close v ≡ ok b))
      → IsSorted ws
      → look_up j (delete_wallet id close ws) ≡ (if nat_beq id j then none else look_up j ws)
  unfolding delete_wallet
  look_up-delete_wallet id j close ws closes s = go (look_up id ws) refl
    where
      go :
          (found : Option (WalletInfo W))
          → look_up id ws ≡ found
          → look_up j (elim found [
            | none ↦ ws
            | some info ↦ elim (close info.wallet) [ err e ↦ ws | ok closed ↦ erase id ws ]
          ])
            ≡ (if nat_beq id j then none else look_up j ws)
      go none f = elim (Bool-cases (nat_beq id j)) [
        | inl same ↦ rw same (rw (← (nat_beq_iff id j).0 same) f)
        | inr other ↦ rw other refl
      ]
      go (some info) f = let (b, closed) = closes info.wallet in rw closed (look_up-erase id j ws s)

  -- If closing throws for no wallet, a wallet can be created again after it was deleted, and the
  -- delete removes no other wallet.
  pub new_wallet-delete_wallet :
      (id j : ℕ) (name : String) (w : W) (close : W → Result Bool) (ws : Wallets W)
      → ((v : W) → (b : Bool) × (close v ≡ ok b))
      → IsSorted ws
      → let ws' = delete_wallet id close ws in
        (new_wallet id name (ok w) ws' ≡ ok (w, put id (opened_info name w) ws'))
        × (look_up j ws' ≡ (if nat_beq id j then none else look_up j ws))
  unfolding delete_wallet new_wallet
  new_wallet-delete_wallet id j name w close ws closes s =
      let gone : look_up id (delete_wallet id close ws) ≡ none =
        look_up-delete_wallet id id close ws closes s ∙ (ground arith) in
      (ground arith, look_up-delete_wallet id j close ws closes s)
