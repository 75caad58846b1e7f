-- ===== src/TxData/Accounted/Lossless.antt =====
-- What becomes of the nonce of a run that sends nothing.
use wanchain_js_sdk.Prelude.{
  ℕ, zero, suc, ◌≡◌, ◌≢◌, ◌⊎◌, inl, inr, refl, ap, ◌∙◌, String, true, Option, none, some, List, [],
  ◌∷◌, ◌++◌, string_eq, beq_refl, arith, Bool-cases,
}
use wanchain_js_sdk.Prelude.Result.{Error, Result, ok, err}
use wanchain_js_sdk.Invoker.{same_chain}
use wanchain_js_sdk.Cross.{ChainType, eth, wan, btc, eos}
use wanchain_js_sdk.Nonce.{
  AccountNonce, NonceMap, set_account, take_nonce, get_nonce_by_local, member, add_hole,
  add_nonce_hole_to_list,
}
use wanchain_js_sdk.Pipeline.{
  Stage, passed, refused, threw, Methods, Run, early, late, attempts, concluded, posted, failed_by,
  send, staged, run,
}
use wanchain_js_sdk.TxData.{Kit, CommonData, Made, noted, ask_nonce, with_nonce, then_nonce}
use wanchain_js_sdk.TxData.Accounted.{made_stage, give_back, created, accounted_run}

-- A run either sent a transaction and gave no nonce back, or sent none and gave one back.
abbrev pub Settled : {S : Type 0} → Run S → Type 0
Settled o = ((o.holes ≡ 0) × ((h : String) × (o.hash ≡ some h))) ⊎ ((o.holes ≡ 1) × (o.hash ≡ none))

module _ {S : Type 0} (m : Methods S) where
  late-Settled :
      (stage : Stage) (s : S) (next : Run S) → Settled next → Settled (late m stage s next)
  unfolding late
  late-Settled passed s next k = k
  late-Settled refused s next k = inr (refl, refl)
  late-Settled threw s next k = inr (refl, refl)

  posted-Settled : (h : String) (p : Stage × S) → Settled (posted m h p)
  unfolding posted
  posted-Settled h (passed, s) = inl (refl, (h, refl))
  posted-Settled h (refused, s) = inl (refl, (h, refl))
  posted-Settled h (threw, s) = inl (refl, (h, refl))

  failed_by-Settled : (p : Stage × S) → Settled (failed_by m p)
  unfolding failed_by
  failed_by-Settled (passed, s) = inr (refl, refl)
  failed_by-Settled (refused, s) = inr (refl, refl)
  failed_by-Settled (threw, s) = inr (refl, refl)

  send-Settled : (n : ℕ) (s : S) → Settled (send m n s)
  unfolding send concluded
  send-Settled n s = go (attempts m n 0)
    where
      go : (a : Option String) → Settled (concluded m a s)
      go none = failed_by-Settled (m.trans_failed s)
      go (some h) = posted-Settled h (m.post_send_trans h s)

  run-Settled :
      (n : ℕ) (s : S)
      → m.check_pre_condition ≡ passed
      → m.create_trans ≡ passed
      → m.create_data_creator ≡ passed
      → m.create_data_sign ≡ passed
      → Settled (run m n s)
  unfolding run staged early
  run-Settled n s a b c d =
      rw (a, b, c, d)
        (late-Settled m.create_common_data s _ (
          late-Settled m.create_contract_data s _ (
            late-Settled m.sign s _ (
              late-Settled (m.pre_send_trans s).0 (m.pre_send_trans s).1 _
                (send-Settled n (m.pre_send_trans s).1)))))

same_chain_refl : (c : ChainType) → same_chain c c ≡ true
same_chain_refl eth = refl
same_chain_refl wan = refl
same_chain_refl btc = refl
same_chain_refl eos = refl

pub set_account-same :
    (c : ChainType) (addr : String) (a : AccountNonce) (nonces : NonceMap)
    → set_account c addr a nonces c addr ≡ some a
unfolding set_account
set_account-same c addr a nonces = rw (same_chain_refl c, beq_refl addr) refl

member-append_last : (n : ℕ) (ns : List ℕ) → member n (ns ++ n ∷ []) ≡ true
member-append_last n [] = ground arith
member-append_last n (x ∷ xs) = ground (arith, member-append_last n xs)

member-add_hole : (n : ℕ) (a : AccountNonce) → member n (add_hole n a).nonce_hole_list ≡ true
unfolding add_hole
member-add_hole n a = elim (Bool-cases (member n a.nonce_hole_list)) [
  | inl there ↦ rw there there
  | inr absent ↦ rw absent (member-append_last n a.nonce_hole_list)
]

-- An account holds a nonce as one that it hands out again.
abbrev pub HasHole : NonceMap → ChainType → String → ℕ → Type 0
HasHole nonces c addr n =
    (a : AccountNonce) × (nonces c addr ≡ some a) × (member n a.nonce_hole_list ≡ true)

pub add_nonce_hole_to_list-found :
    (c : ChainType) (addr : String) (n : ℕ) (a : AccountNonce) (nonces : NonceMap)
    → nonces c addr ≡ some a
    → add_nonce_hole_to_list addr c n nonces c addr ≡ some (add_hole n a)
unfolding add_nonce_hole_to_list
add_nonce_hole_to_list-found c addr n a nonces there =
    rw (add_nonce_hole_to_list, there) (set_account-same c addr (add_hole n a) nonces)

add_nonce_hole_to_list-HasHole :
    (c : ChainType) (addr : String) (n : ℕ) (a : AccountNonce) (nonces : NonceMap)
    → nonces c addr ≡ some a
    → HasHole (add_nonce_hole_to_list addr c n nonces) c addr n
add_nonce_hole_to_list-HasHole c addr n a nonces there =
    (add_hole n a, add_nonce_hole_to_list-found c addr n a nonces there, member-add_hole n a)

module _ (kit : Kit) (cd : CommonData) (c : ChainType) (nonces : NonceMap) where
  pub asked-err :
      (e : Error) → kit.pending cd.from c ≡ err e → ask_nonce kit cd c nonces ≡ (ok none, nonces)
  unfolding ask_nonce get_nonce_by_local
  asked-err e reply = ap (λ r. noted kit cd (get_nonce_by_local r cd.from c nonces)) reply

  pub asked-ok :
      (p : ℕ)
      → kit.pending cd.from c ≡ ok p
      → let taken = take_nonce p (nonces c cd.from) in
        ask_nonce kit cd c nonces
        ≡ (ok (some (record cd { nonce = taken.0 })), set_account c cd.from taken.1 nonces)
  unfolding ask_nonce get_nonce_by_local
  asked-ok p reply = ap (λ r. noted kit cd (get_nonce_by_local r cd.from c nonces)) reply

give_back-unmade :
    (k : ℕ) (made : Made CommonData) (c : ChainType) (nonces : NonceMap)
    → ((cd : CommonData) → made ≢ ok (some cd))
    → give_back k made c nonces ≡ nonces
unfolding give_back
give_back-unmade zero made c nonces un = refl
give_back-unmade (suc k) (err e) c nonces un = refl
give_back-unmade (suc k) (ok none) c nonces un = refl
give_back-unmade (suc k) (ok (some cd)) c nonces un = absurd (un cd refl)

-- The stages before the common data pass.
abbrev pub Reaches : {S : Type 0} → Methods S → Type 0
Reaches m =
    (m.check_pre_condition ≡ passed)
    × (m.create_trans ≡ passed)
    × (m.create_data_creator ≡ passed)
    × (m.create_data_sign ≡ passed)

module _ {S : Type 0} (m : Methods S) (create : NonceMap → Made CommonData × NonceMap)
    (c : ChainType) (n : ℕ) (s : S) (nonces : NonceMap) (reached : Reaches m) where
  -- the nonces after a run, by what `createCommonData` made of them
  accounted :
      (made : Made CommonData) (asked : NonceMap)
      → create nonces ≡ (made, asked)
      → accounted_run m create c n s nonces ≡ (
        run (created m create c made) n s,
        give_back (run (created m create c made) n s).holes made c asked,
      )
  unfolding accounted_run
  accounted made asked eq = let (p, q, r, t) = reached in rw (accounted_run, eq, p, q, r, t) refl

  -- Without common data no nonce goes back.
  pub accounted-unmade :
      (made : Made CommonData) (asked : NonceMap)
      → create nonces ≡ (made, asked)
      → ((cd : CommonData) → made ≢ ok (some cd))
      → (accounted_run m create c n s nonces).1 ≡ asked
  accounted-unmade made asked eq un =
      ap (λ (p : Run S × NonceMap). p.1) (accounted made asked eq)
      ∙ give_back-unmade (run (created m create c made) n s).holes made c asked un

  pub accounted-threw :
      (e : Error) (asked : NonceMap)
      → create nonces ≡ (err e, asked)
      → (accounted_run m create c n s nonces).0.hash ≡ none
  unfolding run staged early late made_stage
  accounted-threw e asked eq =
      let (p, q, r, t) = reached in
      ap (λ (w : Run S × NonceMap). w.0.hash) (accounted (err e) asked eq) ∙ rw (p, q, r, t) refl

  -- A run that made its common data and sends nothing gives the nonce of the data back.
  pub accounted-made :
      (cd : CommonData) (asked : NonceMap) (a : AccountNonce)
      → create nonces ≡ (ok (some cd), asked)
      → asked c cd.from ≡ some a
      → (accounted_run m create c n s nonces).0.hash ≡ none
      → (accounted_run m create c n s nonces).1 ≡ add_nonce_hole_to_list cd.from c cd.nonce asked
  unfolding give_back
  accounted-made cd asked a eq there unsent =
      let whole = accounted (ok (some cd)) asked eq in
      let (p, q, r, t) = reached in
      let o = run (created m create c (ok (some cd))) n s in
      elim (run-Settled (created m create c (ok (some cd))) n s p q r t) [
        | inl (z, (h, sent)) ↦ cc (sent, unsent, ap (λ (w : Run S × NonceMap). w.0.hash) whole)
        | inr (one, none_sent) ↦
            ap (λ (w : Run S × NonceMap). w.1) whole
            ∙ ap (λ k. give_back k (ok (some cd)) c asked) one
      ]

-- After a run that sent nothing, the nonces are what they were, or the nonce that was asked for is
-- among those that its account hands out again.
abbrev pub Lossless : Kit → Made CommonData → ChainType → NonceMap → NonceMap → Type 0
Lossless kit made c nonces after =
    (after ≡ nonces)
    ⊎ ((cd : CommonData) × (p : ℕ) × (made ≡ ok (some cd))
        × (kit.pending cd.from c ≡ ok p)
        × HasHole after c cd.from (take_nonce p (nonces c cd.from)).0)

module _ {S : Type 0} (kit : Kit) (m : Methods S) (c : ChainType) (n : ℕ) (s : S)
    (nonces : NonceMap) (reached : Reaches m) where
  pub then_nonce-Lossless :
      (made : Made CommonData)
      → (accounted_run m (then_nonce kit none c made) c n s nonces).0.hash ≡ none
      → Lossless kit made c nonces (accounted_run m (then_nonce kit none c made) c n s nonces).1
  unfolding then_nonce with_nonce
  then_nonce-Lossless (err e) unsent = inl (
      accounted-unmade m (then_nonce kit none c (err e)) c n s nonces reached (err e) nonces refl
        (λ cd eq. cc eq))
  then_nonce-Lossless (ok none) unsent = inl (
      accounted-unmade m (then_nonce kit none c (ok none)) c n s nonces reached (ok none) nonces
        refl (λ cd eq. cc eq))
  then_nonce-Lossless (ok (some cd)) unsent = go (kit.pending cd.from c) refl
    where
      go :
          (reply : Result ℕ)
          → kit.pending cd.from c ≡ reply
          → Lossless kit
              (ok (some cd))
              c
              nonces
              (accounted_run m (then_nonce kit none c (ok (some cd))) c n s nonces).1
      go (err e) replied = inl (
          accounted-unmade m (then_nonce kit none c (ok (some cd))) c n s nonces reached (ok none)
            nonces (asked-err kit cd c nonces e replied) (λ cd' eq. cc eq))
      go (ok p) replied =
          let taken = take_nonce p (nonces c cd.from) in
          let asked = set_account c cd.from taken.1 nonces in
          let there = set_account-same c cd.from taken.1 nonces in
          let after =
            accounted-made m (then_nonce kit none c (ok (some cd))) c n s nonces reached
              (record cd { nonce = taken.0 }) asked taken.1 (asked-ok kit cd c nonces p replied)
              there unsent in
          inr (
            cd,
            p,
            refl,
            replied,
            rw after (add_nonce_hole_to_list-HasHole c cd.from taken.0 taken.1 asked there),
          )

  pub then_nonce-Lossless_own :
      (own : Option ℕ) (made : Made CommonData)
      → own ≡ none
      → (accounted_run m (then_nonce kit own c made) c n s nonces).0.hash ≡ none
      → Lossless kit made c nonces (accounted_run m (then_nonce kit own c made) c n s nonces).1
  then_nonce-Lossless_own none made free unsent = then_nonce-Lossless made unsent
  then_nonce-Lossless_own (some k) made free unsent = cc free
