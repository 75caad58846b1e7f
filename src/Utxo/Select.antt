-- ===== src/Utxo/Select.antt =====
-- What a selection of outputs adds up to, and when there is none.
use wanchain_js_sdk.Prelude.{
  ℕ, ◌+◌, ◌≤◌, ◌<◌, ◌≡◌, ◌⊎◌, inl, inr, refl, sym, ap, ◌∙◌, List, [], ◌∷◌, ◌++◌, leb, length,
  length-append, All, All-append, arith, Bool-cases, leb→le, if◌then◌else◌,
}
use wanchain_js_sdk.Prelude.Result.{ok, err, Error}
use wanchain_js_sdk.Utxo.{
  Utxo, get_utxos_balance, Selected, Selection, add_input, fee_of, select, settle, btc_coin_select,
}

balance-append :
    (us vs : List Utxo) → get_utxos_balance (us ++ vs) ≡ get_utxos_balance us + get_utxos_balance vs
unfolding get_utxos_balance
balance-append [] vs = omega arith
balance-append (u ∷ us) vs = omega (arith, balance-append us vs)

-- the loop's state counts its inputs, which are confirmed often enough
abbrev IsCounted : ℕ → Selected → Type 0
IsCounted m s =
    (s.available_sat ≡ get_utxos_balance s.inputs)
    × (s.ninputs ≡ length s.inputs)
    × All (λ u. m ≤ u.confirmations) s.inputs

-- the outputs that are confirmed often enough
unfoldable pub eligible : ℕ → List Utxo → List Utxo
eligible m [] = []
eligible m (u ∷ us) = let rest = eligible m us in if leb m u.confirmations then u ∷ rest else rest

module _ (value fee_rate m : ℕ) where
  add_input-IsCounted :
      (u : Utxo) (s : Selected) → m ≤ u.confirmations → IsCounted m s → IsCounted m (add_input u s)
  unfolding get_utxos_balance
  add_input-IsCounted u s h (a, n, c) = (
    omega (arith, a, balance-append s.inputs (u ∷ [])),
    omega (arith, n, length-append s.inputs (u ∷ [])),
    All-append (λ v. m ≤ v.confirmations) s.inputs (u ∷ []) c (h, tt),
  )

  select-IsCounted :
      (us : List Utxo) (s : Selected) → IsCounted m s → IsCounted m (select value fee_rate m us s)
  unfolding select
  select-IsCounted [] s c = c
  select-IsCounted (u ∷ us) s c = elim (Bool-cases (leb m u.confirmations)) [
    | inr old ↦ rw old (select-IsCounted us s c)
    | inl young ↦
        let more = add_input-IsCounted u s (leb→le m u.confirmations young) c in
        rw young
          (elim (Bool-cases
            (leb (value + fee_of fee_rate (s.ninputs + 1)) (s.available_sat + u.value))) [
              | inl enough ↦ rw enough more
              | inr few ↦ rw few (select-IsCounted us (add_input u s) more)
            ])
  ]

  -- The loop stopped at enough, or it took every output that is confirmed often enough.
  select-enough_or_all :
      (us : List Utxo) (s : Selected)
      → let s' = select value fee_rate m us s in
        (value + fee_of fee_rate s'.ninputs ≤ s'.available_sat)
        ⊎ ((s'.available_sat ≡ s.available_sat + get_utxos_balance (eligible m us))
            × (s'.ninputs ≡ s.ninputs + length (eligible m us)))
  unfolding select eligible get_utxos_balance
  select-enough_or_all [] s = inr (omega arith, omega arith)
  select-enough_or_all (u ∷ us) s = elim (Bool-cases (leb m u.confirmations)) [
    | inr old ↦ rw old (select-enough_or_all us s)
    | inl young ↦
        rw young
          (elim (Bool-cases
            (leb (value + fee_of fee_rate (s.ninputs + 1)) (s.available_sat + u.value))) [
              | inl enough ↦ rw enough (
                  inl (
                    leb→le (value + fee_of fee_rate (s.ninputs + 1)) (s.available_sat + u.value)
                      enough))
              | inr few ↦ rw few (elim (select-enough_or_all us (add_input u s)) [
                | inl there ↦ inl there
                | inr all ↦ inr (omega (arith, all.0), omega (arith, all.1))
              ])
            ])
  ]

  settle-ok :
      (s : Selected) (sel : Selection)
      → settle value fee_rate m s ≡ ok sel
      → (sel.inputs ≡ s.inputs)
        × (sel.fee ≡ fee_of fee_rate s.ninputs)
        × (s.available_sat ≡ value + sel.change + sel.fee)
  unfolding settle
  settle-ok s sel h = (ground arith, ground arith, ground arith)

  settle-err :
      (s : Selected) (e : Error)
      → settle value fee_rate m s ≡ err e
      → s.available_sat < value + fee_of fee_rate s.ninputs
  unfolding settle
  settle-err s e h = ground arith

  all_few :
      (s : Selected) (b n : ℕ)
      → s.available_sat < value + fee_of fee_rate s.ninputs
      → s.available_sat ≡ 0 + b
      → s.ninputs ≡ 0 + n
      → b < value + fee_of fee_rate n
  all_few s b n few all_sat all_inputs =
      let same : s.ninputs ≡ n = omega (arith, all_inputs) in
      let fee = ap (fee_of fee_rate) same in omega (arith, few, all_sat, fee)

  not_both :
      (s : Selected)
      → s.available_sat < value + fee_of fee_rate s.ninputs
      → value + fee_of fee_rate s.ninputs ≤ s.available_sat
      → ⊥
  not_both s few enough = omega arith

  module _ (sort : List Utxo → List Utxo) (utxos : List Utxo) where
    -- The outputs that are selected are confirmed often enough, and they are the value, the change
    -- and the fee together, which is that of a transaction of as many inputs.
    pub btc_coin_select-ok :
        (sel : Selection)
        → btc_coin_select value fee_rate m sort utxos ≡ ok sel
        → (get_utxos_balance sel.inputs ≡ value + sel.change + sel.fee)
          × (sel.fee ≡ fee_of fee_rate (length sel.inputs))
          × All (λ u. m ≤ u.confirmations) sel.inputs
    unfolding btc_coin_select
    btc_coin_select-ok sel h =
        let start : Selected = record { available_sat = 0; ninputs = 0; inputs = [] } in
        let s = select value fee_rate m (sort utxos) start in
        let (a, n, c) =
          select-IsCounted (sort utxos) start (unfold get_utxos_balance in refl, refl, tt) in
        let (i, f, sum) = settle-ok s sel h in
        (
          ap get_utxos_balance i ∙ sym a ∙ sum,
          f ∙ ap (fee_of fee_rate) (n ∙ ap length (sym i)),
          rw i c,
        )

    -- The selection fails only if all outputs that are confirmed often enough do not pay for the
    -- value and the fee of a transaction that spends all of them.
    pub btc_coin_select-err :
        (e : Error)
        → btc_coin_select value fee_rate m sort utxos ≡ err e
        → get_utxos_balance (eligible m (sort utxos))
          < value + fee_of fee_rate (length (eligible m (sort utxos)))
    unfolding btc_coin_select
    btc_coin_select-err e h =
        let start : Selected = record { available_sat = 0; ninputs = 0; inputs = [] } in
        let s = select value fee_rate m (sort utxos) start in
        let few = settle-err s e h in
        elim (select-enough_or_all (sort utxos) start) [
          | inl enough ↦ elim (not_both s few enough) [ ]
          | inr all ↦
              all_few s (get_utxos_balance (eligible m (sort utxos)))
                (length (eligible m (sort utxos))) few all.0 all.1
        ]
