-- ===== src/Discovery/Gap.antt =====
-- The gap limit: an account that was never used ends the discovery after twenty addresses.
use wanchain_js_sdk.Prelude.{
  ℕ, zero, suc, ◌+◌, ◌-◌, ◌≤◌, ◌≡◌, String, refl, ap, ◌∙◌, true, false, [], ◌∷◌, ◌<◌, nat_eq, ℤ,
  ◌++◌, ltb, ltb→lt, length, length-append, arith, if◌then◌else◌, Bool-cases, inl, inr,
}
use wanchain_js_sdk.Prelude.Result.{ok}
use wanchain_js_sdk.Objects.{Object, get}
use wanchain_js_sdk.Discovery.{
  seen_account, Search, Answers, gap_limit, tx_count_of, noted, stepped, pushed, counted, pass,
  search, discover_address,
}

-- The wallet and the chain answer, and no address of the account was ever used.
abbrev pub Unused : Answers → ℕ → Type 0
Unused a account =
    (i : ℕ)
    → (address : String) × (a.address_of account i ≡ ok address) × (a.tx_count address ≡ ok 0)

abbrev pub min : ℕ → ℕ → ℕ
min m n = if ltb m n then m else n

-- A state of the loop in which the account has no transaction.
abbrev Idle : ℕ → Search → Type 0
Idle account s = (s.account ≡ account) × (s.account_tx ≡ 0) × (s.gap ≤ gap_limit)

abbrev used_before : Search → Object ℕ ℤ
used_before s = seen_account (get s.account s.last_used) s.account s.last_used

-- Within the limit, an unused address is added and the gap grows.
pass-near :
    (a : Answers) (i : ℕ) (address : String) (s : Search)
    → a.address_of s.account i ≡ ok address
    → a.tx_count address ≡ ok 0
    → s.gap < gap_limit
    → pass a false i s
      ≡ (pushed s.account address i (record s { gap = s.gap + 1; last_used = used_before s }), true)
unfolding pass tx_count_of counted noted stepped
pass-near a i address s there none_sent near =
    let within : ltb gap_limit (s.gap + 1) ≡ false = ground arith in
    rw (there, pass) (rw (none_sent, pass) (rw (within, counted) refl))

-- At the limit the loop ends.
pass-far :
    (a : Answers) (i : ℕ) (address : String) (s : Search)
    → a.address_of s.account i ≡ ok address
    → a.tx_count address ≡ ok 0
    → s.account_tx ≡ 0
    → s.gap ≡ gap_limit
    → pass a false i s ≡ (record s { gap = s.gap + 1; last_used = used_before s }, false)
unfolding pass tx_count_of counted noted stepped
pass-far a i address s there none_sent idle far =
    let beyond : ltb gap_limit (s.gap + 1) ≡ true = ground arith in
    let no_tx : ltb 0 s.account_tx ≡ false = ground arith in
    rw (there, pass) (rw (none_sent, pass) (rw (beyond, counted) (rw (no_tx, counted) refl)))

search-Unused :
    (a : Answers) (account total i : ℕ) (s : Search)
    → Unused a account
    → Idle account s
    → length (search a false total i s).found ≡ length s.found + min total (gap_limit - s.gap)
unfolding search
search-Unused a account zero i s unused (same, idle, near) = ground arith
search-Unused a account (suc total) i s unused (same, idle, near) =
    let (address, there, none_sent) = unused i in
    let there' : a.address_of s.account i ≡ ok address = ap (λ x. a.address_of x i) same ∙ there in
    elim (Bool-cases (ltb s.gap gap_limit)) [
      | inl within ↦
          let step =
            pass-near a i address s there' none_sent (omega (arith, ltb→lt s.gap gap_limit)) in
          let next : Search =
            pushed s.account address i (record s { gap = s.gap + 1; last_used = used_before s }) in
          let rest =
            search-Unused a account total (i + 1) next unused
              (unfold pushed in (same, idle, omega (arith, ltb→lt s.gap gap_limit))) in
          let more : length next.found ≡ length s.found + 1 =
            unfold pushed in length-append s.found _ ∙ (omega arith) in
          let one : min total (gap_limit - (s.gap + 1)) + 1 ≡ min (suc total) (gap_limit - s.gap) =
            ground (arith, ltb→lt s.gap gap_limit) in
          rw (step, search) (rest ∙ (unfold pushed in omega (arith, more, one)))
      | inr full ↦
          let far : s.gap ≡ gap_limit = ground arith in
          let step = pass-far a i address s there' none_sent idle far in
          rw (step, search) (ground arith)
    ]

-- If no address of an account was ever used and the chain answers for each, discovery that skips no
-- check gives as many addresses as were asked for, but no more than twenty.
pub discover_address-Unused :
    (a : Answers) (account start total : ℕ)
    → Unused a account
    → length (discover_address a account start total false).found ≡ min total gap_limit
unfolding discover_address
discover_address-Unused a account start total unused =
    search-Unused a account total start _ unused (refl, refl, omega arith) ∙ (omega arith)

-- The address after the gap of a used account is recorded for the next account, with the path of
-- the account that it is of.
pub pass-next_account :
    (a : Answers) (i : ℕ) (address : String) (s : Search)
    → a.address_of s.account i ≡ ok address
    → a.tx_count address ≡ ok 0
    → 0 < s.account_tx
    → gap_limit ≤ s.gap
    → (pass a false i s).0.found
      ≡ s.found
        ++ record {
          account = s.account + 1;
          index = i;
          path_account = s.account;
          address = address;
        }
          ∷ []
unfolding pass tx_count_of counted noted stepped pushed
pass-next_account a i address s there none_sent used full =
    let beyond : ltb gap_limit (s.gap + 1) ≡ true = ground arith in
    let some_tx : ltb 0 s.account_tx ≡ true = ground arith in
    rw (there, pass) (rw (none_sent, pass) (rw (beyond, counted) (rw (some_tx, counted) refl)))
