-- ===== src/OtaMonitor/Answering.antt =====
-- Where the node answers and the libraries decode every call, the loop over transactions is through.
use wanchain_js_sdk.Prelude.{
  ℕ, String, ◌-◌, ◌≡◌, refl, inl, inr, Bool, true, ◌||◌, ltb, Option, none, some, List, [], ◌∷◌,
  arith, string_eq, Bool-cases, str_eq,
}
use wanchain_js_sdk.Prelude.Result.{Result, ok, err, Error, duplicate_record}
use wanchain_js_sdk.Table.{insert, read, matching}
use wanchain_js_sdk.Table.Find.{find}
use wanchain_js_sdk.Normal.{Ota, ota_rows}
use wanchain_js_sdk.OtaMonitor.{Tx, Library, Account, acct_rows, Tables, my_acct}
use wanchain_js_sdk.OtaMonitor.Matching.{
  Ending, went_on, halted, thrown, is_ota_used, owner, my_ota, caught, recorded, found_ota,
  match_owned, match_call, match_tx, and_then, match_txs,
}
use wanchain_js_sdk.OtaMonitor.Scan.{Remote, in_range, get_by, get_ota_tx_in_range}

-- The libraries decode every call and tell of every OTA that the account owns whether it is used.
abbrev pub Answers : Library → String → Type 0
Answers lib key =
    ((args : String) → (r : String × String) × (lib.decode args ≡ ok r))
    × ((ota : String) → lib.owns key ota ≡ true → (b : Bool) × (is_ota_used lib key ota ≡ ok b))

insert-fails :
    (o : Ota) (user : List Ota) (e : Error)
    → insert ota_rows (some o) user ≡ err e
    → e ≡ duplicate_record
unfolding insert
insert-fails o user e h = ground arith

recorded-went :
    (o : Ota) (user : List Ota) → (recorded user (insert ota_rows (some o) user)).1 ≡ went_on
unfolding recorded caught
recorded-went o user = go (insert ota_rows (some o) user) refl
  where
    go : (r : Result (List Ota)) → insert ota_rows (some o) user ≡ r → (recorded user r).1 ≡ went_on
    go (err e) m = rw (insert-fails o user e m) refl
    go (ok after) m = refl

and_then-goes :
    (first rest : List Ota × Ending)
    → first.1 ≡ went_on
    → rest.1 ≡ went_on
    → (and_then first rest).1 ≡ went_on
unfolding and_then
and_then-goes (user, went_on) rest f r = r
and_then-goes (user, halted) rest f r = cc
and_then-goes (user, thrown e) rest f r = cc

module _ (lib : Library) (key : String) (answers : Answers lib key) where
  match_owned-went :
      (tx : Tx) (ota value : String) (user : List Ota)
      → (match_owned lib tx ota value user (owner lib (key ∷ []) ota)).1 ≡ went_on
  unfolding match_owned found_ota owner
  match_owned-went tx ota value user = elim (Bool-cases (lib.owns key ota)) [
    | inl own ↦
        let (used, told) = answers.1 ota own in
        rw (own, told) (recorded-went (my_ota tx key ota value used) user)
    | inr foreign ↦ rw foreign refl
  ]

  match_tx-went : (tx : Tx) (user : List Ota) → (match_tx lib (key ∷ []) tx user).1 ≡ went_on
  unfolding match_tx match_call
  match_tx-went tx user =
      let (call, decoded) = answers.0 tx.args in
      elim (Bool-cases (str_eq tx.sign lib.buy_sign)) [
        | inr other ↦ rw other refl
        | inl buys ↦ elim (Bool-cases (str_eq tx.to lib.contract)) [
          | inr far ↦ rw (buys, decoded, far) refl
          | inl here ↦ rw (buys, decoded, here) (match_owned-went tx call.0 call.1 user)
        ]
      ]

  pub match_txs-went :
      (txs : List Tx) (user : List Ota) → (match_txs lib (key ∷ []) txs user).1 ≡ went_on
  unfolding match_txs
  match_txs-went [] user = refl
  match_txs-went (tx ∷ txs) user =
      and_then-goes (match_tx lib (key ∷ []) tx user) _ (match_tx-went tx user)
        (match_txs-went txs (match_tx lib (key ∷ []) tx user).0)

-- The node answers each request.
abbrev pub Replies : Remote → Type 0
Replies remote = (b e : ℕ) → (txs : Option (List Tx)) × (remote b e ≡ ok txs)

pub fetches :
    (remote : Remote) (begin last : ℕ) (s : Tables)
    → Replies remote
    → (txs : Option (List Tx)) × (get_ota_tx_in_range remote begin last s ≡ ok txs)
unfolding get_ota_tx_in_range read
fetches remote begin last s replies = go (find acct_rows my_acct s.accounts)
  where
    go :
        (row : Option Account)
        → (txs : Option (List Tx)) × (get_by remote begin last s.fetched row ≡ ok txs)
    go none = unfold get_by in replies begin (last - 1)
    go (some r) = elim (Bool-cases (ltb begin r.begin || ltb r.last last)) [
      | inl far ↦
          let (txs, there) = replies begin (last - 1) in (txs, unfold get_by in rw far there)
      | inr near ↦ (some (matching (in_range begin last) s.fetched), unfold get_by in rw near refl)
    ]

-- a round whose block number came
abbrev pub answered_at : ℕ × Remote → Result ℕ × Remote
answered_at (latest, remote) = (ok latest, remote)
