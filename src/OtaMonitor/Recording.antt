-- ===== src/OtaMonitor/Recording.antt =====
-- What the loop over the transactions of a range leaves in the table of the user's OTAs.
use wanchain_js_sdk.Prelude.{
  ℕ, String, ◌≡◌, true, ◌&&◌, Option, none, some, List, [], ◌∷◌, arith, str_eq, string_eq,
  Bool-cases, inl, inr, eq_iff, nat_beq,
}
use wanchain_js_sdk.Prelude.Result.{Result, ok, err}
use wanchain_js_sdk.Normal.{Ota}
use wanchain_js_sdk.OtaMonitor.{Tx, Library}
use wanchain_js_sdk.OtaMonitor.Matching.{
  went_on, owner, match_owned, match_call, match_tx, match_txs,
}
use wanchain_js_sdk.OtaMonitor.Widening.{listed_key}
use wanchain_js_sdk.OtaMonitor.Known.{
  known, owned_call, concerns, IsQuiet, owner-listed, found_ota-keeps, found_ota-known, lists,
  and_then-keeps, and_then-went,
}

module _ (lib : Library) (keys : List String) where
  match_call-keeps :
      (tx : Tx) (h : String) (user : List Ota) (d : Result (String × String))
      → known h user ≡ true
      → known h (match_call lib keys tx user d).0 ≡ true
  unfolding match_call match_owned
  match_call-keeps tx h user (err e) k = k
  match_call-keeps tx h user (ok (ota, value)) k = elim (Bool-cases (str_eq tx.to lib.contract)) [
    | inr other ↦ rw other k
    | inl here ↦ rw here (owned (owner lib keys ota))
  ]
    where
      owned : (o : Option String) → known h (match_owned lib tx ota value user o).0 ≡ true
      owned none = k
      owned (some key) = found_ota-keeps lib tx key ota value h user k

  match_tx-keeps :
      (tx : Tx) (h : String) (user : List Ota)
      → known h user ≡ true
      → known h (match_tx lib keys tx user).0 ≡ true
  unfolding match_tx
  match_tx-keeps tx h user k = elim (Bool-cases (str_eq tx.sign lib.buy_sign)) [
    | inr other ↦ rw other k
    | inl buys ↦ rw buys (match_call-keeps tx h user (lib.decode tx.args) k)
  ]

  match_call-known :
      (key : String) (tx : Tx) (user : List Ota) (d : Result (String × String))
      → IsQuiet lib
      → listed_key key keys ≡ true
      → str_eq tx.to lib.contract ≡ true
      → owned_call lib key d ≡ true
      → (match_call lib keys tx user d).1 ≡ went_on
      → known tx.hash (match_call lib keys tx user d).0 ≡ true
  unfolding match_call match_owned
  match_call-known key tx user (err e) quiet l here c w = cc
  match_call-known key tx user (ok (ota, value)) quiet l here c w =
      let (k, own) = owner-listed lib keys key ota l c in
      rw (here, own) (found_ota-known lib tx k ota value user quiet (rw (here, own) at w))

  match_tx-known :
      (key : String) (tx : Tx) (user : List Ota)
      → IsQuiet lib
      → listed_key key keys ≡ true
      → concerns lib key tx ≡ true
      → (match_tx lib keys tx user).1 ≡ went_on
      → known tx.hash (match_tx lib keys tx user).0 ≡ true
  unfolding match_tx
  match_tx-known key tx user quiet l c w =
      let buys : str_eq tx.sign lib.buy_sign ≡ true = ground arith in
      let here : str_eq tx.to lib.contract ≡ true = ground arith in
      let own : owned_call lib key (lib.decode tx.args) ≡ true = ground arith in
      rw buys (match_call-known key tx user (lib.decode tx.args) quiet l here own (rw buys at w))

  -- What is known stays known, however the loop over the transactions ends.
  pub match_txs-keeps :
      (txs : List Tx) (h : String) (user : List Ota)
      → known h user ≡ true
      → known h (match_txs lib keys txs user).0 ≡ true
  unfolding match_txs
  match_txs-keeps [] h user k = k
  match_txs-keeps (tx ∷ txs) h user k =
      let first = match_tx-keeps tx h user k in
      and_then-keeps (match_tx lib keys tx user) _ h first
        (match_txs-keeps txs h (match_tx lib keys tx user).0 first)

  -- Once the loop over the transactions is through, those that buy a coin for an OTA of one of the
  -- accounts are known.
  pub match_txs-known :
      (key h : String) (block : ℕ) (txs : List Tx) (user : List Ota)
      → IsQuiet lib
      → listed_key key keys ≡ true
      → lists lib key h block txs ≡ true
      → (match_txs lib keys txs user).1 ≡ went_on
      → known h (match_txs lib keys txs user).0 ≡ true
  unfolding match_txs
  match_txs-known key h block [] user quiet l c w = cc
  match_txs-known key h block (tx ∷ txs) user quiet l c w =
      let (first, rest, same) =
        and_then-went (match_tx lib keys tx user)
          (match_txs lib keys txs (match_tx lib keys tx user).0) w in
      let after = (match_tx lib keys tx user).0 in
      rw same
        (elim (Bool-cases
          (concerns lib key tx && (str_eq tx.hash h && nat_beq tx.block_number block))) [
            | inr other ↦ match_txs-known key h block txs after quiet l (rw other at c) rest
            | inl fits ↦
                let own : concerns lib key tx ≡ true = ground arith in
                let hash : str_eq tx.hash h ≡ true = ground arith in
                match_txs-keeps txs h after
                  (rw (← (eq_iff tx.hash h).0 hash) (match_tx-known key tx user quiet l own first))
          ])
