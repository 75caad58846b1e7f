-- ===== src/OtaMonitor/Known.antt =====
-- What is known of the user's OTAs after one transaction was matched.
use wanchain_js_sdk.Prelude.{
  ℕ, String, ◌≡◌, refl, ap, ◌∙◌, Bool, true, false, ◌&&◌, ◌||◌, Option, none, some, List, [], ◌∷◌,
  any, arith, str_eq, string_eq, Bool-cases, inl, inr, ◌≢◌, eq_iff, nat_beq,
}
use wanchain_js_sdk.Prelude.Result.{Result, ok, err, Error, ◌>>=◌, duplicate_record}
use wanchain_js_sdk.Table.{insert}
use wanchain_js_sdk.Table.Find.{find, has_key, find-append_last}
use wanchain_js_sdk.Table.Unique.{insert-eq-ok}
use wanchain_js_sdk.Normal.{Ota, ota_rows}
use wanchain_js_sdk.OtaMonitor.{Tx, Library}
use wanchain_js_sdk.OtaMonitor.Matching.{
  Ending, went_on, halted, thrown, is_ota_used, owner, my_ota, caught, recorded, found_ota,
  and_then,
}
use wanchain_js_sdk.OtaMonitor.Widening.{listed_key}

abbrev pub there : Option Ota → Bool
there none = false
there (some o) = true

-- whether a hash is in the table of the user's OTAs
abbrev pub known : String → List Ota → Bool
known h user = there (find ota_rows h user)

abbrev pub owned_call : Library → String → Result (String × String) → Bool
owned_call lib key (err e) = false
owned_call lib key (ok (ota, value)) = lib.owns key ota

-- whether a transaction buys a coin for an OTA of the account
abbrev pub concerns : Library → String → Tx → Bool
concerns lib key tx =
    str_eq tx.sign lib.buy_sign
    && (str_eq tx.to lib.contract && owned_call lib key (lib.decode tx.args))

known-insert :
    (o : Ota) (h : String) (user after : List Ota)
    → insert ota_rows (some o) user ≡ ok after
    → known h after ≡ (known h user || str_eq o.txhash h)
unfolding has_key
known-insert o h user after made =
    let (k, p, f, appended) = insert-eq-ok ota_rows o user after made in
    rw appended (ap there (find-append_last ota_rows h user o) ∙ (ground arith))

known-duplicate :
    (o : Ota) (user : List Ota)
    → insert ota_rows (some o) user ≡ err duplicate_record
    → known o.txhash user ≡ true
unfolding insert
known-duplicate o user made = ground arith

pub owner-listed :
    (lib : Library) (keys : List String) (key ota : String)
    → listed_key key keys ≡ true
    → lib.owns key ota ≡ true
    → (k : String) × (owner lib keys ota ≡ some k)
unfolding owner
owner-listed lib [] key ota l o = cc
owner-listed lib (k ∷ keys) key ota l o = elim (Bool-cases (lib.owns k ota)) [
  | inl own ↦ (k, rw own refl)
  | inr other ↦
      let later : listed_key key keys ≡ true = ground (arith, eq_iff k key) in
      rw other (owner-listed lib keys key ota later o)
]

-- Asking whether an OTA is used does not throw the error of a table's insert.
abbrev pub IsQuiet : Library → Type 0
IsQuiet lib = (key ota : String) → is_ota_used lib key ota ≢ err duplicate_record

pub found_ota-keeps :
    (lib : Library) (tx : Tx) (key ota value h : String) (user : List Ota)
    → known h user ≡ true
    → known h (found_ota lib tx key ota value user).0 ≡ true
unfolding found_ota recorded
found_ota-keeps lib tx key ota value h user k = go (is_ota_used lib key ota)
  where
    put :
        (o : Ota) (r : Result (List Ota))
        → insert ota_rows (some o) user ≡ r
        → known h (recorded user r).0 ≡ true
    put o (err e) made = k
    put o (ok after) made = rw (known-insert o h user after made, k) refl

    go :
        (r : Result Bool)
        → known h
            (recorded user
              (r >>= λ used. insert ota_rows (some (my_ota tx key ota value used)) user)).0
          ≡ true
    go (err e) = k
    go (ok used) = put (my_ota tx key ota value used) _ refl

caught-duplicate : (e : Error) → caught e ≡ went_on → e ≡ duplicate_record
unfolding caught
caught-duplicate e h = ground arith

pub found_ota-known :
    (lib : Library) (tx : Tx) (key ota value : String) (user : List Ota)
    → IsQuiet lib
    → (found_ota lib tx key ota value user).1 ≡ went_on
    → known tx.hash (found_ota lib tx key ota value user).0 ≡ true
unfolding found_ota recorded caught
found_ota-known lib tx key ota value user quiet = go (is_ota_used lib key ota) refl
  where
    put :
        (o : Ota) (r : Result (List Ota))
        → o.txhash ≡ tx.hash
        → insert ota_rows (some o) user ≡ r
        → (recorded user r).1 ≡ went_on
        → known tx.hash (recorded user r).0 ≡ true
    put o (err e) p made w =
        let duplicate = made ∙ ap err (caught-duplicate e w) in
        rw (← p) (known-duplicate o user duplicate)
    put o (ok after) p made w =
        rw (known-insert o tx.hash user after made) (ground (arith, (eq_iff o.txhash tx.hash).1 p))

    go :
        (r : Result Bool)
        → is_ota_used lib key ota ≡ r
        → (recorded user
            (r >>= λ used. insert ota_rows (some (my_ota tx key ota value used)) user)).1
          ≡ went_on
        → known tx.hash
            (recorded user
              (r >>= λ used. insert ota_rows (some (my_ota tx key ota value used)) user)).0
          ≡ true
    go (err e) u w = elim (quiet key ota (u ∙ ap err (caught-duplicate e w))) [ ]
    go (ok used) u w = put (my_ota tx key ota value used) _ (unfold my_ota in refl) refl w

pub and_then-keeps :
    (first rest : List Ota × Ending) (h : String)
    → known h first.0 ≡ true
    → known h rest.0 ≡ true
    → known h (and_then first rest).0 ≡ true
unfolding and_then
and_then-keeps (user, went_on) rest h k l = l
and_then-keeps (user, halted) rest h k l = k
and_then-keeps (user, thrown e) rest h k l = k

pub and_then-went :
    (first rest : List Ota × Ending)
    → (and_then first rest).1 ≡ went_on
    → (first.1 ≡ went_on) × (rest.1 ≡ went_on) × (and_then first rest ≡ rest)
unfolding and_then
and_then-went (user, went_on) rest w = (refl, w, refl)
and_then-went (user, halted) rest w = cc
and_then-went (user, thrown e) rest w = cc

-- whether some transaction of a list has the hash and the block, and buys a coin for an OTA of the
-- account
abbrev pub lists : Library → String → String → ℕ → List Tx → Bool
lists lib key h block txs =
    any (λ t. concerns lib key t && (str_eq t.hash h && nat_beq t.block_number block)) txs
