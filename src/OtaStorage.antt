-- ===== src/OtaStorage.antt =====
-- `OTAStorage` of src/db/otaStorage.js: the known one-time addresses, by address and by value, and
-- the mixing sets that are drawn from them. `random` gives the index below its argument that
-- `Math.floor(Math.random() * m)` picks.
pub mod Mixing
pub mod Adding
mod Examples
use wanchain_js_sdk.Prelude.{
  ℕ, zero, suc, String, Option, none, some, List, [], ◌∷◌, ◌++◌, length, get_elem?, ltb, nat_beq,
  string_eq, if◌then◌else◌,
}
use wanchain_js_sdk.Prelude.Result.{
  Result, ok, err, invalid_parameter, not_found, logic_error, ◌>>=◌,
}
use wanchain_js_sdk.Table.{insert, read}
use wanchain_js_sdk.Table.Upsert.{upsert}
use wanchain_js_sdk.Table.Find.{Rows, assign_first}

pub record AddrRow : Type 0 where
  pub addr : String
  pub value : String

pub record ValueRow : Type 0 where
  pub value : String
  pub otas : List String

abbrev pub addr_rows : Rows AddrRow String
addr_rows = record {
  key = λ r. some r.addr;
  assign = λ old new. new;
  key-assign = λ old new k h. h;
}

abbrev pub value_rows : Rows ValueRow String
value_rows = record {
  key = λ r. some r.value;
  assign = λ old new. new;
  key-assign = λ old new k h. h;
}

pub record Storage : Type 0 where
  pub ota : List AddrRow
  pub val : List ValueRow

unfoldable pub add_addr : String → String → List AddrRow → Result (List AddrRow)
unfolding read insert
add_addr addr value t = read addr_rows (some addr) t >>= λ row. elim row [
  | some r ↦ ok t
  | none ↦ insert addr_rows (some (record { addr = addr; value = value })) t
]

-- The address goes to the list of its value whether it was known or not.
unfoldable pub add_value : String → String → List ValueRow → Result (List ValueRow)
unfolding upsert
add_value addr value t =
    upsert value_rows (record { value = value; otas = addr ∷ [] })
      (λ r. record r { otas = r.otas ++ addr ∷ [] }) value t

unfoldable pub add_ota_if_not_exist : String → String → Storage → Result Storage
unfolding add_addr add_value
add_ota_if_not_exist addr value s = do
  ota ← add_addr addr value s.ota
  val ← add_value addr value s.val
  ok (record { ota = ota; val = val })

-- `otas[i] = t`
unfoldable pub set_at : ℕ → String → List String → List String
set_at i t [] = []
set_at zero t (o ∷ os) = t ∷ os
set_at (suc i) t (o ∷ os) = o ∷ set_at i t os

-- swaps the picked address to the place `m`; both places are in the list
unfoldable pub swapped : ℕ → ℕ → List String → Option (String × List String)
unfolding set_at
swapped i m otas = elim (get_elem? otas i) [
  | none ↦ none
  | some picked ↦ elim (get_elem? otas m) [
    | none ↦ none
    | some t ↦ some (picked, set_at i t (set_at m picked otas))
  ]
]

-- the loop, `m` and `size` counting down, with the set and the list that is left; a place that is out
-- of the list would push `undefined`
unfoldable pub draw : (ℕ → ℕ) → ℕ → ℕ → List String → List String × List String
unfolding swapped
draw random zero size otas = ([], otas)
draw random (suc m) zero otas = ([], otas)
draw random (suc m) (suc size) otas = elim (swapped (random (suc m)) m otas) [
  | none ↦ ([], otas)
  | some (picked, otas') ↦ let rest = draw random m size otas' in (picked ∷ rest.0, rest.1)
]

unfoldable pub mix_of : (ℕ → ℕ) → ℕ → ValueRow → Result (List String × List String)
unfolding draw
mix_of random size val =
    if ltb (length val.otas) size
    then err not_found
    else ok (draw random (length val.otas) size val.otas)

-- The row that was read is the one in the table: the swaps stay in memory, and nothing is written.
abbrev pub mixed : String → ValueRow → Storage → List String × List String → List String × Storage
mixed value val s (drawn, left) =
    (drawn, record s { val = assign_first value_rows value (record val { otas = left }) s.val })

unfoldable pub get_ota_mix_set : (ℕ → ℕ) → String → ℕ → Storage → Result (List String × Storage)
unfolding read mix_of
get_ota_mix_set random addr size s =
    if nat_beq size 0
    then err invalid_parameter
    else read addr_rows (some addr) s.ota >>= λ row. elim row [
      | none ↦ err not_found
      | some ota ↦ read value_rows (some ota.value) s.val >>= λ found. elim found [
        | none ↦ err logic_error
        | some val ↦ mix_of random size val >>= λ drawn. ok (mixed ota.value val s drawn)
      ]
    ]
