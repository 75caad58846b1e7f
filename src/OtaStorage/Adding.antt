-- ===== src/OtaStorage/Adding.antt =====
-- What `addOTAIfNotExist` adds.
use wanchain_js_sdk.Prelude.{
  ◌≡◌, String, refl, ap, ◌∙◌, Bool-cases, inl, inr, Option, none, some, List, [], ◌∷◌, ◌++◌, str_eq,
  arith, if◌then◌else◌, string_eq, eq_iff,
}
use wanchain_js_sdk.Prelude.Result.{ok}
use wanchain_js_sdk.Table.{insert, read}
use wanchain_js_sdk.Table.Find.{find}
use wanchain_js_sdk.Table.Upsert.{changed, find-upsert}
use wanchain_js_sdk.OtaStorage.{
  AddrRow, addr_rows, ValueRow, value_rows, Storage, add_addr, add_value, add_ota_if_not_exist,
}

abbrev pub row_otas : Option ValueRow → List String
row_otas none = []
row_otas (some r) = r.otas

-- the addresses that are known for a value
abbrev pub otas_of : String → Storage → List String
otas_of value s = row_otas (find value_rows value s.val)

added :
    (addr value : String) (t : List AddrRow) → (t' : List AddrRow) × (add_addr addr value t ≡ ok t')
unfolding add_addr read insert
added addr value t = go (find addr_rows addr t) refl
  where
    go :
        (row : Option AddrRow)
        → find addr_rows addr t ≡ row
        → (t' : List AddrRow) × (add_addr addr value t ≡ ok t')
    go none f = (t ++ record { addr = addr; value = value } ∷ [], ground (arith, f))
    go (some r) f = (t, ground (arith, f))

-- Adding an address succeeds and puts it at the end of the list of its value, be it known or not;
-- the lists of other values stay as they are.
pub add_ota-appends :
    (addr value v : String) (s : Storage)
    → (s' : Storage) × (add_ota_if_not_exist addr value s ≡ ok s')
      × (otas_of v s' ≡ (if str_eq value v then otas_of v s ++ addr ∷ [] else otas_of v s))
unfolding add_ota_if_not_exist add_value
add_ota-appends addr value v s =
    let (ota, stored) = added addr value s.ota in
    let fresh : ValueRow = record { value = value; otas = addr ∷ [] } in
    let change = λ (r : ValueRow). record r { otas = r.otas ++ addr ∷ [] } in
    let (val, written, reads) =
      find-upsert value_rows fresh change value s.val (λ old new. refl) refl (λ r h. h) in
    (
      record { ota = ota; val = val },
      rw (stored, written) refl,
      ap row_otas (reads v) ∙ appended (find value_rows value s.val) refl,
    )
  where
    fresh : ValueRow
    fresh = record { value = value; otas = addr ∷ [] }

    change : ValueRow → ValueRow
    change r = record r { otas = r.otas ++ addr ∷ [] }

    appended :
        (row : Option ValueRow)
        → find value_rows value s.val ≡ row
        → row_otas (
            if str_eq value v
            then some (changed value_rows fresh change row)
            else find value_rows v s.val)
          ≡ (if str_eq value v then otas_of v s ++ addr ∷ [] else otas_of v s)
    appended row f = elim (Bool-cases (str_eq value v)) [
      | inl same ↦
          let mine : find value_rows v s.val ≡ row = rw (← (eq_iff value v).0 same) f in
          rw (same, mine) (grows row)
      | inr other ↦ rw other refl
    ]
      where
        grows :
            (row : Option ValueRow)
            → row_otas (some (changed value_rows fresh change row)) ≡ row_otas row ++ addr ∷ []
        grows none = refl
        grows (some r) = refl
