-- ===== src/OtaStorage/Examples.antt =====
-- Concrete addresses for the theorems of the OTA storage.
use wanchain_js_sdk.Prelude.{
  ℕ, some, suc, ◌≤◌, ◌≡◌, String, refl, List, [], ◌∷◌, ◌++◌, length, arith, if◌then◌else◌, str_eq,
  string_eq,
}
use wanchain_js_sdk.Prelude.Result.{ok}
use wanchain_js_sdk.Table.{read}
use wanchain_js_sdk.Table.Find.{find, has_key, assign_first}
use wanchain_js_sdk.OtaStorage.{
  ValueRow, value_rows, Storage, add_ota_if_not_exist, get_ota_mix_set,
}
use wanchain_js_sdk.OtaStorage.Mixing.{count, mix-size}
use wanchain_js_sdk.OtaStorage.Adding.{otas_of, add_ota-appends}

abbrev known : Storage
known = record {
  ota = record { addr = "0xa"; value = "10" } ∷ record { addr = "0xb"; value = "10" } ∷ [];
  val = record { value = "10"; otas = "0xa" ∷ "0xb" ∷ "0xc" ∷ [] } ∷ [];
}

-- the last index below the argument
abbrev last_index : ℕ → ℕ
last_index n = 0

below : (n : ℕ) → last_index (suc n) ≤ n
below n = omega arith

abbrev drawn : List String
drawn = "0xa" ∷ "0xc" ∷ []

-- the two that were drawn stand at the end of the list
abbrev left : Storage
left = record known { val = record { value = "10"; otas = "0xb" ∷ "0xc" ∷ "0xa" ∷ [] } ∷ [] }

mix : get_ota_mix_set last_index "0xa" 2 known ≡ ok (drawn, left)
unfolding get_ota_mix_set find has_key assign_first
mix = refl

mix-size_example :
    (length drawn ≡ 2)
    × (count "0xa" drawn ≤ count "0xa" ("0xa" ∷ "0xb" ∷ "0xc" ∷ []))
    × (val' : ValueRow) × (read value_rows (some "10") left.val ≡ ok (some val'))
    × (count "0xa" val'.otas ≡ count "0xa" ("0xa" ∷ "0xb" ∷ "0xc" ∷ []))
unfolding read find has_key
mix-size_example =
    mix-size last_index "0xa" "0xa" 2 known left (record { addr = "0xa"; value = "10" })
      (record { value = "10"; otas = "0xa" ∷ "0xb" ∷ "0xc" ∷ [] }) drawn below refl refl mix

add_ota-appends_example :
    (s' : Storage) × (add_ota_if_not_exist "0xa" "10" known ≡ ok s')
    × (otas_of "10" s'
        ≡ (if str_eq "10" "10" then otas_of "10" known ++ "0xa" ∷ [] else otas_of "10" known))
add_ota-appends_example = add_ota-appends "0xa" "10" "10" known
