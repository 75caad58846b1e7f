-- ===== src/RawKey/Examples.antt =====
-- A key of Wanchain, imported into a wallet that has one key of Ethereum. The cipher is a pair.
use wanchain_js_sdk.Prelude.{ℕ, String, ◌≡◌, refl, Bool, true, false, none, some, List, [], ◌∷◌}
use wanchain_js_sdk.Prelude.Result.{Result, ok}
use wanchain_js_sdk.Table.{update, read}
use wanchain_js_sdk.Table.Find.{find, has_key, assign_first}
use wanchain_js_sdk.Bip44.{PathElem, Levels, levels_of}
use wanchain_js_sdk.RawKey.{
  ChainKey, add_key, key_at, import_private_key, get_private_key, append_key,
}
use wanchain_js_sdk.RawKey.Laws.{get_private_key-import}

-- the random number, the text and the password
abbrev Sealed : Type 0
Sealed = ℕ × String × String

abbrev seal : ℕ → String → String → Sealed
seal random text password = (random, text, password)

-- this cipher does not check the password
abbrev open_sealed : Sealed → String → Result String
open_sealed (random, text, password) given = ok text

abbrev keys : List (ChainKey Sealed)
keys = record { chain_id = 60; count = 1; keys = (0, seal 1 "aa" "pw") ∷ [] } ∷ []

abbrev after : List (ChainKey Sealed)
after =
    record { chain_id = 60; count = 2; keys = (0, seal 1 "aa" "pw") ∷ (1, seal 2 "bb" "pw") ∷ [] }
    ∷ []

abbrev level : ℕ → Bool → PathElem
level n quoted = record { parsed = some n; quoted = quoted }

abbrev path : ℕ → List PathElem
path index =
    record { parsed = none; quoted = false }
    ∷ level 44 true
    ∷ level 60 true
    ∷ level 0 true
    ∷ level 0 false
    ∷ level index false
    ∷ []

abbrev levels : ℕ → Levels
levels index = record { chain_id = 60; account = 2147483648; internal = 0; index = index }

get_private_key-import_example :
    get_private_key seal open_sealed (path 1) (some "pw") after ≡ ok "bb"
unfolding import_private_key levels_of add_key append_key key_at read update find has_key
    assign_first
get_private_key-import_example =
    get_private_key-import seal open_sealed "seed" 2 (path 0) (path 1) (levels 0) (levels 1) "bb"
      (some "pw") 1 keys after (λ random text password. refl) refl refl refl refl refl refl
