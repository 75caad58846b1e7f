-- ===== src/KeyStore/Examples.antt =====
-- Concrete keystores for the theorems of the keystore wallet.
use wanchain_js_sdk.Prelude.{
  ℕ, String, ◌≡◌, refl, Bool, true, false, none, some, List, [], ◌∷◌, str_eq, eq_iff, if◌then◌else◌,
}
use wanchain_js_sdk.Prelude.Result.{Result, ok, err, invalid_parameter, wrong_password}
use wanchain_js_sdk.Bip44.{PathElem, Levels, levels_of}
use wanchain_js_sdk.Bip44.ChainId.{level}
use wanchain_js_sdk.Table.{insert, update, read}
use wanchain_js_sdk.Table.Find.{find, has_key, assign_first}
use wanchain_js_sdk.KeyStore.{
  add_key_store, re_encrypted, recover_key, Keys, text, object, ChainStore, Crypto, ImportOpt,
  import_key_store, get_private_key, check_duplicate,
}
use wanchain_js_sdk.KeyStore.PrivateKeys.{IsCipher, get_private_key-import_key_store}
use wanchain_js_sdk.KeyStore.Duplicates.{check_duplicate-texts}

-- a cipher that keeps the text beside its password
abbrev keys : Keys (String × String)
keys = record { address = some "0x1"; waddress = none; crypto = ("old", "key"); crypto2 = none }

abbrev parse_text : String → Result (Keys (String × String))
parse_text t = if str_eq t "{}" then ok keys else err invalid_parameter

abbrev recover_text : String → String × String → Result String
recover_text password (kept, priv) = if str_eq password kept then ok priv else err wrong_password

abbrev lib : Crypto (String × String)
lib = record {
  parse = parse_text;
  lower = λ t. t;
  recover = recover_text;
  dump = λ random password priv. (some "0x1", (password, priv));
}

cipher : IsCipher lib
cipher random password priv = rw ((eq_iff password password).1 refl) refl

abbrev path : ℕ → List PathElem
path index =
    level 0 false
    ∷ level 44 true
    ∷ level 60 true
    ∷ level 0 true
    ∷ level 0 false
    ∷ level index false
    ∷ []

abbrev levels : ℕ → Levels
levels index = record { chain_id = 60; account = 2147483648; internal = 0; index = index }

abbrev always : String → Bool
always password = true

abbrev changing : ImportOpt
changing = record {
  check_duplicate = true;
  old_password = some "old";
  new_password = some "new";
  chkfunc = some always;
}

abbrev plain : ImportOpt
plain = record { check_duplicate = false; old_password = none; new_password = none; chkfunc = none }

abbrev kept : List (ChainStore (String × String))
kept = record { chain_id = 60; count = 1; keystore = (0, text "{}") ∷ [] } ∷ []

abbrev changed : List (ChainStore (String × String))
changed =
    record {
      chain_id = 60;
      count = 2;
      keystore =
          (0, text "{}")
          ∷ (
            1,
            object (record {
              address = some "0x1";
              waddress = none;
              crypto = ("new", "key");
              crypto2 = none;
            }),
          )
          ∷ [];
    }
    ∷ []

get_private_key-import_key_store_example :
    get_private_key lib "seed"
      (path 1)
      (record { forcechk = true; password = some "new"; chkfunc = some always })
      changed
    ≡ ok "key"
unfolding import_key_store levels_of check_duplicate re_encrypted add_key_store recover_key read
    insert update find has_key assign_first
get_private_key-import_key_store_example =
    get_private_key-import_key_store lib "seed" "{}" "old" "new" "key" 1 1 (path 0) (path 1)
      (levels 0) (levels 1) keys changing always kept changed cipher refl refl refl refl refl refl
      refl refl refl refl

check_duplicate-texts_example :
    check_duplicate lib true keys
      (some (record { chain_id = 60; count = 1; keystore = (0, text "{}") ∷ [] }))
    ≡ ok true
check_duplicate-texts_example =
    check_duplicate-texts lib keys "0x1"
      (record { chain_id = 60; count = 1; keystore = (0, text "{}") ∷ [] }) refl (refl, tt)
