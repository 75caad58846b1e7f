-- ===== src/UserAccounts/Examples.antt =====
-- Concrete calls for the theorem of the user accounts.
use wanchain_js_sdk.Prelude.{
  String, ◌≡◌, refl, true, false, some, List, [], ◌∷◌, str_eq, if◌then◌else◌,
}
use wanchain_js_sdk.Prelude.Result.{ok, err, invalid_parameter}
use wanchain_js_sdk.Bip44.{PathElem}
use wanchain_js_sdk.Bip44.ChainId.{level}
use wanchain_js_sdk.Table.Find.{find}
use wanchain_js_sdk.UserAccounts.{chain_of, account_at}
use wanchain_js_sdk.UserAccounts.Refinement.{
  Op, create, update, delete, run, replay, view, run-refines,
}

-- the parts of a path of WAN, and those of a text that is no path
abbrev parts : String → List PathElem
parts path =
    if str_eq path "m/44'/5718350'/0'/0/3"
    then level 0 false
      ∷ level 44 true
      ∷ level 5718350 true
      ∷ level 0 true
      ∷ level 0 false
      ∷ level 3 false
      ∷ []
    else level 0 false ∷ []

abbrev calls : List (Op String)
calls =
    create 1 "m/44'/5718350'/0'/0/3" (some "savings")
    ∷ create 1 "m/44'/5718350'/0'/0/3" (some "again")
    ∷ update 1 "nowhere" (some "lost")
    ∷ delete 1 "m/44'/5718350'/0'/0/3"
    ∷ []

answers :
    (replay parts calls (view parts [])).0
    ≡ ok true ∷ ok false ∷ err invalid_parameter ∷ ok true ∷ []
unfolding replay view chain_of account_at find
answers = refl

run-refines_example :
    ((run parts calls []).0 ≡ (replay parts calls (view parts [])).0)
    × (view parts (run parts calls []).1 ≡ (replay parts calls (view parts [])).1)
run-refines_example = run-refines parts calls []
