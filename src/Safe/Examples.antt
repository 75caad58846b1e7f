-- ===== src/Safe/Examples.antt =====
-- A safe with a native wallet and a raw key wallet.
use wanchain_js_sdk.Prelude.{String, ◌≡◌, refl, some, [], ◌∷◌, nat_beq, arith, if◌then◌else◌}
use wanchain_js_sdk.Prelude.Result.{ok}
use wanchain_js_sdk.Safe.{Wallets, opened_info, look_up, put, get_wallet, new_wallet}
use wanchain_js_sdk.Safe.Registry.{IsSorted, get_wallet-new_wallet}

-- the instance of a wallet is its name here
abbrev wallets : Wallets String
wallets = (1, opened_info "Native" "n") ∷ (6, opened_info "RawKey" "r") ∷ []

abbrev with_keystore : Wallets String
with_keystore =
    (1, opened_info "Native" "n")
    ∷ (5, opened_info "KeyStore" "k")
    ∷ (6, opened_info "RawKey" "r")
    ∷ []

get_wallet-new_wallet_example :
    (get_wallet (some 5) with_keystore
      ≡ (if nat_beq 5 5 then ok "k" else get_wallet (some 5) wallets))
    × IsSorted with_keystore
unfolding new_wallet look_up put
get_wallet-new_wallet_example =
    get_wallet-new_wallet 5 5 "KeyStore" (ok "k") "k" wallets with_keystore (omega arith)
      ((omega arith, tt), (tt, tt)) refl
