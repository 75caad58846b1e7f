-- ===== src/Discovery/Examples.antt =====
-- Concrete wallets for the theorems of the discovery.
use wanchain_js_sdk.Prelude.{ℕ, ◌≤◌, ◌≡◌, refl, false, length}
use wanchain_js_sdk.Prelude.Result.{ok}
use wanchain_js_sdk.Discovery.{Answers, gap_limit, discover_address}
use wanchain_js_sdk.Discovery.Consecutive.{iota, indices, discover_address-indices}
use wanchain_js_sdk.Discovery.Gap.{Unused, min, discover_address-Unused}

-- a wallet of one address, which was never used
abbrev fresh : Answers
fresh = record { address_of = λ account i. ok "0xa"; tx_count = λ address. ok 0 }

unused : Unused fresh 0
unused i = ("0xa", refl, refl)

discover_address-Unused_example :
    length (discover_address fresh 0 5 100 false).found ≡ min 100 gap_limit
discover_address-Unused_example = discover_address-Unused fresh 0 5 100 unused

discover_address-indices_example :
    (n : ℕ) × (n ≤ 30) × (indices (discover_address fresh 0 5 30 false).found ≡ iota 5 n)
discover_address-indices_example = discover_address-indices fresh 0 5 30 false
