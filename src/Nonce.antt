-- ===== src/Nonce.antt =====
-- `getNonceByLocal` and `addNonceHoleToList` of src/api/ccUtil.js: the nonces that the SDK hands
-- out for an account, and those that come back because their transaction was not sent. The mutex
-- makes each of the two one step. The maps hold the four chains.
pub mod Fresh
mod Examples
use wanchain_js_sdk.Prelude.{
  ℕ, String, ◌+◌, Bool, Option, none, some, List, [], ◌∷◌, ◌++◌, leb, nat_beq, any, str_eq, ◌&&◌,
  if◌then◌else◌,
}
use wanchain_js_sdk.Prelude.Result.{Result, ok, err}
use wanchain_js_sdk.Cross.{ChainType}
use wanchain_js_sdk.Invoker.{same_chain}

pub record AccountNonce : Type 0 where
  pub used_pending_nonce : ℕ
  pub nonce_hole_list : List ℕ

-- `global.mapAccountNonce`
abbrev pub NonceMap : Type 0
NonceMap = ChainType → String → Option AccountNonce

unfoldable pub set_account : ChainType → String → AccountNonce → NonceMap → NonceMap
set_account c addr a m =
    λ d other. if same_chain d c && str_eq other addr then some a else m d other

-- the first of the holes, or else the next nonce
unfoldable pub next_local : List ℕ → ℕ → ℕ × AccountNonce
next_local [] used = (used + 1, record { used_pending_nonce = used + 1; nonce_hole_list = [] })
next_local (hole ∷ holes) used =
    (hole, record { used_pending_nonce = used; nonce_hole_list = holes })

abbrev pub restarted : ℕ → ℕ × AccountNonce
restarted pending = (pending, record { used_pending_nonce = pending; nonce_hole_list = [] })

-- `pending` is the pending nonce that the chain answers with
unfoldable pub take_nonce : ℕ → Option AccountNonce → ℕ × AccountNonce
unfolding next_local
take_nonce pending none = restarted pending
take_nonce pending (some a) =
    if leb (a.used_pending_nonce + 1) pending
    then restarted pending
    else next_local a.nonce_hole_list a.used_pending_nonce

unfoldable pub get_nonce_by_local : Result ℕ → String → ChainType → NonceMap → Result ℕ × NonceMap
unfolding set_account take_nonce
get_nonce_by_local (err e) addr c m = (err e, m)
get_nonce_by_local (ok pending) addr c m =
    let (nonce, a) = take_nonce pending (m c addr) in (ok nonce, set_account c addr a m)

-- `nonceHoleList.indexOf(nonce) !== -1`
abbrev pub member : ℕ → List ℕ → Bool
member n holes = any (nat_beq n) holes

unfoldable pub add_hole : ℕ → AccountNonce → AccountNonce
add_hole n a =
    if member n a.nonce_hole_list
    then a
    else record a { nonce_hole_list = a.nonce_hole_list ++ n ∷ [] }

unfoldable pub add_nonce_hole_to_list : String → ChainType → ℕ → NonceMap → NonceMap
unfolding set_account add_hole
add_nonce_hole_to_list addr c nonce m = elim (m c addr) [
  | none ↦ m
  | some a ↦ set_account c addr (add_hole nonce a) m
]
