-- ===== src/Bip44.antt =====
-- `splitBip44Path` and `getChainIDFromBIP44Path` of src/util/util.js. A path is the list of the parts
-- between its slashes, each with what JavaScript's `parseInt` makes of it.
pub mod ChainId
use wanchain_js_sdk.Prelude.{
  ℕ, ◌+◌, ◌-◌, ◌^◌, Bool, true, false, not, Option, none, some, List, [], ◌∷◌, leb, length, nat_beq,
  if◌then◌else◌,
}
use wanchain_js_sdk.Prelude.Result.{Result, ok, err, invalid_parameter, plain_error, ◌>>=◌}

-- `quoted`: longer than one character, the last of which is "'". `parsed` is none for NaN.
pub record PathElem : Type 0 where
  pub parsed : Option ℕ
  pub quoted : Bool

-- 0x80000000
abbrev pub hardened_offset : ℕ
hardened_offset = 2147483648

unfoldable pub elements : List PathElem → Result (List ℕ)
elements [] = ok []
elements (e ∷ es) =
    let rest = elements es in
    elim e.parsed [
      | none ↦ err plain_error
      | some n ↦ rest >>= λ ns. ok ((if e.quoted then n + hardened_offset else n) ∷ ns)
    ]

-- the loop begins behind the first part, which is "m"
unfoldable pub split_bip44_path : List PathElem → Result (List ℕ)
unfolding elements
split_bip44_path [] = ok []
split_bip44_path (m ∷ es) = elements es

unfoldable pub unhardened : ℕ → ℕ
unhardened n = if leb hardened_offset n then n - hardened_offset else n

-- a path of five levels, which the wallets and `getChainIDFromBIP44Path` ask for
pub record Levels : Type 0 where
  pub chain_id : ℕ
  pub account : ℕ
  pub internal : ℕ
  pub index : ℕ

unfoldable pub five_levels : List ℕ → Result Levels
unfolding unhardened
five_levels (purpose ∷ chain ∷ account ∷ internal ∷ index ∷ []) =
    ok (record {
      chain_id = unhardened chain;
      account = account;
      internal = internal;
      index = index;
    })
five_levels _ = err invalid_parameter

unfoldable pub levels_of : List PathElem → Result Levels
unfolding split_bip44_path five_levels
levels_of path = do p ← split_bip44_path path; five_levels p

unfoldable pub get_chain_id_from_bip44_path : List PathElem → Result ℕ
unfolding levels_of
get_chain_id_from_bip44_path path = do levels ← levels_of path; ok levels.chain_id
