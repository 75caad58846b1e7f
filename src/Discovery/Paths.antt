-- ===== src/Discovery/Paths.antt =====
-- `_splitPath` of src/hdwallet/chains/chain.js, on the parts of a path between its slashes.
use wanchain_js_sdk.Prelude.{
  ℕ, String, Bool, false, ◌&&◌, str_eq, nat_beq, Option, none, some, List, [], ◌∷◌, if◌then◌else◌,
}
use wanchain_js_sdk.Prelude.Result.{Result, ok, err, invalid_parameter}

-- the text of a part, its `slice(-1)`, and the number that `==` reads its `slice(0, -1)` as
pub record Part : Type 0 where
  pub whole : String
  pub last : String
  pub number : Option ℕ

pub record SplitPath : Type 0 where
  pub key : String
  pub purpose : String
  pub coin_type : String
  pub account : String
  pub change : String
  pub index : String

unfoldable pub is_hardened : Part → Bool
is_hardened p = str_eq p.last "'"

unfoldable pub is_number : ℕ → Option ℕ → Bool
is_number n none = false
is_number n (some m) = nat_beq m n

-- the tests of the first four parts; `lower` is `toLowerCase`, `id` the chain's number
unfoldable pub is_path : (String → String) → ℕ → Part → Part → Part → Part → Bool
unfolding is_hardened is_number
is_path lower id key purpose coin account =
    str_eq (lower key.whole) "m"
    && (is_hardened purpose
        && (is_number 44 purpose.number
            && (is_hardened coin && (is_number id coin.number && is_hardened account))))

unfoldable pub split_path : (String → String) → ℕ → List Part → Result SplitPath
unfolding is_path
split_path lower id (key ∷ purpose ∷ coin ∷ account ∷ change ∷ index ∷ []) =
    if is_path lower id key purpose coin account
    then ok (record {
      key = key.whole;
      purpose = purpose.whole;
      coin_type = coin.whole;
      account = account.whole;
      change = change.whole;
      index = index.whole;
    })
    else err invalid_parameter
split_path lower id _ = err invalid_parameter
