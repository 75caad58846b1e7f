-- ===== src/Table/Examples.antt =====
-- A table of two users, and what its operations leave.
use mathlib.Core.Option
use wanchain_js_sdk.Prelude.{
  ℕ, String, ◌≡◌, refl, some, List, [], ◌∷◌, nat_beq, nat_eq, if◌then◌else◌,
}
use wanchain_js_sdk.Prelude.Result.{ok}
use wanchain_js_sdk.Table.{update, read}
use wanchain_js_sdk.Table.Find.{Rows, find, has_key, assign_first}
use wanchain_js_sdk.Table.Reads.{read-update}

record User : Type 0 where
  pub id : ℕ
  pub name : String

abbrev user : ℕ → String → User
user id name = record { id = id; name = name }

abbrev user_rows : Rows User ℕ
user_rows = record { key = λ u. some u.id; assign = λ old new. new; key-assign = λ old new k h. h }

abbrev users : List User
users = user 1 "a" ∷ user 2 "b" ∷ []

abbrev renamed : List User
renamed = user 1 "a" ∷ user 2 "z" ∷ []

read-update_example : read user_rows (some 2) renamed ≡ (
    if nat_beq 2 2
    then ok (Option.map (λ old. user 2 "z") (find user_rows 2 users))
    else read user_rows (some 2) users)
unfolding update assign_first has_key
read-update_example = read-update user_rows (user 2 "z") 2 2 users renamed refl refl
