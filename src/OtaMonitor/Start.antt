-- ===== src/OtaMonitor/Start.antt =====
-- `startScan` of src/core/monitorOTA.js, on a path whose chain and whose key in `_checkAccts` are
-- given. What the wallet and the node answer is a record of replies.
use wanchain_js_sdk.Prelude.{
  ℕ, String, Bool, true, false, Option, none, some, List, [], ◌∷◌, nat_beq, string_eq,
  if◌then◌else◌,
}
use wanchain_js_sdk.Prelude.Result.{
  Result, ok, err, invalid_parameter, logic_error, runtime_error, ◌>>=◌,
}
use wanchain_js_sdk.Objects.{Object, get, set}
use wanchain_js_sdk.Table.{insert, read}
use wanchain_js_sdk.OtaMonitor.{Account, acct_rows}

-- what `_checkAccts` holds of an account
pub record CheckAcct : Type 0 where
  pub waddress : String
  pub pub_key_a : String
  pub priv_key_a : String
  pub priv_key_b : String

-- the addresses of a path, and its public key, if the wallet gives it along
pub record PathAddress : Type 0 where
  pub waddress : Option String
  pub pub_key : Option String

pub record Replies : Type 0 where
  pub chain_manager : Bool
  pub address : Result PathAddress
  pub supports_public_key : Bool
  pub public_key : Result String
  pub private_keys : Result (List String)
  pub latest : Result ℕ

pub record Started : Type 0 where
  pub checks : Object String CheckAcct
  pub accounts : List Account

unfoldable pub required : Option String → Result String
required none = err invalid_parameter
required (some text) = ok text

unfoldable pub public_key_of : Replies → Option String → Result String
public_key_of r none = if r.supports_public_key then r.public_key else err invalid_parameter
public_key_of r (some key) = ok key

unfoldable pub two_keys : List String → Result (String × String)
two_keys [] = err runtime_error
two_keys (a ∷ []) = err runtime_error
two_keys (a ∷ b ∷ more) = ok (a, b)

-- everything that is asked of the wallet
unfoldable pub check_acct : Replies → Result CheckAcct
unfolding required public_key_of two_keys
check_acct r = do
  addr ← r.address
  waddress ← required addr.waddress
  pub_key ← public_key_of r addr.pub_key
  keys ← r.private_keys
  pair ← two_keys keys
  ok (record { waddress = waddress; pub_key_a = pub_key; priv_key_a = pair.0; priv_key_b = pair.1 })

-- the row of a new account begins and ends at the latest block
unfoldable pub ensure_row : String → Result ℕ → List Account → Result (List Account)
unfolding insert read
ensure_row key latest accounts = read acct_rows (some key) accounts >>= λ row. elim row [
  | some r ↦ ok accounts
  | none ↦ latest >>= λ block.
      insert acct_rows (some (record { acct_id = key; begin = block; last = block })) accounts
]

-- the end of `startScan`: what was checked is kept, whatever becomes of the row
unfoldable pub with_row : Started → Result (List Account) → Started × Result Bool
with_row s (err e) = (s, err e)
with_row s (ok accounts) = (record s { accounts = accounts }, ok true)

unfoldable pub with_check : Replies → String → Started → Result CheckAcct → Started × Result Bool
unfolding set ensure_row with_row
with_check r key s (err e) = (s, err e)
with_check r key s (ok acct) =
    with_row (record s { checks = set key acct s.checks }) (ensure_row key r.latest s.accounts)

unfoldable pub start_unless : Replies → String → Started → Option CheckAcct → Started × Result Bool
unfolding check_acct with_check
start_unless r key s (some acct) = (s, ok false)
start_unless r key s none =
    if r.chain_manager then with_check r key s (check_acct r) else (s, err logic_error)

unfoldable pub start_scan : Replies → ℕ → String → Started → Started × Result Bool
unfolding start_unless get
start_scan r chain key s =
    if nat_beq chain 5718350
    then start_unless r key s (get key s.checks)
    else (s, err invalid_parameter)
