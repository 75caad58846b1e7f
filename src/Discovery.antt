-- ===== src/Discovery.antt =====
-- `Chain` of src/hdwallet/chains/chain.js: the discovery of addresses that BIP44 describes, the scan
-- for the addresses of an account, and the split of a path. A wallet's address of a path and the
-- count of an address's transactions are parameters.
pub mod Paths
pub mod Consecutive
pub mod Gap
mod Examples
use wanchain_js_sdk.Prelude.{
  ℕ, zero, suc, String, ◌+◌, ◌-◌, ℤ, pos, negsuc, Bool, true, false, not, ◌&&◌, ◌||◌, ltb, leb,
  nat_beq, Option, none, some, List, [], ◌∷◌, ◌++◌, nat_eq, if◌then◌else◌,
}
use wanchain_js_sdk.Prelude.Result.{Result, ok, err, invalid_parameter, not_found, ◌>>=◌}
use wanchain_js_sdk.Objects.{Object, get, set}
use wanchain_js_sdk.Table.{matching, insert, update, read}
use wanchain_js_sdk.Table.Find.{Rows}

-- an `addressInfo`, the path by its account, change and index
pub record AddressInfo : Type 0 where
  pub account : ℕ
  pub index : ℕ
  pub path_account : ℕ
  pub address : String

-- the state of the loop of `discoverAddress`; `last_used` has an index by account, -1 for none
pub record Search : Type 0 where
  pub gap : ℕ
  pub account : ℕ
  pub account_tx : ℕ
  pub last_account : ℕ
  pub last_index : ℕ
  pub last_used : Object ℕ ℤ
  pub found : List AddressInfo

-- `BIP44_ADDR_GAP_LIMIT`
abbrev pub gap_limit : ℕ
gap_limit = 20

-- What the wallet and the chain answer: the address of an account and an index, and the count of an
-- address's transactions.
pub record Answers : Type 0 where
  pub address_of : ℕ → ℕ → Result String
  pub tx_count : String → Result ℕ

unfoldable pub tx_count_of : Answers → Bool → String → Result ℕ
tx_count_of a skip address = if skip then ok 0 else a.tx_count address

abbrev pub seen_account : Option ℤ → ℕ → Object ℕ ℤ → Object ℕ ℤ
seen_account none account m = set account (negsuc 0) m
seen_account (some i) account m = m

-- the account is noted, and then the address as used or the gap as longer
unfoldable pub noted : Bool → ℕ → ℕ → Search → Search
unfolding get set
noted skip count i s =
    let used = seen_account (get s.account s.last_used) s.account s.last_used in
    if not (nat_beq count 0) || skip
    then record s {
      gap = 0;
      account_tx = s.account_tx + count;
      last_used = set s.account (pos i) used;
    }
    else record s { gap = s.gap + 1; last_used = used }

-- beyond the gap limit: the next account, or `none` for the end
unfoldable pub stepped : Bool → Search → Option Search
stepped skip s =
    if ltb gap_limit s.gap
    then (if ltb 0 s.account_tx || skip
        then some (record s { account = s.account + 1; account_tx = 0 })
        else none)
    else some s

-- The path was made before the account was stepped on.
unfoldable pub pushed : ℕ → String → ℕ → Search → Search
pushed path_account address i s =
    let info : AddressInfo = record {
      account = s.account;
      index = i;
      path_account = path_account;
      address = address;
    } in
    record s { last_account = s.account; last_index = i; found = s.found ++ info ∷ [] }

-- what a pass of the loop leaves, and whether the loop goes on
unfoldable pub counted : Bool → ℕ → ℕ → String → Search → Search × Bool
unfolding noted stepped pushed
counted skip count i address s =
    let after = noted skip count i s in
    elim (stepped skip after) [
      | none ↦ (after, false)
      | some next ↦ (pushed s.account address i next, true)
    ]

-- an error is logged and ends the loop
unfoldable pub pass : Answers → Bool → ℕ → Search → Search × Bool
unfolding tx_count_of counted
pass a skip i s = elim (a.address_of s.account i) [
  | err e ↦ (s, false)
  | ok address ↦ elim (tx_count_of a skip address) [
    | err e ↦ (s, false)
    | ok count ↦ counted skip count i address s
  ]
]

-- the rest of the loop, if it goes on
abbrev pub continued : Search × Bool → Search → Search
continued (after, false) rest = after
continued (after, true) rest = rest

-- the loop, for a number of indices from `i` on
unfoldable pub search : Answers → Bool → ℕ → ℕ → Search → Search
unfolding pass
search a skip zero i s = s
search a skip (suc total) i s =
    continued (pass a skip i s) (search a skip total (i + 1) (pass a skip i s).0)

unfoldable pub discover_address : Answers → ℕ → ℕ → ℕ → Bool → Search
unfolding search
discover_address a start_account start_index total skip = search a skip total start_index (record {
  gap = 0;
  account = start_account;
  account_tx = 0;
  last_account = start_account;
  last_index = start_index;
  last_used = [];
  found = [];
})

-- the row of a chain in the wallet table
pub record ChainInfo : Type 0 where
  pub chain_id : ℕ
  pub last_scanned : ℕ × ℤ
  pub last_used : Object ℕ ℤ

abbrev pub info_rows : Rows ChainInfo ℕ
info_rows = record {
  key = λ r. some r.chain_id;
  assign = λ old new. new;
  key-assign = λ old new k h. h;
}

-- the index after the last used one of an account
unfoldable pub next_index : Option ℤ → ℕ
next_index none = 0
next_index (some (negsuc n)) = 0
next_index (some (pos i)) = i + 1

-- `Object.assign` of the used indices
unfoldable pub assign_all : Object ℕ ℤ → Object ℕ ℤ → Object ℕ ℤ
unfolding set
assign_all m [] = m
assign_all m ((account, i) ∷ new) = assign_all (set account i m) new

-- `undefined`, and an index below, are not taken over
unfoldable pub at_least : Option ℤ → ℕ → Bool
at_least none n = false
at_least (some (negsuc k)) n = false
at_least (some (pos i)) n = leb n i

unfoldable pub of_account : ℕ → ℕ → AddressInfo → Bool
of_account account start a = nat_beq a.account account && leb start a.index

unfoldable pub scanned_info : ℕ → ℕ → Search → ChainInfo → ChainInfo
unfolding assign_all at_least get
scanned_info account next s info = record info {
  last_scanned = (s.last_account, pos s.last_index);
  last_used =
      if at_least (get account s.last_used) next
      then assign_all info.last_used s.last_used
      else info.last_used;
}

abbrev pub lower_of : ℕ → ℕ → ℕ
lower_of next start = if ltb next start then next else start

-- `_scanAddress` on the chain's row, with the index that the scan begins at
unfoldable pub scan_row : Answers → Bool → ℕ → ℕ → ℕ → ChainInfo → List AddressInfo × ℕ × ChainInfo
unfolding next_index discover_address of_account scanned_info matching get
scan_row a skip start last account info =
    let next = next_index (get account info.last_used) in
    let from = lower_of next start in
    let s = discover_address a account from (last - from) skip in
    (matching (of_account account start) s.found, from, scanned_info account next s info)

unfoldable pub scan_address :
    Answers
    → Bool
    → ℕ
    → ℕ
    → ℕ
    → ℕ
    → List ChainInfo
    → Result ((List AddressInfo × ℕ) × List ChainInfo)
unfolding scan_row read update
scan_address a skip id start last account t =
    if ltb last start
    then err invalid_parameter
    else read info_rows (some id) t >>= λ row. elim row [
      | none ↦ err not_found
      | some info ↦
          let (addresses, from, after) = scan_row a skip start last account info in
          update info_rows (some id) (some after) t >>= λ t'. ok ((addresses, from), t')
    ]

-- `_loadChainInfo`
unfoldable pub load_chain_info : ℕ → List ChainInfo → Result (List ChainInfo)
unfolding read insert
load_chain_info id t = read info_rows (some id) t >>= λ row. elim row [
  | some info ↦ ok t
  | none ↦
      insert info_rows
        (some
          (record { chain_id = id; last_scanned = (0, negsuc 0); last_used = (0, negsuc 0) ∷ [] }))
        t
]
