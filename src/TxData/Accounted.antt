-- ===== src/TxData/Accounted.antt =====
-- `run` of src/trans/cross-chain/common/CrossChain.js with the nonces: `createCommonData` asks for
-- one, and `addNonceHoleToList` gives it back, if the common data was made.
pub mod Lossless
pub mod Lost
use wanchain_js_sdk.Prelude.{
  ℕ, zero, suc, String, Bool, true, false, ◌&&◌, Option, none, some, if◌then◌else◌,
}
use wanchain_js_sdk.Prelude.Result.{Result, ok, err}
use wanchain_js_sdk.Cross.{ChainType}
use wanchain_js_sdk.Nonce.{NonceMap, add_nonce_hole_to_list}
use wanchain_js_sdk.Pipeline.{Stage, passed, refused, threw, Methods, Run, run}
use wanchain_js_sdk.TxData.{CommonData, Made}

unfoldable pub made_stage : Made CommonData → Stage
made_stage (err e) = threw
made_stage (ok none) = refused
made_stage (ok (some cd)) = passed

abbrev pub is_passed : Stage → Bool
is_passed passed = true
is_passed refused = false
is_passed threw = false

-- a run that goes on to `createCommonData`
abbrev pub reaches : {S : Type 0} → Methods S → Bool
reaches m =
    is_passed m.check_pre_condition
    && is_passed m.create_trans
    && is_passed m.create_data_creator
    && is_passed m.create_data_sign

-- without common data, `addNonceHoleToList` throws, which is caught
unfoldable pub give_back : ℕ → Made CommonData → ChainType → NonceMap → NonceMap
unfolding add_nonce_hole_to_list
give_back zero made chain nonces = nonces
give_back (suc n) (err e) chain nonces = nonces
give_back (suc n) (ok none) chain nonces = nonces
give_back (suc n) (ok (some cd)) chain nonces = add_nonce_hole_to_list cd.from chain cd.nonce nonces

module _ {S : Type 0} (m : Methods S) (create : NonceMap → Made CommonData × NonceMap)
    (chain : ChainType) where
  abbrev pub created : Made CommonData → Methods S
  created made = record m { create_common_data = made_stage made }

  unfoldable pub accounted_run : ℕ → S → NonceMap → Run S × NonceMap
  unfolding give_back made_stage
  accounted_run try_times s nonces =
      let (made, asked) = create nonces in
      let o = run (created made) try_times s in
      (o, if reaches m then give_back o.holes made chain asked else nonces)
