-- ===== src/BtcPipeline/Watched.antt =====
-- What the monitor of BTC makes of the records that a redemption and a revocation leave.
use Prim.Native.String.{◌++◌ as text_append}
use wanchain_js_sdk.Prelude.{ℕ, String, ◌≡◌, refl, ap, ◌∙◌, Bool, true, false, not, some, string_eq}
use wanchain_js_sdk.Prelude.Result.{ok}
use wanchain_js_sdk.Cross.{ChainType, eth, wan, btc, eos, Status, redeem_sent, revoke_sent}
use wanchain_js_sdk.Items.{Db}
use wanchain_js_sdk.Monitor.Replies.{Receipt, is_text}
use wanchain_js_sdk.BtcMonitor.Replies.{BtcRecord, BtcEnv, is_btc, btc_confirmed}
use wanchain_js_sdk.BtcMonitor.{
  monitor_record, check_x_online_wan, check_x_online_btc, check_revoke_online_wan,
  check_revoke_online_btc,
}
use wanchain_js_sdk.Hex.{hex_trip0x}
use wanchain_js_sdk.Pipeline.{Methods, attempts, run}
use wanchain_js_sdk.Pipeline.Sending.{IsReady}
use wanchain_js_sdk.BtcPipeline.{
  btc_redeemed_by, redeemed_hash, btc_redeem_methods, btc_revoked_by, btc_revoke_methods,
}
use wanchain_js_sdk.BtcPipeline.Recorded.{BtcStored}
use wanchain_js_sdk.BtcPipeline.Ended.{closed_by, btc_redeem-recorded, btc_revoke-recorded}

-- The chains know the transaction that was sent with the hash `t`, with or without a prefix: Wanchain
-- has a receipt of a success under the prefixed hash, or Bitcoin has under the bare one as many
-- confirmations as are asked for, and at least one.
abbrev pub Confirmed : BtcEnv → Bool → ℕ → String → Type 0
Confirmed env true k t =
    (rc : Receipt) × (env.wait_confirm (text_append "0x" (hex_trip0x t)) 0 ≡ ok (some rc))
    × (is_text "0x1" rc.status ≡ true)
Confirmed env false k t = btc_confirmed k (env.btc_transaction (hex_trip0x t)) ≡ true

module _ (sha256 : String → String) (x h : String) (env : BtcEnv) (t : String) where
  redeemed-watched :
      (chain : ChainType) (r : BtcRecord)
      → r.chain ≡ chain
      → Confirmed env (is_btc chain) 0 t
      → (monitor_record env (btc_redeemed_by sha256 chain x h t r)).item.status ≡ redeem_sent
  unfolding monitor_record check_x_online_wan check_x_online_btc btc_redeemed_by
  redeemed-watched btc r same (rc, reply, good) = rw (same, check_x_online_wan, reply, good) refl
  redeemed-watched wan r same seen = rw (same, check_x_online_btc, seen) refl
  redeemed-watched eth r same seen = rw (same, check_x_online_btc, seen) refl
  redeemed-watched eos r same seen = rw (same, check_x_online_btc, seen) refl

module _ (h : String) (env : BtcEnv) (t : String) where
  revoked-watched :
      (chain : ChainType) (r : BtcRecord)
      → r.chain ≡ chain
      → Confirmed env (not (is_btc chain)) 1 t
      → (monitor_record env (btc_revoked_by chain h t r)).item.status ≡ revoke_sent
  unfolding monitor_record check_revoke_online_wan check_revoke_online_btc btc_revoked_by
  revoked-watched btc r same seen = rw (same, check_revoke_online_btc, seen) refl
  revoked-watched wan r same (rc, reply, good) =
      rw (same, check_revoke_online_wan, reply, good) refl
  revoked-watched eth r same (rc, reply, good) =
      rw (same, check_revoke_online_wan, reply, good) refl
  revoked-watched eos r same (rc, reply, good) =
      rw (same, check_revoke_online_wan, reply, good) refl

-- A record is found by the hash, and the monitor's next round gives it the status.
abbrev pub Watched : BtcEnv → String → Db BtcRecord → Status → Type 0
Watched env key db status =
    (r : BtcRecord) × BtcStored key r db × ((monitor_record env r).item.status ≡ status)

module _ (env : BtcEnv) (chain : ChainType) (h t : String) (base : Methods (Db BtcRecord)) (n : ℕ)
    (db : Db BtcRecord) (r : BtcRecord) (same : r.chain ≡ chain)
    (sent : attempts base n 0 ≡ some t) where
  -- A redemption of BTC or WBTC that is sent, of a record that is found and whose chain is the run's,
  -- is one that the monitor finds: its next round takes the record to RedeemSent, if for BTC Wanchain
  -- has a receipt of success under the hash that was sent, with one prefix, or for WBTC Bitcoin has a
  -- confirmation under the hash without its prefix. The hash may come with a prefix or without.
  pub btc_redeem-Watched :
      (sha256 : String → String) (x : String)
      → BtcStored (redeemed_hash sha256 chain x h) r db
      → IsReady (btc_redeem_methods sha256 chain x h base)
      → Confirmed env (is_btc chain) 0 t
      → Watched env
          (redeemed_hash sha256 chain x h)
          (run (btc_redeem_methods sha256 chain x h base) n db).state
          redeem_sent
  btc_redeem-Watched sha256 x found ready seen =
      let stored = btc_redeem-recorded sha256 chain x h base n db r found ready in
      (
        btc_redeemed_by sha256 chain x h t r,
        stored ∙ ap (λ a. some (closed_by (btc_redeemed_by sha256 chain x h) r a)) sent,
        redeemed-watched sha256 x h env t chain r same seen,
      )

  -- A revocation of BTC or WBTC that is sent, of a record that is there and whose chain is the run's,
  -- is one that the monitor finds: its next round takes the record to RevokeSent, if for BTC Bitcoin
  -- has a confirmation under the hash without its prefix, or for WBTC Wanchain has a receipt of
  -- success under the hash with one prefix.
  pub btc_revoke-Watched :
      BtcStored h r db
      → IsReady (btc_revoke_methods chain h base)
      → Confirmed env (not (is_btc chain)) 1 t
      → Watched env h (run (btc_revoke_methods chain h base) n db).state revoke_sent
  btc_revoke-Watched found ready seen =
      let stored = btc_revoke-recorded chain h base n db r found ready in
      (
        btc_revoked_by chain h t r,
        stored ∙ ap (λ a. some (closed_by (btc_revoked_by chain h) r a)) sent,
        revoked-watched h env t chain r same seen,
      )
