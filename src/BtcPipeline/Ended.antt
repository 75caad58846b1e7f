-- ===== src/BtcPipeline/Ended.antt =====
-- What a redemption and a revocation of BTC leave.
use wanchain_js_sdk.Prelude.{ℕ, String, ◌≡◌, refl, Option, none, some}
use wanchain_js_sdk.Cross.{ChainType, eth, wan, btc, eos}
use wanchain_js_sdk.Items.{Db}
use wanchain_js_sdk.BtcMonitor.Replies.{BtcRecord}
use wanchain_js_sdk.Pipeline.{passed, Methods, attempts, run, failed_by}
use wanchain_js_sdk.Pipeline.Sending.{IsReady, run-success, run-failed}
use wanchain_js_sdk.BtcPipeline.{
  btc_redeemed_by, redeemed_hash, btc_redeem_methods, btc_revoked_by, btc_revoke_methods,
}
use wanchain_js_sdk.BtcPipeline.Recorded.{BtcStored, or_answer-BtcStored}

-- the record after the attempts: it is changed only by a transaction that was sent
abbrev pub closed_by : (String → BtcRecord → BtcRecord) → BtcRecord → Option String → BtcRecord
closed_by change r none = r
closed_by change r (some tx) = change tx r

redeemed-hash_x :
    (sha256 : String → String) (chain : ChainType) (x h tx : String) (y : BtcRecord)
    → (btc_redeemed_by sha256 chain x h tx y).hash_x ≡ y.hash_x
unfolding btc_redeemed_by
redeemed-hash_x sha256 btc x h tx y = refl
redeemed-hash_x sha256 wan x h tx y = refl
redeemed-hash_x sha256 eth x h tx y = refl
redeemed-hash_x sha256 eos x h tx y = refl

revoked-hash_x :
    (chain : ChainType) (h tx : String) (y : BtcRecord)
    → (btc_revoked_by chain h tx y).hash_x ≡ y.hash_x
unfolding btc_revoked_by
revoked-hash_x btc h tx y = refl
revoked-hash_x wan h tx y = refl
revoked-hash_x eth h tx y = refl
revoked-hash_x eos h tx y = refl

module _ (m : Methods (Db BtcRecord)) (h : String) (change : String → BtcRecord → BtcRecord) (n : ℕ)
    (db : Db BtcRecord) (r : BtcRecord) (found : BtcStored h r db)
    (pre : m.pre_send_trans db ≡ (passed, db)) (failing : m.trans_failed db ≡ (passed, db))
    (posting : (tx : String)
      → (after : Db BtcRecord) × (m.post_send_trans tx db ≡ (passed, after))
        × BtcStored h (change tx r) after)
    (ready : IsReady m) where
  -- Only a transaction that was sent changes the record.
  closed-recorded : BtcStored h (closed_by change r (attempts m n 0)) (run m n db).state
  unfolding failed_by
  closed-recorded = go (attempts m n 0) refl
    where
      go :
          (a : Option String)
          → attempts m n 0 ≡ a
          → BtcStored h (closed_by change r a) (run m n db).state
      go none unsent = rw (run-failed m n db db ready pre unsent, failing) found
      go (some tx) sent =
          let (after, made, kept) = posting tx in
          rw (run-success m n db db ready pre tx after sent made) kept

-- A redemption of BTC or WBTC whose stages before the sending pass, of a record that is found by the
-- hash of the preimage, or by the input's, changes the record only if its transaction is sent: it
-- then has the status RedeemSending and the transaction's hash, on Wanchain for BTC and on Bitcoin
-- for WBTC.
pub btc_redeem-recorded :
    (sha256 : String → String) (chain : ChainType) (x h : String) (base : Methods (Db BtcRecord))
    (n : ℕ) (db : Db BtcRecord) (r : BtcRecord)
    → BtcStored (redeemed_hash sha256 chain x h) r db
    → IsReady (btc_redeem_methods sha256 chain x h base)
    → BtcStored
        (redeemed_hash sha256 chain x h)
        (closed_by (btc_redeemed_by sha256 chain x h) r (attempts base n 0))
        (run (btc_redeem_methods sha256 chain x h base) n db).state
unfolding btc_redeem_methods attempts
btc_redeem-recorded sha256 chain x h base n db r found ready =
    closed-recorded (btc_redeem_methods sha256 chain x h base) (redeemed_hash sha256 chain x h)
      (btc_redeemed_by sha256 chain x h) n db r found refl refl
      (λ tx.
        let (after, made, also, kept) =
          or_answer-BtcStored passed (redeemed_hash sha256 chain x h)
            (btc_redeemed_by sha256 chain x h tx) db r (redeemed-hash_x sha256 chain x h tx)
            found in
        (after, made, kept))
      ready

-- A revocation of BTC or WBTC whose stages before the sending pass, of a record that is there,
-- changes the record only if its transaction is sent: it then has the status RevokeSending and the
-- transaction's hash, on Bitcoin for BTC and on Wanchain for WBTC.
pub btc_revoke-recorded :
    (chain : ChainType) (h : String) (base : Methods (Db BtcRecord)) (n : ℕ) (db : Db BtcRecord)
    (r : BtcRecord)
    → BtcStored h r db
    → IsReady (btc_revoke_methods chain h base)
    → BtcStored h
        (closed_by (btc_revoked_by chain h) r (attempts base n 0))
        (run (btc_revoke_methods chain h base) n db).state
unfolding btc_revoke_methods attempts
btc_revoke-recorded chain h base n db r found ready =
    closed-recorded (btc_revoke_methods chain h base) h (btc_revoked_by chain h) n db r found refl
      refl
      (λ tx.
        let (after, made, also, kept) =
          or_answer-BtcStored passed h (btc_revoked_by chain h tx) db r (revoked-hash_x chain h tx)
            found in
        (after, also, kept))
      ready
