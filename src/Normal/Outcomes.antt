-- ===== src/Normal/Outcomes.antt =====
-- What becomes of a transaction that is watched.
use mathlib.Core.Option
use wanchain_js_sdk.Prelude.{
  ℕ, String, eq_iff, ◌≡◌, refl, true, false, none, some, List, arith, ◌==◌, string_eq,
  if◌then◌else◌,
}
use wanchain_js_sdk.Prelude.Result.{Result, Error, ok, err}
use wanchain_js_sdk.Monitor.Replies.{Network, Receipt, confirmed, block_of}
use wanchain_js_sdk.Table.{read, update}
use wanchain_js_sdk.Table.Find.{find, assign_first, find-key, find-assign_first}
use wanchain_js_sdk.Normal.{
  NormalRecord, Ota, ota_rows, sent, success, monitor_record, mark_refund, private_refund,
}

abbrev pub refund : Ota → Ota
refund o = record o { state = "Refund" }

mark_refund-none :
    (h : String) (otas : List Ota) → find ota_rows h otas ≡ none → mark_refund h otas ≡ otas
unfolding mark_refund read
mark_refund-none h otas e = ground arith

mark_refund-some :
    (h : String) (otas : List Ota) (o : Ota)
    → find ota_rows h otas ≡ some o
    → mark_refund h otas ≡ assign_first ota_rows h (refund o) otas
unfolding mark_refund read update
mark_refund-some h otas o e = ground arith

-- A refund marks the row of the original transaction, if there is one, and no other row.
pub read-mark_refund :
    (h j : String) (otas : List Ota)
    → read ota_rows (some j) (mark_refund h otas) ≡ (
        if h == j
        then ok (Option.map refund (find ota_rows j otas))
        else read ota_rows (some j) otas)
unfolding read
read-mark_refund h j otas = go (find ota_rows h otas) refl
  where
    go :
        (found : Option.Option Ota)
        → find ota_rows h otas ≡ found
        → ◌≡◌ {A = Result (Option.Option Ota)} (ok (find ota_rows j (mark_refund h otas))) (
            if h == j
            then ok (Option.map refund (find ota_rows j otas))
            else ok (find ota_rows j otas))
    go none e = rw (mark_refund-none h otas e) (ground (arith, eq_iff h j))
    go (some o) e =
        let key = find-key ota_rows h otas o e in
        rw (mark_refund-some h otas o e, find-assign_first ota_rows h j (refund o) otas key)
          (ground (arith, eq_iff h j))

module _ (net : Network) (confirm_blocks : ℕ) (r : NormalRecord) (otas : List Ota) where
  -- A transaction that is confirmed, with its block's time, has succeeded at that time, and the
  -- record is written once.
  pub confirmed-success :
      (rc : Receipt) (t : ℕ)
      → r.status ≡ sent
      → net.wait_confirm r.tx_hash confirm_blocks r.chain_type ≡ ok (some rc)
      → confirmed r.chain_type rc ≡ ok true
      → net.block_time (block_of r.chain_type rc) r.chain_type ≡ ok t
      → monitor_record net confirm_blocks false r otas ≡ record {
        item = record r { status = success; success_time = some t };
        writes = 1;
        otas = private_refund r otas;
      }
  unfolding monitor_record
  confirmed-success rc t s h k b = ground arith

  -- If the reply with the block fails, the record in memory has succeeded, with no time, is not
  -- written, and no OTA is marked.
  pub block_failure :
      (rc : Receipt) (e : Error)
      → r.status ≡ sent
      → net.wait_confirm r.tx_hash confirm_blocks r.chain_type ≡ ok (some rc)
      → confirmed r.chain_type rc ≡ ok true
      → net.block_time (block_of r.chain_type rc) r.chain_type ≡ err e
      → monitor_record net confirm_blocks false r otas
        ≡ record { item = record r { status = success }; writes = 0; otas = otas }
  unfolding monitor_record
  block_failure rc e s h k b = ground arith
