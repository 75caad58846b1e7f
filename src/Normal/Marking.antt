-- ===== src/Normal/Marking.antt =====
-- Which rows of the OTA table a round of `monitorTaskNormal` (src/core/monitorNormal.js) marks as
-- refunded.
use mathlib.Core.Option
use wanchain_js_sdk.Prelude.{
  ℕ, String, ◌≡◌, refl, ap, ◌∙◌, Bool, true, false, not, ◌&&◌, ◌||◌, none, some, List, [], ◌∷◌,
  ◌==◌, string_eq, if◌then◌else◌, All, arith, Bool-cases, inl, inr, ◌⊎◌,
}
use wanchain_js_sdk.Prelude.Result.{Result, ok, err}
use wanchain_js_sdk.Monitor.Replies.{Network, Receipt, is_text, confirmed, block_of}
use wanchain_js_sdk.Table.{read}
use wanchain_js_sdk.Table.Find.{find}
use wanchain_js_sdk.Normal.{
  Status, sending, sent, success, failed, NormalRecord, Ota, Outcome, ota_rows, mark_refund,
  private_refund, monitor_record,
}
use wanchain_js_sdk.Normal.Outcomes.{refund, read-mark_refund, confirmed-success, block_failure}
use wanchain_js_sdk.Normal.Round.{is_success, visited, monitor_task_normal}

abbrev timed : NormalRecord → Bool
timed r = is_success r.status && elim r.success_time [ none ↦ false | some t ↦ true ]

abbrev refund_of : String → NormalRecord → Bool
refund_of j r = is_text "PrivateRefund" r.annotate && is_text j r.ota_tx_hash

-- A private refund of the row succeeded between two states of a record.
unfoldable pub refunded : String → NormalRecord → NormalRecord → Bool
refunded j r r' = (not (is_success r.status) && timed r') && refund_of j r

unfoldable pub any_refunded : String → List NormalRecord → List NormalRecord → Bool
unfolding refunded
any_refunded j [] after = false
any_refunded j (r ∷ before) [] = false
any_refunded j (r ∷ before) (r' ∷ after) = refunded j r r' || any_refunded j before after

unfoldable pub marked_if : Bool → Option.Option Ota → Option.Option Ota
marked_if b row = if b then Option.map refund row else row

marked_if-marked_if :
    (a b : Bool) (row : Option.Option Ota) → marked_if b (marked_if a row) ≡ marked_if (a || b) row
unfolding marked_if
marked_if-marked_if true true none = refl
marked_if-marked_if true true (some o) = refl
marked_if-marked_if true false row = refl
marked_if-marked_if false b row = refl

same_ok : {A : Type 0} {a b : A} → ok a ≡ ok b → a ≡ b
same_ok h = cc

find-private_refund :
    (j : String) (r : NormalRecord) (otas : List Ota)
    → find ota_rows j (private_refund r otas) ≡ marked_if (refund_of j r) (find ota_rows j otas)
unfolding marked_if private_refund read
find-private_refund j r otas = elim (Bool-cases (is_text "PrivateRefund" r.annotate)) [
  | inr other ↦ rw other refl
  | inl refunds ↦ rw refunds (go r.ota_tx_hash)
]
  where
    go :
        (h : Option.Option String)
        → find ota_rows j (elim h [ none ↦ otas | some k ↦ mark_refund k otas ])
          ≡ (if is_text j h then Option.map refund (find ota_rows j otas) else find ota_rows j otas)
    go none = refl
    go (some k) = same_ok (
        read-mark_refund k j otas
        ∙ elim (Bool-cases (k == j)) [ inl same ↦ rw same refl | inr other ↦ rw other refl ])

-- What a visit makes of a sent record without a time: either no row changes, and it has not
-- succeeded at a time, or it has, and its refund is marked.
abbrev Settled : NormalRecord → List Ota → Outcome → Type 0
Settled r otas o =
    ((o.otas ≡ otas) × (timed o.item ≡ false))
    ⊎ ((timed o.item ≡ true) × (o.otas ≡ private_refund r otas))

module _ (net : Network) (blocks : ℕ) (r : NormalRecord) (otas : List Ota) (s : r.status ≡ sent)
    (untimed : r.success_time ≡ none) where
  with_block :
      (rc : Receipt) (b : Result ℕ)
      → net.wait_confirm r.tx_hash blocks r.chain_type ≡ ok (some rc)
      → confirmed r.chain_type rc ≡ ok true
      → net.block_time (block_of r.chain_type rc) r.chain_type ≡ b
      → Settled r otas (monitor_record net blocks false r otas)
  with_block rc (err e) h k b =
      rw (block_failure net blocks r otas rc e s h k b) (inl (refl, rw untimed refl))
  with_block rc (ok t) h k b =
      rw (confirmed-success net blocks r otas rc t s h k b) (inr (refl, refl))

  with_confirmation :
      (rc : Receipt) (c : Result Bool)
      → net.wait_confirm r.tx_hash blocks r.chain_type ≡ ok (some rc)
      → confirmed r.chain_type rc ≡ c
      → Settled r otas (monitor_record net blocks false r otas)
  unfolding monitor_record
  with_confirmation rc (err e) h k = inl (ground arith, ground arith)
  with_confirmation rc (ok false) h k = inl (ground arith, ground arith)
  with_confirmation rc (ok true) h k = with_block rc _ h k refl

  monitor_record-Settled : Settled r otas (monitor_record net blocks false r otas)
  unfolding monitor_record
  monitor_record-Settled = go (net.wait_confirm r.tx_hash blocks r.chain_type) refl
    where
      go :
          (w : Result (Option.Option Receipt))
          → net.wait_confirm r.tx_hash blocks r.chain_type ≡ w
          → Settled r otas (monitor_record net blocks false r otas)
      go (err e) h = inl (ground arith, ground arith)
      go (ok none) h = inl (ground arith, ground arith)
      go (ok (some rc)) h = with_confirmation rc _ h refl

-- the time of a success is written with it only
abbrev pub Untimed : NormalRecord → Type 0
Untimed r = is_success r.status ≡ false → r.success_time ≡ none

not_refunded : (j : String) (r : NormalRecord) → refunded j r r ≡ false
unfolding refunded
not_refunded j r = elim (Bool-cases (is_success r.status)) [
  | inl done ↦ rw done refl
  | inr pending ↦ rw pending refl
]

abbrev Marked : String → NormalRecord → List Ota → NormalRecord × List Ota → Type 0
Marked j r otas (r', otas') =
    find ota_rows j otas' ≡ marked_if (refunded j r r') (find ota_rows j otas)

unchanged-Marked : (j : String) (r : NormalRecord) (otas : List Ota) → Marked j r otas (r, otas)
unchanged-Marked j r otas = rw (not_refunded j r) (unfold marked_if in refl)

sent-Marked :
    (j : String) (r : NormalRecord) (otas : List Ota) (o : Outcome)
    → r.status ≡ sent
    → Settled r otas o
    → Marked j r otas (o.item, o.otas)
unfolding refunded private_refund
sent-Marked j r otas o s (inl (same, open_still)) =
    rw (same, s, open_still) (unfold marked_if in refl)
sent-Marked j r otas o s (inr (done, marks)) = rw (marks, s, done) (find-private_refund j r otas)

idle-Marked :
    (j : String) (r : NormalRecord) (otas : List Ota) (o : Outcome)
    → o ≡ record { item = r; writes = 0; otas = otas }
    → Marked j r otas (o.item, o.otas)
idle-Marked j r otas o same = rw same (unchanged-Marked j r otas)

monitor_record-Marked :
    (j : String) (net : Network) (blocks : ℕ) (r : NormalRecord) (otas : List Ota) (status : Status)
    → r.status ≡ status
    → Untimed r
    → let o = monitor_record net blocks false r otas in Marked j r otas (o.item, o.otas)
monitor_record-Marked j net blocks r otas sent s untimed =
    sent-Marked j r otas (monitor_record net blocks false r otas) s
      (monitor_record-Settled net blocks r otas s (untimed (rw s refl)))
monitor_record-Marked j net blocks r otas sending s untimed =
    idle-Marked j r otas (monitor_record net blocks false r otas)
      (unfold monitor_record in ground (arith, s))
monitor_record-Marked j net blocks r otas failed s untimed =
    idle-Marked j r otas (monitor_record net blocks false r otas)
      (unfold monitor_record in ground (arith, s))
monitor_record-Marked j net blocks r otas success s untimed =
    idle-Marked j r otas (monitor_record net blocks false r otas)
      (unfold monitor_record in ground (arith, s))

visited-Marked :
    (j : String) (done : Bool) (net_of : NormalRecord → Network) (blocks : ℕ) (r : NormalRecord)
    (otas : List Ota)
    → Untimed r
    → Marked j r otas (visited done net_of blocks r otas)
unfolding visited
visited-Marked j true net_of blocks r otas untimed = unchanged-Marked j r otas
visited-Marked j false net_of blocks r otas untimed = elim (Bool-cases (is_success r.status)) [
  | inl through ↦ rw through (unchanged-Marked j r otas)
  | inr pending ↦
      rw pending (monitor_record-Marked j (net_of r) blocks r otas r.status refl untimed)
]

-- A round of the monitor, whatever the chains answer, marks the row of a transaction as refunded
-- exactly if a private refund of it succeeds in the round, with its block's time, and leaves the row
-- as it was otherwise, if no record that is still pending has the time of a success before the round.
pub find-monitor_task_normal :
    (j : String) (done : Bool) (net_of : NormalRecord → Network) (blocks : ℕ)
    (records : List NormalRecord) (otas : List Ota)
    → All Untimed records
    → let (records', otas') = monitor_task_normal done net_of blocks records otas in
      find ota_rows j otas' ≡ marked_if (any_refunded j records records') (find ota_rows j otas)
unfolding monitor_task_normal any_refunded
find-monitor_task_normal j done net_of blocks [] otas untimed = unfold marked_if in refl
find-monitor_task_normal j done net_of blocks (r ∷ more) otas untimed =
    let (r', otas') = visited done net_of blocks r otas in
    find-monitor_task_normal j done net_of blocks more otas' untimed.1
    ∙ ap (marked_if (any_refunded j more (monitor_task_normal done net_of blocks more otas').0))
        (visited-Marked j done net_of blocks r otas untimed.0)
    ∙ marked_if-marked_if (refunded j r r')
        (any_refunded j more (monitor_task_normal done net_of blocks more otas').0)
        (find ota_rows j otas)
