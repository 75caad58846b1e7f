-- ===== src/BtcMonitor/Handled.antt =====
-- What the handling list of src/core/monitorBtc.js keeps apart: a record whose handler is awaited is
-- not handed on again while its entry holds.
use wanchain_js_sdk.Prelude.{
  ℕ, String, ◌+◌, ◌≤◌, ◌≡◌, ◌≢◌, refl, sym, ap, ◌∙◌, Bool, true, false, ◌&&◌, ◌||◌, some, List, [],
  ◌∷◌, ◌==◌, string_eq, eq_iff, All, arith, Bool-cases, inl, inr,
}
use wanchain_js_sdk.BtcMonitor.Replies.{BtcRecord}
use wanchain_js_sdk.BtcMonitor.Handling.{
  HandlingList, begin_at, finish, busy, awaits, called, sweep, history, monitor_task_btc, Event,
  swept, ended, handed_on,
}

-- whether a record of a hash is among some, with a handler that is awaited
unfoldable pub begins : String → List BtcRecord → Bool
unfolding awaits
begins h [] = false
begins h (r ∷ rs) = (awaits r.status && (h == r.hash_x)) || begins h rs

-- Until a time: no sweep is later, and no handling of the hash comes to its end.
abbrev pub IsHeld : String → ℕ → Event → Type 0
IsHeld h until (swept done now records) = now ≤ until
IsHeld h until (ended k) = (h == k) ≡ false

abbrev pub Without : String → List BtcRecord → Type 0
Without h records = All (λ s. s.hash_x ≢ h) records

busy-now : (now later : ℕ) → later ≤ now + 300000 → busy later (some now) ≡ true
unfolding busy
busy-now now later h = ground arith

called-other :
    (now : ℕ) (r : BtcRecord) (h : String) (l : HandlingList)
    → h ≢ r.hash_x
    → called now r l h ≡ l h
unfolding called begin_at finish
called-other now r h l other = ground (arith, eq_iff h r.hash_x)

called-begins :
    (now : ℕ) (r : BtcRecord) (h : String) (l : HandlingList)
    → (awaits r.status && (h == r.hash_x)) ≡ true
    → called now r l h ≡ some now
unfolding called begin_at
called-begins now r h l e = ground arith

other_hash :
    (now : ℕ) (h k : String) (l : HandlingList)
    → busy now (l h) ≡ true
    → busy now (l k) ≡ false
    → h ≢ k
other_hash now h k l b free same = cc

sweep-skipped :
    (now : ℕ) (r : BtcRecord) (rs : List BtcRecord) (l : HandlingList)
    → busy now (l r.hash_x) ≡ true
    → sweep now (r ∷ rs) l ≡ sweep now rs l
unfolding sweep
sweep-skipped now r rs l skip = rw skip refl

abbrev onto : BtcRecord → List BtcRecord × HandlingList → List BtcRecord × HandlingList
onto r (begun, l) = (r ∷ begun, l)

sweep-called :
    (now : ℕ) (r : BtcRecord) (rs : List BtcRecord) (l : HandlingList)
    → busy now (l r.hash_x) ≡ false
    → sweep now (r ∷ rs) l ≡ onto r (sweep now rs (called now r l))
unfolding sweep
sweep-called now r rs l free = rw free refl

-- What is being handled is not handed on, and its entry stays.
abbrev Kept : String → HandlingList → List BtcRecord × HandlingList → Type 0
Kept h l (begun, after) = Without h begun × (after h ≡ l h)

sweep-Kept :
    (now : ℕ) (rs : List BtcRecord) (l : HandlingList) (h : String)
    → busy now (l h) ≡ true
    → Kept h l (sweep now rs l)
sweep-Kept now [] l h b = unfold sweep in (tt, refl)
sweep-Kept now (r ∷ rs) l h b = elim (Bool-cases (busy now (l r.hash_x))) [
  | inl skip ↦ rw (sweep-skipped now r rs l skip) (sweep-Kept now rs l h b)
  | inr free ↦
      let other = other_hash now h r.hash_x l b free in
      let entry = called-other now r h l other in
      let (rest, kept) = sweep-Kept now rs (called now r l) h (ap (busy now) entry ∙ b) in
      rw (sweep-called now r rs l free) ((λ same. other (sym same), rest), kept ∙ entry)
]

-- A record that is handed on, and awaited, has an entry after the sweep.
abbrev Entered : ℕ → String → List BtcRecord × HandlingList → Type 0
Entered now h (begun, after) = begins h begun ≡ true → after h ≡ some now

called-Entered :
    (now : ℕ) (r : BtcRecord) (rs : List BtcRecord) (l : HandlingList) (h : String)
    → Entered now h (sweep now rs (called now r l))
    → Entered now h (onto r (sweep now rs (called now r l)))
unfolding begins
called-Entered now r rs l h rest e = elim (Bool-cases (awaits r.status && (h == r.hash_x))) [
  | inl this ↦
      let entry = called-begins now r h l this in
      let held : busy now (called now r l h) ≡ true =
        ap (busy now) entry ∙ busy-now now now (omega arith) in
      (sweep-Kept now rs (called now r l) h held).1 ∙ entry
  | inr that ↦ rest (ground arith)
]

sweep-Entered :
    (now : ℕ) (rs : List BtcRecord) (l : HandlingList) (h : String) → Entered now h (sweep now rs l)
sweep-Entered now [] l h = unfold sweep begins in λ e. cc
sweep-Entered now (r ∷ rs) l h = elim (Bool-cases (busy now (l r.hash_x))) [
  | inl skip ↦ rw (sweep-skipped now r rs l skip) (sweep-Entered now rs l h)
  | inr free ↦
      rw (sweep-called now r rs l free)
        (called-Entered now r rs l h (sweep-Entered now rs (called now r l) h))
]

handed_on-Without :
    (now : ℕ) (h : String) (events : List Event) (l : HandlingList)
    → l h ≡ some now
    → All (IsHeld h (now + 300000)) events
    → All (Without h) (handed_on events l)
unfolding handed_on monitor_task_btc finish
handed_on-Without now h [] l e held = tt
handed_on-Without now h (swept true later records ∷ events) l e held =
    (tt, handed_on-Without now h events l e held.1)
handed_on-Without now h (swept false later records ∷ events) l e held =
    let (apart, kept) =
      sweep-Kept later (history records) l h (ap (busy later) e ∙ busy-now now later held.0) in
    (apart, handed_on-Without now h events (sweep later (history records) l).1 (kept ∙ e) held.1)
handed_on-Without now h (ended k ∷ events) l e held =
    handed_on-Without now h events (finish k l) (ground (arith, eq_iff h k)) held.1

-- If a sweep hands a record on whose handler is awaited, no later sweep hands on a record of the same
-- hash, until 300000 ms have passed or a handling of the hash comes to its end: whatever sweeps and
-- ends of other handlings there are, and whatever records the database holds then.
pub monitor_task_btc-apart :
    (done : Bool) (now : ℕ) (records : List BtcRecord) (l : HandlingList) (h : String)
    (events : List Event)
    → begins h (monitor_task_btc done now records l).0 ≡ true
    → All (IsHeld h (now + 300000)) events
    → All (Without h) (handed_on events (monitor_task_btc done now records l).1)
unfolding monitor_task_btc
monitor_task_btc-apart true now records l h events e held = unfold begins in cc
monitor_task_btc-apart false now records l h events e held =
    handed_on-Without now h events (sweep now (history records) l).1
      (sweep-Entered now (history records) l h e) held
