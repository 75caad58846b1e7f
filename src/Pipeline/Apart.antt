-- ===== src/Pipeline/Apart.antt =====
-- A lock of a token writes the record of its own hash only.
use wanchain_js_sdk.Prelude.{
  ℕ, ◌+◌, ◌⊎◌, String, ◌≡◌, refl, ◌∙◌, Bool, true, false, Option, none, some, string_eq, str_eq,
  Bool-cases, inl, inr, nat_beq,
}
use wanchain_js_sdk.Prelude.Result.{Result, ok, err}
use wanchain_js_sdk.Cross.{CrossRecord}
use wanchain_js_sdk.Items.{Db, get_item}
use wanchain_js_sdk.Pipeline.{Methods, Run, run, by_hash_x, change_item}
use wanchain_js_sdk.Pipeline.Changes.{get_item-inserted_other, get_item-changed_other}
use wanchain_js_sdk.Pipeline.Kept.{Keeps, run-kept}
use wanchain_js_sdk.Pipeline.Closing.{change_input_item}
use wanchain_js_sdk.Pipeline.Approving.{
  approve_insert, approve_pre_send_trans, approve_post_send_trans, approve_methods,
}
use wanchain_js_sdk.Pipeline.Locked.{approve_pre-found, approve_pre-absent}
use wanchain_js_sdk.Pipeline.TokenLock.{
  token_lock_pre_send_trans, token_lock_methods, Locking, lock_run, approved, approve_run,
  zero_approved, zero_run, approvals, eos_lock, e20_lock, hash_text,
}

module _ (r : CrossRecord) (j : String) (apart : str_eq r.hash_x j ≡ false)
    (seen : Option CrossRecord) where
  -- what is found under the other hash
  abbrev Same : Db CrossRecord → Type 0
  Same db = get_item (by_hash_x j) db ≡ seen

  changed-Same :
      (change : CrossRecord → CrossRecord)
      → ((y : CrossRecord) → (change y).hash_x ≡ y.hash_x)
      → (db : Db CrossRecord) → Same db
      → Same (change_item r.hash_x change db).1
  changed-Same change keep db same = get_item-changed_other r.hash_x j change db keep apart ∙ same

  approve_pre-Same :
      (zero_first : Bool) (db : Db CrossRecord)
      → Same db
      → Same (approve_pre_send_trans r zero_first db).1
  unfolding approve_insert
  approve_pre-Same zero_first db same = go (get_item (by_hash_x r.hash_x) db) refl
    where
      go :
          (found : Option CrossRecord)
          → get_item (by_hash_x r.hash_x) db ≡ found
          → Same (approve_pre_send_trans r zero_first db).1
      go none f =
          rw (approve_pre-absent r zero_first db f) (get_item-inserted_other j _ db apart ∙ same)
      go (some x) f =
          rw (approve_pre-found r zero_first db x f) (changed-Same _ (λ y. refl) db same)

  approve_post-Same :
      (zero_first : Bool) (tx : String) (db : Db CrossRecord)
      → Same db
      → Same (approve_post_send_trans r zero_first tx db).1
  unfolding approve_post_send_trans
  approve_post-Same true tx db same = changed-Same _ (λ y. refl) db same
  approve_post-Same false tx db same = changed-Same _ (λ y. refl) db same

  approve-Keeps :
      (zero_first : Bool) (input_hash : Option String) (base : Methods (Db CrossRecord))
      → (input_hash ≡ none) ⊎ (input_hash ≡ some r.hash_x)
      → Keeps Same (approve_methods r zero_first input_hash base)
  unfolding approve_methods change_input_item
  approve-Keeps zero_first input_hash base (inl h) =
      (approve_pre-Same zero_first, rw h (λ db same. same), approve_post-Same zero_first)
  approve-Keeps zero_first input_hash base (inr h) = (
    approve_pre-Same zero_first,
    rw h (λ db same. changed-Same _ (λ y. refl) db same),
    approve_post-Same zero_first,
  )

  lock_pre-Same :
      (inserts : Bool) (db : Db CrossRecord)
      → Same db
      → Same (token_lock_pre_send_trans r inserts "" db).1
  unfolding token_lock_pre_send_trans
  lock_pre-Same true db same = get_item-inserted_other j _ db apart ∙ same
  lock_pre-Same false db same = changed-Same _ (λ y. refl) db same

  lock-Keeps :
      (inserts : Bool) (zero_hash : String) (base : Methods (Db CrossRecord))
      → Keeps Same (token_lock_methods r inserts zero_hash base)
  unfolding token_lock_methods token_lock_pre_send_trans
  lock-Keeps inserts zero_hash base =
      (lock_pre-Same inserts, changed-Same _ (λ y. refl), λ tx. changed-Same _ (λ y. refl))

module _ (l : Locking) (j : String) (apart : str_eq l.item.hash_x j ≡ false)
    (seen : Option CrossRecord) where
  abbrev Unseen : Run (Db CrossRecord) → Type 0
  Unseen o = get_item (by_hash_x j) o.state ≡ seen

  lock_run-Unseen :
      (n : ℕ) (zero_hash : String) (inserts : Bool) (db : Db CrossRecord)
      → get_item (by_hash_x j) db ≡ seen
      → Unseen (lock_run l n zero_hash inserts db)
  unfolding lock_run
  lock_run-Unseen n zero_hash inserts db same =
      run-kept (Same l.item j apart seen) (token_lock_methods l.item inserts zero_hash l.lock_base)
        (lock-Keeps l.item j apart seen inserts zero_hash l.lock_base) l.try_times db same

  approved-Unseen :
      (n : ℕ) (zero_hash : String) (o : Run (Db CrossRecord))
      → Unseen o
      → Unseen (approved l n zero_hash o)
  unfolding approved
  approved-Unseen n zero_hash o same = elim (Bool-cases o.code) [
    | inl c ↦ rw c (lock_run-Unseen (n + o.holes) zero_hash false o.state same)
    | inr c ↦ rw c same
  ]

  approve_run-Unseen :
      (n : ℕ) (zero_hash : String) (input_hash : Option String) (db : Db CrossRecord)
      → (input_hash ≡ none) ⊎ (input_hash ≡ some l.item.hash_x)
      → get_item (by_hash_x j) db ≡ seen
      → Unseen (approve_run l n zero_hash input_hash db)
  unfolding approve_run
  approve_run-Unseen n zero_hash input_hash db known same =
      approved-Unseen n zero_hash
        (run (approve_methods l.item false input_hash l.approve_base) l.try_times db)
        (run-kept (Same l.item j apart seen)
          (approve_methods l.item false input_hash l.approve_base)
          (approve-Keeps l.item j apart seen false input_hash l.approve_base known) l.try_times db
          same)

  zero_approved-Unseen : (o : Run (Db CrossRecord)) → Unseen o → Unseen (zero_approved l o)
  unfolding zero_approved
  zero_approved-Unseen o same = elim (Bool-cases o.code) [
    | inl c ↦
        rw c (
          approve_run-Unseen o.holes (hash_text o.hash) (some l.item.hash_x) o.state (inr refl)
            same)
    | inr c ↦ rw c same
  ]

  zero_run-Unseen :
      (db : Db CrossRecord) → get_item (by_hash_x j) db ≡ seen → Unseen (zero_run l db)
  unfolding zero_run
  zero_run-Unseen db same =
      let item : CrossRecord = record l.item { contract_value = 0 } in
      zero_approved-Unseen (run (approve_methods item true none l.zero_base) l.try_times db) (
        run-kept (Same item j apart seen) (approve_methods item true none l.zero_base)
          (approve-Keeps item j apart seen true none l.zero_base (inl refl)) l.try_times db same)

  approvals-Unseen :
      (test : Bool) (reply : Result ℕ) (db : Db CrossRecord)
      → get_item (by_hash_x j) db ≡ seen
      → Unseen (approvals l test reply db)
  unfolding approvals
  approvals-Unseen test (err e) db same = same
  approvals-Unseen true (ok n) db same = lock_run-Unseen 0 "" true db same
  approvals-Unseen false (ok n) db same = elim (Bool-cases (nat_beq n 0)) [
    | inl z ↦ rw z (approve_run-Unseen 0 "" none db (inl refl) same)
    | inr z ↦ rw z (zero_run-Unseen db same)
  ]

-- Whatever the stages of the three runs do, and whatever the chain answers, a lock of a token of E20
-- or EOS leaves what is found under every hash but its own.
pub eos_lock-apart :
    (l : Locking) (j : String) (from_wan test : Bool) (db : Db CrossRecord)
    → str_eq l.item.hash_x j ≡ false
    → (get_item (by_hash_x j) (e20_lock l test db).state ≡ get_item (by_hash_x j) db)
      × (get_item (by_hash_x j) (eos_lock l from_wan test db).state ≡ get_item (by_hash_x j) db)
unfolding e20_lock eos_lock
eos_lock-apart l j true test db apart = (
  approvals-Unseen l j apart _ test l.allowance db refl,
  approvals-Unseen l j apart _ test l.allowance db refl,
)
eos_lock-apart l j false test db apart = (
  approvals-Unseen l j apart _ test l.allowance db refl,
  approvals-Unseen l j apart _ true l.allowance db refl,
)
