-- ===== src/Pipeline/Locked.antt =====
-- The record of a token that was approved and locked.
use wanchain_js_sdk.Prelude.{
  ℕ, zero, suc, String, ◌≡◌, refl, ap, ◌∙◌, Bool, true, false, none, some, string_eq, nat_beq,
  arith,
}
use wanchain_js_sdk.Prelude.Result.{ok}
use wanchain_js_sdk.Cross.{
  CrossRecord, approve_sending, approve_sent, approve_zero_sending, approve_zero_sent, lock_sending,
  lock_sent,
}
use wanchain_js_sdk.Items.{Db, get_item, insert_item}
use wanchain_js_sdk.Pipeline.{passed, Methods, attempts, run, by_hash_x, change_item}
use wanchain_js_sdk.Pipeline.Changes.{Stored, get_item-inserted, change_item-Stored}
use wanchain_js_sdk.Pipeline.Sending.{IsReady, success, run-success}
use wanchain_js_sdk.Pipeline.Approving.{
  approve_insert, approve_pre_send_trans, approve_post_send_trans, approve_methods,
}
use wanchain_js_sdk.Pipeline.TokenLock.{
  token_lock_pre_send_trans, token_lock_methods, Locking, lock_run, approved, approve_run,
  zero_approved, zero_run, approvals, e20_lock,
}

-- Every stage passes, and the attempts get the hash.
abbrev pub Sends : Methods (Db CrossRecord) → ℕ → String → Type 0
Sends m n h = IsReady m × (attempts m n 0 ≡ some h)

-- what an approval leaves of the record `x` that was in the database
abbrev approve_kept : CrossRecord → String → CrossRecord → CrossRecord
approve_kept r tx x = record x {
  status = approve_sent;
  contract_value = r.contract_value;
  approve_tx_hash = tx;
}

abbrev zero_kept : CrossRecord → String → CrossRecord
zero_kept r tx = record r {
  status = approve_zero_sent;
  approve_tx_hash = r.hash_x;
  approve_zero_tx_hash = tx;
}

abbrev lock_kept : CrossRecord → String → String → CrossRecord → CrossRecord
lock_kept r zero_hash tx x = record x {
  status = lock_sent;
  to_addr = r.to_addr;
  lock_tx_hash = tx;
  approve_zero_tx_hash = zero_hash;
}

pub approve_pre-found :
    (r : CrossRecord) (zero_first : Bool) (db : Db CrossRecord) (x : CrossRecord)
    → Stored r.hash_x x db
    → approve_pre_send_trans r zero_first db
      ≡ change_item r.hash_x
          (λ y. record y { status = approve_sending; contract_value = r.contract_value })
          db
unfolding approve_pre_send_trans
approve_pre-found r zero_first db x found = ground (arith, found)

pub approve_pre-absent :
    (r : CrossRecord) (zero_first : Bool) (db : Db CrossRecord)
    → get_item (by_hash_x r.hash_x) db ≡ none
    → approve_pre_send_trans r zero_first db ≡ (passed, approve_insert r zero_first db)
unfolding approve_pre_send_trans
approve_pre-absent r zero_first db absent = ground (arith, absent)

module _ (r : CrossRecord) (base : Methods (Db CrossRecord)) (n : ℕ) (tx : String)
    (sends : Sends base n tx) (db : Db CrossRecord) where
  -- The approval of a record that is there.
  approve-again :
      (hash_x : _) (x : CrossRecord)
      → Stored r.hash_x x db
      → (after : Db CrossRecord) × (run (approve_methods r false hash_x base) n db
          ≡ success tx after)
        × Stored r.hash_x (approve_kept r tx x) after
  unfolding approve_methods approve_post_send_trans attempts
  approve-again hash_x x found =
      let (db₁, made, found₁) =
        change_item-Stored r.hash_x
          (λ y. record y { status = approve_sending; contract_value = r.contract_value }) db x
          (λ y. refl) found in
      let (db₂, made₂, found₂) =
        change_item-Stored r.hash_x (λ y. record y { status = approve_sent; approve_tx_hash = tx })
          db₁ _ (λ y. refl) found₁ in
      (
        db₂,
        run-success (approve_methods r false hash_x base) n db db₁ sends.0
            (approve_pre-found r false db x found ∙ made) tx db₂ sends.1 made₂,
        found₂,
      )

  -- The approval of a record that is new.
  approve-new :
      (hash_x : _)
      → get_item (by_hash_x r.hash_x) db ≡ none
      → (after : Db CrossRecord) × (run (approve_methods r false hash_x base) n db
          ≡ success tx after)
        × Stored r.hash_x (approve_kept r tx r) after
  unfolding approve_methods approve_post_send_trans approve_insert attempts
  approve-new hash_x absent =
      let db₁ : Db CrossRecord =
        insert_item (record r { status = approve_sending; approve_tx_hash = r.hash_x }) db in
      let (db₂, made₂, found₂) =
        change_item-Stored r.hash_x (λ y. record y { status = approve_sent; approve_tx_hash = tx })
          db₁ _ (λ y. refl) (get_item-inserted _ db absent) in
      (
        db₂,
        run-success (approve_methods r false hash_x base) n db db₁ sends.0
            (approve_pre-absent r false db absent) tx db₂ sends.1 made₂,
        found₂,
      )

  zero-new :
      (hash_x : _)
      → get_item (by_hash_x r.hash_x) db ≡ none
      → (after : Db CrossRecord) × (run (approve_methods r true hash_x base) n db
          ≡ success tx after)
        × Stored r.hash_x (zero_kept r tx) after
  unfolding approve_methods approve_post_send_trans approve_insert attempts
  zero-new hash_x absent =
      let db₁ : Db CrossRecord =
        insert_item (record r { status = approve_zero_sending; approve_tx_hash = r.hash_x }) db in
      let (db₂, made₂, found₂) =
        change_item-Stored r.hash_x
          (λ y. record y { status = approve_zero_sent; approve_zero_tx_hash = tx }) db₁ _
          (λ y. refl) (get_item-inserted _ db absent) in
      (
        db₂,
        run-success (approve_methods r true hash_x base) n db db₁ sends.0
            (approve_pre-absent r true db absent) tx db₂ sends.1 made₂,
        found₂,
      )

  lock-again :
      (zero_hash : String) (x : CrossRecord)
      → Stored r.hash_x x db
      → (after : Db CrossRecord) × (run (token_lock_methods r false zero_hash base) n db
          ≡ success tx after)
        × Stored r.hash_x (lock_kept r zero_hash tx x) after
  unfolding token_lock_methods token_lock_pre_send_trans attempts
  lock-again zero_hash x found =
      let (db₁, made, found₁) =
        change_item-Stored r.hash_x (λ y. record y { status = lock_sending; to_addr = r.to_addr })
          db x (λ y. refl) found in
      let (db₂, made₂, found₂) =
        change_item-Stored r.hash_x
          (λ y. record y {
            status = lock_sent;
            lock_tx_hash = tx;
            approve_zero_tx_hash = zero_hash;
          })
          db₁ _ (λ y. refl) found₁ in
      (
        db₂,
        run-success (token_lock_methods r false zero_hash base) n db db₁ sends.0 made tx db₂ sends.1
            made₂,
        found₂,
      )

module _ (l : Locking) (zero_tx approve_tx lock_tx : String)
    (zero_sends : Sends l.zero_base l.try_times zero_tx)
    (approve_sends : Sends l.approve_base l.try_times approve_tx)
    (lock_sends : Sends l.lock_base l.try_times lock_tx) where
  -- the record of a lock whose approvals were sent
  abbrev pub fully_locked : ℕ → CrossRecord
  fully_locked zero = lock_kept l.item "" lock_tx (approve_kept l.item approve_tx l.item)
  fully_locked (suc n) =
      lock_kept l.item zero_tx lock_tx
        (approve_kept l.item approve_tx (zero_kept (record l.item { contract_value = 0 }) zero_tx))

  without_allowance :
      (db : Db CrossRecord)
      → get_item (by_hash_x l.item.hash_x) db ≡ none
      → (after : Db CrossRecord) × (approve_run l 0 "" none db ≡ success lock_tx after)
        × Stored l.item.hash_x (fully_locked 0) after
  unfolding approve_run approved lock_run
  without_allowance db absent =
      let (db₁, ran₁, found₁) =
        approve-new l.item l.approve_base l.try_times approve_tx approve_sends db none absent in
      let (db₂, ran₂, found₂) =
        lock-again l.item l.lock_base l.try_times lock_tx lock_sends db₁ "" _ found₁ in
      (db₂, rw (ran₁, ran₂) refl, found₂)

  with_allowance :
      (n : ℕ) (db : Db CrossRecord)
      → get_item (by_hash_x l.item.hash_x) db ≡ none
      → (after : Db CrossRecord) × (zero_run l db ≡ success lock_tx after)
        × Stored l.item.hash_x (fully_locked (suc n)) after
  unfolding zero_run zero_approved approve_run approved lock_run
  with_allowance n db absent =
      let (db₀, ran₀, found₀) =
        zero-new (record l.item { contract_value = 0 }) l.zero_base l.try_times zero_tx zero_sends
          db none absent in
      let (db₁, ran₁, found₁) =
        approve-again l.item l.approve_base l.try_times approve_tx approve_sends db₀
          (some l.item.hash_x) _ found₀ in
      let (db₂, ran₂, found₂) =
        lock-again l.item l.lock_base l.try_times lock_tx lock_sends db₁ zero_tx _ found₁ in
      (db₂, rw (ran₀, ran₁, ran₂) refl, found₂)

  approvals-sent :
      (n : ℕ) (db : Db CrossRecord)
      → get_item (by_hash_x l.item.hash_x) db ≡ none
      → (after : Db CrossRecord) × (approvals l false (ok n) db ≡ success lock_tx after)
        × Stored l.item.hash_x (fully_locked n) after
  unfolding approvals
  approvals-sent zero db absent = without_allowance db absent
  approvals-sent (suc n) db absent =
      let allowed : nat_beq (suc n) 0 ≡ false = ground arith in
      let (after, ran, found) = with_allowance n db absent in (after, rw allowed ran, found)

  -- A lock of a token whose stages pass and whose transactions are sent succeeds, and the database
  -- then holds the record under its new hash, as sent, with the hashes of the lock, of the approval
  -- and of the approval of zero, which was sent if there was an allowance.
  pub e20_lock-sent :
      (n : ℕ) (db : Db CrossRecord)
      → l.allowance ≡ ok n
      → get_item (by_hash_x l.item.hash_x) db ≡ none
      → (after : Db CrossRecord) × (e20_lock l false db ≡ success lock_tx after)
        × Stored l.item.hash_x (fully_locked n) after
  unfolding e20_lock
  e20_lock-sent n db allowed absent =
      let (after, ran, found) = approvals-sent n db absent in
      (after, ap (λ reply. approvals l false reply db) allowed ∙ ran, found)
