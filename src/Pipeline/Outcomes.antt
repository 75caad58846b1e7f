-- ===== src/Pipeline/Outcomes.antt =====
-- What a run leaves: the nonce, and the record of a lock.
use mathlib.Core.Option
use wanchain_js_sdk.Prelude.{
  ℕ, String, ◌⊎◌, inl, inr, false, ◌≡◌, refl, ap, ◌∙◌, none, some, string_eq,
}
use wanchain_js_sdk.Cross.{CrossRecord, lock_sending, lock_sent, lock_fail}
use wanchain_js_sdk.Items.{Db, insert_item, get_item}
use wanchain_js_sdk.Pipeline.Sending.{IsReady}
use wanchain_js_sdk.Pipeline.Changes.{
  posted-state, failed_by-state, get_item-inserted, get_item-changed,
}
use wanchain_js_sdk.Pipeline.{
  Stage, passed, refused, threw, Methods, Run, early, late, attempts, send, staged, run, posted,
  failed_by, by_hash_x, lock_pre_send_trans, lock_trans_failed, lock_post_send_trans, lock_methods,
  concluded,
}

module _ {S : Type 0} (m : Methods S) where
  -- The nonce was not given back, or it was given back once by a run that failed and sent nothing.
  abbrev pub KeepsNonce : Run S → Type 0
  KeepsNonce o = (o.holes ≡ 0) ⊎ ((o.holes ≡ 1) × (o.code ≡ false) × (o.hash ≡ none))

  early-KeepsNonce :
      (stage : Stage) (s : S) (next : Run S) → KeepsNonce next → KeepsNonce (early m stage s next)
  unfolding early
  early-KeepsNonce passed s next k = k
  early-KeepsNonce refused s next k = inl refl
  early-KeepsNonce threw s next k = inr (refl, refl, refl)

  late-KeepsNonce :
      (stage : Stage) (s : S) (next : Run S) → KeepsNonce next → KeepsNonce (late m stage s next)
  unfolding late
  late-KeepsNonce passed s next k = k
  late-KeepsNonce refused s next k = inr (refl, refl, refl)
  late-KeepsNonce threw s next k = inr (refl, refl, refl)

  posted-KeepsNonce : (h : String) (p : Stage × S) → KeepsNonce (posted m h p)
  unfolding posted
  posted-KeepsNonce h (passed, s) = inl refl
  posted-KeepsNonce h (refused, s) = inl refl
  posted-KeepsNonce h (threw, s) = inl refl

  failed_by-KeepsNonce : (p : Stage × S) → KeepsNonce (failed_by m p)
  unfolding failed_by
  failed_by-KeepsNonce (passed, s) = inr (refl, refl, refl)
  failed_by-KeepsNonce (refused, s) = inr (refl, refl, refl)
  failed_by-KeepsNonce (threw, s) = inr (refl, refl, refl)

  send-KeepsNonce : (n : ℕ) (s : S) → KeepsNonce (send m n s)
  unfolding send concluded
  send-KeepsNonce n s = go (attempts m n 0)
    where
      go : (a : Option.Option String) → KeepsNonce (concluded m a s)
      go none = failed_by-KeepsNonce (m.trans_failed s)
      go (some h) = posted-KeepsNonce h (m.post_send_trans h s)

  pub staged-KeepsNonce :
      (next : S → Run S) (s : S) → ((s' : S) → KeepsNonce (next s')) → KeepsNonce (staged m next s)
  unfolding staged
  staged-KeepsNonce next s keeps = early-KeepsNonce m.check_pre_condition s _ (
      early-KeepsNonce m.create_trans s _ (
        early-KeepsNonce m.create_data_creator s _ (
          early-KeepsNonce m.create_data_sign s _ (
            late-KeepsNonce m.create_common_data s _ (
              late-KeepsNonce m.create_contract_data s _ (
                late-KeepsNonce m.sign s _ (
                  late-KeepsNonce (m.pre_send_trans s).0 (m.pre_send_trans s).1 _
                    (keeps (m.pre_send_trans s).1))))))))

  -- A run does not give its nonce back, or it gives it back once, has failed, and has sent nothing.
  pub run-KeepsNonce : (try_times : ℕ) (s : S) → KeepsNonce (run m try_times s)
  unfolding run
  run-KeepsNonce n s = staged-KeepsNonce (send m n) s (send-KeepsNonce n)

run-ready :
    (r : CrossRecord) (base : Methods (Db CrossRecord)) (n : ℕ) (db : Db CrossRecord)
    → IsReady base
    → run (lock_methods r base) n db ≡ send (lock_methods r base) n (lock_pre_send_trans r db).1
unfolding run staged early late lock_pre_send_trans
run-ready r base n db (a, b, c, d, e, f, g) = rw (a, b, c, d, e, f, g) refl

-- If the stages before the sending pass and the hash is new, the database holds the lock after the
-- run: as sent, with the hash of the first attempt that got one, and otherwise as failed.
pub get_item-run :
    (r : CrossRecord) (base : Methods (Db CrossRecord)) (n : ℕ) (db : Db CrossRecord)
    → IsReady base
    → get_item (by_hash_x r.hash_x) db ≡ none
    → get_item (by_hash_x r.hash_x) (run (lock_methods r base) n db).state
      ≡ elim (attempts (lock_methods r base) n 0) [
        | none ↦ some (record r { status = lock_fail })
        | some h ↦ some (record r { status = lock_sent; lock_tx_hash = h })
      ]
unfolding send concluded posted lock_pre_send_trans lock_trans_failed lock_post_send_trans
get_item-run r base n db ready new =
    rw (run-ready r base n db ready) (go (attempts (lock_methods r base) n 0))
  where
    inserted : Db CrossRecord
    inserted = insert_item (record r { status = lock_sending }) db

    found : get_item (by_hash_x r.hash_x) inserted ≡ some (record r { status = lock_sending })
    found = get_item-inserted (record r { status = lock_sending }) db new

    go :
        (a : Option.Option String)
        → get_item (by_hash_x r.hash_x) (concluded (lock_methods r base) a inserted).state
          ≡ elim a [
            | none ↦ some (record r { status = lock_fail })
            | some h ↦ some (record r { status = lock_sent; lock_tx_hash = h })
          ]
    go none =
        ap (get_item (by_hash_x r.hash_x))
          (failed_by-state (lock_methods r base) (lock_trans_failed r inserted))
        ∙ get_item-changed r.hash_x (λ old. record old { status = lock_fail }) inserted
            (record r { status = lock_sending }) (λ y. refl) found
    go (some h) =
        let change : CrossRecord → CrossRecord =
          λ old. record old { status = lock_sent; lock_tx_hash = h } in
        let stored =
          get_item-changed r.hash_x change inserted (record r { status = lock_sending }) (λ y. refl)
            found in
        ap (get_item (by_hash_x r.hash_x))
          (posted-state (lock_methods r base) h (lock_post_send_trans r h inserted))
        ∙ stored
