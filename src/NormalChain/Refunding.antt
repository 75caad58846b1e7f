-- ===== src/NormalChain/Refunding.antt =====
-- What the refund of an OTA leaves in the two databases.
use wanchain_js_sdk.Prelude.{
  ℕ, zero, suc, ◌+◌, String, ◌≡◌, refl, ap, ◌∙◌, Bool, true, false, Option, none, some, List,
  string_eq, beq_refl, if◌then◌else◌, arith,
}
use wanchain_js_sdk.Prelude.Result.{ok}
use wanchain_js_sdk.Items.{Db, get_item, insert_item}
use wanchain_js_sdk.Items.Laws.{first-append_last}
use wanchain_js_sdk.Table.{read}
use wanchain_js_sdk.Normal.{
  NormalRecord, Ota, ota_rows, mark_refund, sending, sent as was_sent, failed as has_failed,
}
use wanchain_js_sdk.Pipeline.{
  staged, passed, Methods, Attempt, sent, known, failed, change_found, concluded, posted, failed_by,
}
use wanchain_js_sdk.Pipeline.Changes.{change_found-changed}
use wanchain_js_sdk.Pipeline.Sending.{IsReady, staged-ready}
use wanchain_js_sdk.NormalChain.{attempted, tries, normal_send, normal_run}
use wanchain_js_sdk.NormalChain.Classes.{
  by_hash, normal_trans_failed, normal_post_send_trans, normal_methods,
}
use wanchain_js_sdk.NormalChain.Special.{special_methods}
use wanchain_js_sdk.NormalChain.Refund.{
  State, SendError, reused, no_balance, other, handled_found, handle_send_tran_error,
  refund_methods, refund_handler, private_chain_wan_refund,
}

-- The hash of the attempt that was sent, if one was, and whether an OTA that is used up was met
-- before it, which ends the attempts.
unfoldable pub outcome : Attempt → SendError → Option String × Bool → Option String × Bool
outcome (sent tx) e later = (some tx, false)
outcome (known tx) reused later = (none, true)
outcome failed reused later = (none, true)
outcome (known tx) no_balance later = later
outcome failed no_balance later = later
outcome (known tx) other later = later
outcome failed other later = later

unfoldable pub outcomes : (ℕ → Attempt) → (ℕ → SendError) → ℕ → ℕ → Option String × Bool
unfolding outcome
outcomes send errors zero i = (none, false)
outcomes send errors (suc n) i = outcome (send i) (errors i) (outcomes send errors n (i + 1))

abbrev pub marked : Bool → String → List Ota → List Ota
marked used h otas = if used then mark_refund h otas else otas

module _ (r : NormalRecord) (h : String) (errors : ℕ → SendError) (m : Methods State)
    (db : Db NormalRecord) (otas : List Ota) (ota : Ota)
    (there : read ota_rows (some h) otas ≡ ok (some ota)) where
  found-eq : (e : SendError) → handle_send_tran_error e h otas ≡ handled_found e h otas (some ota)
  unfolding handle_send_tran_error
  found-eq e = ground (arith, there)

  handled :
      (i : ℕ)
      → refund_handler r h errors i (db, otas) ≡ (
        (handled_found (errors i) h otas (some ota)).0,
        (db, (handled_found (errors i) h otas (some ota)).1),
      )
  unfolding refund_handler
  handled i = ap (λ (p : Bool × List Ota). (p.0, (db, p.1))) (found-eq (errors i))

  abbrev left_by : Option String × Bool → Option String × State
  left_by (tx, used) = (tx, (db, marked used h otas))

  -- one attempt, by its answer and its error, with the attempts after it
  attempted-outcome :
      (a : Attempt) (e : SendError) (rest : State → Option String × State)
      (later : Option String × Bool)
      → rest (db, otas) ≡ left_by later
      → let p = handled_found e h otas (some ota) in
        attempted m (refund_handler r h errors) a (p.0, (db, p.1)) (db, otas) (rest (db, p.1))
        ≡ left_by (outcome a e later)
  unfolding attempted handled_found outcome
  attempted-outcome (sent tx) e rest later ih = refl
  attempted-outcome (known tx) reused rest later ih = refl
  attempted-outcome (known tx) no_balance rest later ih = ih
  attempted-outcome (known tx) other rest later ih = ih
  attempted-outcome failed reused rest later ih = refl
  attempted-outcome failed no_balance rest later ih = ih
  attempted-outcome failed other rest later ih = ih

  tries-outcomes :
      (n i : ℕ)
      → tries m (refund_handler r h errors) n i (db, otas)
        ≡ left_by (outcomes m.send_trans errors n i)
  unfolding tries outcomes
  tries-outcomes zero i = refl
  tries-outcomes (suc n) i =
      let rest : State → Option String × State =
        λ s. tries m (refund_handler r h errors) n (i + 1) s in
      ap
        (λ (p : Bool × State).
          attempted m (refund_handler r h errors) (m.send_trans i) p (db, otas) (rest p.1))
        (handled i)
      ∙ attempted-outcome (m.send_trans i) (errors i) rest (outcomes m.send_trans errors n (i + 1))
          (tries-outcomes n (i + 1))

-- what the transaction leaves of its record
abbrev pub settled : NormalRecord → ℕ → Option String → NormalRecord
settled x now none = record x { status = has_failed }
settled x now (some tx) = record x { status = was_sent; tx_hash = tx; sent_time = some now }

abbrev pub inserted : NormalRecord → Db NormalRecord → Db NormalRecord
inserted x db = insert_item (record x { status = sending }) db

module _ (x : NormalRecord) (db : Db NormalRecord)
    (absent : get_item (by_hash x.hash_x) db ≡ none) where
  get_item-inserted :
      get_item (by_hash x.hash_x) (inserted x db) ≡ some (record x { status = sending })
  unfolding get_item insert_item
  get_item-inserted = first-append_last (by_hash x.hash_x) _ db.memory absent (beq_refl x.hash_x)

  changed :
      (change : NormalRecord → NormalRecord)
      → ((y : NormalRecord) → (change y).hash_x ≡ y.hash_x)
      → (after : Db NormalRecord) × (change_found (by_hash x.hash_x) change (inserted x db)
          ≡ (passed, after))
        × (get_item (by_hash x.hash_x) after ≡ some (change (record x { status = sending })))
  changed change keep =
      change_found-changed (by_hash x.hash_x) change (inserted x db) _ (λ y p. rw (keep y) p)
        get_item-inserted

module _ (r : NormalRecord) (h : String) (errors : ℕ → SendError) (now : ℕ) (given : List String)
    (base : Methods (Db NormalRecord)) (n : ℕ) (db : Db NormalRecord) (otas : List Ota) where
  abbrev refund : Methods State
  refund = refund_methods r h errors now given base

  -- the record that the run inserts
  abbrev pub opened : NormalRecord
  opened = record r { ota_tx_hash = some h; tx_hash = ""; annotate = some "PrivateRefund" }

  -- The record of the transaction is as the attempts leave it, and the OTA is used up if they say so.
  abbrev pub Settles : Option String × Bool → State → Type 0
  Settles found s =
      (get_item (by_hash r.hash_x) s.0 ≡ some (settled opened now found.0))
      × (s.1 ≡ marked found.1 h otas)

  concluded-Settles :
      get_item (by_hash r.hash_x) db ≡ none
      → (tx : Option String) (used : Bool)
      → Settles (tx, used) (concluded refund tx (inserted opened db, marked used h otas)).state
  unfolding concluded failed_by posted refund_methods special_methods normal_methods
      normal_trans_failed normal_post_send_trans
  concluded-Settles absent none used =
      let (after, made, found) =
        changed opened db absent (λ y. record y { status = has_failed }) (λ y. refl) in
      rw made (found, refl)
  concluded-Settles absent (some tx) used =
      let (after, made, found) =
        changed opened db absent
          (λ y. record y { status = was_sent; tx_hash = tx; sent_time = some now }) (λ y. refl) in
      rw made (found, refl)

  -- A refund whose stages before the sending pass, of a new hash and of an OTA that is in the table,
  -- is recorded as sent, with the hash of the attempt that got one, or as failed. The attempts end
  -- at the first that is sent, or whose error says that the OTA is reused; and just then the row of
  -- the OTA is marked.
  pub private_chain_wan_refund-Settles :
      (ota : Ota)
      → IsReady (refund_methods r h errors now given base)
      → get_item (by_hash r.hash_x) db ≡ none
      → read ota_rows (some h) otas ≡ ok (some ota)
      → Settles
          (outcomes base.send_trans errors n 0)
          (private_chain_wan_refund r h errors now given base n (db, otas)).state
  unfolding private_chain_wan_refund normal_run normal_send
  private_chain_wan_refund-Settles ota ready absent there =
      rw (sends, tried) (concluded-Settles absent found.0 found.1)
    where
      found : Option String × Bool
      found = outcomes base.send_trans errors n 0

      sends :
          staged refund (normal_send refund (refund_handler r h errors) n) (db, otas)
          ≡ normal_send refund (refund_handler r h errors) n (inserted opened db, otas)
      sends =
          staged-ready refund (normal_send refund (refund_handler r h errors) n) (db, otas) _ ready
            refl

      tried :
          tries refund (refund_handler r h errors) n 0 (inserted opened db, otas)
          ≡ (found.0, (inserted opened db, marked found.1 h otas))
      tried = tries-outcomes r h errors refund (inserted opened db) otas ota there n 0
