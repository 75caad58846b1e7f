-- ===== src/BtcPipeline/Noticed.antt =====
-- What a lock of BTC leaves, with the notice that is sent to Wanchain after it.
use wanchain_js_sdk.Prelude.{
  ℕ, String, ◌≡◌, refl, ap, ◌∙◌, Bool, true, false, arith, Option, none, some, string_eq,
}
use wanchain_js_sdk.Cross.{btc, sent_hash_failed}
use wanchain_js_sdk.Items.{Db, get_item, insert_item}
use wanchain_js_sdk.BtcMonitor.Replies.{BtcRecord, is_btc}
use wanchain_js_sdk.Hex.{hex_trip0x-hex_add0x}
use wanchain_js_sdk.Pipeline.{passed, refused, Methods, Run, attempts, run, failed_by, change_found}
use wanchain_js_sdk.Pipeline.Sending.{IsReady, run-success, run-failed}
use wanchain_js_sdk.NormalChain.Classes.{has_all}
use wanchain_js_sdk.BtcPipeline.{
  by_btc_hash, or_answer, btc_stage, BtcLock, lock_hash, btc_lock_record, btc_locked_by,
  btc_lock_methods, btc_noticed_by, btc_notice_methods, notice_given, btc_notice_run,
  btc_after_lock, without_holes, btc_lock,
}
use wanchain_js_sdk.BtcPipeline.Recorded.{BtcStored, insert_item-BtcStored, or_answer-BtcStored}

module _ (l : BtcLock) (of_btc : l.chain ≡ btc) (base notice_base : Methods (Db BtcRecord)) (n : ℕ)
    (db : Db BtcRecord) where
  locked-hash_x : (tx : String) (y : BtcRecord) → (btc_locked_by l tx y).hash_x ≡ y.hash_x
  unfolding btc_locked_by
  locked-hash_x tx y = rw of_btc refl

  -- what the lock leaves, by the hash of its transaction and that of the notice
  abbrev pub noticed_record : Option String → Option String → BtcRecord
  noticed_record none later = record (btc_lock_record l) { status = sent_hash_failed }
  noticed_record (some tx) none = btc_locked_by l tx (btc_lock_record l)
  noticed_record (some tx) (some notice) =
      btc_noticed_by l notice (btc_locked_by l tx (btc_lock_record l))

  abbrev pub answered : Option String → Option String → Option String
  answered none later = none
  answered (some tx) later = later

  abbrev is_some : Option String → Bool
  is_some none = false
  is_some (some h) = true

  abbrev pub Ends : Option String → Run (Db BtcRecord) → BtcRecord → Type 0
  Ends hash o r = (o.code ≡ is_some hash) × (o.hash ≡ hash) × BtcStored (lock_hash l) r o.state

  notice-IsReady : IsReady notice_base → IsReady (btc_notice_methods l notice_given notice_base)
  unfolding btc_notice_methods has_all
  notice-IsReady (a, b, c, d, e, f, g) = (refl, refl, refl, refl, e, f, g)

  notice-Ends :
      IsReady notice_base
      → (at : Db BtcRecord) (r : BtcRecord) → BtcStored (lock_hash l) r at
      → (notice : Option String) → attempts notice_base n 0 ≡ notice
      → Ends notice
          (btc_notice_run l notice_base n at)
          (elim notice [ none ↦ r | some tx ↦ btc_noticed_by l tx r ])
  unfolding btc_notice_run btc_notice_methods failed_by attempts
  notice-Ends ready at r found none got =
      let m = btc_notice_methods l notice_given notice_base in
      rw (run-failed m n at at (notice-IsReady ready) refl got) (refl, refl, found)
  notice-Ends ready at r found (some tx) got =
      let m = btc_notice_methods l notice_given notice_base in
      let (after, made, answer, kept) =
        or_answer-BtcStored refused (lock_hash l) (btc_noticed_by l tx) at r (λ y. refl) found in
      let post : m.post_send_trans tx at ≡ (passed, after) =
        ap (λ h. or_answer refused (change_found (by_btc_hash h) (btc_noticed_by l tx) at))
          (hex_trip0x-hex_add0x l.hash_x)
        ∙ answer in
      rw (run-success m n at at (notice-IsReady ready) refl tx after got post) (refl, refl, kept)

  lock-IsReady : IsReady base → IsReady (btc_lock_methods l base)
  unfolding btc_lock_methods btc_stage
  lock-IsReady (a, b, c, d, e, f, g) =
      (a, ap btc_stage of_btc, ap btc_stage of_btc, ap btc_stage of_btc, e, f, g)

  -- the lock before the notice
  locked-Ends :
      IsReady base
      → get_item (by_btc_hash (lock_hash l)) db ≡ none
      → (sent : Option String) → attempts base n 0 ≡ sent
      → Ends sent (run (btc_lock_methods l base) n db) (noticed_record sent none)
  unfolding btc_lock_methods btc_lock_record failed_by attempts
  locked-Ends ready absent none got =
      let m = btc_lock_methods l base in
      let inserted = insert_item (btc_lock_record l) db in
      let (after, made, answer, kept) =
        or_answer-BtcStored passed (lock_hash l) (λ y. record y { status = sent_hash_failed })
          inserted (btc_lock_record l) (λ y. refl)
          (insert_item-BtcStored (btc_lock_record l) db absent) in
      rw (run-failed m n db inserted (lock-IsReady ready) refl got, answer) (refl, refl, kept)
  locked-Ends ready absent (some tx) got =
      let m = btc_lock_methods l base in
      let inserted = insert_item (btc_lock_record l) db in
      let (after, made, answer, kept) =
        or_answer-BtcStored refused (lock_hash l) (btc_locked_by l tx) inserted (btc_lock_record l)
          (locked-hash_x tx) (insert_item-BtcStored (btc_lock_record l) db absent) in
      rw (run-success m n db inserted (lock-IsReady ready) refl tx after got answer)
        (refl, refl, kept)

  Ends-same :
      (hash : Option String) (o o' : Run (Db BtcRecord)) (r : BtcRecord)
      → o ≡ o'
      → Ends hash o' r
      → Ends hash o r
  Ends-same hash o o' r same ends = rw same ends

  after-failed : (o : Run (Db BtcRecord)) → o.code ≡ false → btc_after_lock l notice_base n o ≡ o
  unfolding btc_after_lock
  after-failed o code = ground (arith, code)

  after-sent :
      (a : String) (o : Run (Db BtcRecord))
      → l.wan_address ≡ some a
      → o.code ≡ true
      → btc_after_lock l notice_base n o ≡ btc_notice_run l notice_base n o.state
  unfolding btc_after_lock
  after-sent a o address code = ground (arith, address, code, ap is_btc of_btc)

  after-Ends :
      (a : String)
      → l.wan_address ≡ some a
      → IsReady notice_base
      → (sent : Option String) (o : Run (Db BtcRecord)) → Ends sent o (noticed_record sent none)
      → let notice = attempts notice_base n 0 in
        Ends (answered sent notice) (btc_after_lock l notice_base n o) (noticed_record sent notice)
  after-Ends a address ready none o (code, hash, found) =
      Ends-same none _ o (noticed_record none none) (after-failed o code) (code, hash, found)
  after-Ends a address ready (some tx) o (code, hash, found) = go (attempts notice_base n 0) refl
    where
      ran : btc_after_lock l notice_base n o ≡ btc_notice_run l notice_base n o.state
      ran = after-sent a o address code

      go :
          (notice : Option String)
          → attempts notice_base n 0 ≡ notice
          → Ends notice (btc_after_lock l notice_base n o) (noticed_record (some tx) notice)
      go none got = Ends-same none _ _ _ ran (notice-Ends ready o.state _ found none got)
      go (some h) got =
          Ends-same (some h) _ _ _ ran (notice-Ends ready o.state _ found (some h) got)

  kept-holes : (o : Run (Db BtcRecord)) → without_holes l o ≡ record o { holes = 0 }
  kept-holes o = rw of_btc refl

  -- A lock of BTC with a new hash, whose stages and whose notice's stages before the sending pass, is
  -- recorded with the hash of its own transaction and then with that of the notice, or as failed if
  -- its transaction is not sent. What it answers is the notice's: a lock that is sent and recorded,
  -- but whose notice is not sent, answers that it failed.
  pub btc_lock-noticed :
      (a : String)
      → l.wan_address ≡ some a
      → IsReady base
      → IsReady notice_base
      → get_item (by_btc_hash (lock_hash l)) db ≡ none
      → let sent = attempts base n 0 in
        let notice = attempts notice_base n 0 in
        Ends (answered sent notice) (btc_lock l base notice_base n db) (noticed_record sent notice)
  unfolding btc_lock
  btc_lock-noticed a address ready notice_ready absent =
      let locked = locked-Ends ready absent (attempts base n 0) refl in
      let o = run (btc_lock_methods l base) n db in
      Ends-same (answered (attempts base n 0) (attempts notice_base n 0)) _ _ _
        (ap (btc_after_lock l notice_base n) (kept-holes o))
        (after-Ends a address notice_ready (attempts base n 0) (record o { holes = 0 }) locked)
