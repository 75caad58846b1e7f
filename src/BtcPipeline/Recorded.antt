-- ===== src/BtcPipeline/Recorded.antt =====
-- How a record of BTC is found after an insert or a change.
use wanchain_js_sdk.Prelude.{String, ◌≡◌, refl, some, none, string_eq, beq_refl}
use wanchain_js_sdk.Items.{Db, get_item, insert_item}
use wanchain_js_sdk.Items.Laws.{first-append_last}
use wanchain_js_sdk.BtcMonitor.Replies.{BtcRecord}
use wanchain_js_sdk.Pipeline.{Stage, passed, change_found}
use wanchain_js_sdk.Pipeline.Changes.{change_found-changed}
use wanchain_js_sdk.BtcPipeline.{by_btc_hash, or_answer}

-- `getItem` by a hash gives a record.
abbrev pub BtcStored : String → BtcRecord → Db BtcRecord → Type 0
BtcStored h r db = get_item (by_btc_hash h) db ≡ some r

pub insert_item-BtcStored :
    (r : BtcRecord) (db : Db BtcRecord)
    → get_item (by_btc_hash r.hash_x) db ≡ none
    → BtcStored r.hash_x r (insert_item r db)
unfolding get_item insert_item
insert_item-BtcStored r db absent =
    first-append_last (by_btc_hash r.hash_x) r db.memory absent (beq_refl r.hash_x)

-- A change of a record that is there passes, whatever a missing one would answer.
pub or_answer-BtcStored :
    (answer : Stage) (h : String) (change : BtcRecord → BtcRecord) (db : Db BtcRecord)
    (r : BtcRecord)
    → ((y : BtcRecord) → (change y).hash_x ≡ y.hash_x)
    → BtcStored h r db
    → (after : Db BtcRecord) × (change_found (by_btc_hash h) change db ≡ (passed, after))
      × (or_answer answer (change_found (by_btc_hash h) change db) ≡ (passed, after))
      × BtcStored h (change r) after
or_answer-BtcStored answer h change db r keep found =
    let (after, made, kept) =
      change_found-changed (by_btc_hash h) change db r (λ y p. rw (keep y) p) found in
    (after, made, rw made refl, kept)
