-- ===== src/Pipeline/Changes.antt =====
-- What the stages that write the database leave in it.
use mathlib.Core.Option
use wanchain_js_sdk.Prelude.{
  String, ◌≡◌, refl, ap, ◌∙◌, Bool, true, false, none, some, List, [], ◌∷◌, ◌++◌, str_eq, string_eq,
  beq_refl, arith, eq_iff,
}
use wanchain_js_sdk.Cross.{CrossRecord}
use wanchain_js_sdk.Items.{Db, first, insert_item, update_item, get_item}
use wanchain_js_sdk.Items.Laws.{first-append_last, first-change_first, first-change_first_other}
use wanchain_js_sdk.Pipeline.{
  Stage, passed, refused, threw, Methods, posted, failed_by, by_hash_x, change_found, change_item,
}

pub posted-state :
    {S : Type 0} (m : Methods S) (h : String) (p : Stage × S) → (posted m h p).state ≡ p.1
unfolding posted
posted-state m h (passed, s) = refl
posted-state m h (refused, s) = refl
posted-state m h (threw, s) = refl

pub failed_by-state : {S : Type 0} (m : Methods S) (p : Stage × S) → (failed_by m p).state ≡ p.1
unfolding failed_by
failed_by-state m (passed, s) = refl
failed_by-state m (refused, s) = refl
failed_by-state m (threw, s) = refl

pub get_item-inserted :
    (r : CrossRecord) (db : Db CrossRecord)
    → get_item (by_hash_x r.hash_x) db ≡ none
    → get_item (by_hash_x r.hash_x) (insert_item r db) ≡ some r
unfolding get_item insert_item
get_item-inserted r db n = first-append_last (by_hash_x r.hash_x) r db.memory n (beq_refl r.hash_x)

-- A change of an item that is there passes, and gives the changed item.
pub change_found-changed {ℓ} :
    {R : Type ℓ} (test : R → Bool) (change : R → R) (db : Db R) (x : R)
    → ((y : R) → test y ≡ true → test (change y) ≡ true)
    → get_item test db ≡ some x
    → (after : Db R) × (change_found test change db ≡ (passed, after))
      × (get_item test after ≡ some (change x))
unfolding change_found get_item update_item
change_found-changed test change db x keep f = (
  update_item test change db,
  ground (arith, f),
  first-change_first test change db.memory keep ∙ ap (λ found. Option.map change found) f,
)

pub change_item-found :
    (h : String) (change : CrossRecord → CrossRecord) (db : Db CrossRecord) (x : CrossRecord)
    → get_item (by_hash_x h) db ≡ some x
    → change_item h change db ≡ (passed, update_item (by_hash_x h) change db)
unfolding change_item change_found
change_item-found h change db x f = ground arith

get_item-updated :
    (h : String) (change : CrossRecord → CrossRecord) (db : Db CrossRecord) (x : CrossRecord)
    → ((y : CrossRecord) → (change y).hash_x ≡ y.hash_x)
    → get_item (by_hash_x h) db ≡ some x
    → get_item (by_hash_x h) (update_item (by_hash_x h) change db) ≡ some (change x)
unfolding get_item update_item
get_item-updated h change db x keep f =
    first-change_first (by_hash_x h) change db.memory (λ y p. rw (keep y) p)
    ∙ ap (λ found. Option.map change found) f

pub get_item-changed :
    (h : String) (change : CrossRecord → CrossRecord) (db : Db CrossRecord) (x : CrossRecord)
    → ((y : CrossRecord) → (change y).hash_x ≡ y.hash_x)
    → get_item (by_hash_x h) db ≡ some x
    → get_item (by_hash_x h) (change_item h change db).1 ≡ some (change x)
get_item-changed h change db x keep f =
    rw (change_item-found h change db x f) (get_item-updated h change db x keep f)

first-append_other :
    (test : CrossRecord → Bool) (r : CrossRecord) (rs : List CrossRecord)
    → test r ≡ false
    → first test (rs ++ r ∷ []) ≡ first test rs
unfolding first
first-append_other test r [] h = ground arith
first-append_other test r (x ∷ xs) h = ground (arith, first-append_other test r xs h)

-- An insert is not seen by another hash.
pub get_item-inserted_other :
    (j : String) (r : CrossRecord) (db : Db CrossRecord)
    → str_eq r.hash_x j ≡ false
    → get_item (by_hash_x j) (insert_item r db) ≡ get_item (by_hash_x j) db
unfolding get_item insert_item
get_item-inserted_other j r db h = first-append_other (by_hash_x j) r db.memory h

-- what a change leaves, by what was found
change_found-get :
    (h j : String) (change : CrossRecord → CrossRecord) (db : Db CrossRecord)
    → get_item (by_hash_x j) (update_item (by_hash_x h) change db) ≡ get_item (by_hash_x j) db
    → get_item (by_hash_x j) (change_item h change db).1 ≡ get_item (by_hash_x j) db
unfolding change_item change_found
change_found-get h j change db same = ground (arith, same)

-- A change of the item of one hash is not seen by another.
pub get_item-changed_other :
    (h j : String) (change : CrossRecord → CrossRecord) (db : Db CrossRecord)
    → ((y : CrossRecord) → (change y).hash_x ≡ y.hash_x)
    → str_eq h j ≡ false
    → get_item (by_hash_x j) (change_item h change db).1 ≡ get_item (by_hash_x j) db
unfolding get_item update_item
get_item-changed_other h j change db keep apart = change_found-get h j change db unseen
  where
    differs : (r : CrossRecord) → str_eq r.hash_x h ≡ true → str_eq r.hash_x j ≡ false
    differs r same = rw ((eq_iff r.hash_x h).0 same) apart

    unseen :
        get_item (by_hash_x j) (update_item (by_hash_x h) change db) ≡ get_item (by_hash_x j) db
    unseen =
        first-change_first_other (by_hash_x h) (by_hash_x j) change db.memory differs
          (λ r same. rw (keep r) (differs r same))

-- `getItem` by a hash gives a record.
abbrev pub Stored : String → CrossRecord → Db CrossRecord → Type 0
Stored h r db = get_item (by_hash_x h) db ≡ some r

-- A change of an item that is there passes, and stores the changed item.
pub change_item-Stored :
    (h : String) (change : CrossRecord → CrossRecord) (db : Db CrossRecord) (x : CrossRecord)
    → ((y : CrossRecord) → (change y).hash_x ≡ y.hash_x)
    → Stored h x db
    → (db' : Db CrossRecord) × (change_item h change db ≡ (passed, db')) × Stored h (change x) db'
change_item-Stored h change db x keep f = (
  update_item (by_hash_x h) change db,
  change_item-found h change db x f,
  get_item-updated h change db x keep f,
)
