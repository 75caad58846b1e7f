-- ===== src/Normal/Round.antt =====
-- `monitorTaskNormal` of src/core/monitorNormal.js: one round over the records that are not yet
-- successful, in their order. The handlers share the OTA table.
use wanchain_js_sdk.Prelude.{ℕ, ◌≡◌, refl, ap, Bool, true, false, List, [], ◌∷◌, if◌then◌else◌}
use wanchain_js_sdk.Monitor.Replies.{Network}
use wanchain_js_sdk.Normal.{Status, success, NormalRecord, Ota, monitor_record}

abbrev pub is_success : Status → Bool
is_success success = true
is_success _ = false

-- `done` is `self.done`, which ends the loop; each record meets replies of its own
unfoldable pub visited :
    Bool → (NormalRecord → Network) → ℕ → NormalRecord → List Ota → NormalRecord × List Ota
visited true net_of blocks r otas = (r, otas)
visited false net_of blocks r otas =
    if is_success r.status
    then (r, otas)
    else (let o = monitor_record (net_of r) blocks false r otas in (o.item, o.otas))

unfoldable pub monitor_task_normal :
    Bool
    → (NormalRecord → Network)
    → ℕ
    → List NormalRecord
    → List Ota
    → List NormalRecord × List Ota
unfolding visited
monitor_task_normal done net_of blocks [] otas = ([], otas)
monitor_task_normal done net_of blocks (r ∷ more) otas =
    let (r', otas') = visited done net_of blocks r otas in
    let (more', otas'') = monitor_task_normal done net_of blocks more otas' in (r' ∷ more', otas'')

-- A round after the end was asked for changes nothing.
pub monitor_task_normal-done :
    (net_of : NormalRecord → Network) (blocks : ℕ) (records : List NormalRecord) (otas : List Ota)
    → monitor_task_normal true net_of blocks records otas ≡ (records, otas)
unfolding monitor_task_normal
monitor_task_normal-done net_of blocks [] otas = refl
monitor_task_normal-done net_of blocks (r ∷ more) otas =
    ap (λ (p : List NormalRecord × List Ota). (r ∷ p.0, p.1))
      (monitor_task_normal-done net_of blocks more otas)
