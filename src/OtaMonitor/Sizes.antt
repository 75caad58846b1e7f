-- ===== src/OtaMonitor/Sizes.antt =====
-- `_adjustBatchSize`, `_adjustPreFetchSize` and `_adjustInterval` of src/core/monitorOTA.js.
use wanchain_js_sdk.Prelude.{ℕ, ◌+◌, ◌*◌, ◌/◌, ℤ, pos, negsuc, ltb, if◌then◌else◌}
use wanchain_js_sdk.OtaMonitor.{Config}

-- the two tests at the end
unfoldable pub clamp : Config → ℕ → ℕ
clamp c n =
    let top = if ltb c.batch_max n then c.batch_max else n in
    if ltb top c.batch_min then c.batch_min else top

-- after an error: the half of the size, or the configured size, if that is less; `Math.floor` has
-- rounded the half down
unfoldable pub shrunk : Config → ℕ → ℕ
shrunk c size = if ltb size (2 * c.batch_size) then size / 2 else c.batch_size

unfoldable pub adjust_batch_size : Config → ℤ → ℕ → ℕ
unfolding clamp shrunk
adjust_batch_size c (negsuc n) size = clamp c (shrunk c size)
adjust_batch_size c (pos n) size =
    clamp c (if ltb n 10 then size + c.batch_size else if ltb 20 n then size / 2 else size)

-- by the time that the last fetch took, in ms
unfoldable pub timed_size : Config → ℤ → ℕ → ℕ
unfolding clamp shrunk
timed_size c (negsuc n) size = clamp c (shrunk c size)
timed_size c (pos n) size =
    clamp c (
      if ltb n c.increase then size + c.batch_size else if ltb c.decrease n then size / 2 else size)

-- the size, and what `_lastFetchSize` becomes
unfoldable pub adjust_pre_fetch_size : Config → ℤ → ℕ → ℕ × ℕ
unfolding timed_size
adjust_pre_fetch_size c time size =
    if c.by_block then (c.batch_min, size) else (timed_size c time size, timed_size c time size)

-- a timer takes whole milliseconds
unfoldable pub adjust_interval : Config → ℤ → ℕ
adjust_interval c (negsuc n) = c.interval
adjust_interval c (pos n) =
    let short = if ltb n 10 then c.interval / 2 else c.interval in
    if ltb 50 n then short + c.interval else short
