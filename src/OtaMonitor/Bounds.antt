-- ===== src/OtaMonitor/Bounds.antt =====
-- The sizes that the monitor adjusts stay between their bounds.
use wanchain_js_sdk.Prelude.{ℕ, ◌≤◌, ◌≡◌, ℤ, pos, negsuc, ◌⊎◌, arith}
use wanchain_js_sdk.OtaMonitor.{Config}
use wanchain_js_sdk.OtaMonitor.Sizes.{clamp, shrunk, adjust_batch_size}

clamp-between :
    (c : Config) (n : ℕ)
    → c.batch_min ≤ c.batch_max
    → (c.batch_min ≤ clamp c n) × (clamp c n ≤ c.batch_max)
unfolding clamp
clamp-between c n h = (ground arith, ground arith)

-- Whatever the last round counted, the size of the next batch lies between the two bounds, if the
-- lower one is not above the upper one.
pub adjust_batch_size-between :
    (c : Config) (count : ℤ) (size : ℕ)
    → c.batch_min ≤ c.batch_max
    → (c.batch_min ≤ adjust_batch_size c count size)
      × (adjust_batch_size c count size ≤ c.batch_max)
unfolding adjust_batch_size
adjust_batch_size-between c (pos n) size h = clamp-between c _ h
adjust_batch_size-between c (negsuc n) size h = clamp-between c _ h

-- After an error the next batch is no larger than the last one was, or it is the smallest.
pub adjust_batch_size-shrinks :
    (c : Config) (n size : ℕ)
    → (adjust_batch_size c (negsuc n) size ≤ size)
      ⊎ (adjust_batch_size c (negsuc n) size ≡ c.batch_min)
unfolding adjust_batch_size shrunk clamp
adjust_batch_size-shrinks c n size = ground arith
