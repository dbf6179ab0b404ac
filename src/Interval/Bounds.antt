-- ===== src/Interval/Bounds.antt =====
-- The length of the interval, and its overflow.
use Prim.Native.Nat.{◌-◌, ◌%◌, ◌^◌}
use cicd_tools.Prelude.{ℕ, ◌*◌, ◌≤◌, ◌<◌, ◌≡◌, some, none, Option, arith, ltb, refl}
use cicd_tools.Prelude.{if◌then◌else◌}
use cicd_tools.Prelude.Int.{ℤ, pos, negsuc}
use cicd_tools.Interval.{second, get_sync_interval}

-- The largest number of seconds whose nanoseconds fit in 64 bits with a sign.
abbrev pub max_seconds : ℕ
max_seconds = 9223372036

-- A Go `int`.
abbrev pub IsInt64 : ℤ → Type 0
IsInt64 (pos n) = n < 2 ^ 63
IsInt64 (negsuc n) = n < 2 ^ 63

-- For a number of seconds from 0 to `max_seconds` the interval is exact: the greater of 60 seconds
-- and what the spec says.
pub get_sync_interval-exact :
    (n : ℕ)
    → n ≤ max_seconds
    → get_sync_interval (some (pos n)) ≡ pos ((if ltb n 60 then 60 else n) * second)
unfolding get_sync_interval
get_sync_interval-exact n h = ground arith

-- A negative number of seconds counts as 60.
get_sync_interval-negative : (n : ℕ) → get_sync_interval (some (negsuc n)) ≡ pos (60 * second)
unfolding get_sync_interval
get_sync_interval-negative n = refl

abbrev pub AtLeast : ℕ → ℤ → Type 0
AtLeast k (pos n) = k ≤ n
AtLeast k (negsuc n) = ⊥

abbrev pub Fits : Option ℤ → Type 0
Fits none = Unit
Fits (some (pos n)) = n ≤ max_seconds
Fits (some (negsuc n)) = Unit

-- Unless the spec asks for more than `max_seconds`, the interval is at least a minute.
pub get_sync_interval-AtLeast :
    (seconds : Option ℤ) → Fits seconds → AtLeast (60 * second) (get_sync_interval seconds)
unfolding get_sync_interval
get_sync_interval-AtLeast none h = omega arith
get_sync_interval-AtLeast (some (negsuc n)) h = omega arith
get_sync_interval-AtLeast (some (pos n)) h = ground arith

-- For more than `max_seconds` seconds, up to twice that number, the interval is negative: the
-- product overflows.
pub get_sync_interval-overflow :
    (n : ℕ)
    → max_seconds < n
    → n ≤ 2 * max_seconds
    → (m : ℕ) × (get_sync_interval (some (pos n)) ≡ negsuc m)
unfolding get_sync_interval
get_sync_interval-overflow n h k = (2 ^ 64 - 1 - (n * second) % 2 ^ 64, ground arith)
