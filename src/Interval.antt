-- ===== src/Interval.antt =====
-- `getSyncInterval` of operators/config-sync-zyql/controllers/configsync_controller.go. A Go `int`
-- and a `time.Duration` are signed integers of 64 bits; a duration counts nanoseconds.
use Prim.Native.Nat.{◌^◌}
pub mod Bounds
use cicd_tools.Prelude.{ℕ, ◌+◌, ◌*◌, ◌≤◌, ◌<◌, ◌≡◌, Option, none, some, arith, ltb, if◌then◌else◌}
use cicd_tools.Prelude.Int.{ℤ, pos, negsuc, to_int64}

-- `time.Second`
abbrev pub second : ℕ
second = 1000000000

-- `if seconds < 60 { seconds = 60 }`, which leaves no negative number
unfoldable pub clamp_seconds : ℤ → ℕ
clamp_seconds (negsuc n) = 60
clamp_seconds (pos n) = if ltb n 60 then 60 else n

unfoldable pub get_sync_interval : Option ℤ → ℤ
unfolding clamp_seconds
get_sync_interval none = pos (5 * (60 * second))
get_sync_interval (some seconds) = to_int64 (clamp_seconds seconds * second)
