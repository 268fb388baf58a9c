-- ===== src/Base/Time.antt =====
-- `std::time::SystemTime` on Unix: the nanoseconds since the earliest time that it can hold, which lies
-- 2^63 seconds before the epoch. A `Duration` is its nanoseconds.
use Prim.Native.Nat.{◌+◌, ℕ, ◌-◌, ◌*◌, ◌/◌, ◌^◌}
use mathlib.Core.Option.{Option, none, some}
use fractalnetworks_gateway.Base.Tests.{ltb, leb, if◌then◌else◌}

abbrev pub SystemTime : Type 0
SystemTime = ℕ

abbrev pub nanos : ℕ
nanos = 1_000_000_000

abbrev pub unix_epoch : SystemTime
unix_epoch = 2 ^ 63 * nanos

-- `checked_add(Duration::from_secs(secs))`
unfoldable pub checked_add_secs : SystemTime → ℕ → Option SystemTime
checked_add_secs t secs =
    if ltb (t + secs * nanos) (2 ^ 64 * nanos) then some (t + secs * nanos) else none

-- `duration_since`; `none` for the error of an earlier time
abbrev pub duration_since : SystemTime → SystemTime → Option ℕ
duration_since self earlier = if leb earlier self then some (self - earlier) else none

abbrev pub as_secs : ℕ → ℕ
as_secs d = d / nanos
