-- ===== src/Go/Time.antt =====
-- `time.Time` and `time.Duration` in nanoseconds: a time counts from Go's zero time, a duration is
-- an int64. Times here are what the monotonic comparison sees; `Add` does not leave the range of
-- `time.Time`, which is some 290 billion years wide.
use ciallo.Common.{ℕ, ◌*◌, ◌-◌, ◌^◌, Bool, true, false, if◌then◌else◌, leb}
use ciallo.Common.Int.{ℤ, pos, negsuc, ltb_ℤ, ◌+ℤ◌, ◌-ℤ◌}

abbrev pub Time : Type 0
Time = ℤ

abbrev pub Duration : Type 0
Duration = ℤ

-- `time.Time{}`
abbrev pub zero_time : Time
zero_time = pos 0

-- `t.IsZero()`
abbrev pub is_zero : Time → Bool
is_zero (pos n) = if leb n 0 then true else false
is_zero (negsuc n) = false

-- `t.Before(u)`
abbrev pub before : Time → Time → Bool
before t u = ltb_ℤ t u

-- `t.After(u)`
abbrev pub after : Time → Time → Bool
after t u = ltb_ℤ u t

-- `t.Add(d)`
abbrev pub add : Time → Duration → Time
add t d = t +ℤ d

abbrev pub max_duration : Duration
max_duration = pos (2 ^ 63 - 1)

abbrev pub min_duration : Duration
min_duration = negsuc (2 ^ 63 - 1)

-- `t.Sub(u)`, which stops at the ends of an int64.
unfoldable pub sub : Time → Time → Duration
sub t u =
    let d = t -ℤ u in
    if ltb_ℤ max_duration d
    then max_duration
    else (if ltb_ℤ d min_duration then min_duration else d)

abbrev pub second : ℕ
second = 1000000000

abbrev pub minute : ℕ
minute = 60 * second
