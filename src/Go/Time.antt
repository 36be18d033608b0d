-- ===== src/Go/Time.antt =====
-- Times and durations in nanoseconds; a time counts from Go's zero time, January 1 of year 1 UTC.
-- The wrap of an `int64` duration (292 years) is not modelled.
use storemesh_user_service.Base.{Bool}
use storemesh_user_service.Base.Int.{ℤ, pos, ◌+ℤ◌, ltb_ℤ, eqb_ℤ}

abbrev pub Time : Type 0
Time = ℤ

abbrev pub Duration : Type 0
Duration = ℤ

-- `t.Add(d)`, `t.After(u)`, `t.IsZero()`.
abbrev pub add_time : Time → Duration → Time
add_time t d = t +ℤ d

abbrev pub after : Time → Time → Bool
after t u = ltb_ℤ u t

abbrev pub is_zero_time : Time → Bool
is_zero_time t = eqb_ℤ t (pos 0)

abbrev pub seconds : Duration
seconds = pos 1_000_000_000
