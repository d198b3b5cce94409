-- ===== src/Cache/Clock.antt =====
-- `time.Time` as nanoseconds since the zero time, and `time.Duration` as a signed number of
-- nanoseconds. A time before the zero time is read as the zero time: the program compares such a
-- time only with times that are not before it.
use svm_go.Prelude.{ℕ, zero, suc, ◌+◌, ◌-◌, ◌*◌, Bool, true, false, ℤ, pos, negsuc, ltb}

abbrev pub Time : Type 0
Time = ℕ

abbrev pub Duration : Type 0
Duration = ℤ

-- `t.IsZero()`
abbrev pub is_zero : Time → Bool
is_zero zero = true
is_zero (suc t) = false

-- `t.Add(d)`
abbrev pub add : Time → Duration → Time
add t (pos d) = t + d
add t (negsuc d) = t - (d + 1)

-- `-d`
abbrev pub negate : Duration → Duration
negate (pos zero) = pos 0
negate (pos (suc d)) = negsuc d
negate (negsuc d) = pos (d + 1)

-- `a.Before(b)`
abbrev pub before : Time → Time → Bool
before a b = ltb a b

-- `a.After(b)`
abbrev pub after : Time → Time → Bool
after a b = ltb b a

abbrev pub millisecond : ℕ
millisecond = 1000000

abbrev pub second : ℕ
second = 1000 * millisecond

abbrev pub minute : ℕ
minute = 60 * second

abbrev pub hour : ℕ
hour = 60 * minute
