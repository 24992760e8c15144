-- ===== src/Kube/Time.antt =====
-- Go times and durations: nanoseconds as signed integers, a time counted from Go's zero time.
pub mod Order
use ocular.Prelude.{
  ℕ, zero, suc, ◌+◌, ◌-◌, ◌*◌, ◌%◌, Bool, true, false, Option, none, some, ltb, if◌then◌else◌,
}
use ocular.Prelude.Int.{ℤ, pos, negsuc, ◌-ℤ◌, ltbℤ}

abbrev pub Time : Type 0
Time = ℤ

abbrev pub Duration : Type 0
Duration = ℤ

-- IsZero on a *metav1.Time or a metav1.Time
abbrev pub is_zero : Option Time → Bool
is_zero none = true
is_zero (some (pos n)) = if ltb 0 n then false else true
is_zero (some (negsuc n)) = false

-- the wrap-around of an int64
unfoldable pub wrap64 : ℤ → ℤ
wrap64 (pos n) =
    let m = n % 18446744073709551616 in
    if ltb m 9223372036854775808 then pos m else negsuc (18446744073709551616 - m - 1)
wrap64 (negsuc n) =
    let m = n % 18446744073709551616 in
    if ltb m 9223372036854775808 then negsuc m else pos (18446744073709551616 - m - 1)

abbrev times_second : ℤ → ℤ
times_second (pos n) = pos (n * 1000000000)
times_second (negsuc n) = negsuc (n * 1000000000 + 999999999)

-- time.Duration(n) * time.Second
unfoldable pub seconds : ℤ → Duration
unfolding wrap64
seconds n = wrap64 (times_second n)

abbrev times_minus_second : ℤ → ℤ
times_minus_second (pos zero) = pos 0
times_minus_second (pos (suc n)) = negsuc (n * 1000000000 + 999999999)
times_minus_second (negsuc n) = pos (suc n * 1000000000)

-- -time.Second * time.Duration(n)
unfoldable pub minus_seconds : ℤ → Duration
unfolding wrap64
minus_seconds n = wrap64 (times_minus_second n)

-- t.Sub(u), which saturates at the ends of the int64 range
unfoldable pub sub : Time → Time → Duration
sub t u =
    if ltbℤ (pos 9223372036854775807) (t -ℤ u)
    then pos 9223372036854775807
    else if ltbℤ (t -ℤ u) (negsuc 9223372036854775807)
    then negsuc 9223372036854775807
    else t -ℤ u
