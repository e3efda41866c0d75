-- ===== src/Values/DaySeconds.antt =====
-- src/odbc/src/interval_day_second.cpp: the seconds and the comparisons of two intervals.
use amazon_timestream_odbc_d.Base.{◌+ℤ◌, ◌*ℤ◌, ltb_ℤ, eqb_ℤ, ℤ, Bool, not, ◌&&◌, ◌||◌}
use amazon_timestream_odbc_d.Values.{IntervalDaySecond}

unfoldable pub in_seconds : IntervalDaySecond → ℤ
in_seconds v = ((v.day *ℤ 24 +ℤ v.hour) *ℤ 60 +ℤ v.minute) *ℤ 60 +ℤ v.second

unfoldable pub eq : IntervalDaySecond → IntervalDaySecond → Bool
eq a b = eqb_ℤ a.fraction_ns b.fraction_ns && eqb_ℤ (in_seconds a) (in_seconds b)

unfoldable pub ne : IntervalDaySecond → IntervalDaySecond → Bool
unfolding eq
ne a b = not (eq a b)

unfoldable pub lt : IntervalDaySecond → IntervalDaySecond → Bool
lt a b =
    let sec1 = in_seconds a in
    let sec2 = in_seconds b in
    ltb_ℤ sec1 sec2 || (eqb_ℤ sec1 sec2 && ltb_ℤ a.fraction_ns b.fraction_ns)

unfoldable pub le : IntervalDaySecond → IntervalDaySecond → Bool
unfolding lt eq
le a b = lt a b || eq a b

unfoldable pub gt : IntervalDaySecond → IntervalDaySecond → Bool
unfolding le
gt a b = not (le a b)

unfoldable pub ge : IntervalDaySecond → IntervalDaySecond → Bool
unfolding lt
ge a b = not (lt a b)
