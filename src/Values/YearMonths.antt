-- ===== src/Values/YearMonths.antt =====
-- src/odbc/src/interval_year_month.cpp: the comparisons of two intervals.
use amazon_timestream_odbc_d.Base.{ltb_ℤ, eqb_ℤ, Bool, not, ◌&&◌, ◌||◌}
use amazon_timestream_odbc_d.Values.{IntervalYearMonth}

unfoldable pub eq : IntervalYearMonth → IntervalYearMonth → Bool
eq a b = eqb_ℤ a.year b.year && eqb_ℤ a.month b.month

unfoldable pub ne : IntervalYearMonth → IntervalYearMonth → Bool
unfolding eq
ne a b = not (eq a b)

unfoldable pub lt : IntervalYearMonth → IntervalYearMonth → Bool
lt a b = ltb_ℤ a.year b.year || (eqb_ℤ a.year b.year && ltb_ℤ a.month b.month)

unfoldable pub le : IntervalYearMonth → IntervalYearMonth → Bool
unfolding lt eq
le a b = lt a b || eq a b

unfoldable pub gt : IntervalYearMonth → IntervalYearMonth → Bool
unfolding le
gt a b = not (le a b)

unfoldable pub ge : IntervalYearMonth → IntervalYearMonth → Bool
unfolding lt
ge a b = not (lt a b)
