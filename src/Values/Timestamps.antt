-- ===== src/Values/Timestamps.antt =====
-- src/odbc/src/timestamp.cpp: the milliseconds and the comparisons of two timestamps.
use amazon_timestream_odbc_d.Base.{
  ◌+ℤ◌, ◌*ℤ◌, ltb_ℤ, eqb_ℤ, leb_ℤ, quotient, ℤ, Bool, not, ◌&&◌, ◌||◌,
}
use amazon_timestream_odbc_d.Values.{Timestamp}

unfoldable pub get_milliseconds : Timestamp → ℤ
get_milliseconds t = t.seconds *ℤ 1000 +ℤ quotient t.fraction_ns 1000000

unfoldable pub eq : Timestamp → Timestamp → Bool
eq a b = eqb_ℤ a.seconds b.seconds && eqb_ℤ a.fraction_ns b.fraction_ns

unfoldable pub ne : Timestamp → Timestamp → Bool
ne a b = not (eqb_ℤ a.seconds b.seconds) || not (eqb_ℤ a.fraction_ns b.fraction_ns)

unfoldable pub lt : Timestamp → Timestamp → Bool
lt a b =
    ltb_ℤ a.seconds b.seconds || (eqb_ℤ a.seconds b.seconds && ltb_ℤ a.fraction_ns b.fraction_ns)

unfoldable pub le : Timestamp → Timestamp → Bool
le a b =
    ltb_ℤ a.seconds b.seconds || (eqb_ℤ a.seconds b.seconds && leb_ℤ a.fraction_ns b.fraction_ns)

unfoldable pub gt : Timestamp → Timestamp → Bool
gt a b =
    ltb_ℤ b.seconds a.seconds || (eqb_ℤ a.seconds b.seconds && ltb_ℤ b.fraction_ns a.fraction_ns)

unfoldable pub ge : Timestamp → Timestamp → Bool
ge a b =
    ltb_ℤ b.seconds a.seconds || (eqb_ℤ a.seconds b.seconds && leb_ℤ b.fraction_ns a.fraction_ns)
