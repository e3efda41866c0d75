-- ===== src/Values/Times.antt =====
-- src/odbc/src/time.cpp: the milliseconds and the comparisons of two times.
use amazon_timestream_odbc_d.Base.{
  ◌+ℤ◌, ◌*ℤ◌, ltb_ℤ, eqb_ℤ, leb_ℤ, quotient, to_signed, ℤ, Bool, not, ◌&&◌, ◌||◌,
}
use amazon_timestream_odbc_d.Values.{Time}

unfoldable pub get_milliseconds : Time → ℤ
get_milliseconds t = to_signed 32 (to_signed 32 (t.seconds *ℤ 1000) +ℤ quotient t.fraction_ns 1000)

unfoldable pub eq : Time → Time → Bool
eq a b = eqb_ℤ a.seconds b.seconds && eqb_ℤ a.fraction_ns b.fraction_ns

unfoldable pub ne : Time → Time → Bool
ne a b = not (eqb_ℤ a.seconds b.seconds) || not (eqb_ℤ a.fraction_ns b.fraction_ns)

unfoldable pub lt : Time → Time → Bool
lt a b =
    ltb_ℤ a.seconds b.seconds || (eqb_ℤ a.seconds b.seconds && ltb_ℤ a.fraction_ns b.fraction_ns)

unfoldable pub le : Time → Time → Bool
le a b =
    ltb_ℤ a.seconds b.seconds || (eqb_ℤ a.seconds b.seconds && leb_ℤ a.fraction_ns b.fraction_ns)

unfoldable pub gt : Time → Time → Bool
gt a b =
    ltb_ℤ b.seconds a.seconds || (eqb_ℤ a.seconds b.seconds && ltb_ℤ b.fraction_ns a.fraction_ns)

unfoldable pub ge : Time → Time → Bool
ge a b =
    ltb_ℤ b.seconds a.seconds || (eqb_ℤ a.seconds b.seconds && leb_ℤ b.fraction_ns a.fraction_ns)
