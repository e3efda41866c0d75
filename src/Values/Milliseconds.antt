-- ===== src/Values/Milliseconds.antt =====
-- Values made of milliseconds, and the milliseconds read back from them.
use amazon_timestream_odbc_d.Base.{
  pos_part, neg_part, ◌+ℤ◌, ◌*ℤ◌, quotient, remainder, magnitude, to_signed, ℤ, int_laws, pos,
  negsuc, ℕ, ◌/◌, ◌%◌, ◌<◌, ◌≡◌, ap, ◌↔◌, arith,
}
use amazon_timestream_odbc_d.Values.{time_of_ms, timestamp_of_ms}
use amazon_timestream_odbc_d.Values.Times
use amazon_timestream_odbc_d.Values.Timestamps

-- An integer of fewer than 31 bits is kept by a narrowing to 32.
pub to_signed_small : (z : ℤ) → magnitude z < 2147483648 → to_signed 32 z ≡ z
unfolding to_signed
to_signed_small (pos n) h = ground arith
to_signed_small (negsuc n) h = ground arith

divide : (z : ℤ) → quotient z 1000 *ℤ 1000 +ℤ remainder z 1000 ≡ z
unfolding ◌*ℤ◌ ◌+ℤ◌
divide (pos n) = ground arith
divide (negsuc n) = ground arith

quotient_mul : (z : ℤ) → quotient (z *ℤ 1000000) 1000000 ≡ z
unfolding ◌*ℤ◌
quotient_mul (pos n) = ground arith
quotient_mul (negsuc n) = ground arith

quotient_tenth : (z : ℤ) → quotient (z *ℤ 100000) 1000 ≡ z *ℤ 100
unfolding ◌*ℤ◌
quotient_tenth (pos n) = ground arith
quotient_tenth (negsuc n) = ground arith

remainder_small :
    (z : ℤ)
    → (magnitude (remainder z 1000 *ℤ 1000000) < 2147483648)
      × (magnitude (remainder z 1000 *ℤ 100000) < 2147483648)
unfolding ◌*ℤ◌
remainder_small (pos m) = (ground arith, ground arith)
remainder_small (negsuc m) = (ground arith, ground arith)

-- The milliseconds of the timestamp made of milliseconds are these, for any number.
pub get_milliseconds-timestamp_of_ms :
    (ms : ℤ) → Timestamps.get_milliseconds (timestamp_of_ms ms) ≡ ms
unfolding Timestamps.get_milliseconds timestamp_of_ms
get_milliseconds-timestamp_of_ms ms =
    let h = (remainder_small ms).0 in
    rw (to_signed_small (remainder ms 1000 *ℤ 1000000) h, quotient_mul (remainder ms 1000))
      (divide ms)

time_ms :
    (n : ℕ)
    → n < 86400000
    → Times.get_milliseconds (time_of_ms (pos n)) ≡ pos (n / 1000) *ℤ 1000 +ℤ pos (n % 1000) *ℤ 100
unfolding Times.get_milliseconds time_of_ms
time_ms n h = rw (
  to_signed_small (pos (n / 1000)) (omega arith),
  to_signed_small (pos (n % 1000) *ℤ 100000) (remainder_small (pos n)).1,
  quotient_tenth (pos (n % 1000)),
  to_signed_small (pos (n / 1000) *ℤ 1000) (grind int_laws),
  to_signed_small (pos (n / 1000) *ℤ 1000 +ℤ pos (n % 1000) *ℤ 100) (grind int_laws),
)

-- The milliseconds of the time made of the milliseconds of a day are these exactly where the
-- number is one of whole seconds.
pub get_milliseconds-time_of_ms :
    (n : ℕ) → n < 86400000 → (Times.get_milliseconds (time_of_ms (pos n)) ≡ pos n) ↔ (n % 1000 ≡ 0)
get_milliseconds-time_of_ms n h =
    rw (time_ms n h) (λ e. grind (int_laws, ap pos_part e, ap neg_part e), λ e. grind int_laws)
