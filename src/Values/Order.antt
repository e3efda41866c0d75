-- ===== src/Values/Order.antt =====
-- The comparisons of times, timestamps and intervals are those of their lengths in nanoseconds.
use amazon_timestream_odbc_d.Base.{
  pos_part, neg_part, ◌+ℤ◌, ◌*ℤ◌, ltb_ℤ, eqb_ℤ, leb_ℤ, ℤ, int_laws, ◌<◌, ◌≡◌, ap, ◌∙◌, Bool, not,
  ◌&&◌, ◌||◌, List, [], ◌∷◌, arith,
}
use amazon_timestream_odbc_d.Values.Timestamps
use amazon_timestream_odbc_d.Values.DaySeconds
use amazon_timestream_odbc_d.Values.{Timestamp, IntervalDaySecond}

-- A fraction of a second in nanoseconds.
abbrev pub IsFraction : ℤ → Type 0
IsFraction f = (neg_part f ≡ 0) × (pos_part f < 1000000000)

-- Seconds and a fraction, as nanoseconds.
abbrev pub nanos : ℤ → ℤ → ℤ
nanos seconds fraction = seconds *ℤ 1000000000 +ℤ fraction

-- The six comparisons that an order by one integer gives: ==, !=, <, <=, > and >=.
abbrev pub comparisons : ℤ → ℤ → List Bool
comparisons a b = eqb_ℤ a b ∷ not (eqb_ℤ a b) ∷ ltb_ℤ a b ∷ leb_ℤ a b ∷ ltb_ℤ b a ∷ leb_ℤ b a ∷ []

module _ (s f t g : ℤ) (hf : IsFraction f) (hg : IsFraction g) where
  lex_eq : (eqb_ℤ s t && eqb_ℤ f g) ≡ eqb_ℤ (nanos s f) (nanos t g)
  lex_eq = grind int_laws

  lex_lt : (ltb_ℤ s t || (eqb_ℤ s t && ltb_ℤ f g)) ≡ ltb_ℤ (nanos s f) (nanos t g)
  lex_lt = grind int_laws

  lex_le : (ltb_ℤ s t || (eqb_ℤ s t && leb_ℤ f g)) ≡ leb_ℤ (nanos s f) (nanos t g)
  lex_le = grind int_laws

  lex_gt : (ltb_ℤ t s || (eqb_ℤ s t && ltb_ℤ g f)) ≡ ltb_ℤ (nanos t g) (nanos s f)
  lex_gt = grind int_laws

  lex_ge : (ltb_ℤ t s || (eqb_ℤ s t && leb_ℤ g f)) ≡ leb_ℤ (nanos t g) (nanos s f)
  lex_ge = grind int_laws

  lex_ne : (not (eqb_ℤ s t) || not (eqb_ℤ f g)) ≡ not (eqb_ℤ (nanos s f) (nanos t g))
  lex_ne = grind int_laws

  length_eq : (eqb_ℤ f g && eqb_ℤ s t) ≡ eqb_ℤ (nanos s f) (nanos t g)
  length_eq = grind int_laws

  length_le :
      ((ltb_ℤ s t || (eqb_ℤ s t && ltb_ℤ f g)) || (eqb_ℤ f g && eqb_ℤ s t))
      ≡ leb_ℤ (nanos s f) (nanos t g)
  length_le = grind int_laws

leb_not : (a b : ℤ) → not (leb_ℤ a b) ≡ ltb_ℤ b a
leb_not a b = ground arith

ltb_not : (a b : ℤ) → not (ltb_ℤ a b) ≡ leb_ℤ b a
ltb_not a b = ground arith

-- For fractions from 0 to 999999999, the six comparisons of two timestamps are those of their
-- lengths in nanoseconds.
pub timestamp_comparisons :
    (a b : Timestamp)
    → IsFraction a.fraction_ns
    → IsFraction b.fraction_ns
    → Timestamps.eq a b
        ∷ Timestamps.ne a b
        ∷ Timestamps.lt a b
        ∷ Timestamps.le a b
        ∷ Timestamps.gt a b
        ∷ Timestamps.ge a b
        ∷ []
      ≡ comparisons (nanos a.seconds a.fraction_ns) (nanos b.seconds b.fraction_ns)
unfolding Timestamps.eq Timestamps.ne Timestamps.lt Timestamps.le Timestamps.gt Timestamps.ge
timestamp_comparisons a b ha hb =
    let s = a.seconds in
    let f = a.fraction_ns in
    let t = b.seconds in
    let g = b.fraction_ns in
    rw (
      lex_eq s f t g ha hb,
      lex_ne s f t g ha hb,
      lex_lt s f t g ha hb,
      lex_le s f t g ha hb,
      lex_gt s f t g ha hb,
      lex_ge s f t g ha hb,
    )

-- The length of an interval in nanoseconds: 24 hours of 3600 seconds are 86400 seconds.
abbrev pub length_in_nanos : IntervalDaySecond → ℤ
length_in_nanos v =
    v.day *ℤ 86400000000000
    +ℤ v.hour *ℤ 3600000000000
    +ℤ v.minute *ℤ 60000000000
    +ℤ v.second *ℤ 1000000000
    +ℤ v.fraction_ns

nanos-in_seconds :
    (v : IntervalDaySecond) → nanos (DaySeconds.in_seconds v) v.fraction_ns ≡ length_in_nanos v
unfolding DaySeconds.in_seconds
nanos-in_seconds v = grind int_laws

comparisons-in_seconds :
    (a b : IntervalDaySecond)
    → IsFraction a.fraction_ns
    → IsFraction b.fraction_ns
    → DaySeconds.eq a b
        ∷ DaySeconds.ne a b
        ∷ DaySeconds.lt a b
        ∷ DaySeconds.le a b
        ∷ DaySeconds.gt a b
        ∷ DaySeconds.ge a b
        ∷ []
      ≡ comparisons
          (nanos (DaySeconds.in_seconds a) a.fraction_ns)
          (nanos (DaySeconds.in_seconds b) b.fraction_ns)
unfolding DaySeconds.eq DaySeconds.ne DaySeconds.lt DaySeconds.le DaySeconds.gt DaySeconds.ge
comparisons-in_seconds a b ha hb =
    let s = DaySeconds.in_seconds a in
    let f = a.fraction_ns in
    let t = DaySeconds.in_seconds b in
    let g = b.fraction_ns in
    rw (
      length_le s f t g ha hb,
      length_eq s f t g ha hb,
      lex_lt s f t g ha hb,
      leb_not (nanos s f) (nanos t g),
      ltb_not (nanos s f) (nanos t g),
    )

-- The six comparisons of intervals of days, for fractions from 0 to 999999999, are those of their
-- lengths in nanoseconds, in which a day is 24 hours, an hour 60 minutes and a minute 60 seconds, so
-- intervals of the same length are equal however they are split.
pub interval_comparisons :
    (a b : IntervalDaySecond)
    → IsFraction a.fraction_ns
    → IsFraction b.fraction_ns
    → DaySeconds.eq a b
        ∷ DaySeconds.ne a b
        ∷ DaySeconds.lt a b
        ∷ DaySeconds.le a b
        ∷ DaySeconds.gt a b
        ∷ DaySeconds.ge a b
        ∷ []
      ≡ comparisons (length_in_nanos a) (length_in_nanos b)
interval_comparisons a b ha hb =
    comparisons-in_seconds a b ha hb
    ∙ ap (λ x. comparisons x (nanos (DaySeconds.in_seconds b) b.fraction_ns)) (nanos-in_seconds a)
    ∙ ap (comparisons (length_in_nanos a)) (nanos-in_seconds b)
