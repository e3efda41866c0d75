-- ===== src/AppBuffer/Ascii.antt =====
-- ASCII texts in a buffer of bytes: their conversions change nothing, so what is put is the text or
-- as much of it as the buffer holds, with or without ANSI_STRING_ONLY.
use amazon_timestream_odbc_d.Base.{
  ltb, leb, Bool-cases, length, take, drop, Text, ℕ, zero, suc, ◌-◌, ◌≤◌, ◌<◌, min, ◌≡◌, refl, ap,
  ◌∙◌, inl, inr, Bool, true, ◌&&◌, some, [], ◌∷◌, ◌++◌, map, arith,
}
use amazon_timestream_odbc_d.Utility.{c_str, Copied}
use amazon_timestream_odbc_d.AppBuffer.Platform.{Platform}
use amazon_timestream_odbc_d.AppBuffer.Strings.{
  copy_ansi, copy_narrowed, copy_utf8_string_to_sql_char_string, bytes_required,
}

-- Characters from 1 to 127.
abbrev pub ascii_text : Text → Bool
ascii_text [] = true
ascii_text (c ∷ cs) = (ltb 0 c && ltb c 128) && ascii_text cs

abbrev pub IsAscii : Text → Type 0
IsAscii s = ascii_text s ≡ true

-- The conversions of the C++ library on ASCII characters.
pub record IsExact (p : Platform) : Type 0 where
  pub from_bytes_ascii : (s : Text) → IsAscii s → p.from_bytes s ≡ some s
  pub narrow_ascii : (c : ℕ) → c < 128 → p.narrow c ≡ c

pub c_str_ascii : (s : Text) → IsAscii s → c_str s ≡ s
c_str_ascii [] h = refl
c_str_ascii (c ∷ cs) h = ground (arith, c_str_ascii cs)

pub c_str_closed : (s : Text) → IsAscii s → c_str (s ++ 0 ∷ []) ≡ s
c_str_closed [] h = refl
c_str_closed (c ∷ cs) h = ground (arith, c_str_closed cs)

pub drop-IsAscii : (n : ℕ) (s : Text) → IsAscii s → IsAscii (drop n s)
drop-IsAscii zero s h = h
drop-IsAscii (suc n) [] h = h
drop-IsAscii (suc n) (c ∷ cs) h = ground (arith, drop-IsAscii n cs)

pub take-IsAscii : (n : ℕ) (s : Text) → IsAscii s → IsAscii (take n s)
take-IsAscii zero s h = refl
take-IsAscii (suc n) [] h = h
take-IsAscii (suc n) (c ∷ cs) h = ground (arith, take-IsAscii n cs)

pub append-IsAscii : (s t : Text) → IsAscii s → IsAscii t → IsAscii (s ++ t)
append-IsAscii [] t h k = k
append-IsAscii (c ∷ cs) t h k = ground (arith, append-IsAscii cs t)

pub take_all : (n : ℕ) (s : Text) → length s ≤ n → take n s ≡ s
take_all zero [] h = refl
take_all zero (c ∷ cs) h = absurd (omega arith)
take_all (suc n) [] h = refl
take_all (suc n) (c ∷ cs) h = ap (◌∷◌ c) (take_all n cs (omega arith))

take-min : (n : ℕ) (s : Text) → take (min (length s) n) s ≡ take n s
take-min zero [] = refl
take-min zero (c ∷ cs) =
    ap (λ k. take k (c ∷ cs)) {x = min (suc (length cs)) 0} {y = 0} (omega arith)
take-min (suc n) [] = ap (λ k. take k []) {x = min 0 (suc n)} {y = 0} (omega arith)
take-min (suc n) (c ∷ cs) =
    ap (λ k. take k (c ∷ cs)) {x = min (suc (length cs)) (suc n)} {y = suc (min (length cs) n)}
      (omega arith)
    ∙ ap (◌∷◌ c) (take-min n cs)

-- The copy of a text to a buffer of n bytes.
abbrev pub ascii_copy : Text → ℕ → Copied
ascii_copy s n = record {
  returned = min (length s) (n - 1);
  written = take (n - 1) s ++ 0 ∷ [];
  is_truncated = leb n (length s);
}

module _ (p : Platform) (exact : IsExact p) where
  narrow_all : (s : Text) → IsAscii s → map p.narrow s ≡ s
  narrow_all [] h = refl
  narrow_all (c ∷ cs) h = ground (arith, narrow_all cs, exact.narrow_ascii c)

  pub bytes_required_ascii : (s : Text) → IsAscii s → bytes_required p 1 s ≡ some (length s)
  unfolding bytes_required
  bytes_required_ascii s h = elim (Bool-cases p.ansi_string_only) [
    | inl e ↦ rw e (ap some (omega arith))
    | inr e ↦ rw (e, c_str_ascii s h, exact.from_bytes_ascii s h) (ap some (omega arith))
  ]

  copy_ansi_ascii : (s : Text) (n : ℕ) → 2 ≤ n → copy_ansi s n ≡ ascii_copy s n
  unfolding copy_ansi
  copy_ansi_ascii s n h = ground (arith, take_all (n - 1) s)

  copy_narrowed_ascii :
      (c : ℕ) (cs : Text) (n : ℕ)
      → IsAscii (c ∷ cs)
      → 2 ≤ n
      → copy_narrowed p (c ∷ cs) n ≡ ascii_copy (c ∷ cs) n
  unfolding copy_narrowed
  copy_narrowed_ascii c cs n h k = ground (
    arith,
    take-min (n - 1) (c ∷ cs),
    narrow_all (take (n - 1) (c ∷ cs)) (take-IsAscii (n - 1) (c ∷ cs) h),
  )

  -- The copy of an ASCII text that is not empty.
  pub copy_to_char_ascii :
      (c : ℕ) (cs : Text) (n : ℕ)
      → IsAscii (c ∷ cs)
      → 2 ≤ n
      → copy_utf8_string_to_sql_char_string p (c ∷ cs) n ≡ some (ascii_copy (c ∷ cs) n)
  unfolding copy_utf8_string_to_sql_char_string copy_narrowed
  copy_to_char_ascii c cs n h k = elim (Bool-cases p.ansi_string_only) [
    | inl e ↦ rw e (ap some (copy_ansi_ascii (c ∷ cs) n k))
    | inr e ↦ rw (e, exact.from_bytes_ascii (c ∷ cs) h) (ap some (copy_narrowed_ascii c cs n h k))
  ]
