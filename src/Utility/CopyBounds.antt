-- ===== src/Utility/CopyBounds.antt =====
-- What a copy to the caller's buffer may write, and what its results mean.
use amazon_timestream_odbc_d.Base.{
  length, length-append, Text, ℕ, suc, ◌-◌, ◌*◌, ◌/◌, ◌≤◌, ◌<◌, ◌≡◌, ◌⊎◌, inl, inr, Bool, true,
  false, [], ◌∷◌, ◌++◌, arith,
}
use amazon_timestream_odbc_d.Utility.{
  c_str, copy_utf8_string_to_wchar_string, copy_utf8_string_to_sql_wchar_string, Codecvt, ok,
}

room_fits : (w len n : ℕ) → (w ≡ 2) ⊎ (w ≡ 4) → w < len → n ≤ len / w - 1 → suc n * w ≤ len
room_fits w len n (inl e) h k = rw e (omega (arith, rw e at h, rw e at k))
room_fits w len n (inr e) h k = rw e (omega (arith, rw e at h, rw e at k))

module _ (codecvt : Codecvt) (wchar_size : ℕ) where
  wide_fits :
      (s : Text) (has_buffer : Bool) (len_bytes : ℕ) (flag : Bool)
      → (wchar_size ≡ 2) ⊎ (wchar_size ≡ 4)
      → let c = copy_utf8_string_to_wchar_string codecvt wchar_size s has_buffer len_bytes flag in
        length c.written * wchar_size ≤ len_bytes
  unfolding copy_utf8_string_to_wchar_string
  wide_fits s false len_bytes flag h = omega arith
  wide_fits s true len_bytes flag h = ground (
    arith,
    room_fits wchar_size len_bytes
        (length (codecvt.convert (c_str s) (len_bytes / wchar_size - 1)).units) h,
    codecvt.convert_fits (c_str s) (len_bytes / wchar_size - 1),
    length-append (codecvt.convert (c_str s) (len_bytes / wchar_size - 1)).units (0 ∷ []),
  )

  -- The characters written, the closing NUL among them, lie within the buffer whose length the
  -- caller stated.
  pub written_fits :
      (s : Text) (has_buffer : Bool) (len_bytes : ℕ) (flag : Bool)
      → let c =
          copy_utf8_string_to_sql_wchar_string codecvt wchar_size s has_buffer len_bytes flag in
        length c.written * wchar_size ≤ len_bytes
  unfolding copy_utf8_string_to_sql_wchar_string
  written_fits s has_buffer len_bytes flag = ground (arith, wide_fits s has_buffer len_bytes flag)

  -- With characters of 2 or 4 bytes, in a buffer longer than one character, a copy that does not report truncation has
  -- converted the string to its end, up to its first NUL, and has closed it by a NUL.
  pub not_truncated_complete :
      (s : Text) (len_bytes : ℕ) (flag : Bool)
      → (wchar_size ≡ 2) ⊎ (wchar_size ≡ 4)
      → wchar_size < len_bytes
      → let c = copy_utf8_string_to_sql_wchar_string codecvt wchar_size s true len_bytes flag in
        let r = codecvt.convert (c_str s) (len_bytes / wchar_size - 1) in
        c.is_truncated ≡ false → (r.result ≡ ok) × (r.rest ≡ []) × (c.written ≡ r.units ++ 0 ∷ [])
  unfolding copy_utf8_string_to_sql_wchar_string copy_utf8_string_to_wchar_string
  not_truncated_complete s len_bytes flag w h e =
      ground (arith, codecvt.ok_consumes (c_str s) (len_bytes / wchar_size - 1))

  -- A buffer with room for the closing NUL only, or for nothing, is left as it is, without that
  -- NUL; and where the string converts, the copy does not report that it was cut.
  pub one_character_buffer_silent :
      (s : Text) (len_bytes : ℕ)
      → len_bytes ≤ wchar_size
      → (codecvt.convert (c_str s) (length (c_str s))).result ≡ ok
      → let c = copy_utf8_string_to_sql_wchar_string codecvt wchar_size s true len_bytes false in
        (c.written ≡ []) × (c.is_truncated ≡ false)
  unfolding copy_utf8_string_to_sql_wchar_string copy_utf8_string_to_wchar_string
  one_character_buffer_silent s len_bytes h e =
      ground (arith, codecvt.ok_consumes (c_str s) (length (c_str s)))
