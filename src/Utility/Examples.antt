-- ===== src/Utility/Examples.antt =====
-- The copy of a short string, with a conversion that copies bytes.
use amazon_timestream_odbc_d.Base.{
  length, Text, bytes, ℕ, zero, suc, ◌*◌, ◌≤◌, ◌≡◌, refl, inl, true, false, [], ◌∷◌, ◌++◌, arith,
}
use amazon_timestream_odbc_d.Utility.{
  copy_utf8_string_to_sql_wchar_string, copy_string_to_buffer, Conversion, Codecvt, ok, partial,
}
use amazon_timestream_odbc_d.Utility.CopyBounds.{
  written_fits, not_truncated_complete, one_character_buffer_silent,
}

-- Each byte is a character; the conversion is partial where the room ends first.
abbrev pub copy_bytes : Text → ℕ → Conversion
copy_bytes [] room = record { result = ok; units = []; rest = [] }
copy_bytes (c ∷ cs) zero = record { result = partial; units = []; rest = c ∷ cs }
copy_bytes (c ∷ cs) (suc room) =
    let r = copy_bytes cs room in record { result = r.result; units = c ∷ r.units; rest = r.rest }

pub copy_bytes-fits : (s : Text) (room : ℕ) → length (copy_bytes s room).units ≤ room
copy_bytes-fits [] room = omega arith
copy_bytes-fits (c ∷ cs) zero = omega arith
copy_bytes-fits (c ∷ cs) (suc room) = omega (arith, copy_bytes-fits cs room)

pub copy_bytes-ok :
    (s : Text) (room : ℕ) → (copy_bytes s room).result ≡ ok → (copy_bytes s room).rest ≡ []
copy_bytes-ok [] room e = refl
copy_bytes-ok (c ∷ cs) zero e = cc
copy_bytes-ok (c ∷ cs) (suc room) e = copy_bytes-ok cs room e

abbrev pub ascii : Codecvt
ascii = record { convert = copy_bytes; convert_fits = copy_bytes-fits; ok_consumes = copy_bytes-ok }

written_fits_example :
    length (copy_utf8_string_to_sql_wchar_string ascii 2 (bytes "HY000") true 6 false).written * 2
    ≤ 6
written_fits_example = written_fits ascii 2 (bytes "HY000") true 6 false

not_truncated_complete_example :
    ((copy_bytes (bytes "ab") 3).result ≡ ok)
    × ((copy_bytes (bytes "ab") 3).rest ≡ [])
    × ((copy_utf8_string_to_sql_wchar_string ascii 2 (bytes "ab") true 8 false).written
        ≡ bytes "ab" ++ 0 ∷ [])
unfolding copy_utf8_string_to_sql_wchar_string
not_truncated_complete_example =
    not_truncated_complete ascii 2 (bytes "ab") 8 false (inl refl) (omega arith) refl

one_character_buffer_silent_example :
    ((copy_utf8_string_to_sql_wchar_string ascii 2 (bytes "ab") true 2 false).written ≡ [])
    × ((copy_utf8_string_to_sql_wchar_string ascii 2 (bytes "ab") true 2 false).is_truncated
        ≡ false)
one_character_buffer_silent_example =
    one_character_buffer_silent ascii 2 (bytes "ab") 2 (omega arith) refl

copy_run :
    (copy_string_to_buffer ascii 2 (bytes "HY000") true 4 false).written ≡ bytes "HY0" ++ 0 ∷ []
unfolding copy_string_to_buffer
copy_run = refl
