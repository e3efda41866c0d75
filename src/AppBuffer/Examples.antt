-- ===== src/AppBuffer/Examples.antt =====
-- The application's buffer at work, on a platform with 2-byte wide characters whose conversions keep
-- the bytes and whose clock stands still.
use amazon_timestream_odbc_d.Base.{
  length, ◌+ℤ◌, ◌-ℤ◌, quotient, to_signed, ℤ, pos, negsuc, Text, bytes, ℕ, ◌≡◌, refl, ◌≢◌, false,
  none, some, List, [], ◌∷◌, ◌++◌, arith,
}
use amazon_timestream_odbc_d.TypeTraits.{ai_char}
use amazon_timestream_odbc_d.Cursor.{varlen_data_truncated, no_data}
use amazon_timestream_odbc_d.Utility.Examples.{ascii}
use amazon_timestream_odbc_d.AppBuffer.{
  apply_offset, element_size, get_element_size, get_data, get_res_len, ApplicationDataBuffer,
}
use amazon_timestream_odbc_d.AppBuffer.Platform.{Tm, Platform}
use amazon_timestream_odbc_d.AppBuffer.Printing.{digits_upto, digits, print_int, read_int64}
use amazon_timestream_odbc_d.AppBuffer.Store.{chars}
use amazon_timestream_odbc_d.AppBuffer.Strings.{
  finish_copy, copy_narrowed, copy_utf8_string_to_sql_char_string, bytes_required, copy_rest,
  put_required, put_str_to_str_buffer,
}
use amazon_timestream_odbc_d.AppBuffer.Puts.{put_string, put_int64}
use amazon_timestream_odbc_d.AppBuffer.Ascii.{IsExact}
use amazon_timestream_odbc_d.AppBuffer.Retrieval.{joined, retrieve}
use amazon_timestream_odbc_d.AppBuffer.Parts.{retrieve-whole}
use amazon_timestream_odbc_d.AppBuffer.TextNumbers.{put_string-put_int64}
use amazon_timestream_odbc_d.Config.Texts.{decimal_from, decimal, drop_while}

abbrev pub midnight : Tm
midnight = record {
  tm_year = pos 124;
  tm_mon = pos 0;
  tm_mday = pos 2;
  tm_hour = pos 3;
  tm_min = pos 4;
  tm_sec = pos 5;
}

abbrev pub plain : Platform
plain = record {
  wchar_size = 2;
  ansi_string_only = false;
  codecvt = ascii;
  from_bytes = λ s. some s;
  narrow = λ c. c;
  gm_time = λ z. midnight;
  time_gm = λ t. pos 0;
  date_seconds = λ ms. quotient ms 1000;
  digit_length = λ n. length (digits n);
  real_text = λ size x. digits x;
  stod = λ s. some 0;
  read_double = λ s. some 0;
  real_of_int = λ size z. 0;
  convert_real = λ size x to. x;
  real_negative = λ size x. false;
  truncate_real = λ size x. pos 0;
}

abbrev pub plain-IsExact : IsExact plain
plain-IsExact = record { from_bytes_ascii = λ s h. refl; narrow_ascii = λ c h. refl }

abbrev pub char_buffer : ℕ → ℤ → ApplicationDataBuffer
char_buffer buflen offset = record {
  type = ai_char;
  buffer = 4096;
  buflen = buflen;
  reslen = 8192;
  byte_offset = 0;
  cell_offset = offset;
  element_offset = 0;
}

pub char_buffer-there : (n : ℕ) (z : ℤ) → get_data (char_buffer n z) ≢ 0
unfolding get_data apply_offset get_element_size element_size
char_buffer-there n z e = omega arith

retrieve-whole_example :
    ((pieces : List Text) × (retrieve plain 7 (char_buffer 4 (pos 0)) (bytes "seconds")
        ≡ some (pieces, char_buffer 4 (pos 7)))
      × (joined pieces ≡ bytes "seconds"))
    × (put_string plain (char_buffer 4 (pos 7)) (bytes "seconds")
        ≡ some record {
          result = no_data;
          stored = none;
          length_stored = none;
          after = char_buffer 4 (pos 7);
        })
retrieve-whole_example =
    retrieve-whole plain plain-IsExact (char_buffer 4 (pos 0)) (bytes "seconds") refl (omega arith)
      (omega arith) refl (omega arith) (char_buffer-there 4 (pos 0)) refl

abbrev empty_text : Text
empty_text = []

put_string-put_int64_example :
    put_string plain (char_buffer 8 (negsuc 0)) (print_int (negsuc 41))
    ≡ put_int64 plain (char_buffer 8 (negsuc 0)) (negsuc 41)
put_string-put_int64_example =
    put_string-put_int64 plain (char_buffer 8 (negsuc 0)) (negsuc 41) refl (omega arith)
      (omega arith)

printed : print_int (negsuc 41) ≡ bytes "-42"
unfolding print_int digits_upto
printed = refl

read : read_int64 (bytes " -42x") ≡ some (negsuc 41)
unfolding read_int64 drop_while decimal decimal_from
read = refl

first_piece :
    put_string plain (char_buffer 4 (pos 0)) (bytes "seconds")
    ≡ some record {
      result = varlen_data_truncated;
      stored = some (chars (bytes "sec" ++ 0 ∷ []));
      length_stored = some (pos 4);
      after = char_buffer 4 (pos 3);
    }
unfolding put_string put_str_to_str_buffer bytes_required put_required get_data apply_offset
    get_element_size element_size copy_rest copy_utf8_string_to_sql_char_string copy_narrowed
    finish_copy get_res_len ◌+ℤ◌ ◌-ℤ◌ to_signed
first_piece = refl
