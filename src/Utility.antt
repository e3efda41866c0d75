-- ===== src/Utility.antt =====
-- src/odbc/src/utility.cpp: copying a UTF-8 string to the caller's wide-character buffer.
-- The conversion itself is `std::codecvt_utf8` of the C++ library, a parameter. `SQLWCHAR` has
-- `wchar_size` bytes, 2 or 4. The asserts of the source are not modelled.
pub mod CopyBounds
pub mod Examples
use amazon_timestream_odbc_d.Base.{
  ltb, ◌==◌, if◌then◌else◌, length, is_empty, Text, ℕ, ◌-◌, ◌*◌, ◌/◌, ◌≤◌, ◌≡◌, Bool, true, false,
  not, ◌&&◌, ◌||◌, List, [], ◌∷◌, ◌++◌,
}

pub data CodecvtResult : Type 0 where
  ok partial error : CodecvtResult

-- What `convFacet.in` reports: its result, the characters written, and the bytes not consumed.
pub record Conversion : Type 0 where
  pub result : CodecvtResult
  pub units : Text
  pub rest : Text

-- `convFacet.in` on the bytes of a string and room for so many characters. It documents that it
-- writes no more characters than there is room for, and that `ok` means that it consumed all.
pub record Codecvt : Type 0 where
  pub convert : Text → ℕ → Conversion
  pub convert_fits : (s : Text) (room : ℕ) → length (convert s room).units ≤ room
  pub ok_consumes :
      (s : Text) (room : ℕ) → (convert s room).result ≡ ok → (convert s room).rest ≡ []

-- The bytes before the first NUL, as `strlen` counts them.
abbrev pub c_str : Text → Text
c_str [] = []
c_str (c ∷ cs) = let rest = c_str cs in if c == 0 then [] else c ∷ rest

-- The bytes returned, what was written to the start of the caller's buffer (nothing to a proxy),
-- and `isTruncated`.
pub record Copied : Type 0 where
  pub returned : ℕ
  pub written : List ℕ
  pub is_truncated : Bool

abbrev truncated_by : CodecvtResult → Text → Bool
truncated_by ok rest = not (is_empty rest)
truncated_by partial rest = true
truncated_by error rest = true

module _ (codecvt : Codecvt) (wchar_size : ℕ) where
  -- The part of `CopyUtf8StringToWcharString` behind the choice of the buffer.
  convert_to : Bool → Text → ℕ → Copied
  convert_to caller in_buffer room =
      let r = codecvt.convert in_buffer room in
      record {
        returned = length r.units * wchar_size;
        written = if caller then r.units ++ 0 ∷ [] else [];
        is_truncated = truncated_by r.result r.rest;
      }

  -- The caller's buffer is null where `has_buffer` is false; `is_truncated` is the flag's old value.
  pub copy_utf8_string_to_wchar_string : Text → Bool → ℕ → Bool → Copied
  unfolding convert_to
  copy_utf8_string_to_wchar_string s has_buffer len_bytes is_truncated =
      let in_buffer = c_str s in
      if has_buffer && (len_bytes == 0)
      then record { returned = 0; written = []; is_truncated = is_truncated }
      else if has_buffer && ltb wchar_size len_bytes
      then convert_to true in_buffer (len_bytes / wchar_size - 1)
      else convert_to false in_buffer (length in_buffer)

  -- The switch over the size of `SQLWCHAR`: 2 and 4 differ in the width of a character only, any
  -- other size fails an assert and copies nothing.
  pub copy_utf8_string_to_sql_wchar_string : Text → Bool → ℕ → Bool → Copied
  unfolding copy_utf8_string_to_wchar_string
  copy_utf8_string_to_sql_wchar_string s has_buffer len_bytes is_truncated =
      if (wchar_size == 2) || (wchar_size == 4)
      then copy_utf8_string_to_wchar_string s has_buffer len_bytes is_truncated
      else record { returned = 0; written = []; is_truncated = is_truncated }

  -- `returned` counts bytes or characters as `buflen` does.
  unfoldable pub copy_string_to_buffer : Text → Bool → ℕ → Bool → Copied
  unfolding copy_utf8_string_to_sql_wchar_string
  copy_string_to_buffer s has_buffer buflen is_len_in_bytes =
      let len_bytes = if is_len_in_bytes then buflen else buflen * wchar_size in
      let c = copy_utf8_string_to_sql_wchar_string s has_buffer len_bytes false in
      record c { returned = if is_len_in_bytes then c.returned else c.returned / wchar_size }
