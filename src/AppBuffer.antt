-- ===== src/AppBuffer.antt =====
-- src/odbc/src/app/application_data_buffer.cpp: the application's buffer for a value, its addresses, and the
-- sizes of its elements. An address is a number and a null pointer is 0; a length is not negative.
-- The sizes are those of the ODBC types on a 64-bit platform, where `long` has 8 bytes.
pub mod Platform
pub mod Printing
pub mod Store
pub mod Strings
pub mod Dates
pub mod Puts
pub mod Intervals
pub mod Ascii
pub mod Retrieval
pub mod Parts
pub mod Extents
pub mod Bounds
pub mod TextNumbers
pub mod Examples
use amazon_timestream_odbc_d.Base.{
  ◌==◌, if◌then◌else◌, ◌-ℤ◌, ◌*ℤ◌, eqb_ℤ, leb_ℤ, to_signed, ℤ, pos, negsuc, ℕ, ◌+◌, ◌*◌, Bool, not,
  ◌&&◌, ◌||◌,
}
use amazon_timestream_odbc_d.TypeTraits.{
  OdbcNativeType, ai_char, ai_wchar, ai_signed_short, ai_unsigned_short, ai_signed_long,
  ai_unsigned_long, ai_float, ai_double, ai_bit, ai_signed_tinyint, ai_unsigned_tinyint,
  ai_signed_bigint, ai_unsigned_bigint, ai_binary, ai_tdate, ai_ttime, ai_ttimestamp, ai_numeric,
  ai_unsupported,
}

-- `cell_offset` is -1 for a bound buffer.
pub record ApplicationDataBuffer : Type 0 where
  pub type : OdbcNativeType
  pub buffer : ℕ
  pub buflen : ℕ
  pub reslen : ℕ
  pub byte_offset : ℕ
  pub cell_offset : ℤ
  pub element_offset : ℕ

-- The default constructor, and that of a buffer given by its parts.
unfoldable pub no_buffer : ApplicationDataBuffer
no_buffer = record {
  type = ai_unsupported;
  buffer = 0;
  buflen = 0;
  reslen = 0;
  byte_offset = 0;
  cell_offset = negsuc 0;
  element_offset = 0;
}

unfoldable pub new_buffer : OdbcNativeType → ℕ → ℕ → ℕ → ApplicationDataBuffer
new_buffer type buffer buflen reslen = record {
  type = type;
  buffer = buffer;
  buflen = buflen;
  reslen = reslen;
  byte_offset = 0;
  cell_offset = negsuc 0;
  element_offset = 0;
}

unfoldable pub apply_offset : ApplicationDataBuffer → ℕ → ℕ → ℕ
apply_offset b ptr elem_size =
    if ptr == 0 then ptr else ptr + (b.byte_offset + elem_size * b.element_offset)

-- `GetElementSize`.
unfoldable pub element_size : OdbcNativeType → ℕ → ℕ
element_size ai_wchar buflen = buflen
element_size ai_char buflen = buflen
element_size ai_binary buflen = buflen
element_size ai_signed_short buflen = 2
element_size ai_unsigned_short buflen = 2
element_size ai_signed_long buflen = 4
element_size ai_unsigned_long buflen = 4
element_size ai_float buflen = 4
element_size ai_double buflen = 8
element_size ai_signed_tinyint buflen = 1
element_size ai_bit buflen = 1
element_size ai_unsigned_tinyint buflen = 1
element_size ai_signed_bigint buflen = 8
element_size ai_unsigned_bigint buflen = 8
element_size ai_tdate buflen = 6
element_size ai_ttime buflen = 6
element_size ai_ttimestamp buflen = 16
element_size ai_numeric buflen = 19
element_size _ buflen = 0

unfoldable pub get_element_size : ApplicationDataBuffer → ℕ
get_element_size b = element_size b.type b.buflen

unfoldable pub get_data : ApplicationDataBuffer → ℕ
get_data b = apply_offset b b.buffer (get_element_size b)

unfoldable pub get_res_len : ApplicationDataBuffer → ℕ
get_res_len b = apply_offset b b.reslen 8

unfoldable pub set_element_offset : ApplicationDataBuffer → ℕ → ApplicationDataBuffer
set_element_offset b n = record b { element_offset = n }

unfoldable pub set_byte_offset : ApplicationDataBuffer → ℕ → ApplicationDataBuffer
set_byte_offset b n = record b { byte_offset = n }

unfoldable pub set_cell_offset : ApplicationDataBuffer → ℤ → ApplicationDataBuffer
set_cell_offset b z = record b { cell_offset = z }

-- A read of the length at an address of the application, in the three functions that follow.
module _ (length_at : ℕ → ℤ) where
  -- `SQL_LEN_DATA_AT_EXEC_OFFSET` is -100 and `SQL_DATA_AT_EXEC` is -2.
  unfoldable pub is_data_at_exec : ApplicationDataBuffer → Bool
  is_data_at_exec b =
      let ilen = to_signed 32 (length_at (get_res_len b)) in
      not (get_res_len b == 0) && (leb_ℤ ilen (negsuc 99) || eqb_ℤ ilen (negsuc 1))

  -- The length that `SQL_LEN_DATA_AT_EXEC` carries, times the size of a character.
  abbrev data_at_exec_length : ApplicationDataBuffer → ℕ → ℤ
  data_at_exec_length b scale =
      let ilen = to_signed 32 (length_at (get_res_len b)) in
      if get_res_len b == 0
      then pos 0
      else if leb_ℤ ilen (negsuc 99)
      then to_signed 32 (to_signed 32 (negsuc 99 -ℤ ilen) *ℤ scale)
      else pos 0

  unfoldable pub get_data_at_exec_size : ApplicationDataBuffer → ℤ
  get_data_at_exec_size b = elim b.type [
    | ai_wchar ↦ data_at_exec_length b 2
    | ai_char ↦ data_at_exec_length b 1
    | ai_binary ↦ data_at_exec_length b 1
    | ai_signed_short ↦ pos 2
    | ai_unsigned_short ↦ pos 2
    | ai_signed_long ↦ pos 8
    | ai_unsigned_long ↦ pos 8
    | ai_float ↦ pos 4
    | ai_double ↦ pos 8
    | ai_bit ↦ pos 1
    | ai_signed_tinyint ↦ pos 1
    | ai_unsigned_tinyint ↦ pos 1
    | ai_signed_bigint ↦ pos 8
    | ai_unsigned_bigint ↦ pos 8
    | ai_tdate ↦ pos 6
    | ai_ttime ↦ pos 6
    | ai_ttimestamp ↦ pos 16
    | ai_numeric ↦ pos 19
    | _ ↦ pos 0
  ]

  -- `SQL_NTS` is -3.
  unfoldable pub get_input_size : ApplicationDataBuffer → ℤ
  get_input_size b =
      if is_data_at_exec b
      then get_data_at_exec_size b
      else if get_res_len b == 0
      then negsuc 2
      else length_at (get_res_len b)
