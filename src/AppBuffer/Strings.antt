-- ===== src/AppBuffer/Strings.antt =====
-- src/odbc/src/utility.cpp and src/odbc/src/app/application_data_buffer.cpp: a string put in a buffer of
-- characters. `written`, which the callers of the driver do not read, is left out.
use amazon_timestream_odbc_d.Base.{
  ltb, leb, ◌==◌, if◌then◌else◌, length, take, drop, pos_part, ◌+ℤ◌, ◌-ℤ◌, ltb_ℤ, eqb_ℤ, to_signed,
  pos, Text, ℕ, ◌+◌, ◌-◌, ◌*◌, ◌/◌, min, Bool, true, false, Option, none, some, List, [], ◌∷◌, ◌++◌,
  map,
}
use mathlib.Core.Option
use amazon_timestream_odbc_d.Cursor.{success, varlen_data_truncated, no_data}
use amazon_timestream_odbc_d.Utility.{c_str, copy_utf8_string_to_sql_wchar_string, Copied}
use amazon_timestream_odbc_d.AppBuffer.{get_data, get_res_len, ApplicationDataBuffer}
use amazon_timestream_odbc_d.AppBuffer.Platform.{Platform}
use amazon_timestream_odbc_d.AppBuffer.Store.{through, with_value, Outcome, chars, wide}

-- `CopyUtf8StringToSqlCharString` where the strings are ASCII: the bytes are copied as they are.
unfoldable pub copy_ansi : Text → ℕ → Copied
copy_ansi in_buffer out_len =
    if leb out_len (length in_buffer)
    then record {
      returned = min (length in_buffer) (out_len - 1);
      written = if ltb 0 out_len then take (out_len - 1) in_buffer ++ 0 ∷ [] else [];
      is_truncated = true;
    }
    else record {
      returned = if ltb 0 out_len then min (length in_buffer) (out_len - 1) else 0;
      written = in_buffer ++ 0 ∷ [];
      is_truncated = false;
    }

-- `PutStrToStrBuffer` behind the tests of the pointer and of the offset: the length that is
-- reported is an unsigned difference, and the offset moves on by the room of the buffer.
unfoldable pub finish_copy : ApplicationDataBuffer → Bool → ℕ → ℕ → ℕ → Copied → Outcome
finish_copy b to_wide out_size required offset copied =
    let total = offset * out_size + copied.returned in
    let remaining = to_signed 64 (pos required -ℤ pos total) in
    let moved = to_signed 64 (pos offset +ℤ (pos (b.buflen / out_size) -ℤ pos 1)) in
    let kept = if ltb_ℤ b.cell_offset (pos 0) then b.cell_offset else to_signed 64 (pos total) in
    record {
      result = if copied.is_truncated then varlen_data_truncated else success;
      stored = some (if to_wide then wide copied.written else chars copied.written);
      length_stored =
          through (get_res_len b) (if eqb_ℤ remaining (pos 0) then pos required else remaining);
      after = record b { cell_offset = if copied.is_truncated then moved else kept };
    }

module _ (p : Platform) where
  -- `CopyUtf8StringToSqlCharString` on the characters of a string.
  unfoldable pub copy_narrowed : List ℕ → ℕ → Copied
  copy_narrowed in_string out_len =
      let actual = if ltb 0 out_len then min (length in_string) (out_len - 1) else 0 in
      record {
        returned = actual;
        written = if ltb 0 actual then map p.narrow (take actual in_string) ++ 0 ∷ [] else [];
        is_truncated = ltb actual (length in_string);
      }

  unfoldable pub copy_utf8_string_to_sql_char_string : Text → ℕ → Option Copied
  copy_utf8_string_to_sql_char_string in_buffer out_len =
      if p.ansi_string_only
      then some (copy_ansi in_buffer out_len)
      else Option.map (λ s. copy_narrowed s out_len) (p.from_bytes in_buffer)

  -- The size of the whole string in the characters of the buffer, whose size is `out_size`.
  unfoldable pub bytes_required : ℕ → Text → Option ℕ
  bytes_required out_size value =
      if p.ansi_string_only
      then some (length value * out_size)
      else Option.map (λ s. length s * out_size) (p.from_bytes (c_str value))

  -- The copy of the rest of the string, with a buffer that is not null.
  unfoldable pub copy_rest : Bool → Text → ℕ → Option Copied
  copy_rest to_wide rest buflen =
      if to_wide
      then some (copy_utf8_string_to_sql_wchar_string p.codecvt p.wchar_size rest true buflen false)
      else copy_utf8_string_to_sql_char_string (c_str rest) buflen

  unfoldable pub put_required : ApplicationDataBuffer → Bool → Text → ℕ → ℕ → Option Outcome
  put_required b to_wide value out_size required =
      let offset = pos_part b.cell_offset in
      if get_data b == 0
      then some record {
        result = success;
        stored = none;
        length_stored = through (get_res_len b) (pos required);
        after = b;
      }
      else if leb required (offset * out_size)
      then some record { result = no_data; stored = none; length_stored = none; after = b }
      else Option.map (finish_copy b to_wide out_size required offset)
          (copy_rest to_wide (drop offset value) b.buflen)

  -- `PutStrToStrBuffer< SQLWCHAR >` where `to_wide` holds, else `PutStrToStrBuffer< char >`.
  unfoldable pub put_str_to_str_buffer : ApplicationDataBuffer → Bool → Text → Option Outcome
  put_str_to_str_buffer b to_wide value =
      let out_size = if to_wide then p.wchar_size else 1 in
      with_value (bytes_required out_size value) (put_required b to_wide value out_size)
