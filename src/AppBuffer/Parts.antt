-- ===== src/AppBuffer/Parts.antt =====
-- What the application gets from the calls that retrieve a text: all of it, and what goes wrong.
use amazon_timestream_odbc_d.Base.{
  length, pos, Text, ◌≤◌, ◌<◌, ◌≡◌, refl, ◌≢◌, false, none, some, List, [], arith,
}
use amazon_timestream_odbc_d.TypeTraits.{ai_char}
use amazon_timestream_odbc_d.Cursor.{no_data}
use amazon_timestream_odbc_d.AppBuffer.{get_data, ApplicationDataBuffer}
use amazon_timestream_odbc_d.AppBuffer.Platform.{Platform}
use amazon_timestream_odbc_d.AppBuffer.Strings.{put_required, put_str_to_str_buffer}
use amazon_timestream_odbc_d.AppBuffer.Puts.{put_string}
use amazon_timestream_odbc_d.AppBuffer.Ascii.{IsAscii, bytes_required_ascii, IsExact}
use amazon_timestream_odbc_d.AppBuffer.Retrieval.{
  size_limit, joined, retrieve, at_end, retrieve_from,
}

module _ (p : Platform) (exact : IsExact p) where
  -- An ASCII text that is not empty, of fewer than 2 ^ 62 bytes, is retrieved whole from its start:
  -- calls with a character buffer of any length from 2 on come to an end after at most as many of
  -- them as the text has bytes, the texts that they put joined are the text, and a further call
  -- finds no data.
  pub retrieve-whole :
      (b : ApplicationDataBuffer) (s : Text)
      → IsAscii s
      → 0 < length s
      → length s < size_limit
      → b.type ≡ ai_char
      → 2 ≤ b.buflen
      → get_data b ≢ 0
      → b.cell_offset ≡ pos 0
      → let end = record b { cell_offset = pos (length s) } in
        ((pieces : List Text) × (retrieve p (length s) b s ≡ some (pieces, end))
          × (joined pieces ≡ s))
        × (put_string p end s
            ≡ some record { result = no_data; stored = none; length_stored = none; after = end })
  retrieve-whole b s h some_bytes small ty two there start = (
    retrieve_from p exact (length s) b s 0 h small ty two there start some_bytes (omega arith),
    at_end p exact b s h ty there,
  )

  pub call_empty :
      (b : ApplicationDataBuffer)
      → get_data b ≢ 0
      → put_str_to_str_buffer p b false []
        ≡ some record { result = no_data; stored = none; length_stored = none; after = b }
  unfolding put_str_to_str_buffer put_required
  call_empty b there = ground (arith, bytes_required_ascii p exact [] refl)
