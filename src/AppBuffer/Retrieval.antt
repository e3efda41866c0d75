-- ===== src/AppBuffer/Retrieval.antt =====
-- Text retrieved in parts, as `SQLGetData` does with the offset that the statement keeps.
use amazon_timestream_odbc_d.Base.{
  leb, le→ltb, length, take, drop, take-append-drop, length-drop, drop-drop, pos_part, ◌+ℤ◌, ◌-ℤ◌,
  to_signed, pos, Text, ℕ, zero, suc, ◌+◌, ◌-◌, ◌*◌, ◌/◌, ◌≤◌, ◌<◌, min, ◌≡◌, refl, sym, ap, ◌∙◌,
  ◌≢◌, true, false, Option, none, some, List, [], ◌∷◌, ◌++◌, append-nil, dec_lt, arith,
}
use amazon_timestream_odbc_d.TypeTraits.{ai_char}
use amazon_timestream_odbc_d.Cursor.{success, varlen_data_truncated, no_data}
use amazon_timestream_odbc_d.Utility.{c_str}
use amazon_timestream_odbc_d.AppBuffer.{
  apply_offset, get_element_size, get_data, ApplicationDataBuffer,
}
use amazon_timestream_odbc_d.AppBuffer.Platform.{Platform}
use amazon_timestream_odbc_d.AppBuffer.Store.{Stored, chars}
use amazon_timestream_odbc_d.AppBuffer.Strings.{
  finish_copy, copy_rest, put_required, put_str_to_str_buffer,
}
use amazon_timestream_odbc_d.AppBuffer.Puts.{put_string}
use amazon_timestream_odbc_d.AppBuffer.Ascii.{
  IsAscii, c_str_ascii, c_str_closed, drop-IsAscii, take-IsAscii, take_all, ascii_copy,
  bytes_required_ascii, copy_to_char_ascii, IsExact,
}

-- 2 ^ 62: texts are shorter, as an object of the program is.
abbrev pub size_limit : ℕ
size_limit = 4611686018427387904

pub to_signed_64_small : (n : ℕ) → n < size_limit → to_signed 64 (pos n) ≡ pos n
unfolding to_signed
to_signed_64_small n h = ground arith

-- The offset in the cell does not move the address.
moved-there :
    (b : ApplicationDataBuffer) (k : ℕ)
    → get_data b ≢ 0
    → get_data record b { cell_offset = pos k } ≢ 0
unfolding get_data apply_offset get_element_size
moved-there b k there = there

-- The calls of an application for one cell, which go on while a text is truncated: the texts
-- that they put before the first NUL, and the buffer in the end.
abbrev pub text_stored : Option Stored → Text
text_stored (some (chars s)) = c_str s
text_stored _ = []

abbrev add_piece :
    Text → Option (List Text × ApplicationDataBuffer) → Option (List Text × ApplicationDataBuffer)
add_piece s none = none
add_piece s (some (pieces, b)) = some (s ∷ pieces, b)

abbrev pub joined : List Text → Text
joined [] = []
joined (s ∷ ss) = s ++ joined ss

module _ (p : Platform) where
  -- With so many calls left.
  unfoldable pub retrieve :
      ℕ → ApplicationDataBuffer → Text → Option (List Text × ApplicationDataBuffer)
  retrieve zero b s = none
  retrieve (suc left) b s = elim (put_string p b s) [
    | none ↦ none
    | some o ↦ elim o.result [
      | success ↦ some (text_stored o.stored ∷ [], o.after)
      | varlen_data_truncated ↦ add_piece (text_stored o.stored) (retrieve left o.after s)
      | _ ↦ none
    ]
  ]

module _ (p : Platform) (exact : IsExact p) where
  copy_dropped :
      (rest : Text) (n : ℕ)
      → IsAscii rest
      → 0 < length rest
      → 2 ≤ n
      → copy_rest p false rest n ≡ some (ascii_copy rest n)
  unfolding copy_rest
  copy_dropped [] n h k two = absurd (omega arith)
  copy_dropped (c ∷ cs) n h k two =
      rw (c_str_ascii (c ∷ cs) h) (copy_to_char_ascii p exact c cs n h two)

  -- One call for an ASCII text of which k characters have been retrieved and some are left.
  pub put_str-ascii :
      (b : ApplicationDataBuffer) (s : Text) (k : ℕ)
      → IsAscii s
      → pos_part b.cell_offset ≡ k
      → k < length s
      → length s < size_limit
      → 2 ≤ b.buflen
      → get_data b ≢ 0
      → put_str_to_str_buffer p b false s
        ≡ some (finish_copy b false 1 (length s) k (ascii_copy (drop k s) b.buflen))
  unfolding put_str_to_str_buffer put_required
  put_str-ascii b s k h at_k lt small two there = ground (
    arith,
    bytes_required_ascii p exact s h,
    at_k,
    copy_dropped (drop k s) b.buflen (drop-IsAscii k s h) (omega (arith, length-drop k s)) two,
  )

  moved_offset :
      (k n : ℕ)
      → 1 ≤ n
      → k + n < size_limit
      → to_signed 64 (pos k +ℤ (pos (n / 1) -ℤ pos 1)) ≡ pos (k + (n - 1))
  unfolding ◌+ℤ◌ ◌-ℤ◌
  moved_offset k n one small =
      ap (to_signed 64) {y = pos (k + (n - 1))} (ground arith)
      ∙ to_signed_64_small (k + (n - 1)) (omega arith)

  pub put_string-char :
      (b : ApplicationDataBuffer) (s : Text)
      → b.type ≡ ai_char
      → put_string p b s ≡ put_str_to_str_buffer p b false s
  unfolding put_string
  put_string-char b s h = simp (put_string, h)

  -- Nothing is left at the end of the text.
  put_at_end :
      (b : ApplicationDataBuffer) (s : Text)
      → IsAscii s
      → b.cell_offset ≡ pos (length s)
      → get_data b ≢ 0
      → put_str_to_str_buffer p b false s
        ≡ some record { result = no_data; stored = none; length_stored = none; after = b }
  unfolding put_str_to_str_buffer put_required
  put_at_end b s h at_end there = ground (arith, bytes_required_ascii p exact s h)

  -- The parts of the outcome of one call.
  finish-truncated :
      (b : ApplicationDataBuffer) (s : Text) (k : ℕ)
      → k + b.buflen ≤ length s
      → length s < size_limit
      → 2 ≤ b.buflen
      → let o = finish_copy b false 1 (length s) k (ascii_copy (drop k s) b.buflen) in
        (o.result ≡ varlen_data_truncated)
        × (o.after ≡ record b { cell_offset = pos (k + (b.buflen - 1)) })
  unfolding finish_copy
  finish-truncated b s k le small two =
      let t : leb b.buflen (length (drop k s)) ≡ true = ground (arith, length-drop k s) in
      rw (t, moved_offset k b.buflen (omega arith) (omega arith)) (refl, refl)

  finish-success :
      (b : ApplicationDataBuffer) (s : Text) (k : ℕ)
      → length s < k + b.buflen
      → k < length s
      → length s < size_limit
      → b.cell_offset ≡ pos k
      → let o = finish_copy b false 1 (length s) k (ascii_copy (drop k s) b.buflen) in
        (o.result ≡ success) × (o.after ≡ record b { cell_offset = pos (length s) })
  unfolding finish_copy
  finish-success b s k lt less small at_k =
      let t : leb b.buflen (length (drop k s)) ≡ false = ground (arith, length-drop k s) in
      let e : k * 1 + min (length (drop k s)) (b.buflen - 1) ≡ length s =
        omega (arith, length-drop k s) in
      rw (t, e, at_k, to_signed_64_small (length s) small, le→ltb (k + 0) 0 (omega arith))
        (refl, refl)

  -- The piece that one call puts.
  pub piece :
      (b : ApplicationDataBuffer) (s : Text) (k : ℕ)
      → IsAscii s
      → text_stored (finish_copy b false 1 (length s) k (ascii_copy (drop k s) b.buflen)).stored
        ≡ take (b.buflen - 1) (drop k s)
  unfolding finish_copy
  piece b s k h =
      c_str_closed (take (b.buflen - 1) (drop k s))
        (take-IsAscii (b.buflen - 1) (drop k s) (drop-IsAscii k s h))

  pub at_end :
      (b : ApplicationDataBuffer) (s : Text)
      → IsAscii s
      → b.type ≡ ai_char
      → get_data b ≢ 0
      → let end = record b { cell_offset = pos (length s) } in
        put_string p end s
        ≡ some record { result = no_data; stored = none; length_stored = none; after = end }
  at_end b s h ty there =
      let end = record b { cell_offset = pos (length s) } in
      put_string-char end s ty ∙ put_at_end end s h refl (moved-there b (length s) there)

  -- The pieces of an ASCII text from an offset on are the rest of the text.
  pub retrieve_from :
      (left : ℕ) (b : ApplicationDataBuffer) (s : Text) (k : ℕ)
      → IsAscii s
      → length s < size_limit
      → b.type ≡ ai_char
      → 2 ≤ b.buflen
      → get_data b ≢ 0
      → b.cell_offset ≡ pos k
      → k < length s
      → length s ≤ k + left
      → (pieces : List Text) × (retrieve p left b s
          ≡ some (pieces, record b { cell_offset = pos (length s) }))
        × (joined pieces ≡ drop k s)
  unfolding retrieve
  retrieve_from zero b s k h small ty two there at_k lt fuel = absurd (omega arith)
  retrieve_from (suc left) b s k h small ty two there at_k lt fuel =
      let call =
        put_string-char b s ty ∙ put_str-ascii b s k h (ap pos_part at_k) lt small two there in
      elim (dec_lt (length s) (k + b.buflen)) [
        | yes less ↦
            let parts = finish-success b s k less lt small at_k in
            let whole = take_all (b.buflen - 1) (drop k s) (omega (arith, length-drop k s)) in
            (
              drop k s ∷ [],
              rw (retrieve, call, parts.0, parts.1, piece b s k h, whole),
              append-nil (drop k s),
            )
        | no more ↦
            let parts = finish-truncated b s k (omega arith) small two in
            let b' = record b { cell_offset = pos (k + (b.buflen - 1)) } in
            let rest =
              retrieve_from left b' s (k + (b.buflen - 1)) h small ty two
                (moved-there b (k + (b.buflen - 1)) there) refl (omega arith) (omega arith) in
            (
              take (b.buflen - 1) (drop k s) ∷ rest.0,
              rw (retrieve, call, parts.0, parts.1, piece b s k h, rest.1),
              ap (◌++◌ (take (b.buflen - 1) (drop k s)))
                    (rest.2 ∙ sym (drop-drop (b.buflen - 1) k s))
                  ∙ take-append-drop (b.buflen - 1) (drop k s),
            )
      ]
