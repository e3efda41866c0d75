-- ===== src/TimestreamColumn/Nested.antt =====
-- A nested value is put in the application's buffer as the text that describes it.
use amazon_timestream_odbc_d.Base.{
  length, take, negsuc, Text, ◌≤◌, ◌<◌, ◌≡◌, refl, ap, ◌∙◌, ◌≢◌, Bool, true, false, Option, none,
  some, [], ◌∷◌, ◌++◌, append_assoc, arith,
}
use mathlib.Core.Option
use amazon_timestream_odbc_d.TypeTraits.{varchar}
use amazon_timestream_odbc_d.Cursor.{ConversionResult, success, failure}
use amazon_timestream_odbc_d.AppBuffer.{
  new_buffer, apply_offset, element_size, get_element_size, get_data, get_res_len,
  ApplicationDataBuffer,
}
use amazon_timestream_odbc_d.AppBuffer.Platform.{Platform}
use amazon_timestream_odbc_d.AppBuffer.Store.{Outcome}
use amazon_timestream_odbc_d.AppBuffer.Strings.{finish_copy}
use amazon_timestream_odbc_d.AppBuffer.Puts.{put_null, put_string}
use amazon_timestream_odbc_d.AppBuffer.Ascii.{IsAscii, take_all, ascii_copy, IsExact}
use amazon_timestream_odbc_d.AppBuffer.Retrieval.{size_limit, put_str-ascii, put_string-char, piece}
use amazon_timestream_odbc_d.AppBuffer.Parts.{call_empty}
use amazon_timestream_odbc_d.TimestreamColumn.{
  tmp_buf, text_in, point_text, array_text, enclose, succeeded, parse_scalar_type, put_text,
  parse_datum, element_texts, point_texts, read_to_buffer, Datum, Data, Points, scalar, time_series,
  array, row, row_without_data, null_value, unset, empty_data, data_then, no_points, point,
  point_without_value,
}
use amazon_timestream_odbc_d.TimestreamColumn.Rendering.{
  bracketed, array_of, point_of, render, render_all, render_points, is_short, is_printable,
  all_printable, points_printable, terminated, enclose-terminated, array_text-terminated,
}

tmp_there : get_data tmp_buf ≢ 0
unfolding new_buffer get_data apply_offset get_element_size element_size
tmp_there e = omega arith

point_text-point_of : (t : Option Text) (v : Text) → point_text t v ≡ point_of t v ++ 44 ∷ []
point_text-point_of t v = simp append_assoc

-- A value that has a text.
abbrev pub has_text : Datum → Bool
has_text (scalar t) = true
has_text (time_series ps) = true
has_text (array ds) = true
has_text (row ds) = true
has_text _ = false

module _ (p : Platform) (exact : IsExact p) where
  -- The text that is read back from the local buffer.
  read_back :
      (t : Text)
      → is_short t ≡ true
      → (o : Outcome) × (put_string p tmp_buf t ≡ some o) × (text_in o.stored ≡ t)
  unfolding new_buffer
  read_back [] h = (
    record {
      result = ConversionResult.no_data;
      stored = none;
      length_stored = none;
      after = tmp_buf;
    },
    put_string-char p exact tmp_buf [] refl ∙ call_empty p exact tmp_buf tmp_there,
    refl,
  )
  read_back (c ∷ cs) h =
      let ascii : IsAscii (c ∷ cs) = ground arith in
      let short : length (c ∷ cs) < 1024 = ground arith in
      (
        finish_copy tmp_buf false 1 (length (c ∷ cs)) 0 (ascii_copy (c ∷ cs) 1024),
        put_string-char p exact tmp_buf (c ∷ cs) refl
            ∙ put_str-ascii p exact tmp_buf (c ∷ cs) 0 ascii refl (omega arith) (omega arith)
                (omega arith) tmp_there,
        piece p exact tmp_buf (c ∷ cs) 0 ascii ∙ take_all 1023 (c ∷ cs) (omega arith),
      )

  null_read_back : (o : Outcome) × (succeeded (put_null tmp_buf) ≡ some o) × (text_in o.stored ≡ [])
  unfolding put_null get_res_len apply_offset new_buffer
  null_read_back = (
    record { result = success; stored = none; length_stored = some (negsuc 0); after = tmp_buf },
    refl,
    refl,
  )

  -- What a value of a column of texts, read into the local buffer, leaves there.
  abbrev LeavesText : Datum → Type 0
  LeavesText d =
      (o : Outcome) × (parse_datum p varchar d tmp_buf ≡ some o) × (text_in o.stored ≡ render d)

  put_text-read_back :
      (s : Option Text) (t : Text)
      → s ≡ some t
      → is_short t ≡ true
      → (o : Outcome) × (put_text p tmp_buf s ≡ some o) × (text_in o.stored ≡ t)
  put_text-read_back s t e h = let r = read_back t h in (r.0, rw e r.1, r.2)

  mutual
    unfolding parse_datum render is_printable parse_scalar_type

    leaves_text : (d : Datum) → is_short (render d) ≡ true → is_printable d ≡ true → LeavesText d
    leaves_text (scalar t) h k = read_back t h
    leaves_text (time_series ps) h k =
        put_text-read_back (Option.map (λ s. enclose 91 s 93) (point_texts p varchar ps))
          (bracketed 91 93 (render_points ps))
          (rw (points ps k) (ap some (enclose-terminated 91 93 (render_points ps)))) h
    leaves_text (array ds) h k =
        put_text-read_back (Option.map array_text (element_texts p varchar ds))
          (array_of (render_all ds))
          (rw (elements ds k) (ap some (array_text-terminated (render_all ds)))) h
    leaves_text (row ds) h k =
        put_text-read_back (Option.map (λ s. enclose 40 s 41) (element_texts p varchar ds))
          (bracketed 40 41 (render_all ds))
          (rw (elements ds k) (ap some (enclose-terminated 40 41 (render_all ds)))) h
    leaves_text row_without_data h k = (
      record {
        result = ConversionResult.no_data;
        stored = none;
        length_stored = none;
        after = tmp_buf;
      },
      refl,
      refl,
    )
    leaves_text null_value h k = null_read_back
    leaves_text unset h k = (
      record { result = failure; stored = none; length_stored = none; after = tmp_buf },
      refl,
      refl,
    )

    elements :
        (ds : Data)
        → all_printable ds ≡ true
        → element_texts p varchar ds ≡ some (terminated (render_all ds))
    elements empty_data k = refl
    elements (data_then d ds) k =
        let child = leaves_text d (ground arith) (ground arith) in
        rw (child.1, elements ds (ground arith))
          (ap some (ap (λ t. (t ++ 44 ∷ []) ++ terminated (render_all ds)) child.2))

    points :
        (ps : Points)
        → points_printable ps ≡ true
        → point_texts p varchar ps ≡ some (terminated (render_points ps))
    points no_points k = refl
    points (point t d ps) k =
        let child = leaves_text d (ground arith) (ground arith) in
        rw (child.1, points ps (ground arith), child.2)
          (ap (λ s. some (s ++ terminated (render_points ps))) (point_text-point_of t (render d)))
    points (point_without_value t ps) k =
        rw (points ps k)
          (ap (λ s. some (s ++ terminated (render_points ps))) (point_text-point_of t []))

  -- A scalar, an array, a row or a time series of a column whose scalars are texts is put in the
  -- buffer as the string that its description gives: the elements in brackets with commas between
  -- them, each printed in the same way. The text of each value inside is ASCII and of fewer than
  -- 1024 bytes.
  pub read_to_buffer-render :
      (b : ApplicationDataBuffer) (d : Datum)
      → has_text d ≡ true
      → is_printable d ≡ true
      → read_to_buffer p (some varchar) d b ≡ put_string p b (render d)
  unfolding read_to_buffer parse_datum render is_printable parse_scalar_type
  read_to_buffer-render b (array ds) n k =
      rw (elements ds k) (ap (put_string p b) (array_text-terminated (render_all ds)))
  read_to_buffer-render b (row ds) n k =
      rw (elements ds k) (ap (put_string p b) (enclose-terminated 40 41 (render_all ds)))
  read_to_buffer-render b (time_series ps) n k =
      rw (points ps k) (ap (put_string p b) (enclose-terminated 91 93 (render_points ps)))
  read_to_buffer-render b (scalar t) n k = refl
  read_to_buffer-render b row_without_data n k = absurd (cc)
  read_to_buffer-render b null_value n k = absurd (cc)
  read_to_buffer-render b unset n k = absurd (cc)

  long_read_back :
      (t : Text)
      → IsAscii t
      → 1024 ≤ length t
      → length t < size_limit
      → (o : Outcome) × (put_string p tmp_buf t ≡ some o) × (text_in o.stored ≡ take 1023 t)
  unfolding new_buffer
  long_read_back t h long small = (
    finish_copy tmp_buf false 1 (length t) 0 (ascii_copy t 1024),
    put_string-char p exact tmp_buf t refl
        ∙ put_str-ascii p exact tmp_buf t 0 h refl (omega arith) small (omega arith) tmp_there,
    piece p exact tmp_buf t 0 h,
  )

  -- An array of one ASCII text of 1024 bytes or more, below 2 ^ 62, is put as a string that holds
  -- the first 1023 of them only, with the result that such a string has.
  pub read_to_buffer_cuts :
      (b : ApplicationDataBuffer) (t : Text)
      → IsAscii t
      → 1024 ≤ length t
      → length t < size_limit
      → read_to_buffer p (some varchar) (array (data_then (scalar t) empty_data)) b
        ≡ put_string p b (91 ∷ (take 1023 t ++ 93 ∷ []))
  unfolding read_to_buffer parse_datum parse_scalar_type
  read_to_buffer_cuts b t h long small =
      let r = long_read_back t h long small in
      rw (r.1, r.2) (ap (put_string p b) (array_text-terminated (take 1023 t ∷ [])))
