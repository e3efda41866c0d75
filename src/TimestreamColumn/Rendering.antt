-- ===== src/TimestreamColumn/Rendering.antt =====
-- The text of a nested value, described apart from the buffers that the driver prints it through.
use amazon_timestream_odbc_d.Base.{
  ltb, length, Text, bytes, ℕ, ◌≡◌, refl, sym, ap, ◌∙◌, Bool, true, ◌&&◌, Option, List, [], ◌∷◌,
  ◌++◌, append-nil, append_assoc,
}
use amazon_timestream_odbc_d.TimestreamColumn.{
  pop_back, time_of_point, array_text, enclose, Datum, Data, Points, scalar, time_series, array,
  row, row_without_data, null_value, unset, empty_data, data_then, no_points, point,
  point_without_value,
}
use amazon_timestream_odbc_d.AppBuffer.Ascii.{ascii_text}

abbrev pub join_commas : List Text → Text
join_commas [] = []
join_commas (t ∷ []) = t
join_commas (t ∷ u ∷ us) = t ++ 44 ∷ join_commas (u ∷ us)

-- Brackets around the texts.
abbrev pub bracketed : ℕ → ℕ → List Text → Text
bracketed left right ts = left ∷ (join_commas ts ++ right ∷ [])

abbrev pub array_of : List Text → Text
array_of [] = []
array_of (t ∷ ts) = bracketed 91 93 (t ∷ ts)

abbrev pub point_of : Option Text → Text → Text
point_of t value =
    bytes "{time: " ++ (time_of_point t ++ (bytes ", value: " ++ (value ++ bytes "}")))

unfoldable mutual
  -- A value that is not there has no text.
  pub render : Datum → Text
  render (scalar t) = t
  render (time_series ps) = bracketed 91 93 (render_points ps)
  render (array ds) = array_of (render_all ds)
  render (row ds) = bracketed 40 41 (render_all ds)
  render row_without_data = []
  render null_value = []
  render unset = []

  pub render_all : Data → List Text
  render_all empty_data = []
  render_all (data_then d ds) = render d ∷ render_all ds

  pub render_points : Points → List Text
  render_points no_points = []
  render_points (point t d ps) = point_of t (render d) ∷ render_points ps
  render_points (point_without_value t ps) = point_of t [] ∷ render_points ps

-- An ASCII text that a buffer of 1024 bytes holds.
abbrev pub is_short : Text → Bool
is_short t = ascii_text t && ltb (length t) 1024

unfoldable mutual
  -- The texts of the values inside a value are short.
  pub is_printable : Datum → Bool
  is_printable (scalar t) = true
  is_printable (time_series ps) = points_printable ps
  is_printable (array ds) = all_printable ds
  is_printable (row ds) = all_printable ds
  is_printable row_without_data = true
  is_printable null_value = true
  is_printable unset = true

  pub all_printable : Data → Bool
  all_printable empty_data = true
  all_printable (data_then d ds) = (is_short (render d) && is_printable d) && all_printable ds

  pub points_printable : Points → Bool
  points_printable no_points = true
  points_printable (point t d ps) = (is_short (render d) && is_printable d) && points_printable ps
  points_printable (point_without_value t ps) = points_printable ps

-- The texts with a comma after each, as the driver collects them.
abbrev pub terminated : List Text → Text
terminated [] = []
terminated (t ∷ ts) = (t ++ 44 ∷ []) ++ terminated ts

terminated-join :
    (t : Text) (ts : List Text) → terminated (t ∷ ts) ≡ join_commas (t ∷ ts) ++ 44 ∷ []
terminated-join t [] = append-nil (t ++ 44 ∷ [])
terminated-join t (u ∷ us) =
    ap (◌++◌ (t ++ 44 ∷ [])) (terminated-join u us)
    ∙ append_assoc t (44 ∷ []) (join_commas (u ∷ us) ++ 44 ∷ [])
    ∙ sym (append_assoc t (44 ∷ join_commas (u ∷ us)) (44 ∷ []))

pop_back-append : (s : Text) (c : ℕ) → pop_back (s ++ c ∷ []) ≡ s
pop_back-append [] c = refl
pop_back-append (x ∷ []) c = refl
pop_back-append (x ∷ y ∷ ys) c = ap (◌∷◌ x) (pop_back-append (y ∷ ys) c)

enclose-append :
    (left right : ℕ) (s : Text) → enclose left (s ++ 44 ∷ []) right ≡ left ∷ (s ++ right ∷ [])
enclose-append left right [] = refl
enclose-append left right (x ∷ xs) = ap (λ t. t ++ right ∷ []) (pop_back-append (left ∷ x ∷ xs) 44)

pub enclose-terminated :
    (left right : ℕ) (ts : List Text) → enclose left (terminated ts) right ≡ bracketed left right ts
enclose-terminated left right [] = refl
enclose-terminated left right (t ∷ ts) =
    ap (λ s. enclose left s right) (terminated-join t ts)
    ∙ enclose-append left right (join_commas (t ∷ ts))

array_text-append : (s : Text) → array_text (s ++ 44 ∷ []) ≡ 91 ∷ (s ++ 93 ∷ [])
array_text-append [] = refl
array_text-append (x ∷ xs) = ap (λ t. t ++ 93 ∷ []) (pop_back-append (91 ∷ x ∷ xs) 44)

pub array_text-terminated : (ts : List Text) → array_text (terminated ts) ≡ array_of ts
array_text-terminated [] = refl
array_text-terminated (t ∷ ts) =
    ap array_text (terminated-join t ts) ∙ array_text-append (join_commas (t ∷ ts))
