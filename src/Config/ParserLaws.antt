-- ===== src/Config/ParserLaws.antt =====
-- Parsing a connection string that was put together from attributes.
use amazon_timestream_odbc_d.Base.{
  ◌==◌, lt→ltb, length, take, length-append, Text, ℕ, zero, suc, ◌+◌, ◌≤◌, ◌<◌, ◌≡◌, refl, sym, ap,
  subst, ◌∙◌, Bool, none, some, List, [], ◌∷◌, ◌++◌, append_assoc, arith,
}
use amazon_timestream_odbc_d.Config.Texts.{drop_last_while, trim, rfind}
use amazon_timestream_odbc_d.Config.Attributes.{handle_attribute_pair, Parsed}
use amazon_timestream_odbc_d.Config.Parser.{
  unbrace, parse_attribute, parse_loop, parse_with, parse_connection_string,
}
use amazon_timestream_odbc_d.Config.TextLaws.{
  IsFree, rfind-free, rfind-last, IsFree-append, drop-length_next, take-length, take-drop,
  drop_last_while-append, drop_last_while-kept,
}

-- An attribute that can be written as it is: the name has no ';', the value neither ';' nor '=', both
-- are trimmed, the name is not empty, and the value has no braces to lose and no NUL at its end.
pub record IsAttribute (a : Text × Text) : Type 0 where
  pub named : 0 < length a.0
  pub key_free : IsFree 59 a.0
  pub value_free : IsFree 59 a.1
  pub value_plain : IsFree 61 a.1
  pub key_trimmed : trim a.0 ≡ a.0
  pub value_trimmed : trim a.1 ≡ a.1
  pub value_whole : unbrace a.1 ≡ a.1
  pub value_ended : drop_last_while (λ c. c == 0) a.1 ≡ a.1

abbrev pub AllAttributes : List (Text × Text) → Type 0
AllAttributes [] = Unit {0}
AllAttributes (a ∷ rest) = IsAttribute a × AllAttributes rest

abbrev pub print_attribute : Text × Text → Text
print_attribute a = a.0 ++ 61 ∷ a.1

-- The connection string of some attributes, the last one first.
abbrev pub print_attributes : List (Text × Text) → Text
print_attributes [] = []
print_attributes (a ∷ []) = print_attribute a
print_attributes (a ∷ b ∷ rest) = print_attributes (b ∷ rest) ++ 59 ∷ print_attribute a

module _ (string_size : ℕ) (is_valid_directory : Text → Bool) where
  abbrev pub handle_all : List (Text × Text) → Parsed → Parsed
  handle_all [] p = p
  handle_all (a ∷ rest) p =
      handle_all rest (handle_attribute_pair string_size is_valid_directory a.0 a.1 p)

  attribute_at :
      (pre : Text) (a : Text × Text) (p : Parsed)
      → IsAttribute a
      → parse_attribute string_size is_valid_directory (length pre) (pre ++ print_attribute a) p
        ≡ handle_attribute_pair string_size is_valid_directory a.0 a.1 p
  unfolding parse_attribute
  attribute_at pre (k, v) p h =
      rw (sym (append_assoc pre k (61 ∷ v)), rfind-last 61 (pre ++ k) v h.value_plain)
        (rw (lt→ltb (length pre) (length (pre ++ k)) (omega (arith, length-append pre k, h.named)))
          (rw (take-drop pre k (61 ∷ v)) (
            rw (drop-length_next (pre ++ k) 61 v)
              (rw (h.key_trimmed, h.value_trimmed, h.value_whole) refl))))

  attribute_after :
      (pre : Text) (a : Text × Text) (p : Parsed)
      → IsAttribute a
      → parse_attribute string_size is_valid_directory
          (length pre + 1)
          (pre ++ 59 ∷ print_attribute a)
          p
        ≡ handle_attribute_pair string_size is_valid_directory a.0 a.1 p
  attribute_after pre a p h =
      subst
        (λ n.
          parse_attribute string_size is_valid_directory n (pre ++ 59 ∷ print_attribute a) p
          ≡ handle_attribute_pair string_size is_valid_directory a.0 a.1 p)
        (length-append pre (59 ∷ []))
        (ap (λ s. parse_attribute string_size is_valid_directory (length (pre ++ 59 ∷ [])) s p)
            (sym (append_assoc pre (59 ∷ []) (print_attribute a)))
          ∙ attribute_at (pre ++ 59 ∷ []) a p h)

  loop_last :
      (fuel d : ℕ) (s : Text) (p : Parsed)
      → 0 < length s
      → length s ≤ fuel
      → rfind d s ≡ none
      → parse_loop string_size is_valid_directory fuel d s p
        ≡ parse_attribute string_size is_valid_directory 0 s p
  unfolding parse_loop
  loop_last fuel d [] p full enough e = absurd (omega arith)
  loop_last zero d (c ∷ cs) p full enough e = absurd (omega arith)
  loop_last (suc fuel) d (c ∷ cs) p full enough e = rw (e, parse_loop) refl

  loop_more :
      (fuel d i : ℕ) (s : Text) (p : Parsed)
      → 0 < length s
      → rfind d s ≡ some i
      → parse_loop string_size is_valid_directory (suc fuel) d s p
        ≡ parse_loop string_size is_valid_directory fuel d
            (take i s)
            (parse_attribute string_size is_valid_directory (i + 1) s p)
  unfolding parse_loop
  loop_more fuel d i [] p full e = absurd (omega arith)
  loop_more fuel d i (c ∷ cs) p full e = rw (e, parse_loop) refl

  print_attribute-IsFree : (a : Text × Text) → IsAttribute a → IsFree 59 (print_attribute a)
  print_attribute-IsFree (k, v) h =
      IsFree-append 59 k (61 ∷ v) h.key_free ((λ e. omega (arith, e)), h.value_free)

  attribute_length : (a : Text × Text) → 0 < length (print_attribute a)
  attribute_length (k, v) = omega (arith, length-append k (61 ∷ v))

  loop_all :
      (fuel : ℕ) (attributes : List (Text × Text)) (p : Parsed)
      → AllAttributes attributes
      → length (print_attributes attributes) ≤ fuel
      → parse_loop string_size is_valid_directory fuel 59 (print_attributes attributes) p
        ≡ handle_all attributes p
  unfolding parse_loop
  loop_all zero [] p h enough = refl
  loop_all (suc fuel) [] p h enough = refl
  loop_all fuel (a ∷ []) p (h, _) enough =
      loop_last fuel 59 (print_attribute a) p (attribute_length a) enough
        (rfind-free 59 (print_attribute a) (print_attribute-IsFree a h))
      ∙ attribute_at [] a p h
  loop_all zero (a ∷ b ∷ rest) p (h, hs) enough =
      absurd (omega (arith, length-append (print_attributes (b ∷ rest)) (59 ∷ print_attribute a)))
  loop_all (suc fuel) (a ∷ b ∷ rest) p (h, hs) enough =
      let pre = print_attributes (b ∷ rest) in
      let size = length-append pre (59 ∷ print_attribute a) in
      loop_more fuel 59 (length pre) (pre ++ 59 ∷ print_attribute a) p (omega (arith, size))
        (rfind-last 59 pre (print_attribute a) (print_attribute-IsFree a h))
      ∙ rw (take-length pre (59 ∷ print_attribute a), attribute_after pre a p h)
          (loop_all fuel (b ∷ rest) (handle_attribute_pair string_size is_valid_directory a.0 a.1 p)
            hs (omega (arith, size)))

  whole_attribute :
      (a : Text × Text)
      → IsAttribute a
      → drop_last_while (λ c. c == 0) (print_attribute a) ≡ print_attribute a
  whole_attribute (k, v) h =
      drop_last_while-append (λ c. c == 0) k 61 v
        (drop_last_while-kept (λ c. c == 0) 61 v h.value_ended refl)

  whole :
      (attributes : List (Text × Text))
      → AllAttributes attributes
      → drop_last_while (λ c. c == 0) (print_attributes attributes) ≡ print_attributes attributes
  unfolding drop_last_while
  whole [] h = refl
  whole (a ∷ []) (h, _) = whole_attribute a h
  whole (a ∷ b ∷ rest) (h, _) =
      drop_last_while-append (λ c. c == 0) (print_attributes (b ∷ rest)) 59 (print_attribute a)
        (drop_last_while-kept (λ c. c == 0) 59 (print_attribute a) (whole_attribute a h) refl)

  -- Attributes with non-empty names, without ';' in them and without '=' in the values, trimmed,
  -- and with no braces around the values and no NUL at their ends, are written one behind the
  -- other: parsing that connection string handles exactly these attributes, from the last one to
  -- the first.
  pub parse_connection_string-print_attributes :
      (attributes : List (Text × Text)) (p : Parsed)
      → AllAttributes attributes
      → parse_connection_string string_size is_valid_directory (print_attributes attributes) p
        ≡ handle_all attributes p
  unfolding parse_connection_string parse_with
  parse_connection_string-print_attributes attributes p h =
      rw (whole attributes h)
        (loop_all (length (print_attributes attributes)) attributes p h (omega arith))
