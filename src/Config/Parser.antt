-- ===== src/Config/Parser.antt =====
-- `ParseConnectionString`, `ParseConfigAttributes` and `StringToBool`
-- (src/odbc/src/config/connection_string_parser.cpp). The attributes are taken from the last one to
-- the first. A round of the loop removes at least one character, so the length of the string is
-- enough fuel.
use amazon_timestream_odbc_d.Base.{
  ltb, ◌==◌, if◌then◌else◌, length, get_elem?, take, drop, Text, bytes, text_eq, ℕ, zero, suc, ◌+◌,
  ◌-◌, Bool, false, ◌&&◌, Option, none, some, [], ◌∷◌,
}
use amazon_timestream_odbc_d.Config.Texts.{to_lower, drop_last_while, trim, rfind}
use amazon_timestream_odbc_d.Config.Attributes.{handle_attribute_pair, Parsed}

-- A value in braces loses them. `substr(1, size - 2)`.
abbrev pub is_braced : Text → Bool
is_braced value = elim (get_elem? value 0) [
  | none ↦ false
  | some c ↦ elim (get_elem? value (length value - 1)) [
    | none ↦ false
    | some d ↦ (c == 123) && (d == 125)
  ]
]

unfoldable pub unbrace : Text → Text
unbrace value = if is_braced value then take (length value - 2) (drop 1 value) else value

abbrev pub found_or_zero : Option ℕ → ℕ
found_or_zero none = 0
found_or_zero (some i) = i

abbrev starts_nul : Text → Bool
starts_nul [] = false
starts_nul (c ∷ cs) = c == 0

-- The text up to the first of two NULs in a row, that one included.
unfoldable pub until_double_nul : Text → Text
until_double_nul [] = []
until_double_nul (c ∷ cs) =
    let rest = until_double_nul cs in if c == 0 && starts_nul cs then c ∷ [] else c ∷ rest

module _ (string_size : ℕ) (is_valid_directory : Text → Bool) where
  -- The part of a round behind `attr_begin`: the attribute from there to the end of the string.
  unfoldable pub parse_attribute : ℕ → Text → Parsed → Parsed
  parse_attribute attr_begin s p =
      let attr_eq_pos = found_or_zero (rfind 61 s) in
      if ltb attr_begin attr_eq_pos
      then handle_attribute_pair string_size is_valid_directory
          (trim (take (attr_eq_pos - attr_begin) (drop attr_begin s)))
          (unbrace (trim (drop (attr_eq_pos + 1) s))) p
      else p

  unfoldable pub parse_loop : ℕ → ℕ → Text → Parsed → Parsed
  parse_loop zero delimiter s p = p
  parse_loop (suc fuel) delimiter [] p = p
  parse_loop (suc fuel) delimiter (c ∷ cs) p = elim (rfind delimiter (c ∷ cs)) [
    | none ↦ parse_attribute 0 (c ∷ cs) p
    | some i ↦ parse_loop fuel delimiter (take i (c ∷ cs)) (parse_attribute (i + 1) (c ∷ cs) p)
  ]

  unfoldable pub parse_with : ℕ → Text → Parsed → Parsed
  parse_with delimiter str p =
      let connect_str = drop_last_while (λ c. c == 0) str in
      parse_loop (length connect_str) delimiter connect_str p

  -- The overload for a `std::string`.
  unfoldable pub parse_connection_string : Text → Parsed → Parsed
  parse_connection_string str p = parse_with 59 str p

  -- `ParseConfigAttributes`: a list of attributes each ended by a NUL, ended by one more.
  unfoldable pub parse_config_attributes : Text → Parsed → Parsed
  parse_config_attributes str p = parse_with 0 (until_double_nul str) p

-- `BoolParseResult::Type`.
pub data BoolParseResult : Type 0 where
  ai_true ai_false ai_unrecognized : BoolParseResult

unfoldable pub string_to_bool : Text → BoolParseResult
string_to_bool value =
    let lowered = to_lower value in
    if text_eq lowered (bytes "true")
    then ai_true
    else if text_eq lowered (bytes "false")
    then ai_false
    else ai_unrecognized
