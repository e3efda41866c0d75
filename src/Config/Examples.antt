-- ===== src/Config/Examples.antt =====
-- A connection string with three attributes, and the theorems at it.
use amazon_timestream_odbc_d.Base.{
  ◌==◌, negsuc, Text, bytes, ℕ, ◌≡◌, refl, ◌↔◌, ◌⊎◌, Bool, true, not, ◌&&◌, some, [], ◌∷◌, arith,
}
use amazon_timestream_odbc_d.Diagnostic.Storage.{new_storage}
use amazon_timestream_odbc_d.Config.Texts.{
  to_lower, all_digits, decimal_from, decimal, drop_while, drop_last_while, trim,
}
use amazon_timestream_odbc_d.Config.Settings.{
  set_to, log_level_from_string, log_level_to_string, default_configuration, debug_level,
}
use amazon_timestream_odbc_d.Config.Attributes.{
  attribute_of, warn, check_number, to_int32, handle_attribute_pair, Parsed, number,
}
use amazon_timestream_odbc_d.Config.Parser.{unbrace, parse_connection_string}
use amazon_timestream_odbc_d.Config.TextLaws.{IsFree}
use amazon_timestream_odbc_d.Config.NameLaws.{log_level_from_string-log_level_to_string}
use amazon_timestream_odbc_d.Config.ParserLaws.{
  handle_all, parse_connection_string-print_attributes, IsAttribute,
}
use amazon_timestream_odbc_d.Config.NumberLaws.{
  IsNumber, check_number_iff, handle_attribute_pair-IsNumeric, handle_attribute_pair_wraps,
  has_req_timeout,
}
use amazon_timestream_odbc_d.Config.Reports.{AtMostOne, handle_attribute_pair-AtMostOne}

abbrev is_free : ℕ → Text → Bool
is_free c [] = true
is_free c (x ∷ xs) = not (x == c) && is_free c xs

is_free-IsFree : (c : ℕ) (xs : Text) → is_free c xs ≡ true → IsFree c xs
is_free-IsFree c [] h = tt
is_free-IsFree c (x ∷ xs) h = ((λ e. ground arith), is_free-IsFree c xs (ground arith))

abbrev start : Parsed
start = record { cfg = default_configuration; diag = some new_storage }

abbrev any_directory : Text → Bool
any_directory path = true

abbrev region_attribute : Text × Text
region_attribute = (bytes "Region", bytes "eu-west-1")

abbrev timeout_attribute : Text × Text
timeout_attribute = (bytes "RequestTimeout", bytes "5000")

region_attribute-IsAttribute : IsAttribute region_attribute
unfolding trim drop_while drop_last_while unbrace
region_attribute-IsAttribute = record {
  named = omega arith;
  key_free = is_free-IsFree 59 region_attribute.0 refl;
  value_free = is_free-IsFree 59 region_attribute.1 refl;
  value_plain = is_free-IsFree 61 region_attribute.1 refl;
  key_trimmed = refl;
  value_trimmed = refl;
  value_whole = refl;
  value_ended = refl;
}

timeout_attribute-IsAttribute : IsAttribute timeout_attribute
unfolding trim drop_while drop_last_while unbrace
timeout_attribute-IsAttribute = record {
  named = omega arith;
  key_free = is_free-IsFree 59 timeout_attribute.0 refl;
  value_free = is_free-IsFree 59 timeout_attribute.1 refl;
  value_plain = is_free-IsFree 61 timeout_attribute.1 refl;
  key_trimmed = refl;
  value_trimmed = refl;
  value_whole = refl;
  value_ended = refl;
}

parse_connection_string-print_attributes_example :
    parse_connection_string 32 any_directory (bytes "RequestTimeout=5000;Region=eu-west-1") start
    ≡ handle_all 32 any_directory (region_attribute ∷ timeout_attribute ∷ []) start
parse_connection_string-print_attributes_example =
    parse_connection_string-print_attributes 32 any_directory
      (region_attribute ∷ timeout_attribute ∷ []) start
      (region_attribute-IsAttribute, (timeout_attribute-IsAttribute, tt))

check_number_iff_example :
    (check_number 32 1 (bytes "5000") ≡ number 5000) ↔ IsNumber 32 1 (bytes "5000") 5000
check_number_iff_example = check_number_iff 32 1 (bytes "5000") 5000

abbrev with_timeout : Text → Parsed
with_timeout value = handle_attribute_pair 32 any_directory (bytes "RequestTimeout") value start

handle_attribute_pair-IsNumeric_example :
    let p' = with_timeout (bytes "12a") in
    ((n : ℕ) × IsNumber 32 1 (bytes "12a") n
      × (p'.cfg.req_timeout ≡ set_to (to_int32 n))
      × (p'.diag ≡ start.diag))
    ⊎ (((n : ℕ) → ¬ IsNumber 32 1 (bytes "12a") n)
        × (p'.cfg ≡ start.cfg)
        × ((m : Text) × (p' ≡ warn m start)))
unfolding attribute_of to_lower
handle_attribute_pair-IsNumeric_example =
    handle_attribute_pair-IsNumeric 32 any_directory (bytes "RequestTimeout") (bytes "12a") start
      has_req_timeout refl

handle_attribute_pair_wraps_example :
    (with_timeout (bytes "4294967295")).cfg.req_timeout ≡ set_to (negsuc 0)
unfolding attribute_of to_lower all_digits decimal decimal_from
handle_attribute_pair_wraps_example =
    handle_attribute_pair_wraps 32 any_directory (bytes "RequestTimeout") (bytes "4294967295") start
      4294967295 has_req_timeout refl
      (omega arith, refl, omega arith, refl, omega arith, omega arith) (omega arith)

handle_attribute_pair-AtMostOne_example :
    AtMostOne start.diag
      (handle_attribute_pair 32 any_directory (bytes "Colour") (bytes "red") start).diag
handle_attribute_pair-AtMostOne_example =
    handle_attribute_pair-AtMostOne 32 any_directory (bytes "Colour") (bytes "red") start

log_level_from_string-log_level_to_string_example : log_level_from_string (bytes "4 ") ≡ debug_level
unfolding trim drop_while drop_last_while log_level_to_string
log_level_from_string-log_level_to_string_example =
    log_level_from_string-log_level_to_string debug_level (bytes "4 ") refl
