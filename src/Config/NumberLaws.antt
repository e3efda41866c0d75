-- ===== src/Config/NumberLaws.antt =====
-- Which texts are taken for a number, and what is stored for them.
use amazon_timestream_odbc_d.Base.{
  le→ltb, length, is_empty, ℤ, negsuc, Text, ℕ, ◌-◌, ◌≤◌, ◌<◌, ◌≡◌, refl, sym, ap, ◌∙◌, ◌↔◌, ◌⊎◌,
  inl, inr, Bool, true, false, [], ◌∷◌, arith,
}
use amazon_timestream_odbc_d.Config.Texts.{all_digits, decimal}
use amazon_timestream_odbc_d.Config.Settings.{set_to, SettableValue, Configuration}
use amazon_timestream_odbc_d.Config.Reports.{warn-cfg}
use amazon_timestream_odbc_d.Config.Attributes.{
  attribute_of, warn, uint32_max, check_number, to_int32, put_number, handle_attribute,
  handle_attribute_pair, Attribute, Parsed, NumberCheck, req_timeout_key, connection_timeout_key,
  max_retry_count_client_key, max_connections_key, max_row_per_page_key, is_missing,
  has_unexpected_characters, is_too_large, is_out_of_range, number,
}

-- A text of digits, shorter than the bound, whose number lies between `low` and the largest
-- `uint32_t`.
abbrev pub IsNumber : ℕ → ℕ → Text → ℕ → Type 0
IsNumber string_size low value n =
    (0 < length value)
    × (all_digits value ≡ true)
    × (length value < string_size)
    × (decimal value ≡ n)
    × (low ≤ n)
    × (n ≤ uint32_max)

is_empty-cases :
    (s : Text) → ((is_empty s ≡ true) × (length s ≡ 0)) ⊎ ((is_empty s ≡ false) × (0 < length s))
is_empty-cases [] = inl (refl, refl)
is_empty-cases (c ∷ cs) = inr (refl, omega arith)

-- A text is accepted as the number exactly when it is not empty, consists of digits, is shorter
-- than the bound, and stands for that number, which is at least `low` and fits a `uint32_t`.
pub check_number_iff :
    (string_size low : ℕ) (value : Text) (n : ℕ)
    → (check_number string_size low value ≡ number n) ↔ IsNumber string_size low value n
unfolding check_number
check_number_iff string_size low value n = elim (is_empty-cases value) [
  | inl (e, l) ↦ (λ h. ground arith, λ h. ground arith)
  | inr (e, l) ↦ (λ h. ground arith, λ h. ground arith)
]

-- The attributes with a number: the least number allowed, and where it is stored.
pub data IsNumeric : Attribute → ℕ → (Configuration → SettableValue ℤ) → Type 0 where
  has_req_timeout : IsNumeric req_timeout_key 1 (λ c. c.req_timeout)
  has_connection_timeout : IsNumeric connection_timeout_key 1 (λ c. c.connection_timeout)
  has_max_retry_count_client :
      IsNumeric max_retry_count_client_key 0 (λ c. c.max_retry_count_client)
  has_max_connections : IsNumeric max_connections_key 1 (λ c. c.max_connections)
  has_max_row_per_page : IsNumeric max_row_per_page_key 0 (λ c. c.max_row_per_page)

module _ (string_size low : ℕ) (name key value : Text) (setter : ℤ → Configuration)
    (p : Parsed) where
  -- A number is stored; any other text is reported.
  abbrev PutCases : Parsed → Type 0
  PutCases p' =
      ((n : ℕ) × IsNumber string_size low value n × (p' ≡ record p { cfg = setter (to_int32 n) }))
      ⊎ (((n : ℕ) → ¬ IsNumber string_size low value n) × ((m : Text) × (p' ≡ warn m p)))

  refused :
      (check : NumberCheck)
      → check_number string_size low value ≡ check
      → ((n : ℕ) → ¬ (check ≡ number n))
      → (n : ℕ) → ¬ IsNumber string_size low value n
  refused check e other_than n h =
      other_than n (sym e ∙ (check_number_iff string_size low value n).1 h)

  put_check :
      (check : NumberCheck)
      → check_number string_size low value ≡ check
      → PutCases (put_number check name key value setter p)
  unfolding put_number
  put_check (number n) e = inl (n, (check_number_iff string_size low value n).0 e, refl)
  put_check is_missing e = inr (refused is_missing e (λ n h. cc), (_, refl))
  put_check has_unexpected_characters e =
      inr (refused has_unexpected_characters e (λ n h. cc), (_, refl))
  put_check is_too_large e = inr (refused is_too_large e (λ n h. cc), (_, refl))
  put_check is_out_of_range e = inr (refused is_out_of_range e (λ n h. cc), (_, refl))

  pub put_number-cases :
      PutCases (put_number (check_number string_size low value) name key value setter p)
  put_number-cases = put_check (check_number string_size low value) refl

module _ (string_size : ℕ) (is_valid_directory : Text → Bool) (key value : Text) (p : Parsed) where
  -- Such an attribute is handled by `put_number`, over a setter of the place.
  abbrev Handled : Attribute → ℕ → (Configuration → SettableValue ℤ) → Parsed → Type 0
  Handled a low get p' =
      (name : Text) × (setter : ℤ → Configuration) × (p'
        ≡ put_number (check_number string_size low value) name key value setter p)
      × ((n : ℤ) → get (setter n) ≡ set_to n)

  handled :
      {a : Attribute} {low : ℕ} {get : Configuration → SettableValue ℤ}
      → IsNumeric a low get
      → Handled a low get (handle_attribute string_size is_valid_directory a key value p)
  unfolding handle_attribute
  handled has_req_timeout = (_, _, refl, λ n. refl)
  handled has_connection_timeout = (_, _, refl, λ n. refl)
  handled has_max_retry_count_client = (_, _, refl, λ n. refl)
  handled has_max_connections = (_, _, refl, λ n. refl)
  handled has_max_row_per_page = (_, _, refl, λ n. refl)

  pair-Handled :
      {a : Attribute} {low : ℕ} {get : Configuration → SettableValue ℤ}
      → IsNumeric a low get
      → attribute_of key ≡ a
      → Handled a low get (handle_attribute_pair string_size is_valid_directory key value p)
  unfolding handle_attribute_pair
  pair-Handled h e = rw e (handled h)

  -- An attribute with a number, its name in any case of letters: a text of digits for a number in
  -- its range is stored as an `int32_t` and nothing is reported; any other text leaves the whole
  -- configuration as it was, and is reported.
  pub handle_attribute_pair-IsNumeric :
      {a : Attribute} {low : ℕ} {get : Configuration → SettableValue ℤ}
      → IsNumeric a low get
      → attribute_of key ≡ a
      → let p' = handle_attribute_pair string_size is_valid_directory key value p in
        ((n : ℕ) × IsNumber string_size low value n
          × (get p'.cfg ≡ set_to (to_int32 n))
          × (p'.diag ≡ p.diag))
        ⊎ (((n : ℕ) → ¬ IsNumber string_size low value n)
            × (p'.cfg ≡ p.cfg)
            × ((m : Text) × (p' ≡ warn m p)))
  handle_attribute_pair-IsNumeric {a} {low} {get} h e =
      let (name, setter, eq, gets) = pair-Handled h e in
      elim (put_number-cases string_size low name key value setter p) [
        | inl (n, is, put) ↦
            inl (
              n,
              is,
              ap (λ q. get q.cfg) (eq ∙ put) ∙ gets (to_int32 n),
              ap (λ q. q.diag) (eq ∙ put),
            )
        | inr (none_is, (m, put)) ↦
            inr (none_is, ap (λ q. q.cfg) (eq ∙ put) ∙ warn-cfg m p, (m, eq ∙ put))
      ]

  -- For an attribute with a number, a text for a number of 2147483648 or more that the tests let
  -- pass is stored as the negative number that differs by 4294967296.
  pub handle_attribute_pair_wraps :
      {a : Attribute} {low : ℕ} {get : Configuration → SettableValue ℤ} (n : ℕ)
      → IsNumeric a low get
      → attribute_of key ≡ a
      → IsNumber string_size low value n
      → 2147483648 ≤ n
      → get (handle_attribute_pair string_size is_valid_directory key value p).cfg
        ≡ set_to (negsuc (uint32_max - n))
  unfolding to_int32
  handle_attribute_pair_wraps {get = get} n h e is big =
      elim (handle_attribute_pair-IsNumeric h e) [
        | inl (m, is', stored, _) ↦
            stored
            ∙ ap (λ z. set_to (to_int32 z)) (sym is'.3 ∙ is.3)
            ∙ rw (le→ltb n 2147483648 big) refl
        | inr (none_is, _, _) ↦ absurd (none_is n is)
      ]
