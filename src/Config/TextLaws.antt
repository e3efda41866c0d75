-- ===== src/Config/TextLaws.antt =====
-- Searches and cuts of a text at a character.
use native.Mathlib.Numerals.{unary_clauses}
use amazon_timestream_odbc_d.Base.{
  length, take, drop, Text, ℕ, ◌+◌, ◌-◌, ◌≡◌, refl, ap, ◌≢◌, Bool, false, none, some, List, [], ◌∷◌,
  ◌++◌, arith,
}
use amazon_timestream_odbc_d.Config.Texts.{drop_last_while, rfind}

-- The text does not have the character.
abbrev pub IsFree : ℕ → Text → Type 0
IsFree c [] = Unit {0}
IsFree c (x ∷ xs) = (x ≢ c) × IsFree c xs

pub rfind-free : (c : ℕ) (xs : Text) → IsFree c xs → rfind c xs ≡ none
unfolding rfind
rfind-free c [] f = refl
rfind-free c (x ∷ xs) (n, f) = rw (rfind-free c xs f) (ground arith)

pub rfind-last : (c : ℕ) (xs ys : Text) → IsFree c ys → rfind c (xs ++ c ∷ ys) ≡ some (length xs)
unfolding rfind
rfind-last c [] ys f = rw (rfind-free c ys f) (ground arith)
rfind-last c (x ∷ xs) ys f = rw (rfind-last c xs ys f) refl

pub IsFree-append : (c : ℕ) (xs ys : Text) → IsFree c xs → IsFree c ys → IsFree c (xs ++ ys)
IsFree-append c [] ys f g = g
IsFree-append c (x ∷ xs) ys (n, f) g = (n, IsFree-append c xs ys f g)

module _ {ℓ} {A : Type ℓ} where
  pub drop-length : (xs ys : List A) → drop (length xs) (xs ++ ys) ≡ ys
  drop-length [] ys = refl
  drop-length (x ∷ xs) ys = drop-length xs ys

  pub drop-length_next :
      (xs : List A) (y : A) (ys : List A) → drop (length xs + 1) (xs ++ y ∷ ys) ≡ ys
  drop-length_next [] y ys = refl
  drop-length_next (x ∷ xs) y ys =
      simp unary_clauses (simp unary_clauses at (drop-length_next xs y ys))

  pub take-length : (xs ys : List A) → take (length xs) (xs ++ ys) ≡ xs
  take-length [] ys = refl
  take-length (x ∷ xs) ys = ap (λ t. x ∷ t) (take-length xs ys)

  -- What stands between two places of a text.
  pub take-drop :
      (xs ys zs : List A)
      → take (length (xs ++ ys) - length xs) (drop (length xs) (xs ++ ys ++ zs)) ≡ ys
  take-drop [] ys zs = simp unary_clauses (take-length ys zs)
  take-drop (x ∷ xs) ys zs = simp unary_clauses (take-drop xs ys zs)

-- Behind a text that keeps its end, what stands in front is kept too.
pub drop_last_while-append :
    (f : ℕ → Bool) (xs : Text) (y : ℕ) (ys : Text)
    → drop_last_while f (y ∷ ys) ≡ y ∷ ys
    → drop_last_while f (xs ++ y ∷ ys) ≡ xs ++ y ∷ ys
unfolding drop_last_while
drop_last_while-append f [] y ys e = e
drop_last_while-append f (x ∷ []) y ys e = rw e refl
drop_last_while-append f (x ∷ z ∷ xs) y ys e = rw (drop_last_while-append f (z ∷ xs) y ys e) refl

pub drop_last_while-kept :
    (f : ℕ → Bool) (y : ℕ) (ys : Text)
    → drop_last_while f ys ≡ ys
    → f y ≡ false
    → drop_last_while f (y ∷ ys) ≡ y ∷ ys
unfolding drop_last_while
drop_last_while-kept f y [] e n = rw n refl
drop_last_while-kept f y (z ∷ zs) e n = rw e refl
