-- ===== src/Cursor/Position.antt =====
-- Where a cursor stands: which row is current, and which rows are still to come.
use native.Mathlib.Numerals.{add-one}
use amazon_timestream_odbc_d.Base.{
  ltb, if◌then◌else◌, length, get_elem?, drop, drop-nil, ℕ, zero, suc, ◌+◌, ◌-◌, ◌≤◌, ◌<◌, min, ◌≡◌,
  refl, ◌⊎◌, inl, inr, true, false, ◌&&◌, some, List, [], ◌∷◌, arith,
}
use amazon_timestream_odbc_d.Cursor.{Row, new_cursor, increment, Columns, TimestreamCursor}

-- The rows behind a position, seen as one list.
drop-cases {ℓ} :
    {A : Type ℓ} (n : ℕ) (xs : List A)
    → ((drop n xs ≡ []) × (length xs ≤ n))
      ⊎ ((x : A) × (drop n xs ≡ x ∷ drop (suc n) xs) × (get_elem? xs n ≡ some x) × (n < length xs))
drop-cases n [] = inl (drop-nil n, omega arith)
drop-cases zero (x ∷ xs) = inr (x, refl, refl, omega arith)
drop-cases (suc n) (x ∷ xs) = elim (drop-cases n xs) [
  | inl (e, h) ↦ inl (e, omega arith)
  | inr (y, e, f, h) ↦ inr (y, e, f, omega arith)
]

drop-all {ℓ} : {A : Type ℓ} (n : ℕ) (xs : List A) → length xs ≤ n → drop n xs ≡ []
drop-all n [] h = drop-nil n
drop-all zero (x ∷ xs) h = absurd (omega arith)
drop-all (suc n) (x ∷ xs) h = drop-all n xs (omega arith)

moved_lem :
    (iterator cur_pos size : ℕ)
    → iterator ≡ min (cur_pos - 1) size
    → (if ltb 0 cur_pos && ltb iterator size then iterator + 1 else iterator) ≡ min cur_pos size
moved_lem iterator cur_pos size e = ground arith

module _ (c : Columns) where
  -- The iterator follows the position: at the first row before and after the first increment, one
  -- behind the position from then on, and never past the end.
  abbrev pub IsAligned : TimestreamCursor c → Type 0
  IsAligned k = k.iterator ≡ min (k.cur_pos - 1) (length k.rows)

  -- The rows that increments are still to reach.
  abbrev pub rest : TimestreamCursor c → List (Row c)
  rest k = drop k.cur_pos k.rows

  pub new_cursor-IsAligned : (rows : List (Row c)) → IsAligned (new_cursor c rows)
  unfolding new_cursor
  new_cursor-IsAligned rows = omega arith

  -- An increment reaches the first of the rows to come, and makes it the current row; where none is
  -- left it returns false, and goes on returning false.
  pub increment-rest :
      (k : TimestreamCursor c)
      → IsAligned k
      → let (k', more) = increment c k in
        IsAligned k'
        × (k'.rows ≡ k.rows)
        × (k'.columns ≡ k.columns)
        × (((rest k ≡ []) × (rest k' ≡ []) × (more ≡ false))
            ⊎ ((r : Row c) × (rest k ≡ r ∷ rest k')
                × (get_elem? k'.rows k'.iterator ≡ some r)
                × (more ≡ true)))
  unfolding increment
  increment-rest k a =
      rw (moved_lem k.iterator k.cur_pos (length k.rows) a, add-one)
        (elim (drop-cases k.cur_pos k.rows) [
          | inl (e, h) ↦ (
            omega arith,
            refl,
            refl,
            inl (e, drop-all (suc k.cur_pos) k.rows (omega arith), ground arith),
          )
          | inr (r, e, f, h) ↦
              let here : min k.cur_pos (length k.rows) ≡ k.cur_pos = omega arith in
              (omega arith, refl, refl, inr (r, e, rw here f, ground arith))
        ])
