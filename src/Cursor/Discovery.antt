-- ===== src/Cursor/Discovery.antt =====
-- Which columns a cursor has discovered.
use mathlib.Core.Option
use native.Mathlib.Nat.{zero-add}
use native.Mathlib.Numerals.{add-one}
use amazon_timestream_odbc_d.Base.{
  length, get_elem?, ℕ, zero, suc, ◌+◌, ◌-◌, ◌≤◌, ◌<◌, ◌≡◌, refl, sym, ap, ◌∙◌, ◌≢◌, ◌⊎◌, inl, inr,
  true, false, some, List, [], ◌∷◌, ◌++◌, dec_lt, ℕ_discrete, arith,
}
use amazon_timestream_odbc_d.Cursor.{discover, ensure_column_discovered, Columns, TimestreamCursor}

-- The first `n` columns of the metadata, each with its index, counted from `i`.
abbrev pub first_columns {ℓ} : {A : Type ℓ} → ℕ → ℕ → List A → List (ℕ × A)
first_columns i zero ms = []
first_columns i (suc n) [] = []
first_columns i (suc n) (m ∷ ms) = (i, m) ∷ first_columns (suc i) n ms

first_columns-snoc {ℓ} :
    {A : Type ℓ} (i n : ℕ) (ms : List A) (m : A)
    → get_elem? ms n ≡ some m
    → first_columns i n ms ++ (i + n, m) ∷ [] ≡ first_columns i (suc n) ms
first_columns-snoc i n [] m e = cc
first_columns-snoc i zero (x ∷ ms) m e = ground arith
first_columns-snoc i (suc n) (x ∷ ms) m e = ground (arith, first_columns-snoc (suc i) n ms m e)

get_elem?-first_columns {ℓ} :
    {A : Type ℓ} (i n k : ℕ) (ms : List A)
    → k < n
    → get_elem? (first_columns i n ms) k ≡ Option.map (λ m. (i + k, m)) (get_elem? ms k)
get_elem?-first_columns i zero k ms h = absurd (omega arith)
get_elem?-first_columns i (suc n) k [] h = refl
get_elem?-first_columns i (suc n) zero (m ∷ ms) h = ground arith
get_elem?-first_columns i (suc n) (suc k) (m ∷ ms) h =
    get_elem?-first_columns (suc i) n k ms (omega arith)
    ∙ ap (λ j. Option.map (λ m. (j, m)) (get_elem? ms k)) (omega arith)

length-first_columns {ℓ} :
    {A : Type ℓ} (i n : ℕ) (ms : List A) → n ≤ length ms → length (first_columns i n ms) ≡ n
length-first_columns i zero ms h = refl
length-first_columns i (suc n) [] h = absurd (omega arith)
length-first_columns i (suc n) (m ∷ ms) h = ap suc (length-first_columns (suc i) n ms (omega arith))

get_elem?-lt {ℓ} :
    {A : Type ℓ} (xs : List A) (i : ℕ) → i < length xs → (a : A) × (get_elem? xs i ≡ some a)
get_elem?-lt [] i h = absurd (omega arith)
get_elem?-lt (x ∷ xs) zero h = (x, refl)
get_elem?-lt (x ∷ xs) (suc i) h = get_elem?-lt xs i (omega arith)

module _ (c : Columns) where
  -- The columns discovered are the first ones of the metadata, in order, each with its own index.
  pub record IsDiscovered (metas : List c.ColumnMeta) (k : TimestreamCursor c) : Type 0 where
    pub within : length k.columns ≤ length metas
    pub first : k.columns ≡ first_columns 0 (length k.columns) metas

  discover-first :
      (left n : ℕ) (metas : List c.ColumnMeta)
      → n + left ≤ length metas
      → discover c left n metas (first_columns 0 n metas) ≡ first_columns 0 (n + left) metas
  unfolding discover
  discover-first zero n metas h = ap (λ j. first_columns 0 j metas) (omega arith)
  discover-first (suc left) n metas h =
      let (m, e) = get_elem?-lt metas n (omega arith) in
      let snoc : first_columns 0 n metas ++ (n, m) ∷ [] ≡ first_columns 0 (n + 1) metas =
        ap (λ j. first_columns 0 n metas ++ (j, m) ∷ []) (sym (zero-add n))
        ∙ first_columns-snoc 0 n metas m e
        ∙ ap (λ j. first_columns 0 j metas) (sym (add-one n)) in
      rw (e, discover)
        (ap (discover c left (n + 1) metas) snoc
          ∙ discover-first left (n + 1) metas (omega arith)
          ∙ ap (λ j. first_columns 0 j metas) (omega arith))

  abbrev IsFound : ℕ → List c.ColumnMeta → TimestreamCursor c → Type 0
  IsFound idx metas k =
      get_elem? k.columns (idx - 1) ≡ Option.map (λ m. (idx - 1, m)) (get_elem? metas (idx - 1))

  IsFound-in :
      (idx : ℕ) (metas : List c.ColumnMeta) (k : TimestreamCursor c)
      → 1 ≤ idx
      → idx ≤ length k.columns
      → IsDiscovered metas k
      → IsFound idx metas k
  IsFound-in idx metas k low high v =
      ap (λ cs. get_elem? cs (idx - 1)) v.first
      ∙ get_elem?-first_columns 0 (length k.columns) (idx - 1) metas (omega arith)
      ∙ ap (λ j. Option.map (λ m. (j, m)) (get_elem? metas (idx - 1))) (zero-add (idx - 1))

  ensure-cases :
      (idx : ℕ) (metas : List c.ColumnMeta) (k : TimestreamCursor c)
      → (((idx ≡ 0) ⊎ (length metas < idx)) × (ensure_column_discovered c idx metas k ≡ (false, k)))
        ⊎ ((1 ≤ idx)
            × (idx ≤ length metas)
            × (length k.columns ≡ length metas)
            × (ensure_column_discovered c idx metas k ≡ (true, k)))
        ⊎ ((1 ≤ idx)
            × (idx ≤ length metas)
            × (length k.columns ≢ length metas)
            × (ensure_column_discovered c idx metas k ≡ (
              true,
              record k {
                columns = discover c (idx - length k.columns) (length k.columns) metas k.columns;
              },
            )))
  unfolding ensure_column_discovered
  ensure-cases idx metas k = elim (dec_lt (length metas) idx) [
    | yes h ↦ inl (inr h, ground arith)
    | no h ↦ elim (ℕ_discrete idx 0) [
      | yes z ↦ inl (inl z, ground arith)
      | no nz ↦ elim (ℕ_discrete (length k.columns) (length metas)) [
        | yes all ↦ inr (inl (omega arith, omega arith, all, ground arith))
        | no part ↦ inr (inr (omega arith, omega arith, part, ground arith))
      ]
    ]
  ]

  grown :
      (idx : ℕ) (metas : List c.ColumnMeta) (k : TimestreamCursor c)
      → idx ≤ length metas
      → IsDiscovered metas k
      → let n = length k.columns in
        discover c (idx - n) n metas k.columns ≡ first_columns 0 (n + (idx - n)) metas
  grown idx metas k h v =
      ap (discover c (idx - length k.columns) (length k.columns) metas) v.first
      ∙ discover-first (idx - length k.columns) (length k.columns) metas (omega (arith, v.within))

  grown-IsDiscovered :
      (idx : ℕ) (metas : List c.ColumnMeta) (k : TimestreamCursor c) (cs : List (ℕ × c.ColumnMeta))
      (n : ℕ)
      → n ≤ length metas
      → cs ≡ first_columns 0 n metas
      → IsDiscovered metas (record k { columns = cs }) × (length cs ≡ n)
  grown-IsDiscovered idx metas k cs n h e =
      let l : length cs ≡ n = ap length e ∙ length-first_columns 0 n metas h in
      (record { within = omega arith; first = rw l e }, l)

  -- A column number is accepted exactly when it lies in 1 .. the number of columns of the result.
  -- Then the columns discovered reach that far, its own stands at its place with its own index and
  -- metadata, and the columns stay a prefix of the metadata. The position is never moved.
  pub ensure_column_discovered-IsDiscovered :
      (idx : ℕ) (metas : List c.ColumnMeta) (k : TimestreamCursor c)
      → IsDiscovered metas k
      → let (found, k') = ensure_column_discovered c idx metas k in
        IsDiscovered metas k'
        × (k'.rows ≡ k.rows)
        × (k'.iterator ≡ k.iterator)
        × (k'.cur_pos ≡ k.cur_pos)
        × (((found ≡ true) × (1 ≤ idx) × (idx ≤ length metas) × IsFound idx metas k')
            ⊎ ((found ≡ false) × ((idx ≡ 0) ⊎ (length metas < idx)) × (k' ≡ k)))
  ensure_column_discovered-IsDiscovered idx metas k v = elim (ensure-cases idx metas k) [
    | inl (out, e) ↦ rw e (v, refl, refl, refl, inr (refl, out, refl))
    | inr (inl (low, high, all, e)) ↦
        rw e
          (v, refl, refl, refl, inl (refl, low, high, IsFound-in idx metas k low (omega arith) v))
    | inr (inr (low, high, part, e)) ↦
        let (w, l) =
          grown-IsDiscovered idx metas k _ (length k.columns + (idx - length k.columns))
            (omega (arith, v.within)) (grown idx metas k high v) in
        rw e (
          w,
          refl,
          refl,
          refl,
          inl (
            refl,
            low,
            high,
            IsFound-in idx metas
                (record k {
                  columns = discover c (idx - length k.columns) (length k.columns) metas k.columns;
                })
                low (omega (arith, l)) w,
          ),
        )
  ]
