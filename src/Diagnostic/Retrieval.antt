-- ===== src/Diagnostic/Retrieval.antt =====
-- `SQLError` (src/odbc/src/odbc.cpp): each call hands out the next record that was not handed out yet.
use native.Mathlib.Nat.{zero-add, suc-add}
use amazon_timestream_odbc_d.Base.{
  ltb, if◌then◌else◌, le→ltb, Bool-cases, length, get_elem?, set, replicate, ℤ, pos, Text, ℕ, zero,
  suc, ◌+◌, ◌-◌, ◌<◌, ◌≡◌, refl, sym, ap, ◌∙◌, ◌⊎◌, inl, inr, ◌||◌, Option, none, some, List, [],
  ◌∷◌, ◌++◌, map, arith,
}
use amazon_timestream_odbc_d.Diagnostic.Record.{get_sql_state, mark_retrieved, DiagnosticRecord}
use amazon_timestream_odbc_d.Diagnostic.Storage.{
  get_status_records_number, get_status_record, scan_retrieved, get_last_non_retrieved,
  DiagnosticRecordStorage,
}

-- What a successful call has for the caller: the SQLSTATE, the native code and the whole message. The
-- copies of them to the caller's buffers, with their lengths and truncation, are left out.
pub record SqlErrorOutput : Type 0 where
  pub state : Text
  pub native_error : ℤ
  pub message : Text

abbrev pub output_of : DiagnosticRecord → SqlErrorOutput
output_of r = record { state = get_sql_state r; native_error = pos 0; message = r.message }

-- `GetStatusRecord(recNum)` and `MarkRetrieved` on it.
retrieve :
    ℕ
    → Option DiagnosticRecord
    → DiagnosticRecordStorage
    → Option SqlErrorOutput × DiagnosticRecordStorage
unfolding mark_retrieved
retrieve i none s = (none, s)
retrieve i (some r) s = (
  some (output_of r),
  record s { status_records = set s.status_records (i - 1) (mark_retrieved r) },
)

-- `none` is SQL_NO_DATA. The handle is one of the three, and is not null.
pub sql_error : DiagnosticRecordStorage → Option SqlErrorOutput × DiagnosticRecordStorage
unfolding get_last_non_retrieved get_status_records_number get_status_record retrieve
sql_error s =
    let i = get_last_non_retrieved s in
    if ltb i 1 || ltb (get_status_records_number s) i
    then (none, s)
    else retrieve i (get_status_record i s) s

-- The records that are still to be handed out, in order.
abbrev pub pending : List DiagnosticRecord → List DiagnosticRecord
pending [] = []
pending (r ∷ rs) = let rest = pending rs in if r.retrieved then rest else r ∷ rest

-- As many calls of `SQLError` as there are in `n`, and what they hand out.
pub sql_errors :
    ℕ → DiagnosticRecordStorage → List (Option SqlErrorOutput) × DiagnosticRecordStorage
sql_errors zero s = ([], s)
sql_errors (suc n) s =
    let (out, s') = sql_error s in let (outs, s'') = sql_errors n s' in (out ∷ outs, s'')

scan_pending :
    (i : ℕ) (rs : List DiagnosticRecord)
    → ((pending rs ≡ []) × (scan_retrieved i rs ≡ 0))
      ⊎ ((k : ℕ) × (r : DiagnosticRecord) × (scan_retrieved i rs ≡ suc (i + k))
          × (get_elem? rs k ≡ some r)
          × (k < length rs)
          × (pending rs ≡ r ∷ pending (set rs k (mark_retrieved r)))
          × (length (set rs k (mark_retrieved r)) ≡ length rs))
unfolding scan_retrieved mark_retrieved
scan_pending i [] = inl (refl, refl)
scan_pending i (r ∷ rs) = elim (Bool-cases r.retrieved) [
  | inl old ↦ elim (scan_pending (i + 1) rs) [
    | inl (e, f) ↦ inl (ground arith, ground arith)
    | inr (k, r', e, f, g, h, l) ↦
        inr (suc k, r', ground arith, f, omega arith, ground arith, ap suc l)
  ]
  | inr new ↦ inr (0, r, ground arith, refl, omega arith, ground arith, refl)
]

-- One call: when nothing is pending it reports SQL_NO_DATA and changes nothing; else it hands out
-- the first pending record, and exactly that record is pending no more. No record is lost.
pub sql_error-pending :
    (s : DiagnosticRecordStorage)
    → ((pending s.status_records ≡ []) × (sql_error s ≡ (none, s)))
      ⊎ ((r : DiagnosticRecord) × (rs : List DiagnosticRecord) × (s' : DiagnosticRecordStorage)
          × (pending s.status_records ≡ r ∷ rs)
          × (sql_error s ≡ (some (output_of r), s'))
          × (pending s'.status_records ≡ rs)
          × (length s'.status_records ≡ length s.status_records))
unfolding sql_error
sql_error-pending s = elim (scan_pending 0 s.status_records) [
  | inl (e, f) ↦ inl (e, ground arith)
  | inr (k, r, e, f, g, h, l) ↦ inr (
    r,
    pending (set s.status_records k (mark_retrieved r)),
    record s { status_records = set s.status_records k (mark_retrieved r) },
    h,
    rw (e, zero-add)
        (rw (le→ltb (length s.status_records) (suc k) (omega arith)) (ground (arith, f))),
    refl,
    l,
  )
]

sql_errors-none :
    (n : ℕ) (s : DiagnosticRecordStorage)
    → sql_error s ≡ (none, s)
    → (sql_errors n s).0 ≡ replicate n none
unfolding sql_errors
sql_errors-none zero s e = refl
sql_errors-none (suc n) s e = rw (e, sql_errors) (ap (◌∷◌ none) (sql_errors-none n s e))

handed_out :
    (rs : List DiagnosticRecord) (n : ℕ) (s : DiagnosticRecordStorage)
    → pending s.status_records ≡ rs
    → (sql_errors (length rs + n) s).0 ≡ map (λ r. some (output_of r)) rs ++ replicate n none
unfolding sql_errors
handed_out [] n s e = elim (sql_error-pending s) [
  | inl (_, f) ↦ rw zero-add (sql_errors-none n s f)
  | inr (r, rs, s', f, _, _, _) ↦ cc
]
handed_out (r ∷ rs) n s e = elim (sql_error-pending s) [
  | inl (f, _) ↦ cc
  | inr (r', rs', s', f, g, h, _) ↦
      let same : r' ∷ rs' ≡ r ∷ rs = sym f ∙ e in
      let rest : (sql_errors (length rs + n) s').0
          ≡ map (λ r. some (output_of r)) rs ++ replicate n none =
        handed_out rs n s' (cc) in
      rw (suc-add, g, sql_errors) cc
]

-- A caller that goes on calling `SQLError` is handed every record that was not handed out before,
-- in the order in which the records were added, each once, and SQL_NO_DATA from then on.
pub sql_errors-pending :
    (n : ℕ) (s : DiagnosticRecordStorage)
    → let rs = pending s.status_records in
      (sql_errors (length rs + n) s).0 ≡ map (λ r. some (output_of r)) rs ++ replicate n none
sql_errors-pending n s = handed_out (pending s.status_records) n s refl
