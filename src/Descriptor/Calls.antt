-- ===== src/Descriptor/Calls.antt =====
-- The calls of SQLSetDescField on a descriptor: what each leaves, and what any sequence of them keeps.
use amazon_timestream_odbc_d.Base.{
  if◌then◌else◌, ℤ, ◌≡◌, refl, sym, subst, Bool, true, false, List, [], ◌∷◌,
}
use amazon_timestream_odbc_d.Diagnostic.Storage.{reset}
use amazon_timestream_odbc_d.Descriptor.{record_of, Descriptor}
use amazon_timestream_odbc_d.Descriptor.Operations.{
  apply_setting, finish_setting, is_bad_length, refuse_length, internal_set_field, set_field,
  Setting,
}
use amazon_timestream_odbc_d.Descriptor.Laws.{
  IsConsistent, AllConsistent, record_after, apply_setting-IsConsistent, records_after_setting,
  stored-AllConsistent,
}

pub if_either :
    {A : Type 0} (P : A → Type 0) (b : Bool) (x y : A) → P x → P y → P (if b then x else y)
if_either P true x y h k = h
if_either P false x y h k = k

finish-AllConsistent :
    (d : Descriptor) (k : ℤ) (s : Setting) (len : ℤ)
    → AllConsistent d
    → AllConsistent (finish_setting d k (apply_setting s len (record_of k d.records))).after
finish-AllConsistent d k s len all j =
    let old = record_of k d.records in
    let c = apply_setting s len old in
    subst (λ rs. IsConsistent (record_of j rs)) (sym (records_after_setting d k c))
      (stored-AllConsistent d k (record_after c) all (apply_setting-IsConsistent s len old (all k))
        j)

-- A set of one field keeps the types of all records in agreement with their concise types.
pub set_field-AllConsistent :
    (d : Descriptor) (k len : ℤ) (s : Setting)
    → AllConsistent d
    → AllConsistent (set_field d k len s).after
unfolding set_field internal_set_field
set_field-AllConsistent d k len s all =
    if_either (λ c. AllConsistent c.after) (is_bad_length len)
      (refuse_length (record d { diag = reset d.diag }) len)
      (finish_setting (record d { diag = reset d.diag }) k
        (apply_setting s len (record_of k d.records)))
      all (finish-AllConsistent (record d { diag = reset d.diag }) k s len all)

-- The descriptor after calls for records, lengths and settings.
unfoldable pub set_fields : List (ℤ × ℤ × Setting) → Descriptor → Descriptor
set_fields [] d = d
set_fields ((k, len, s) ∷ calls) d = set_fields calls (set_field d k len s).after

reached :
    (calls : List (ℤ × ℤ × Setting)) (d : Descriptor)
    → AllConsistent d
    → AllConsistent (set_fields calls d)
unfolding set_fields
reached [] d all = all
reached ((k, len, s) ∷ calls) d all =
    reached calls (set_field d k len s).after (set_field-AllConsistent d k len s all)

-- After any calls of SQLSetDescField on a descriptor without records, whether they succeed or not,
-- the concise type of each record is its type and its code is 0, unless the type is that of dates
-- or that of intervals.
pub set_fields-AllConsistent :
    (calls : List (ℤ × ℤ × Setting)) (d : Descriptor)
    → d.records ≡ []
    → AllConsistent (set_fields calls d)
set_fields-AllConsistent calls d e =
    reached calls d (λ k. subst (λ rs. IsConsistent (record_of k rs)) (sym e) (λ h. (refl, refl)))
