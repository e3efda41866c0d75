-- ===== src/Environment/States.antt =====
-- The states that an environment can reach.
use amazon_timestream_odbc_d.Base.{
  ◌==◌, Bool-cases, eqb_ℤ, to_signed, eq_of_parts, ℤ, pos, ℕ, ◌≡◌, refl, ◌≢◌, ◌⊎◌, inl, inr, Bool,
  true, false, not, ◌&&◌, ◌||◌, List, [], ◌∷◌, arith,
}
use amazon_timestream_odbc_d.SqlTypes.{
  environment_attribute_to_internal, EnvironmentAttribute, AttributeId,
}
use amazon_timestream_odbc_d.Environment.{
  new_environment, contains, insert, erase, internal_create_connection, create_connection,
  deregister_connection, set_version, set_nts, set_known, internal_set_attribute, set_attribute,
  Environment,
}
use amazon_timestream_odbc_d.Diagnostic.Storage.{reset}

-- One call on an environment.
pub data Step : Environment → Environment → Type 0 where
  creates : (c : ℕ) (e : Environment) → Step e (create_connection c e)
  deregisters : (c : ℕ) (e : Environment) → Step e (deregister_connection c e)
  sets : (a : AttributeId) (z : ℤ) (e : Environment) → Step e (set_attribute a z e)

pub data Reachable : Environment → Type 0 where
  initial : Reachable new_environment
  after_step : {d e : Environment} → Reachable d → Step d e → Reachable e

-- A list without repetitions and without 0.
abbrev pub is_set : List ℕ → Bool
is_set [] = true
is_set (x ∷ xs) = (not (x == 0) && not (contains x xs)) && is_set xs

abbrev pub IsSound : Environment → Type 0
IsSound e =
    ((e.odbc_version ≡ pos 2) ⊎ (e.odbc_version ≡ pos 3))
    × (e.odbc_nts ≡ pos 1)
    × (is_set e.connections ≡ true)

insert-is_set : (c : ℕ) (xs : List ℕ) → c ≢ 0 → is_set xs ≡ true → is_set (insert c xs) ≡ true
insert-is_set c xs n h = ground arith

contains-erase : (c d : ℕ) (xs : List ℕ) → contains d xs ≡ false → contains d (erase c xs) ≡ false
contains-erase c d [] h = refl
contains-erase c d (x ∷ xs) h = ground (arith, contains-erase c d xs)

erase-is_set : (c : ℕ) (xs : List ℕ) → is_set xs ≡ true → is_set (erase c xs) ≡ true
erase-is_set c [] h = refl
erase-is_set c (x ∷ xs) h = ground (arith, erase-is_set c xs, contains-erase c x xs)

zero_free : (c : ℕ) → (c == 0) ≡ false → c ≢ 0
zero_free c n = ground arith

create_connection-IsSound : (c : ℕ) (e : Environment) → IsSound e → IsSound (create_connection c e)
unfolding create_connection internal_create_connection
create_connection-IsSound c e (v, n, s) = elim (Bool-cases (c == 0)) [
  | inl null ↦ (ground arith, ground arith, ground arith)
  | inr some_address ↦
      let more = insert-is_set c e.connections (zero_free c some_address) s in
      (ground arith, ground arith, ground arith)
]

deregister_connection-IsSound :
    (c : ℕ) (e : Environment) → IsSound e → IsSound (deregister_connection c e)
unfolding deregister_connection
deregister_connection-IsSound c e h = (h.0, h.1, erase-is_set c e.connections h.2)

supported : (z : ℤ) → (eqb_ℤ z (pos 2) || eqb_ℤ z (pos 3)) ≡ true → (z ≡ pos 2) ⊎ (z ≡ pos 3)
supported z t = elim (Bool-cases (eqb_ℤ z (pos 2))) [
  | inl two ↦ inl (eq_of_parts z (pos 2) (ground (arith, two)))
  | inr other ↦ inr (eq_of_parts z (pos 3) (ground (arith, t, other)))
]

set_version-IsSound : (z : ℤ) (e : Environment) → IsSound e → IsSound (set_version z e).1
set_version-IsSound z e (v, n, s) = elim (Bool-cases (eqb_ℤ z (pos 2) || eqb_ℤ z (pos 3))) [
  | inl t ↦ let version = supported z t in (ground arith, ground arith, ground arith)
  | inr f ↦ (ground arith, ground arith, ground arith)
]

set_nts-IsSound : (z : ℤ) (e : Environment) → IsSound e → IsSound (set_nts z e).1
set_nts-IsSound z e (v, n, s) = (ground arith, ground arith, ground arith)

set_known-IsSound :
    (a : EnvironmentAttribute) (z : ℤ) (e : Environment) → IsSound e → IsSound (set_known a z e).1
set_known-IsSound EnvironmentAttribute.odbc_version z e h = set_version-IsSound z e h
set_known-IsSound EnvironmentAttribute.output_nts z e h = set_nts-IsSound z e h
set_known-IsSound EnvironmentAttribute.unknown z e h = h

set_attribute-IsSound :
    (a : AttributeId) (z : ℤ) (e : Environment) → IsSound e → IsSound (set_attribute a z e)
unfolding set_attribute internal_set_attribute
set_attribute-IsSound a z e h =
    set_known-IsSound (environment_attribute_to_internal a) (to_signed 32 z)
      (record e { diag = reset e.diag }) h

Step-IsSound : {d e : Environment} → Step d e → IsSound d → IsSound e
Step-IsSound (creates c e) h = create_connection-IsSound c e h
Step-IsSound (deregisters c e) h = deregister_connection-IsSound c e h
Step-IsSound (sets a z e) h = set_attribute-IsSound a z e h

-- In every environment that calls can reach from a new one, the version is that of ODBC 2 or 3, strings
-- are null-terminated, and no connection is held twice or is null.
pub Reachable-IsSound : (e : Environment) → Reachable e → IsSound e
unfolding new_environment
Reachable-IsSound e initial = (inr refl, refl, refl)
Reachable-IsSound e (after_step r s) = Step-IsSound s (Reachable-IsSound _ r)
