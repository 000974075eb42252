-- ===== src/Recorded/Unreadable.antt =====
-- The errors of a stored failure that cannot be read: src/recorded_error.rs.
use durare.Prelude.{
  true, String, Option, none, some, ◌≡◌, arith, Option-cases, inl, inr, strip_prefix, string_eq,
}
use durare.Errors.{Error, PortableWorkflowError, Result, ok, err}
use durare.Host.{Host, Parsed, parsed, malformed}
use durare.Execution.{is_storage_failure}
use durare.Recorded.{
  prefix, unreadable, decode_payload, from_envelope, from_reserved, try_from_parts,
}

module _ {V : Type 0} ⦃j : Host V⦄ where
  unreadable-storage :
      (r : Result V (Error V)) (e : Error V) → unreadable r ≡ err e → is_storage_failure e ≡ true
  unfolding is_storage_failure
  unreadable-storage (ok x) e h = absurd (ground arith)
  unreadable-storage (err x) e h = ground arith

  from_envelope-storage :
      (info : PortableWorkflowError V) (e : Error V)
      → from_envelope info ≡ err e
      → is_storage_failure e ≡ true
  unfolding from_envelope
  from_envelope-storage info e h = ground (arith, unreadable-storage (decode_payload info) e)

  from_reserved-storage :
      (p : Parsed (PortableWorkflowError V)) (e : Error V)
      → from_reserved p ≡ err e
      → is_storage_failure e ≡ true
  unfolding from_reserved is_storage_failure
  from_reserved-storage (malformed x) e h = ground arith
  from_reserved-storage (parsed info) e h = ground (arith, from_envelope-storage info e)

  pub try_from_parts-storage :
      (message : String) (info : Option (PortableWorkflowError V)) (e : Error V)
      → try_from_parts message info ≡ err e
      → is_storage_failure e ≡ true
  unfolding try_from_parts
  try_from_parts-storage message (some info) e h = from_envelope-storage info e h
  try_from_parts-storage message none e h = elim (Option-cases (strip_prefix message prefix)) [
    | inl q ↦ absurd (ground arith)
    | inr (rest, q) ↦ from_reserved-storage (j.envelope_from_str rest) e (ground arith)
  ]
