-- ===== src/Recorded.antt =====
-- src/recorded_error.rs and the error half of src/serialize.rs: how a stored failure is read back.
pub mod Outcomes
pub mod Encode
pub mod Roundtrip
pub mod Unreadable
use durare.Prelude.{
  Bool, true, false, String, Option, none, some, List, [], ◌∷◌, ℕ, ◌==◌, ◌&&◌, if◌then◌else◌,
  format, strip_prefix, display_ℕ, string_eq, option_eq, int_eq, nat_eq, PartialEq,
}
use durare.Errors.{
  Error, PortableWorkflowError, Result, ok, err, ◌>>=◌, display, serde, serialization,
  not_authorized, app_error, portable, recovery_required, observation_failed, db, migrate,
  output_serialization,
}
use durare.Host.{Host, Parsed, parsed, malformed, Payload}
use durare.Classify.{code, is_recovery_required}

abbrev pub prefix : String
prefix = "__DURARE_ERROR__:"

abbrev pub record_name : String
record_name = "durare.RecordedError"

abbrev pub portable_format : String
portable_format = "portable_json"

abbrev pub is_none {ℓ} : {A : Type ℓ} → Option A → Bool
is_none none = true
is_none (some a) = false

-- The errors that the private wire type has.
unfoldable pub is_wired : {V : Type 0} → Error V → Bool
is_wired (recovery_required cause) = false
is_wired (observation_failed cause) = false
is_wired (db e) = false
is_wired (migrate e) = false
is_wired (serde e) = false
is_wired (output_serialization e) = false
is_wired e = true

module _ {V : Type 0} ⦃j : Host V⦄ where
  -- the `?` on a serde_json result
  abbrev from_parsed {ℓ} : {A : Type ℓ} → Parsed A → Result V A
  from_parsed (parsed a) = ok a
  from_parsed (malformed e) = err (serde e)

  abbrev or_null : Option V → V
  or_null none = j.null
  or_null (some v) = v

  -- the second half of the closure `decode` of `try_from_parts`, from the version test on
  accept_payload : V → Result V (Error V)
  accept_payload wire = do
    error ← from_parsed (j.error_from_value wire)
    if is_recovery_required (code error)
        then err (serialization "record contains an execution interruption, not a business outcome")
        else ok error

  -- the closure `decode`
  decode_payload : PortableWorkflowError V → Result V (Error V)
  unfolding accept_payload
  decode_payload info = do
    payload ← from_parsed (j.payload_from_value (or_null info.payload))
    if payload.version == 1
        then accept_payload payload.error
        else err (
            serialization
              (format ("unsupported recorded error version " ∷ display_ℕ payload.version ∷ [])))

  -- `decode().map_err(..)`
  abbrev unreadable : Result V (Error V) → Result V (Error V)
  unreadable (ok error) = ok error
  unreadable (err error) =
      err (serialization (format ("cannot decode recorded error: " ∷ display error ∷ [])))

  -- the arms for an envelope
  from_envelope : PortableWorkflowError V → Result V (Error V)
  unfolding decode_payload
  from_envelope info =
      if info.name == record_name
      then unreadable (decode_payload info)
      else if info.name == "DBOSNotAuthorizedError" && (is_none info.code && is_none info.payload)
      then ok (not_authorized info.message)
      else ok (portable info)

  -- the arm for a message that begins with the reserved prefix
  from_reserved : Parsed (PortableWorkflowError V) → Result V (Error V)
  unfolding from_envelope
  from_reserved (malformed e) = err (serialization "cannot decode recorded error envelope")
  from_reserved (parsed info) =
      if info.name == record_name
      then from_envelope info
      else err (serialization "cannot decode recorded error envelope")

  unfoldable pub try_from_parts : String → Option (PortableWorkflowError V) → Result V (Error V)
  unfolding from_envelope from_reserved
  try_from_parts message (some info) = from_envelope info
  try_from_parts message none = elim (strip_prefix message prefix) [
    | none ↦ ok (app_error message)
    | some encoded ↦ from_reserved (j.envelope_from_str encoded)
  ]

  unfoldable pub from_parts : String → Option (PortableWorkflowError V) → Error V
  from_parts message info = elim (try_from_parts message info) [ ok e ↦ e | err e ↦ e ]

  -- serialize.rs: the two halves of `decode_error`, for the reserved prefix and for portable rows
  decode_reserved :
      String → Parsed (PortableWorkflowError V) → String × Option (PortableWorkflowError V)
  decode_reserved stored (malformed e) = (stored, none)
  decode_reserved stored (parsed env) =
      if env.name == record_name then (env.message, some env) else (stored, none)

  abbrev corrupt : String → PortableWorkflowError V
  corrupt stored = record { name = record_name; message = stored; code = none; payload = none }

  abbrev name_of : V → Option String
  name_of v = elim (j.field v "name") [ none ↦ none | some n ↦ j.as_str n ]

  corrupt_portable : String → Parsed V → String × Option (PortableWorkflowError V)
  corrupt_portable stored (malformed e) = (stored, none)
  corrupt_portable stored (parsed value) =
      if name_of value == some record_name then (stored, some (corrupt stored)) else (stored, none)

  decode_portable :
      String → Parsed (PortableWorkflowError V) → String × Option (PortableWorkflowError V)
  unfolding corrupt_portable
  decode_portable stored (parsed env) = (env.message, some env)
  decode_portable stored (malformed e) = corrupt_portable stored (j.value_from_str stored)

  unfoldable pub decode_error : Option String → String → String × Option (PortableWorkflowError V)
  unfolding decode_reserved decode_portable
  decode_error fmt stored = elim (strip_prefix stored prefix) [
    | some encoded ↦ decode_reserved stored (j.envelope_from_str encoded)
    | none ↦
        if fmt == some portable_format
        then decode_portable stored (j.envelope_from_str stored)
        else (stored, none)
  ]

  unfoldable pub restore_error : Option String → String → Error V
  restore_error fmt stored =
      let (message, info) = decode_error fmt stored in from_parts message info
