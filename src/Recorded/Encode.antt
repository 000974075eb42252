-- ===== src/Recorded/Encode.antt =====
-- The writing half of src/recorded_error.rs and src/serialize.rs, with `RecordedError::capture` and
-- the driver's predicates of src/error.rs.
use Prim.Native.Char.{code as char_code}
use durare.Prelude.{
  starts_with, ℤ, pos, negsuc, ℕ, ◌-◌, ◌%◌, Bool, true, false, String, Option, none, some, ◌==◌,
  ◌&&◌, ◌||◌, not, if◌then◌else◌, string_eq, nat_eq, option_eq, int_eq, ltb, ◌+◌, format, [], ◌∷◌,
}
use durare.Errors.{
  Error, RecordedError, PortableWorkflowError, Result, ok, err, display, recovery_required,
  observation_failed, recorded, db, migrate, serde, output_serialization, serialization,
  not_authorized, app, portable,
}
use durare.Host.{Host}
use durare.Classify.{code, is_recovery_required}
use durare.Recorded.{prefix, record_name, is_none}

-- src/serialize.rs
pub data Serializer : Type 0 where
  json portable_json : Serializer
  custom : String → Serializer

-- `str::len`, in bytes of UTF-8
utf8_width : ℕ → ℕ
utf8_width c = if ltb c 128 then 1 else if ltb c 2048 then 2 else if ltb c 65536 then 3 else 4

byte_len : String → ℕ
unfolding utf8_width
byte_len String.[] = 0
byte_len (String.◌∷◌ c s) = utf8_width (char_code c) + byte_len s

-- `n & 0xFF` of an i32, whose bits are those of the number modulo 2^32
low_byte : ℤ → ℕ
low_byte (pos n) = n % 256
low_byte (negsuc n) = 255 - n % 256

sqlite_busy : Option ℤ → Bool
unfolding low_byte
sqlite_busy none = false
sqlite_busy (some n) = low_byte n == 5 || low_byte n == 6

unfoldable pub is_portable : Serializer → Bool
is_portable Serializer.portable_json = true
is_portable _ = false

-- The tests on a driver's error.
module _ (V : Type 0) ⦃j : Host V⦄ where
  is_tx_conflict_code : String → Bool
  unfolding sqlite_busy byte_len
  is_tx_conflict_code c =
      if byte_len c == 5 then c == "40001" || c == "40P01" else sqlite_busy (j.parse_i32 c)

  is_retryable_db_code : String → Bool
  unfolding sqlite_busy byte_len
  is_retryable_db_code c =
      if byte_len c == 5
      then starts_with c "08" || (c == "57P01" || (c == "57P02" || (c == "57P03" || c == "53300")))
      else sqlite_busy (j.parse_i32 c)

  -- the parts of a driver error that `is_tx_conflict` and `is_retryable` read
  db_tx_conflict : String → Bool
  unfolding is_tx_conflict_code
  db_tx_conflict e = elim (j.db_code e) [ none ↦ false | some c ↦ is_tx_conflict_code c ]

  db_retryable : String → Bool
  unfolding is_retryable_db_code
  db_retryable e =
      j.db_unavailable e || elim (j.db_code e) [ none ↦ false | some c ↦ is_retryable_db_code c ]

module _ {V : Type 0} ⦃j : Host V⦄ where
  -- src/error.rs
  unfoldable pub is_tx_conflict : Error V → Bool
  unfolding db_tx_conflict
  is_tx_conflict (recovery_required cause) = is_tx_conflict cause
  is_tx_conflict (observation_failed cause) = is_tx_conflict cause
  is_tx_conflict (recorded error) = error.tx_conflict
  is_tx_conflict (db e) = db_tx_conflict V e
  is_tx_conflict error = false

  unfoldable pub is_retryable : Error V → Bool
  unfolding db_retryable
  is_retryable (recovery_required cause) = is_retryable cause
  is_retryable (observation_failed cause) = is_retryable cause
  is_retryable (recorded error) = error.retryable
  is_retryable (db e) = db_retryable V e
  is_retryable error = false

  unfoldable pub is_unique_violation : Error V → Bool
  is_unique_violation (recovery_required cause) = is_unique_violation cause
  is_unique_violation (observation_failed cause) = is_unique_violation cause
  is_unique_violation (recorded error) = error.unique_violation
  is_unique_violation (db e) = j.db_unique_violation e
  is_unique_violation error = false

  unfoldable pub is_foreign_key_violation : Error V → Bool
  is_foreign_key_violation (recovery_required cause) = is_foreign_key_violation cause
  is_foreign_key_violation (observation_failed cause) = is_foreign_key_violation cause
  is_foreign_key_violation (recorded error) = error.foreign_key_violation
  is_foreign_key_violation (db e) = j.db_foreign_key_violation e
  is_foreign_key_violation error = false

  unfoldable pub should_retry_live_transaction : Error V → Bool
  unfolding is_tx_conflict is_retryable
  should_retry_live_transaction (db e) = is_tx_conflict (db e) || is_retryable (db e)
  should_retry_live_transaction error = false

  -- `RecordedError::capture`
  unfoldable pub capture : Error V → RecordedError
  unfolding code display is_retryable is_tx_conflict is_unique_violation is_foreign_key_violation
  capture error = record {
    code = code error;
    message = display error;
    retryable = is_retryable error;
    tx_conflict = is_tx_conflict error;
    unique_violation = is_unique_violation error;
    foreign_key_violation = is_foreign_key_violation error;
  }

  -- The arms that leave the error to the older formats.
  unfoldable pub is_legacy : Serializer → Error V → Bool
  unfolding is_portable
  is_legacy format (app message source) = not (starts_with message prefix)
  is_legacy format (portable info) =
      is_portable format
      && (not (info.name == record_name)
          && not (
              info.name == "DBOSNotAuthorizedError" && (is_none info.code && is_none info.payload)))
  is_legacy format (not_authorized msg) = is_portable format
  is_legacy format error = false

  -- A driver's error is captured.
  unfoldable pub recordable : Error V → Error V
  unfolding capture
  recordable (db e) = recorded (capture (db e))
  recordable (migrate e) = recorded (capture (migrate e))
  recordable (serde e) = recorded (capture (serde e))
  recordable (output_serialization e) = recorded (capture (output_serialization e))
  recordable other = other

  unfoldable pub envelope : Error V → PortableWorkflowError V
  unfolding recordable
  envelope error = record {
    name = record_name;
    message = display error;
    code = none;
    payload = some (j.payload_to_value 1 (recordable error));
  }

  unfoldable pub encode_record : Serializer → Error V → String
  unfolding envelope
  encode_record Serializer.portable_json error = j.envelope_to_string (envelope error)
  encode_record _ error = format (prefix ∷ j.envelope_to_string (envelope error) ∷ [])

  -- from the test on the code on
  unfoldable pub encode_business : Serializer → Error V → Result V (Option String)
  unfolding is_legacy encode_record
  encode_business format error =
      if is_recovery_required (code error)
      then err (serialization "an execution interruption is not a recordable outcome")
      else if is_legacy format error
      then ok none
      else ok (some (encode_record format error))

  -- `recorded_error::encode`
  unfoldable pub encode : Serializer → Error V → Result V (Option String)
  unfolding encode_business
  encode format (recovery_required cause) = err (recovery_required cause)
  encode format (observation_failed cause) = err (observation_failed cause)
  encode format error = encode_business format error

  portable_envelope : Error V → PortableWorkflowError V
  portable_envelope (portable info) = info
  portable_envelope (not_authorized msg) = record {
    name = "DBOSNotAuthorizedError";
    message = msg;
    code = none;
    payload = none;
  }
  portable_envelope other = record {
    name = "Portable Error";
    message = display other;
    code = none;
    payload = none;
  }

  unfoldable pub encode_legacy : Serializer → Error V → String
  unfolding portable_envelope
  encode_legacy Serializer.portable_json error = j.envelope_to_string (portable_envelope error)
  encode_legacy _ error = display error

  -- src/serialize.rs
  unfoldable pub encode_error : Serializer → Error V → Result V String
  unfolding encode encode_legacy
  encode_error format error = elim (encode format error) [
    | err e ↦ err e
    | ok (some text) ↦ ok text
    | ok none ↦ ok (encode_legacy format error)
  ]
