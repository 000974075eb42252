-- ===== src/Host.antt =====
-- What the program uses of serde_json and chrono, which are not part of the repository: the JSON
-- values, their equality and the parsers, whose failures are known by their text, and the instants.
use durare.Prelude.{ℕ, Bool, String, Option, PartialEq, ℤ, List}
use durare.Errors.{Error, PortableWorkflowError}

-- An instant of `chrono::DateTime<Utc>`: the program only compares instants, and its reader of the
-- clock is an argument of each operation.
abbrev pub DateTime : Type 0
DateTime = ℤ

-- The result of a parser: a value, or the text of the error.
pub data Parsed {ℓ} (A : Type ℓ) : Type ℓ where
  parsed : A → Parsed A
  malformed : String → Parsed A

-- `Payload` of src/recorded_error.rs, which `serde_json::from_value` reads.
pub record Payload (V : Type 0) : Type 0 where
  pub version : ℕ
  pub error : V

-- The structure of a `serde_json::Value`: an array, an object with one value per key, or a scalar
-- (null, a Boolean, a number or a string).
mutual
  pub data Json (V : Type 0) : Type 0 where
    scalar : V → Json V
    array : Items V → Json V
    fields : Fields V → Json V

  pub data Items (V : Type 0) : Type 0 where
    no_items : Items V
    item : Json V → Items V → Items V

  pub data Fields (V : Type 0) : Type 0 where
    no_fields : Fields V
    field_of : String → Json V → Fields V → Fields V

pub record Host (V : Type 0) : Type 0 where
  pub null : V
  pub value_eq : PartialEq V
  -- `serde_json::from_str`, at the types that the program reads
  pub value_from_str : String → Parsed V
  pub envelope_from_str : String → Parsed (PortableWorkflowError V)
  -- `serde_json::from_value`
  pub payload_from_value : V → Parsed (Payload V)
  pub error_from_value : V → Parsed (Error V)
  -- `serde_json::to_string` of the envelope, and `json!` of an error record: the version, and the
  -- error as its private wire type has it
  pub envelope_to_string : PortableWorkflowError V → String
  pub payload_to_value : ℕ → Error V → V
  -- the driver's errors: I/O and pool failures, the code of a database error, and its constraints
  pub db_unavailable : String → Bool
  pub db_code : String → Option String
  pub db_unique_violation : String → Bool
  pub db_foreign_key_violation : String → Bool
  -- `str::parse::<i32>`
  pub parse_i32 : String → Option ℤ
  -- `Value::get` and `Value::as_str`
  pub field : V → String → Option V
  pub as_str : V → Option String
  pub tree : V → Json V
  -- `json!` at a text and at an object
  pub of_str : String → V
  pub object : List (String × V) → V
  -- `serde_json::to_value` and `serde_json::from_value` at an instant
  pub instant_to_value : DateTime → Parsed V
  pub instant_from_value : V → Parsed DateTime
  -- `DateTime::timestamp_millis` and `DateTime::from_timestamp_millis`
  pub timestamp_millis : DateTime → ℤ
  pub from_timestamp_millis : ℤ → Option DateTime

instance abbrev pub json_eq : {V : Type 0} ⦃j : Host V⦄ → PartialEq V
json_eq ⦃j⦄ = j.value_eq
