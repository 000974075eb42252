-- ===== src/Recorded/Roundtrip.antt =====
-- How an error that src/serialize.rs stored is read back by src/recorded_error.rs.
use Prim.Native.String.append
use Prim.Native.String.{◌++◌ as str_append}
use text.Mathlib.TextLemmas.{append-nil}
use durare.Prelude.{
  true, false, String, Option, none, some, [], ◌∷◌, ◌≡◌, refl, ◌⊎◌, format, strip_prefix, arith,
  Option-cases, Bool-cases, inl, inr, string_eq, nat_eq, option_eq, int_eq,
}
use durare.Errors.{
  Error, Result, ok, err, display, app, app_error, recovery_required, observation_failed, db,
}
use durare.Host.{Host, parsed}
use durare.Classify.{code, is_recovery_required}
use durare.Recorded.{
  is_wired, prefix, decode_error, try_from_parts, from_envelope, decode_payload, accept_payload,
}
use durare.Recorded.Encode.{
  Serializer, is_legacy, recordable, envelope, encode, encode_record, encode_business, encode_error,
  encode_legacy, is_portable, capture,
}

strip_prefix-append : (p s : String) → strip_prefix (str_append p s) p ≡ some s
unfolding strip_prefix
strip_prefix-append String.[] s = rw (append.nil s) refl
strip_prefix-append (String.◌∷◌ c p) s =
    rw (append.cons c p s) (ground (arith, strip_prefix-append p s))

strip_prefix-format : (p s : String) → strip_prefix (format (p ∷ s ∷ [])) p ≡ some s
unfolding format
strip_prefix-format p s = rw (append-nil s) (strip_prefix-append p s)

-- What is left of an error in its wire type: the source of an application error is skipped.
unfoldable pub without_source : {V : Type 0} → Error V → Error V
without_source (app message source) = app message none
without_source e = e

module _ (V : Type 0) ⦃j : Host V⦄ where
  -- How a step row's error is read back, by `step_outcome_from` and `recorded_value`.
  unfoldable pub read_step_error : String → Result V (Error V)
  unfolding decode_error try_from_parts
  read_step_error stored =
      let (message, info) = decode_error none stored in try_from_parts message info

  encode_legacy-app :
      (f : Serializer) (m : String) (s : Option String)
      → is_portable f ≡ false
      → encode_legacy {V = V} f (app m s) ≡ m
  unfolding encode_legacy is_portable display
  encode_legacy-app Serializer.portable_json m s p = cc
  encode_legacy-app _ m s p = refl

  persisted-app :
      (m : String) (s : Option String) → without_source (recordable {V = V} (app m s)) ≡ app_error m
  unfolding recordable without_source
  persisted-app m s = refl

  read_legacy : (m : String) → strip_prefix m prefix ≡ none → read_step_error m ≡ ok (app_error m)
  unfolding read_step_error
  read_legacy m h = ground arith

module _ {V : Type 0} ⦃j : Host V⦄ where
  is_wired-recordable :
      (f : Serializer) (e : Error V) (o : Option String)
      → encode f e ≡ ok o
      → is_wired (recordable e) ≡ true
  unfolding encode is_wired recordable
  is_wired-recordable f (recovery_required cause) o h = cc
  is_wired-recordable f (observation_failed cause) o h = cc
  is_wired-recordable f _ o h = refl

  code-persisted : (e : Error V) → code (without_source (recordable e)) ≡ code e
  unfolding recordable without_source code capture
  code-persisted (db e) = refl
  code-persisted _ = refl

  -- What an encoding that is no interruption comes from.
  encode-business :
      (f : Serializer) (e : Error V) (o : Option String)
      → encode f e ≡ ok o
      → encode_business f e ≡ ok o
  unfolding encode
  encode-business f (recovery_required cause) o h = cc
  encode-business f (observation_failed cause) o h = cc
  encode-business f _ o h = h

  encode_business-cases :
      (f : Serializer) (e : Error V) (o : Option String)
      → encode_business f e ≡ ok o
      → (is_recovery_required (code e) ≡ false)
        × (((is_legacy f e ≡ true) × (o ≡ none))
            ⊎ ((is_legacy f e ≡ false) × (o ≡ some (encode_record f e))))
  unfolding encode_business
  encode_business-cases f e o h = elim (Bool-cases (is_legacy f e)) [
    | inl l ↦ (ground arith, inl (l, ground arith))
    | inr l ↦ (ground arith, inr (l, ground arith))
  ]

  encode_record-prefix :
      (f : Serializer) (e : Error V)
      → is_portable f ≡ false
      → strip_prefix (encode_record f e) prefix ≡ some (j.envelope_to_string (envelope e))
  unfolding encode_record is_portable
  encode_record-prefix Serializer.portable_json e p = cc
  encode_record-prefix _ e p = strip_prefix-format prefix (j.envelope_to_string (envelope e))

  -- Where a text comes from.
  abbrev text_of : Serializer → Error V → Option String → String
  text_of f e (some t) = t
  text_of f e none = encode_legacy f e

  encode_error_cases :
      (f : Serializer) (e : Error V) (text : String)
      → encode_error f e ≡ ok text
      → (o : Option String) × (encode f e ≡ ok o) × (text ≡ text_of f e o)
  unfolding encode_error
  encode_error_cases f e text h =
      elim (encode f e)
          as (λ r.
            elim r [ err e ↦ err e | ok (some t) ↦ ok t | ok none ↦ ok (encode_legacy f e) ]
              ≡ ok text
            → (o : Option String) × (r ≡ ok o) × (text ≡ text_of f e o)) [
              | err x ↦ λ q. absurd (ground arith)
              | ok (some t) ↦ λ q. (some t, refl, ground arith)
              | ok none ↦ λ q. (none, refl, ground arith)
            ]
        h

  -- Outside the portable format, only application messages without the prefix are left.
  legacy_app :
      (f : Serializer) (e : Error V)
      → is_portable f ≡ false
      → is_legacy f e ≡ true
      → (m : String) × (s : Option String) × (e ≡ app m s) × (strip_prefix m prefix ≡ none)
  unfolding is_legacy
  legacy_app f (app m s) p h = (
    m,
    s,
    refl,
    elim (Option-cases (strip_prefix m prefix)) [
      | inl q ↦ q
      | inr (rest, q) ↦ absurd (ground arith)
    ],
  )
  legacy_app f _ p h = absurd (ground arith)

  module _ (e : Error V)
      (envelope_read : j.envelope_from_str (j.envelope_to_string (envelope e))
        ≡ parsed (envelope e))
      (payload_read : is_wired (recordable e) ≡ true
        → (w : V) × (j.payload_from_value (j.payload_to_value 1 (recordable e))
            ≡ parsed (record { version = 1; error = w }))
          × (j.error_from_value w ≡ parsed (without_source (recordable e)))) where
    from_envelope-envelope :
        is_wired (recordable e) ≡ true
        → is_recovery_required (code e) ≡ false
        → from_envelope (envelope e) ≡ ok (without_source (recordable e))
    unfolding from_envelope decode_payload accept_payload envelope
    from_envelope-envelope w b =
        let (v, p, q) = payload_read w in ground (arith, p, q, code-persisted e)

    read_record :
        (text : String)
        → strip_prefix text prefix ≡ some (j.envelope_to_string (envelope e))
        → from_envelope (envelope e) ≡ ok (without_source (recordable e))
        → read_step_error V text ≡ ok (without_source (recordable e))
    unfolding read_step_error envelope
    read_record text s r = ground (arith, s, envelope_read, r)

    -- Where serde_json reads back the envelope that it printed for an error, and its payload as the
    -- wire type has it, the text that a format other than the portable one stores for the error is
    -- read from a step row as that error, but for two losses: an application error without its
    -- source, and a driver's error as the record that captures it.
    pub try_from_parts-encode_error :
        (f : Serializer) (text : String)
        → is_portable f ≡ false
        → encode_error f e ≡ ok text
        → read_step_error V text ≡ ok (without_source (recordable e))
    unfolding encode_error
    try_from_parts-encode_error f text p h =
        let (o, x, t) = encode_error_cases f e text h in
        let (b, c) = encode_business-cases f e o (encode-business f e o x) in
        elim c [
          | inl (l, q) ↦
              let (m, src, a, s) = legacy_app f e p l in
              ground (
                arith,
                t,
                q,
                a,
                read_legacy V m s,
                encode_legacy-app V f m src p,
                persisted-app V m src,
              )
          | inr (l, q) ↦ ground (
            arith,
            t,
            q,
            read_record (encode_record f e) (encode_record-prefix f e p)
                (from_envelope-envelope (is_wired-recordable f e o x) b),
          )
        ]
