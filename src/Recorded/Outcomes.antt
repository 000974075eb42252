-- ===== src/Recorded/Outcomes.antt =====
-- What `try_from_parts` of src/recorded_error.rs returns on stored failures.
use durare.Prelude.{
  false, String, Option, none, some, ◌≡◌, ◌≢◌, arith, Option-cases, inl, inr, true, ap, subst, sym,
  ◌⊎◌, refl, strip_prefix, string_eq, option_eq, int_eq, nat_eq,
}
use durare.Errors.{
  Error, ErrorCode, PortableWorkflowError, ok, recovery_required, observation_failed, portable,
  not_authorized, app_error, >>=-ok,
}
use durare.Host.{Host, Parsed, parsed, malformed}
use durare.Classify.{code, is_recovery_required}
use durare.Recorded.{
  is_wired, prefix, decode_payload, from_envelope, from_reserved, try_from_parts, accept_payload,
  from_parsed, or_null,
}

is_recovery_required_lem :
    (c : ErrorCode) → is_recovery_required c ≡ false → c ≢ ErrorCode.recovery_required
is_recovery_required_lem ErrorCode.recovery_required h = cc
is_recovery_required_lem _ h = λ e. cc

module _ {V : Type 0} ⦃j : Host V⦄ where
  -- The error does not interrupt an execution, neither by its variant nor by its code.
  abbrev pub IsBusiness : Error V → Type 0
  IsBusiness e =
      ((cause : Error V) → e ≢ recovery_required cause)
      × ((cause : Error V) → e ≢ observation_failed cause)
      × (code e ≢ ErrorCode.recovery_required)

  is_wired-IsBusiness :
      (e : Error V) → is_wired e ≡ true → code e ≢ ErrorCode.recovery_required → IsBusiness e
  unfolding is_wired
  is_wired-IsBusiness e h c = (
    (λ cause q. absurd (ground (arith, h, ap is_wired q))),
    (λ cause q. absurd (ground (arith, h, ap is_wired q))),
    c,
  )

  module _
      (wire_skips : (wire : V) (e : Error V)
        → j.error_from_value wire ≡ parsed e
        → is_wired e ≡ true) where
    from_parsed-is_wired :
        (wire : V) (e : Error V)
        → from_parsed {V = V} ⦃j = j⦄ (j.error_from_value wire) ≡ ok e
        → is_wired e ≡ true
    from_parsed-is_wired wire e h =
        elim (j.error_from_value wire)
            as (λ x.
              j.error_from_value wire ≡ x
              → from_parsed {V = V} ⦃j = j⦄ x ≡ ok e
              → is_wired e ≡ true) [
                | parsed a ↦ λ q g. wire_skips wire e (ground (arith, q, g))
                | malformed t ↦ λ q g. absurd (ground (arith, g))
              ]
          refl h

    accept_payload-IsBusiness : (wire : V) (e : Error V) → accept_payload wire ≡ ok e → IsBusiness e
    unfolding accept_payload
    accept_payload-IsBusiness wire e h =
        let (a, q, g) = >>=-ok (from_parsed (j.error_from_value wire)) _ h in
        is_wired-IsBusiness e (from_parsed-is_wired wire e (ground (arith, q, g)))
          (is_recovery_required_lem (code e) (ground (arith, g)))

    decode_payload-IsBusiness :
        (info : PortableWorkflowError V) (e : Error V) → decode_payload info ≡ ok e → IsBusiness e
    unfolding decode_payload
    decode_payload-IsBusiness info e h =
        let (payload, _, g) =
          >>=-ok (from_parsed (j.payload_from_value (or_null info.payload))) _ h in
        accept_payload-IsBusiness payload.error e (ground (arith, g))

    portable-IsBusiness : (info : PortableWorkflowError V) → IsBusiness (portable info)
    unfolding code
    portable-IsBusiness info = ((λ cause q. cc), (λ cause q. cc), λ q. ground arith)

    not_authorized-IsBusiness : (m : String) → IsBusiness (not_authorized m)
    unfolding code
    not_authorized-IsBusiness m = ((λ cause q. cc), (λ cause q. cc), λ q. cc)

    app_error-IsBusiness : (m : String) → IsBusiness (app_error m)
    unfolding code
    app_error-IsBusiness m = ((λ cause q. cc), (λ cause q. cc), λ q. cc)

    from_envelope-cases :
        (info : PortableWorkflowError V) (e : Error V)
        → from_envelope info ≡ ok e
        → (decode_payload info ≡ ok e) ⊎ ((e ≡ portable info) ⊎ (e ≡ not_authorized info.message))
    unfolding from_envelope
    from_envelope-cases info e h = ground arith

    from_envelope-IsBusiness :
        (info : PortableWorkflowError V) (e : Error V) → from_envelope info ≡ ok e → IsBusiness e
    from_envelope-IsBusiness info e h = elim (from_envelope-cases info e h) [
      | inl d ↦ decode_payload-IsBusiness info e d
      | inr (inl q) ↦ subst IsBusiness (sym q) (portable-IsBusiness info)
      | inr (inr q) ↦ subst IsBusiness (sym q) (not_authorized-IsBusiness info.message)
    ]

    from_reserved-IsBusiness :
        (p : Parsed (PortableWorkflowError V)) (e : Error V) → from_reserved p ≡ ok e → IsBusiness e
    unfolding from_reserved
    from_reserved-IsBusiness (malformed t) e h = cc
    from_reserved-IsBusiness (parsed info) e h = from_envelope-IsBusiness info e (ground arith)

    -- Where serde_json never reads a variant that the wire type skips, a stored failure that is
    -- readable is never an execution interruption: neither of its two variants, and not by its code.
    pub try_from_parts-IsBusiness :
        (message : String) (info : Option (PortableWorkflowError V)) (e : Error V)
        → try_from_parts message info ≡ ok e
        → IsBusiness e
    unfolding try_from_parts
    try_from_parts-IsBusiness message (some info) e h = from_envelope-IsBusiness info e h
    try_from_parts-IsBusiness message none e h = elim (Option-cases (strip_prefix message prefix)) [
      | inl q ↦ subst IsBusiness (ground arith) (app_error-IsBusiness message)
      | inr (rest, q) ↦ from_reserved-IsBusiness (j.envelope_from_str rest) e (ground arith)
    ]
