-- ===== src/Replay/Report.antt =====
-- What a verification report says: src/replay.rs.
use durare.Prelude.{
  Bool, true, false, not, Option, none, some, List, [], ◌∷◌, ◌≡◌, ◌⊎◌, refl, arith, All, length,
  count, find, Bool-cases, inl, inr,
}
use durare.Recorded.{is_none}
use durare.Replay.{
  History, RunOutcome, Verification, passes, report, accounts_for, own_failure, unaccounted,
  or_else,
}

module _ {A : Type 0} (p : A → Bool) where
  find-none : (l : List A) → find (λ a. not (p a)) l ≡ none → All (λ a. p a ≡ true) l
  unfolding find
  find-none [] h = tt
  find-none (a ∷ l) h = ground (arith, find-none l)

  find-All : (l : List A) → All (λ a. p a ≡ true) l → find (λ a. not (p a)) l ≡ none
  unfolding find
  find-All [] h = refl
  find-All (a ∷ l) h = ground (arith, find-All l)

  count-All : (l : List A) → All (λ a. p a ≡ true) l → count p l ≡ length l
  unfolding count
  count-All [] h = refl
  count-All (a ∷ l) h = ground (arith, count-All l)

or_else-none : {A : Type 0} (a b : Option A) → or_else a b ≡ none → (a ≡ none) × (b ≡ none)
or_else-none none b h = (refl, h)
or_else-none (some x) b h = absurd (ground arith)

is_none_lem : {A : Type 0} (a : Option A) → is_none a ≡ true → a ≡ none
is_none_lem none h = refl
is_none_lem (some x) h = absurd (ground arith)

module _ {V : Type 0} (v : Verification) (h : History V) (o : RunOutcome V) where
  unaccounted-All :
      unaccounted h.recorded v ≡ none → All (λ op. accounts_for v op ≡ true) h.recorded
  unfolding unaccounted
  unaccounted-All q = find-none (accounts_for v) h.recorded (ground arith)

  -- The run ended on its own without a failure that the recorded run did not have, or the
  -- verification stopped it at the end of an incomplete history.
  abbrev pub EndedWell : Type 0
  EndedWell = (is_none v.stopped_at ≡ false) ⊎ (own_failure h.status o ≡ none)

  -- When a report passes, no call diverged, the re-run accounted for every recorded operation, all of them are counted as matched, and the run did not fail on its own where the recorded run had not.
  pub report-passes :
      passes (report v h o) ≡ true
      → (v.divergence ≡ none)
        × All (λ op. accounts_for v op ≡ true) h.recorded
        × ((report v h o).matched ≡ (report v h o).recorded)
        × EndedWell
  unfolding passes report
  report-passes q =
      let (a, b) = or_else-none v.divergence _ (is_none_lem (report v h o).divergence q) in
      let (c, d) = or_else-none _ (unaccounted h.recorded v) b in
      let all = unaccounted-All d in
      (
        a,
        all,
        count-All (accounts_for v) h.recorded all,
        elim (Bool-cases (is_none v.stopped_at)) [ inl e ↦ inr (ground arith) | inr e ↦ inl e ],
      )

  -- A re-run that diverged nowhere, accounted for every recorded operation and ended well passes.
  pub passes-report :
      v.divergence ≡ none
      → All (λ op. accounts_for v op ≡ true) h.recorded
      → EndedWell
      → passes (report v h o) ≡ true
  unfolding passes report unaccounted
  passes-report a all (inl e) = ground (arith, find-All (accounts_for v) h.recorded all)
  passes-report a all (inr e) = ground (arith, find-All (accounts_for v) h.recorded all)
