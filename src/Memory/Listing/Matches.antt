-- ===== src/Memory/Listing/Matches.antt =====
-- What the filter of `list_workflows` of src/memory.rs selects, said without its tests.
use text.Mathlib.Text.{starts_with}
use durare.Prelude.{
  ℤ, ℕ, zero, suc, Bool, true, false, String, Option, none, some, List, [], ◌∷◌, ◌≡◌, refl, ◌↔◌,
  ◌⊎◌, inl, inr, ◌==◌, ◌&&◌, ◌||◌, not, leb_ℤ, ◌≤ℤ◌, any, is_empty, contains, filter_map, get_elem?,
  string_eq, bool_eq, arith, Bool-cases, Option-cases, ==_refl, ==→≡,
}
use durare.Map
use durare.Map.{Map}
use durare.Host.{Host}
use durare.Workflow.{WorkflowStatus}
use durare.Memory.Dispatch.{is_some, is_some_and}
use durare.Memory.Listing.{
  ListFilter, is_none_or, names, names_some, attributes_contain, fork_sources, is_listed,
}
use durare.Memory.Manage.Closure.{Within, Within-self}
use durare.Memory.Calls.Slots.{Table}

-- The element stands in the list.
abbrev pub Among {ℓ} : {A : Type ℓ} → A → List A → Type ℓ
Among a l = (i : ℕ) × (get_elem? l i ≡ some a)

-- Conditions and tests that are read from the left.
infixl 35 ◌and◌
abbrev pub ◌and◌ : Type 0 → Type 0 → Type 0
P and Q = P × Q

infixl 35 ◌also◌
◌also◌ :
    {a b : Bool} {P Q : Type 0} → (a ≡ true) ↔ P → (b ≡ true) ↔ Q → ((a && b) ≡ true) ↔ (P and Q)
◌also◌ {a = true} p q = ((λ h. (p.0 refl, q.0 h)), λ h. q.1 h.1)
◌also◌ {a = false} p q = ((λ h. absurd (ground arith)), λ h. p.1 h.0)

module _ {A : Type 0} where
  pub any_iff :
      (p : A → Bool) (l : List A) → (any p l ≡ true) ↔ ((x : A) × Among x l × (p x ≡ true))
  unfolding any
  any_iff p [] = ((λ h. cc), λ (x, (i, e), h). cc)
  any_iff p (x ∷ l) = (
    (λ h. elim (Bool-cases (p x)) [
      | inl e ↦ (x, (zero, refl), e)
      | inr e ↦ let (y, (i, m), q) = (any_iff p l).0 (ground arith) in (y, (suc i, m), q)
    ]),
    λ (y, (i, m), q).
        elim i as (λ i. get_elem? (x ∷ l) i ≡ some y → any p (x ∷ l) ≡ true) [
          | zero ↦ λ m. ground (arith, q)
          | suc i ↦ λ m. let rest = (any_iff p l).1 (y, (i, m), q) in ground (arith, rest)
        ]
          m,
  )

  is_none_or_iff :
      (p : A → Bool) (P : A → Type 0) (o : Option A)
      → ((a : A) → (p a ≡ true) ↔ P a)
      → (is_none_or p o ≡ true) ↔ ((a : A) → o ≡ some a → P a)
  is_none_or_iff p P none e = ((λ h a q. cc), λ h. refl)
  is_none_or_iff p P (some b) e = ((λ h a q. (e a).0 (ground (arith, q))), λ h. (e b).1 (h b refl))

  is_some_and_iff :
      (p : A → Bool) (P : A → Type 0) (o : Option A)
      → ((a : A) → (p a ≡ true) ↔ P a)
      → (is_some_and p o ≡ true) ↔ ((a : A) × (o ≡ some a) × P a)
  is_some_and_iff p P none e = ((λ h. cc), λ (a, q, h). cc)
  is_some_and_iff p P (some b) e =
      ((λ h. (b, refl, (e b).0 h)), λ (a, q, h). let k = (e a).1 h in ground (arith, q))

  is_empty_or_iff :
      (l : List A) {b : Bool} {P : Type 0}
      → (b ≡ true) ↔ P
      → ((is_empty l || b) ≡ true) ↔ ((l ≡ []) ⊎ P)
  is_empty_or_iff [] e = ((λ h. inl refl), λ h. refl)
  is_empty_or_iff (x ∷ l) e =
      ((λ h. inr (e.0 h)), λ h. elim h [ inl q ↦ absurd (ground (arith, q)) | inr q ↦ e.1 q ])

contains_iff : (l : List String) (a : String) → (contains l a ≡ true) ↔ Among a l
unfolding contains
contains_iff [] a = ((λ h. cc), λ (i, e). cc)
contains_iff (x ∷ l) a = (
  (λ h. elim (Bool-cases (x == a)) [
    | inl e ↦ (zero, ground (arith, ==→≡ x a e))
    | inr e ↦ let (i, m) = (contains_iff l a).0 (ground arith) in (suc i, m)
  ]),
  λ (i, m).
      elim i as (λ i. get_elem? (x ∷ l) i ≡ some a → contains (x ∷ l) a ≡ true) [
        | zero ↦ λ m. ground (arith, ==_refl a)
        | suc i ↦ λ m. let rest = (contains_iff l a).1 (i, m) in ground (arith, rest)
      ]
        m,
)

leb_ℤ_iff : (a b : ℤ) → (leb_ℤ a b ≡ true) ↔ (a ≤ℤ b)
leb_ℤ_iff a b = ground arith

is_some_iff : {A : Type 0} (o : Option A) → (is_some o ≡ true) ↔ ((a : A) × (o ≡ some a))
is_some_iff none = ((λ h. cc), λ (a, q). cc)
is_some_iff (some a) = ((λ h. (a, refl)), λ h. refl)

-- A test whose outcome is asked for.
==_iff : {a b : Bool} {P : Type 0} → (a ≡ true) ↔ P → ((a == b) ≡ true) ↔ ((b ≡ true) ↔ P)
==_iff {a = true} {b = true} e = ((λ h. e), λ h. refl)
==_iff {a = true} {b = false} e = ((λ h. cc), λ h. let q = h.1 (e.0 refl) in cc)
==_iff {a = false} {b = true} e = ((λ h. cc), λ h. let q = e.1 (h.0 refl) in cc)
==_iff {a = false} {b = false} e = ((λ h. e), λ h. refl)

unless_iff : {a b : Bool} {P : Type 0} → (b ≡ true) ↔ P → ((not a || b) ≡ true) ↔ (a ≡ true → P)
unless_iff {a = true} e = ((λ h q. e.0 h), λ h. e.1 (h refl))
unless_iff {a = false} e = ((λ h q. cc), λ h. refl)

-- An empty list asks for nothing; otherwise `a` is one of its names.
abbrev pub OneOf : List String → String → Type 0
OneOf l a = (l ≡ []) ⊎ Among a l

abbrev pub OneOfSome : List String → Option String → Type 0
OneOfSome l o = (l ≡ []) ⊎ ((a : String) × (o ≡ some a) × Among a l)

names_iff : (l : List String) (a : String) → (names l a ≡ true) ↔ OneOf l a
names_iff l a = is_empty_or_iff l (contains_iff l a)

names_some_iff : (l : List String) (o : Option String) → (names_some l o ≡ true) ↔ OneOfSome l o
names_some_iff l o =
    is_empty_or_iff l (is_some_and_iff (contains l) (λ a. Among a l) o (contains_iff l))

-- The instant stands in the bounds that there are; a bound is met only by an instant that is there.
abbrev pub AtOrAfter : Option ℤ → Option ℤ → Type 0
AtOrAfter bound at = (t : ℤ) → bound ≡ some t → (c : ℤ) × (at ≡ some c) × (t ≤ℤ c)

abbrev pub AtOrBefore : Option ℤ → Option ℤ → Type 0
AtOrBefore bound at = (t : ℤ) → bound ≡ some t → (c : ℤ) × (at ≡ some c) × (c ≤ℤ t)

after_iff :
    (bound at : Option ℤ)
    → (is_none_or (λ t. is_some_and (λ c. leb_ℤ t c) at) bound ≡ true) ↔ AtOrAfter bound at
after_iff bound at =
    is_none_or_iff _ _ bound (λ t. is_some_and_iff _ (λ c. t ≤ℤ c) at (λ c. leb_ℤ_iff t c))

before_iff :
    (bound at : Option ℤ)
    → (is_none_or (λ t. is_some_and (λ c. leb_ℤ c t) at) bound ≡ true) ↔ AtOrBefore bound at
before_iff bound at =
    is_none_or_iff _ _ bound (λ t. is_some_and_iff _ (λ c. c ≤ℤ t) at (λ c. leb_ℤ_iff c t))

module _ {V : Type 0} where
  -- Some workflow is a fork of `id`.
  abbrev pub IsForked : Map String (WorkflowStatus V) → String → Type 0
  IsForked m id =
      (k : String) × (w : WorkflowStatus V) × (Map.get k m ≡ some w) × (w.forked_from ≡ some id)

  IsForked-from :
      (m r : Map String (WorkflowStatus V)) (id : String)
      → Within m r
      → contains (filter_map (λ (w : WorkflowStatus V). w.forked_from) (Map.values r)) id ≡ true
      → IsForked m id
  unfolding contains filter_map
  IsForked-from m [] id h c = cc
  IsForked-from m ((k, w) ∷ r) id h c = elim (Option-cases w.forked_from) [
    | inl e ↦ IsForked-from m r id h.1 (ground (arith, e))
    | inr (x, e) ↦ elim (Bool-cases (x == id)) [
      | inl q ↦ (k, w, h.0, ground (arith, e, ==→≡ x id q))
      | inr q ↦ IsForked-from m r id h.1 (ground (arith, e, q))
    ]
  ]

  contains-IsForked :
      (m : Map String (WorkflowStatus V)) (k id : String) {w : WorkflowStatus V}
      → Map.get k m ≡ some w
      → w.forked_from ≡ some id
      → contains (filter_map (λ (w : WorkflowStatus V). w.forked_from) (Map.values m)) id ≡ true
  unfolding contains filter_map Map.get
  contains-IsForked [] k id g e = cc
  contains-IsForked ((i, v) ∷ m) k id {w} g e = elim (Bool-cases (i == k)) [
    | inl q ↦ let same : v ≡ w = ground arith in rw same (rw e (ground (arith, ==_refl id)))
    | inr q ↦
        let rest = contains-IsForked m k id {w = w} (ground arith) e in
        elim (Option-cases v.forked_from) [
          | inl n ↦ rw n rest
          | inr (x, n) ↦ rw n (ground (arith, rest))
        ]
  ]

module _ {V : Type 0} ⦃j : Host V⦄ where
  IsForked-iff :
      (m : Map String (WorkflowStatus V)) (id : String)
      → Table m
      → (contains (fork_sources m) id ≡ true) ↔ IsForked m id
  unfolding fork_sources
  IsForked-iff m id t = (
    (λ h. IsForked-from m m id (Within-self m t.unique) h),
    λ (k, w, g, e). contains-IsForked m k id {w = w} g e,
  )

  -- The row is what the filter asks for: one of each list of names that is not empty; an id with one
  -- of the prefixes; attributes that contain the filter's; every instant within its bounds; and
  -- being forked from, having a parent and having a queue as asked.
  unfoldable pub Matches : ListFilter V → Map String (WorkflowStatus V) → WorkflowStatus V → Type 0
  Matches f m w =
      let created = some (j.timestamp_millis w.created_at) in
      OneOf f.workflow_ids w.id
      and ((f.workflow_id_prefix ≡ [])
          ⊎ ((p : String) × Among p f.workflow_id_prefix × (starts_with w.id p ≡ true)))
      and OneOf f.name w.name
      and ((a : List (String × V))
          → f.attributes ≡ some a
          → attributes_contain w.attributes a ≡ true)
      and OneOf f.status w.status
      and OneOfSome f.queue_name w.queue_name
      and OneOf f.app_version w.app_version
      and OneOf f.executor_ids w.executor_id
      and OneOfSome f.authenticated_users w.authenticated_user
      and OneOfSome f.forked_from w.forked_from
      and OneOfSome f.parent_workflow_ids w.parent_workflow_id
      and ((b : Bool) → f.was_forked_from ≡ some b → (b ≡ true) ↔ IsForked m w.id)
      and AtOrAfter f.start_time_ms created
      and AtOrBefore f.end_time_ms created
      and AtOrAfter f.completed_after_ms w.completed_at_ms
      and AtOrBefore f.completed_before_ms w.completed_at_ms
      and AtOrAfter f.dequeued_after_ms w.started_at_ms
      and AtOrBefore f.dequeued_before_ms w.started_at_ms
      and ((b : Bool)
          → f.has_parent ≡ some b
          → (b ≡ true) ↔ ((p : String) × (w.parent_workflow_id ≡ some p)))
      and (f.queues_only ≡ true → (q : String) × (w.queue_name ≡ some q))

  pub is_listed_iff :
      (f : ListFilter V) (m : Map String (WorkflowStatus V)) (w : WorkflowStatus V)
      → Table m
      → (is_listed f (fork_sources m) w ≡ true) ↔ Matches f m w
  unfolding is_listed Matches
  is_listed_iff f m w t =
      let created = some (j.timestamp_millis w.created_at) in
      names_iff f.workflow_ids w.id
      also is_empty_or_iff f.workflow_id_prefix (any_iff (starts_with w.id) f.workflow_id_prefix)
      also names_iff f.name w.name
      also is_none_or_iff _ _ f.attributes (λ a. ((λ h. h), λ h. h))
      also names_iff f.status w.status
      also names_some_iff f.queue_name w.queue_name
      also names_iff f.app_version w.app_version
      also names_iff f.executor_ids w.executor_id
      also names_some_iff f.authenticated_users w.authenticated_user
      also names_some_iff f.forked_from w.forked_from
      also names_some_iff f.parent_workflow_ids w.parent_workflow_id
      also is_none_or_iff _ _ f.was_forked_from (λ b. ==_iff (IsForked-iff m w.id t))
      also after_iff f.start_time_ms created
      also before_iff f.end_time_ms created
      also after_iff f.completed_after_ms w.completed_at_ms
      also before_iff f.completed_before_ms w.completed_at_ms
      also after_iff f.dequeued_after_ms w.started_at_ms
      also before_iff f.dequeued_before_ms w.started_at_ms
      also is_none_or_iff _ _ f.has_parent (λ b. ==_iff (is_some_iff w.parent_workflow_id))
      also unless_iff (is_some_iff w.queue_name)
