-- ===== src/Memory/Manage/Descendants.antt =====
-- The traversal by `parent_workflow_id` that cancel and delete share in src/memory.rs: its fuel, and
-- what it collects.
use native.Mathlib.Decide.{dec_lt}
use mathlib.Core.Option.{some-injective}
use durare.Prelude.{
  ℕ, zero, suc, ◌+◌, ◌≤◌, ◌<◌, true, false, String, none, some, List, [], ◌∷◌, ◌++◌, ◌≡◌, ◌≢◌, refl,
  ◌==◌, ◌||◌, if◌then◌else◌, string_eq, option_eq, arith, Option-cases, Bool-cases, inl, inr,
  ==_refl, ==→≡, contains, length, get_elem?, All, length-append, option_beq_iff, ap, sym, ◌∙◌,
}
use durare.Map
use durare.Map.{Map, Unique}
use durare.Workflow.{WorkflowStatus}
use durare.Memory.Manage.{push_children, collect}

pub contains-push :
    (l : List String) (x y : String) → contains (l ++ x ∷ []) y ≡ (contains l y || x == y)
unfolding contains
contains-push [] x y = ground arith
contains-push (z ∷ l) x y = ground (arith, contains-push l x y)

get_elem?-append_left :
    (l r : List String) (k : ℕ) {q : String}
    → get_elem? l k ≡ some q
    → get_elem? (l ++ r) k ≡ some q
get_elem?-append_left [] r k h = cc
get_elem?-append_left (x ∷ l) r zero h = h
get_elem?-append_left (x ∷ l) r (suc k) h = get_elem?-append_left l r k h

get_elem?-lt : (l : List String) (k : ℕ) {q : String} → get_elem? l k ≡ some q → k < length l
get_elem?-lt [] k h = cc
get_elem?-lt (x ∷ l) zero h = omega arith
get_elem?-lt (x ∷ l) (suc k) h = omega (arith, get_elem?-lt l k h)

get_elem?-some : (l : List String) (k : ℕ) → k < length l → (q : String) × (get_elem? l k ≡ some q)
get_elem?-some [] k h = absurd (omega arith)
get_elem?-some (x ∷ l) zero h = (x, refl)
get_elem?-some (x ∷ l) (suc k) h = get_elem?-some l k (omega arith)

pub get_elem?_of_contains :
    (l : List String) (x : String) → contains l x ≡ true → (k : ℕ) × (get_elem? l k ≡ some x)
unfolding contains
get_elem?_of_contains [] x h = cc
get_elem?_of_contains (y ∷ l) x h = elim (Bool-cases (y == x)) [
  | inl e ↦ (0, ap some (==→≡ y x e))
  | inr e ↦ let (k, at) = get_elem?_of_contains l x (ground arith) in (suc k, at)
]

-- An index with an element lies before one without.
beyond :
    (l : List String) (i k : ℕ) {x : String} → get_elem? l i ≡ none → get_elem? l k ≡ some x → k < i
beyond [] i k e h = cc
beyond (y ∷ l) zero k e h = cc
beyond (y ∷ l) (suc i) zero e h = omega arith
beyond (y ∷ l) (suc i) (suc k) e h = omega (arith, beyond l i k e h)

module _ {V : Type 0} (m : Map String (WorkflowStatus V)) where
  -- The rows of the map that are no targets yet.
  pub missing : Map String (WorkflowStatus V) → List String → ℕ
  missing [] targets = 0
  missing ((id, row) ∷ r) targets =
      let rest = missing r targets in if contains targets id then rest else suc rest

  pub missing-le : (r : Map String (WorkflowStatus V)) (t : List String) → missing r t ≤ length r
  unfolding missing
  missing-le [] t = omega arith
  missing-le ((id, row) ∷ r) t = ground (arith, missing-le r t)

  missing-push-le :
      (r : Map String (WorkflowStatus V)) (t : List String) (x : String)
      → missing r (t ++ x ∷ []) ≤ missing r t
  unfolding missing
  missing-push-le [] t x = omega arith
  missing-push-le ((id, row) ∷ r) t x = ground (arith, contains-push t x id, missing-push-le r t x)

  -- A pushed row is missing no more.
  missing-push :
      (r : Map String (WorkflowStatus V)) (t : List String) (x : String)
      → Map.contains_key x r ≡ true
      → contains t x ≡ false
      → missing r (t ++ x ∷ []) + 1 ≤ missing r t
  unfolding missing Map.contains_key
  missing-push [] t x k n = cc
  missing-push ((id, row) ∷ r) t x k n = elim (Bool-cases (id == x)) [
    | inl e ↦
        rw (==→≡ id x e) (ground (arith, contains-push t x x, ==_refl x, missing-push-le r t x))
    | inr e ↦ ground (arith, contains-push t x id, missing-push r t x)
  ]

  abbrev pub HasKeys : Map String (WorkflowStatus V) → Type 0
  HasKeys r = All (λ (e : String × WorkflowStatus V). Map.contains_key e.0 m ≡ true) r

  push_children-measure :
      (p : String) (r : Map String (WorkflowStatus V)) (t : List String)
      → HasKeys r
      → length (push_children p r t) + missing m (push_children p r t) ≤ length t + missing m t
  unfolding push_children
  push_children-measure p [] t h = omega arith
  push_children-measure p ((id, row) ∷ r) t h = ground (
    arith,
    push_children-measure p r t h.1,
    push_children-measure p r (t ++ id ∷ []) h.1,
    length-append t (id ∷ []),
    missing-push m t id h.0,
  )

  -- The traversal only appends.
  length-push_children :
      (p : String) (r : Map String (WorkflowStatus V)) (t : List String)
      → length t ≤ length (push_children p r t)
  unfolding push_children
  length-push_children p [] t = omega arith
  length-push_children p ((id, row) ∷ r) t = ground (
    arith,
    length-push_children p r t,
    length-push_children p r (t ++ id ∷ []),
    length-append t (id ∷ []),
  )

  pub get_elem?-push_children :
      (p : String) (r : Map String (WorkflowStatus V)) (t : List String) (k : ℕ) {q : String}
      → get_elem? t k ≡ some q
      → get_elem? (push_children p r t) k ≡ some q
  unfolding push_children
  get_elem?-push_children p [] t k h = h
  get_elem?-push_children p ((id, row) ∷ r) t k {q} h = ground (
    arith,
    get_elem?-push_children p r t k {q = q},
    get_elem?-append_left t (id ∷ []) k {q = q} h,
    get_elem?-push_children p r (t ++ id ∷ []) k {q = q},
  )

  contains-push_children :
      (p : String) (r : Map String (WorkflowStatus V)) (t : List String) (x : String)
      → contains t x ≡ true
      → contains (push_children p r t) x ≡ true
  unfolding push_children
  contains-push_children p [] t x h = h
  contains-push_children p ((id, row) ∷ r) t x h = ground (
    arith,
    contains-push_children p r t x,
    contains-push_children p r (t ++ id ∷ []) x,
    contains-push t id x,
  )

  -- The children of `p` are in.
  push_children-children :
      (p : String) (r : Map String (WorkflowStatus V)) (t : List String) (c : String)
      {row : WorkflowStatus V}
      → Map.get c r ≡ some row
      → row.parent_workflow_id ≡ some p
      → contains (push_children p r t) c ≡ true
  unfolding push_children Map.get
  push_children-children p [] t c g h = cc
  push_children-children p ((id, w) ∷ r) t c {row} g h = elim (Bool-cases (id == c)) [
    | inl e ↦ ground (
      arith,
      ==→≡ id c e,
      option_beq_iff w.parent_workflow_id (some p),
      contains-push_children p r t c,
      contains-push_children p r (t ++ id ∷ []) c,
      contains-push t id c,
    )
    | inr e ↦ ground (
      arith,
      push_children-children p r t c {row = row},
      push_children-children p r (t ++ id ∷ []) c {row = row},
    )
  ]

  -- With this much fuel the traversal ends.
  pub collect-total :
      (fuel i : ℕ) (t : List String)
      → HasKeys m
      → length t + missing m t < fuel + i
      → i ≤ length t
      → collect fuel m i t ≢ none
  unfolding collect
  collect-total zero i t k h le = absurd (omega arith)
  collect-total (suc fuel) i t k h le = elim (Option-cases (get_elem? t i)) [
    | inl e ↦ ground arith
    | inr (p, e) ↦
        rw (e, collect)
          (collect-total fuel (suc i) (push_children p m t) k
            (omega (arith, push_children-measure p m t k))
            (omega (arith, length-push_children p m t, get_elem?-lt t i e)))
  ]

  -- The children of `p` are targets.
  abbrev pub ChildrenIn : List String → String → Type 0
  ChildrenIn t p =
      (c : String) (row : WorkflowStatus V)
      → Map.get c m ≡ some row
      → row.parent_workflow_id ≡ some p
      → contains t c ≡ true

  -- The targets before `i` have their children among the targets.
  abbrev pub Done : ℕ → List String → Type 0
  Done i t = (k : ℕ) (p : String) → k < i → get_elem? t k ≡ some p → ChildrenIn t p

  Done-push_children :
      (i : ℕ) (t : List String) (p : String)
      → get_elem? t i ≡ some p
      → Done i t
      → Done (suc i) (push_children p m t)
  Done-push_children i t p at done k q lt h c row g e = elim (dec_lt k i) [
    | yes before ↦
        let (q', there) = get_elem?-some t k (omega (arith, get_elem?-lt t i at)) in
        let same : q' ≡ q = some-injective _ _ (sym (get_elem?-push_children p m t k there) ∙ h) in
        contains-push_children p m t c (done k q' before there c row g (rw same e))
    | no after ↦
        let here : k ≡ i = omega arith in
        let same : p ≡ q =
          some-injective _ _ (sym (get_elem?-push_children p m t i at) ∙ rw here at h) in
        push_children-children p m t c g (rw same e)
  ]

  -- What the traversal returns holds the first targets, and the children of all that it holds.
  pub collect-closed :
      (fuel i : ℕ) (t : List String) {r : List String}
      → Done i t
      → collect fuel m i t ≡ some r
      → ((x : String) → contains t x ≡ true → contains r x ≡ true)
        × ((p : String) → contains r p ≡ true → ChildrenIn r p)
  unfolding collect
  collect-closed zero i t d h = cc
  collect-closed (suc fuel) i t {r} d h = elim (Option-cases (get_elem? t i)) [
    | inl e ↦
        let same : t ≡ r = ground arith in
        (
          (λ x q. rw (← same) q),
          λ p q.
              let (k, at) = get_elem?_of_contains t p (rw same q) in
              rw (← same) (d k p (beyond t i k e at) at),
        )
    | inr (p, e) ↦
        let (keep, closed) =
          collect-closed fuel (suc i) (push_children p m t) {r = r} (Done-push_children i t p e d)
            (ground arith) in
        ((λ x q. keep x (contains-push_children p m t x q)), closed)
  ]
