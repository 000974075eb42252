-- ===== src/Memory/Manage/Closure.antt =====
-- `descendants` against an inductive description of descent by `parent_workflow_id`.
use durare.Prelude.{
  ℕ, zero, suc, ◌+◌, true, not, String, none, some, List, [], ◌∷◌, ◌++◌, ◌≡◌, ◌↔◌, refl, ◌==◌, ◌&&◌,
  string_eq, option_eq, arith, Option-cases, Bool-cases, inl, inr, ==_refl, ==→≡, contains, length,
  get_elem?, All,
}
use durare.Map
use durare.Map.{Map, Unique}
use durare.Workflow.{WorkflowStatus}
use durare.Memory.Manage.{push_children, collect, descendants}
use durare.Memory.Manage.Descendants.{
  contains-push, missing-le, HasKeys, collect-total, collect-closed, ChildrenIn,
}

-- A workflow descends from the ids when it is one of them, or its row names a parent that does.
pub data Descends {V : Type 0} (m : Map String (WorkflowStatus V)) (ids : List String)
    : String → Type 0 where
  root : {x : String} → contains ids x ≡ true → Descends m ids x
  child :
      {x p : String} {row : WorkflowStatus V}
      → Map.get x m ≡ some row
      → row.parent_workflow_id ≡ some p
      → Descends m ids p
      → Descends m ids x

module _ {V : Type 0} where
  abbrev pub Within : Map String (WorkflowStatus V) → Map String (WorkflowStatus V) → Type 0
  Within m r = All (λ (e : String × WorkflowStatus V). Map.get e.0 m ≡ some e.1) r

  Within-cons :
      (id : String) (row : WorkflowStatus V) (m r : Map String (WorkflowStatus V))
      → Map.get id m ≡ none
      → Within m r
      → Within ((id, row) ∷ m) r
  unfolding Map.get
  Within-cons id row m [] n h = tt
  Within-cons id row m ((i, w) ∷ r) n h =
      (ground (arith, ==→≡ id i, h.0), Within-cons id row m r n h.1)

  pub Within-self : (m : Map String (WorkflowStatus V)) → Unique m → Within m m
  unfolding Map.get
  Within-self [] u = tt
  Within-self ((id, row) ∷ m) u =
      (ground (arith, ==_refl id), Within-cons id row m m u.0 (Within-self m u.1))

  HasKeys-cons :
      (id : String) (row : WorkflowStatus V) (m r : Map String (WorkflowStatus V))
      → HasKeys m r
      → HasKeys ((id, row) ∷ m) r
  unfolding Map.contains_key
  HasKeys-cons id row m [] h = tt
  HasKeys-cons id row m ((i, w) ∷ r) h = (ground (arith, h.0), HasKeys-cons id row m r h.1)

  HasKeys-self : (m : Map String (WorkflowStatus V)) → HasKeys m m
  unfolding Map.contains_key
  HasKeys-self [] = tt
  HasKeys-self ((id, row) ∷ m) =
      (ground (arith, ==_refl id), HasKeys-cons id row m m (HasKeys-self m))

  module _ (m : Map String (WorkflowStatus V)) (ids : List String) where
    abbrev Sound : List String → Type 0
    Sound t = (x : String) → contains t x ≡ true → Descends m ids x

    push-Sound : (t : List String) (c : String) → Sound t → Descends m ids c → Sound (t ++ c ∷ [])
    push-Sound t c s d x h = elim (Bool-cases (c == x)) [
      | inl e ↦ rw (← ==→≡ c x e) d
      | inr e ↦ s x (ground (arith, contains-push t c x))
    ]

    push_children-Sound :
        (p : String) (r : Map String (WorkflowStatus V)) (t : List String)
        → Within m r
        → Descends m ids p
        → Sound t
        → Sound (push_children p r t)
    unfolding push_children
    push_children-Sound p [] t w d s = s
    push_children-Sound p ((id, row) ∷ r) t w d s =
        elim (Bool-cases (row.parent_workflow_id == some p && not (contains t id))) [
          | inl e ↦ rw e (
              push_children-Sound p r (t ++ id ∷ []) w.1 d (
                push-Sound t id s
                  (child w.0 (==→≡ row.parent_workflow_id (some p) (ground arith)) d)))
          | inr e ↦ rw e (push_children-Sound p r t w.1 d s)
        ]

    get_elem?-contains :
        (t : List String) (i : ℕ) {p : String} → get_elem? t i ≡ some p → contains t p ≡ true
    unfolding contains
    get_elem?-contains [] i h = cc
    get_elem?-contains (x ∷ t) zero {p} h = ground (arith, ==_refl p)
    get_elem?-contains (x ∷ t) (suc i) {p} h = ground (arith, get_elem?-contains t i {p = p} h)

    collect-Sound :
        (fuel i : ℕ) (t : List String) {r : List String}
        → Within m m
        → Sound t
        → collect fuel m i t ≡ some r
        → Sound r
    unfolding collect
    collect-Sound zero i t w s h = cc
    collect-Sound (suc fuel) i t {r} w s h = elim (Option-cases (get_elem? t i)) [
      | inl e ↦ let same : t ≡ r = ground arith in rw (← same) s
      | inr (p, e) ↦
          collect-Sound fuel (suc i) (push_children p m t) {r = r} w
            (push_children-Sound p m t w (s p (get_elem?-contains t i e)) s) (ground arith)
    ]

    Descends-closed :
        (r : List String) {x : String}
        → ((y : String) → contains ids y ≡ true → contains r y ≡ true)
        → ((p : String) → contains r p ≡ true → ChildrenIn m r p)
        → Descends m ids x
        → contains r x ≡ true
    Descends-closed r keep closed (root h) = keep _ h
    Descends-closed r keep closed (child g e d) = closed _ (Descends-closed r keep closed d) _ _ g e

    collects : (r : List String) × (collect (suc (length ids + length m)) m 0 ids ≡ some r)
    collects = elim (Option-cases (collect (suc (length ids + length m)) m 0 ids)) [
      | inl e ↦ absurd (
          collect-total m (suc (length ids + length m)) 0 ids (HasKeys-self m)
            (omega (arith, missing-le m m ids)) (omega arith) e)
      | inr h ↦ h
    ]

    descendants-collect :
        {r : List String}
        → collect (suc (length ids + length m)) m 0 ids ≡ some r
        → descendants m ids ≡ r
    unfolding descendants
    descendants-collect e = rw (descendants, e) refl

    -- On a map with one row per id the traversal ends, and what it collects are exactly the given ids
    -- and their descendants: the rows whose `parent_workflow_id` leads up to one of the ids.
    pub descendants-Descends :
        (x : String)
        → Unique m
        → (collect (suc (length ids + length m)) m 0 ids ≡ some (descendants m ids))
          × ((contains (descendants m ids) x ≡ true) ↔ Descends m ids x)
    descendants-Descends x u =
        let (r, e) = collects in
        let (keep, closed) =
          collect-closed m (suc (length ids + length m)) 0 ids {r = r}
            (λ k p h. absurd (omega arith)) e in
        rw (descendants-collect e) (
          e,
          (
            (λ h.
                collect-Sound (suc (length ids + length m)) 0 ids (Within-self m u) (λ y q. root q)
                  e x h),
            Descends-closed r keep closed,
          ),
        )
