-- ===== src/Memory/Calls/Slots.antt =====
-- The workflow table of src/memory.rs as a table with keys: one row per id, under its own id, and
-- one row per deduplication slot; and the writes to such a table.
use durare.Prelude.{
  String, none, some, ◌≡◌, ◌==◌, ◌⊎◌, string_eq, arith, Option-cases, Bool-cases, inl, inr, ==→≡,
  sym, ◌∙◌, subst,
}
use durare.Map
use durare.Map.{Map, Unique}
use durare.Map.Laws.{
  get-insert, insert-Unique, map_values-Unique, get-map_values-none, get-map_values-some,
}
use durare.Workflow.{WorkflowStatus}

module _ {V : Type 0} where
  -- The row stands in the slot `(queue, dedup)`.
  abbrev pub InSlot : String → String → WorkflowStatus V → Type 0
  InSlot queue dedup w = (w.queue_name ≡ some queue) × (w.dedup_id ≡ some dedup)

  -- Every row stands under its own id.
  abbrev pub Keyed : Map String (WorkflowStatus V) → Type 0
  Keyed m = (k : String) (w : WorkflowStatus V) → Map.get k m ≡ some w → w.id ≡ k

  -- Two rows in one slot are one row.
  abbrev pub Distinct : Map String (WorkflowStatus V) → Type 0
  Distinct m =
      (k l : String) (v w : WorkflowStatus V) (queue dedup : String)
      → Map.get k m ≡ some v
      → Map.get l m ≡ some w
      → InSlot queue dedup v
      → InSlot queue dedup w
      → k ≡ l

  pub record Table (m : Map String (WorkflowStatus V)) : Type 0 where
    pub unique : Unique m
    pub keyed : Keyed m
    pub distinct : Distinct m

  pub move-Table :
      {m' : Map String (WorkflowStatus V)} (m : Map String (WorkflowStatus V))
      → Table m
      → m' ≡ m
      → Table m'
  move-Table m t e = subst Table (sym e) t

  -- No row under another key shares a slot with `w`.
  abbrev pub Free : String → WorkflowStatus V → Map String (WorkflowStatus V) → Type 0
  Free k w m =
      (queue dedup : String) (l : String) (v : WorkflowStatus V)
      → InSlot queue dedup w
      → Map.get l m ≡ some v
      → InSlot queue dedup v
      → k ≡ l

  get-insert-cases :
      (k l : String) (w v : WorkflowStatus V) (m : Map String (WorkflowStatus V))
      → Map.get l (Map.insert k w m) ≡ some v
      → ((k ≡ l) × (w ≡ v)) ⊎ (Map.get l m ≡ some v)
  get-insert-cases k l w v m g = elim (Bool-cases (k == l)) [
    | inl e ↦ inl (==→≡ k l e, ground (arith, get-insert k l w m))
    | inr e ↦ inr (ground (arith, get-insert k l w m))
  ]

  pub insert-Table :
      (k : String) (w : WorkflowStatus V) (m : Map String (WorkflowStatus V))
      → w.id ≡ k
      → Free k w m
      → Table m
      → Table (Map.insert k w m)
  insert-Table k w m named free t = record {
    unique = insert-Unique k w m t.unique;
    keyed = λ l v g. elim (get-insert-cases k l w v m g) [
      | inl (e, same) ↦ rw (← same, ← e) named
      | inr old ↦ t.keyed l v old
    ];
    distinct = λ k' l v v' q d g g' s s'. elim (get-insert-cases k k' w v m g) [
      | inl (e, same) ↦ elim (get-insert-cases k l w v' m g') [
        | inl (e', same') ↦ sym e ∙ e'
        | inr old' ↦ sym e ∙ free q d l v' (rw same s) old' s'
      ]
      | inr old ↦ elim (get-insert-cases k l w v' m g') [
        | inl (e', same') ↦ sym (free q d k' v (rw same' s') old s) ∙ e'
        | inr old' ↦ t.distinct k' l v v' q d old old' s s'
      ]
    ];
  }

  -- A new row of an old one that keeps the id, and keeps its slot or gives it up.
  abbrev pub Tame : WorkflowStatus V → WorkflowStatus V → Type 0
  Tame old new =
      (new.id ≡ old.id)
      × ((new.dedup_id ≡ none)
          ⊎ ((new.queue_name ≡ old.queue_name) × (new.dedup_id ≡ old.dedup_id)))

  slot-Tame :
      (old new : WorkflowStatus V) (q d : String) → Tame old new → InSlot q d new → InSlot q d old
  slot-Tame old new q d (named, inl cleared) (hq, hd) = absurd (ground arith)
  slot-Tame old new q d (named, inr (eq, ed)) (hq, hd) = (sym eq ∙ hq, sym ed ∙ hd)

  pub update-Table :
      (k : String) (old new : WorkflowStatus V) (m : Map String (WorkflowStatus V))
      → Map.get k m ≡ some old
      → Tame old new
      → Table m
      → Table (Map.insert k new m)
  update-Table k old new m at tame t =
      insert-Table k new m (tame.0 ∙ t.keyed k old at)
        (λ q d l v s g s'. t.distinct k l old v q d at g (slot-Tame old new q d tame s) s') t

  -- Without some of its rows a table is a table.
  pub sub-Table :
      (m m' : Map String (WorkflowStatus V))
      → Unique m'
      → ((k : String) (w : WorkflowStatus V) → Map.get k m' ≡ some w → Map.get k m ≡ some w)
      → Table m
      → Table m'
  sub-Table m m' u sub t = record {
    unique = u;
    keyed = λ k w g. t.keyed k w (sub k w g);
    distinct = λ k l v w q d g g' s s'. t.distinct k l v w q d (sub k v g) (sub l w g') s s';
  }

  get-map_values-cases :
      (f : WorkflowStatus V → WorkflowStatus V) (m : Map String (WorkflowStatus V)) (k : String)
      (w : WorkflowStatus V)
      → Map.get k (Map.map_values f m) ≡ some w
      → (v : WorkflowStatus V) × (Map.get k m ≡ some v) × (w ≡ f v)
  get-map_values-cases f m k w g = elim (Option-cases (Map.get k m)) [
    | inl e ↦ absurd (ground (arith, get-map_values-none f k m e))
    | inr (v, e) ↦ (v, e, ground (arith, get-map_values-some f k m {v = v} e))
  ]

  pub map_values-Table :
      (f : WorkflowStatus V → WorkflowStatus V) (m : Map String (WorkflowStatus V))
      → ((w : WorkflowStatus V) → Tame w (f w))
      → Table m
      → Table (Map.map_values f m)
  map_values-Table f m tame t = record {
    unique = map_values-Unique f m t.unique;
    keyed = λ k w g.
        let (v, at, same) = get-map_values-cases f m k w g in rw same ((tame v).0 ∙ t.keyed k v at);
    distinct = λ k l v w q d g g' s s'.
        let (v0, at, same) = get-map_values-cases f m k v g in
        let (w0, at', same') = get-map_values-cases f m l w g' in
        t.distinct k l v0 w0 q d at at' (slot-Tame v0 (f v0) q d (tame v0) (rw (← same) s))
          (slot-Tame w0 (f w0) q d (tame w0) (rw (← same') s'));
  }
