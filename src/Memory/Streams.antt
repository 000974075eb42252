-- ===== src/Memory/Streams.antt =====
-- src/memory.rs: the append-only streams and the events of a workflow.
pub mod Reads
use durare.Prelude.{
  ℤ, pos, negsuc, ℕ, zero, suc, Bool, true, false, String, Option, none, some, List, [], ◌∷◌, ◌==◌,
  if◌then◌else◌, drop, filter, map, sort, str_leb, string_eq, pair_eq,
}
use durare.Map
use durare.Map.{Map}
use durare.Errors.{Result, ok, err}
use durare.Host.{Host, DateTime}
use durare.Memory.{Inner, Op, append_stream, recorded_at, checkpoint, or_default}

abbrev pub to_offset : ℤ → ℕ
to_offset (pos n) = n
to_offset (negsuc n) = 0

abbrev pub cons_value : {V : Type 0} → V → List V × Bool → List V × Bool
cons_value v (vs, closed) = (v ∷ vs, closed)

-- The values up to the close sentinel, and whether it is there.
unfoldable pub read_entries : {V : Type 0} → List (Option V) → List V × Bool
read_entries [] = ([], false)
read_entries (none ∷ rest) = ([], true)
read_entries (some v ∷ rest) = cons_value v (read_entries rest)

-- `take_while(is_some)`, then the values
unfoldable pub open_values : {V : Type 0} → List (Option V) → List V
open_values [] = []
open_values (none ∷ rest) = []
open_values (some v ∷ rest) = v ∷ open_values rest

-- The entries of one workflow in a table with keys `(workflow_id, key)`.
unfoldable pub entries_of : {A : Type 0} → String → Map (String × String) A → List (String × A)
entries_of workflow_id [] = []
entries_of workflow_id (((wid, key), a) ∷ m) =
    let rest = entries_of workflow_id m in if wid == workflow_id then (key, a) ∷ rest else rest

abbrev pub by_key : {A : Type 0} → String × A → String × A → Bool
by_key (k, a) (l, b) = str_leb k l

module _ {V : Type 0} ⦃j : Host V⦄ where
  unfoldable pub write_stream : String → String → Option V → ℤ → Op V (Unit {0})
  write_stream workflow_id key value function_id = append_stream workflow_id key value

  unfoldable pub write_stream_from_workflow :
      String → ℤ → String → String → Option V → DateTime → Op V (Unit {0})
  write_stream_from_workflow workflow_id seq step_name key value now g =
      elim (recorded_at g workflow_id seq step_name) [
        | err e ↦ (err e, g)
        | ok (some row) ↦ (ok tt, g)
        | ok none ↦
            let (r, g') = append_stream workflow_id key value g in
            elim r [
              | err e ↦ (err e, g')
              | ok _ ↦ (ok tt, checkpoint g' workflow_id seq step_name j.null now)
            ]
      ]

module _ {V : Type 0} where
  unfoldable pub read_stream : String → String → ℤ → Inner V → List V × Bool
  unfolding read_entries
  read_stream workflow_id key from_offset g = elim (Map.get (workflow_id, key) g.streams) [
    | none ↦ ([], false)
    | some entries ↦ read_entries (drop (to_offset from_offset) entries)
  ]

  unfoldable pub list_workflow_streams : String → Inner V → List (String × List V)
  unfolding entries_of open_values
  list_workflow_streams workflow_id g = sort by_key (
      map (λ (e : String × List (Option V)). (e.0, open_values e.1))
        (entries_of workflow_id g.streams))

  unfoldable pub upsert_event : String → String → V → Op V (Unit {0})
  upsert_event workflow_id key value g =
      (ok tt, record g { events = Map.insert (workflow_id, key) value g.events })

  unfoldable pub get_event_value : String → String → Inner V → Option V
  get_event_value workflow_id key g = Map.get (workflow_id, key) g.events

  unfoldable pub list_workflow_events : String → Inner V → List (String × V)
  unfolding entries_of
  list_workflow_events workflow_id g = sort by_key (entries_of workflow_id g.events)
