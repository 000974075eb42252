-- ===== src/Memory/Listing/Pages.antt =====
-- The order and the pages of `list_workflows` of src/memory.rs.
use mathlib.Core.Option
use durare.Prelude.{
  ℤ, pos, ℕ, ◌+◌, Bool, true, false, Option, none, some, List, ◌≡◌, refl, sym, ap, ◌∙◌,
  if◌then◌else◌, ltb_ℤ, ltb, ◌≤ℤ◌, count, filter, reverse, sort, map, length, get_elem?, string_eq,
  arith, Ordered, Ordered-sort, Ordered-reverse, Ordered-map, length-map, length-sort,
  length-reverse, length-filter, get_elem?-take, get_elem?-drop, get_elem?-map,
}
use durare.Map
use durare.Host.{Host}
use durare.Workflow.{WorkflowStatus}
use durare.Memory.{Inner}
use durare.Memory.Dispatch.{to_usize}
use durare.Memory.Listing.{
  ListFilter, is_listed, fork_sources, earlier_created, skip, truncate, trim, list_workflows,
}

-- The same listing on one page.
abbrev pub whole : {V : Type 0} → ListFilter V → ListFilter V
whole f = record f { limit = none; offset = none }

-- The listing has an element at this position at most.
abbrev pub on_page : Option ℤ → ℕ → Bool
on_page none i = true
on_page (some n) i = ltb_ℤ (pos i) n

-- Where the page begins; a negative offset is none.
abbrev pub start : Option ℤ → ℕ
start none = 0
start (some n) = to_usize n

get_elem?-skip :
    {A : Type 0} (o : Option ℤ) (l : List A) (i : ℕ)
    → get_elem? (skip o l) i ≡ get_elem? l (start o + i)
get_elem?-skip none l i = ap (get_elem? l) (omega arith)
get_elem?-skip (some n) l i = get_elem?-drop (to_usize n) l i

ltb-to_usize : (i : ℕ) (n : ℤ) → ltb i (to_usize n) ≡ ltb_ℤ (pos i) n
ltb-to_usize i n = ground arith

get_elem?-truncate :
    {A : Type 0} (o : Option ℤ) (l : List A) (i : ℕ)
    → get_elem? (truncate o l) i ≡ (if on_page o i then get_elem? l i else none)
get_elem?-truncate none l i = refl
get_elem?-truncate (some n) l i = rw (← ltb-to_usize i n) (get_elem?-take (to_usize n) l i)

map-if :
    {A B : Type 0} (f : A → B) (b : Bool) (o : Option A)
    → Option.map f (if b then o else none) ≡ (if b then Option.map f o else none)
map-if f true o = refl
map-if f false o = refl

-- Oldest first, or newest first.
abbrev pub InOrder : Bool → ℤ → ℤ → Type 0
InOrder false a b = a ≤ℤ b
InOrder true a b = b ≤ℤ a

module _ {V : Type 0} where
  -- The first row may stand before the second one.
  abbrev pub Follows : Bool → WorkflowStatus V → WorkflowStatus V → Type 0
  Follows newest v w = InOrder newest v.created_at w.created_at

  Ordered-oriented :
      (b : Bool) (l : List (WorkflowStatus V))
      → Ordered (Follows false) l
      → Ordered (Follows b) (if b then reverse l else l)
  Ordered-oriented false l h = h
  Ordered-oriented true l h = Ordered-reverse (Follows true) l h

  length-oriented :
      (b : Bool) (l : List (WorkflowStatus V)) → length (if b then reverse l else l) ≡ length l
  length-oriented false l = refl
  length-oriented true l = length-reverse l

module _ {V : Type 0} ⦃j : Host V⦄ where
  Ordered-earlier : (l : List (WorkflowStatus V)) → Ordered (Follows false) (sort earlier_created l)
  Ordered-earlier =
      Ordered-sort (Follows false) earlier_created (λ v w h. ground arith) (λ v w h. ground arith)
        (λ u v w h k. ground arith)

module _ {V : Type 0} ⦃j : Host V⦄ (f : ListFilter V) (g : Inner V) where
  at_position :
      (i : ℕ) (l : List (WorkflowStatus V))
      → get_elem? (map (trim f) (truncate f.limit (skip f.offset l))) i
        ≡ (if on_page f.limit i then get_elem? (map (trim f) l) (start f.offset + i) else none)
  at_position i l =
      get_elem?-map (trim f) (truncate f.limit (skip f.offset l)) i
      ∙ ap (Option.map (trim f)) (
          get_elem?-truncate f.limit (skip f.offset l) i
          ∙ ap (λ o. if on_page f.limit i then o else none) (get_elem?-skip f.offset l i))
      ∙ map-if (trim f) (on_page f.limit i) (get_elem? l (start f.offset + i))
      ∙ ap (λ o. if on_page f.limit i then o else none)
          (sym (get_elem?-map (trim f) l (start f.offset + i)))

  -- On any state: the whole listing of a filter stands in the order that was asked for, and has as
  -- many rows as pass the filter's test; and the listing has at each position below its limit the row
  -- that is so many places after its offset in the whole listing, and none beyond.
  pub list_workflows-Ordered :
      (i : ℕ)
      → Ordered (Follows f.sort_desc) (list_workflows (whole f) g)
        × (length (list_workflows (whole f) g)
            ≡ count (is_listed f (fork_sources g.workflows)) (Map.values g.workflows))
        × (get_elem? (list_workflows f g) i ≡ (
            if on_page f.limit i
            then get_elem? (list_workflows (whole f) g) (start f.offset + i)
            else none))
  unfolding list_workflows is_listed trim
  list_workflows-Ordered i =
      let rows = filter (is_listed f (fork_sources g.workflows)) (Map.values g.workflows) in
      let sorted = sort earlier_created rows in
      let ordered = if f.sort_desc then reverse sorted else sorted in
      (
        Ordered-map (trim f) (Follows f.sort_desc) ordered
            (Ordered-oriented f.sort_desc sorted (Ordered-earlier rows)),
        length-map (trim f) ordered
            ∙ length-oriented f.sort_desc sorted
            ∙ length-sort earlier_created rows
            ∙ length-filter (is_listed f (fork_sources g.workflows)) (Map.values g.workflows),
        at_position i ordered,
      )
