-- ===== src/Memory/Dispatch/Tickets.antt =====
-- The claiming loop of `dequeue_workflows` of src/memory.rs, ticket by ticket.
use durare.Prelude.{
  All-weaken, ℤ, ◌≤◌, Bool, true, String, none, some, List, [], ◌∷◌, ◌≡◌, ◌≢◌, refl, ◌==◌, All,
  count, string_eq, arith, Option-cases, Bool-cases, inl, inr, ==→≡, ==_refl, sym, ◌∙◌, ap, subst,
}
use mathlib.Core.Option.{some-injective}
use durare.Map
use durare.Map.{Map, Unique}
use durare.Map.Laws.{get-insert, get-insert_self}
use durare.Host.{DateTime}
use durare.Workflow.{WorkflowStatus}
use durare.Memory.Dispatch.{DequeueRequest, Ticket, is_candidate, claim_row, claim_cons, claim_all}
use durare.Memory.Dispatch.Limits.{claim_cons-some, claim_cons-map}
use durare.Memory.Calls.Slots.{Keyed}

-- The tickets for this id.
abbrev pub for_id : String → Ticket → Bool
for_id id t = t.2 == id

-- Each id has one ticket at most.
abbrev pub Once : List Ticket → Type 0
Once ts = (id : String) → count (for_id id) ts ≤ 1

Once-cons : (t : Ticket) (ts : List Ticket) → Once (t ∷ ts) → Once ts
unfolding count
Once-cons t ts o id = ground (arith, o id)

Once-head : (t : Ticket) (ts : List Ticket) → Once (t ∷ ts) → count (for_id t.2) ts ≡ 0
unfolding count
Once-head t ts o = ground (arith, o t.2, ==_refl t.2)

counted : (t : Ticket) (ts : List Ticket) (id : String) → id ≡ t.2 → count (for_id id) (t ∷ ts) ≢ 0
unfolding count
counted t ts id e = ground (arith, e, ==_refl t.2)

module _ {V : Type 0} where
  absent-count :
      (id : String) (r : Map String (WorkflowStatus V))
      → Keyed r
      → Map.get id r ≡ none
      → Unique r
      → count (λ (w : WorkflowStatus V). w.id == id) (Map.values r) ≡ 0
  unfolding count Map.get
  absent-count id [] k h u = refl
  absent-count id ((i, w) ∷ r) k h u =
      let named : w.id ≡ i = k i w (ground (arith, ==_refl i)) in
      ground (
        arith,
        named,
        absent-count id r (λ j v g. k j v (ground (arith, ==→≡ i j, u.0, g))) (ground arith) u.1,
      )

  pub values-count :
      (id : String) (r : Map String (WorkflowStatus V))
      → Keyed r
      → Unique r
      → count (λ (w : WorkflowStatus V). w.id == id) (Map.values r) ≤ 1
  unfolding count Map.get
  values-count id [] k u = omega arith
  values-count id ((i, w) ∷ r) k u =
      let named : w.id ≡ i = k i w (ground (arith, ==_refl i)) in
      let below : Keyed r = λ j v g. k j v (ground (arith, ==→≡ i j, u.0, g)) in
      elim (Bool-cases (i == id)) [
        | inl e ↦ ground (arith, named, absent-count i r below u.0 u.1, ==→≡ i id e)
        | inr e ↦ ground (arith, named, values-count id r below u.1)
      ]

  -- What is asked of other ids than the claimed ones is as it was.
  get-claim_all :
      (req : DequeueRequest) (now_ms : ℤ) (clock : String → DateTime) (ts : List Ticket)
      (m : Map String (WorkflowStatus V)) (id : String)
      → count (for_id id) ts ≡ 0
      → Map.get id (claim_all req now_ms clock ts m).1 ≡ Map.get id m
  unfolding claim_all count
  get-claim_all req now_ms clock [] m id h = refl
  get-claim_all req now_ms clock ((p, c, k) ∷ ts) m id h = elim (Option-cases (Map.get k m)) [
    | inl e ↦ ground arith
    | inr (w, e) ↦
        let w' = claim_row req now_ms (clock k) w in
        ground (
          arith,
          claim_cons-map w' (claim_all req now_ms clock ts (Map.insert k w' m)),
          get-claim_all req now_ms clock ts (Map.insert k w' m) id,
          get-insert k id w' m,
        )
  ]

  -- A ticket of a candidate row.
  abbrev pub Candidate : DequeueRequest → Bool → Map String (WorkflowStatus V) → Ticket → Type 0
  Candidate req latest m t =
      (w : WorkflowStatus V) × (Map.get t.2 m ≡ some w)
      × (w.id ≡ t.2)
      × (is_candidate req latest w ≡ true)

  -- A claimed row is the claim of a candidate, and stored as it was returned.
  abbrev pub IsClaim :
      DequeueRequest
      → ℤ
      → (String → DateTime)
      → Bool
      → Map String (WorkflowStatus V)
      → Map String (WorkflowStatus V)
      → WorkflowStatus V
      → Type 0
  IsClaim req now_ms clock latest before after claimed =
      (w : WorkflowStatus V) × (Map.get claimed.id before ≡ some w)
      × (is_candidate req latest w ≡ true)
      × (claimed ≡ claim_row req now_ms (clock claimed.id) w)
      × (Map.get claimed.id after ≡ some claimed)

  -- The claim of another id leaves the candidates.
  Candidate-insert :
      (req : DequeueRequest) (latest : Bool) (m : Map String (WorkflowStatus V)) (id : String)
      (v : WorkflowStatus V) (ts : List Ticket)
      → count (for_id id) ts ≡ 0
      → All (Candidate req latest m) ts
      → All (Candidate req latest (Map.insert id v m)) ts
  unfolding count
  Candidate-insert req latest m id v [] n h = tt
  Candidate-insert req latest m id v (t ∷ ts) n h =
      let (w, at, named, c) = h.0 in
      (
        (
          w,
          ground (
            arith,
            get-insert id t.2 v m,
            at,
            string_eq.beq_iff id t.2,
            string_eq.beq_iff t.2 id,
          ),
          named,
          c,
        ),
        Candidate-insert req latest m id v ts (ground arith) h.1,
      )

  claim_row-id :
      (req : DequeueRequest) (now_ms : ℤ) (at : DateTime) (w : WorkflowStatus V)
      → (claim_row req now_ms at w).id ≡ w.id
  unfolding claim_row
  claim_row-id req now_ms at w = refl

  claim_all-step :
      (req : DequeueRequest) (now_ms : ℤ) (clock : String → DateTime) (p c : ℤ) (id : String)
      (ts : List Ticket) (m : Map String (WorkflowStatus V)) {w : WorkflowStatus V}
      → Map.get id m ≡ some w
      → claim_all req now_ms clock ((p, c, id) ∷ ts) m
        ≡ claim_cons
            (claim_row req now_ms (clock id) w)
            (claim_all req now_ms clock ts (Map.insert id (claim_row req now_ms (clock id) w) m))
  unfolding claim_all
  claim_all-step req now_ms clock p c id ts m e = rw (claim_all, e) refl

  first-IsClaim :
      (req : DequeueRequest) (now_ms : ℤ) (clock : String → DateTime) (latest : Bool) (id : String)
      (m : Map String (WorkflowStatus V)) (w w' : WorkflowStatus V)
      (after : Map String (WorkflowStatus V))
      → w'.id ≡ id
      → Map.get id m ≡ some w
      → is_candidate req latest w ≡ true
      → w' ≡ claim_row req now_ms (clock id) w
      → Map.get id after ≡ some w'
      → IsClaim req now_ms clock latest m after w'
  first-IsClaim req now_ms clock latest id m w w' after own at cand same stored = (
    w,
    subst (λ k. Map.get k m ≡ some w) (sym own) at,
    cand,
    same ∙ ap (λ k. claim_row req now_ms (clock k) w) (sym own),
    subst (λ k. Map.get k after ≡ some w') (sym own) stored,
  )

  -- A claim of the rest of the tickets is a claim of them all.
  earlier-IsClaim :
      (req : DequeueRequest) (now_ms : ℤ) (clock : String → DateTime) (latest : Bool) (p c : ℤ)
      (id : String) (ts : List Ticket) (m : Map String (WorkflowStatus V)) (w' : WorkflowStatus V)
      (after : Map String (WorkflowStatus V)) (v : WorkflowStatus V)
      → count (for_id id) ts ≡ 0
      → IsClaim req now_ms clock latest (Map.insert id w' m) after v × (count (for_id v.id) ts ≢ 0)
      → IsClaim req now_ms clock latest m after v × (count (for_id v.id) ((p, c, id) ∷ ts) ≢ 0)
  unfolding count
  earlier-IsClaim req now_ms clock latest p c id ts m w' after v n
        ((w, at, cand, same, stored), k) =
      (
        (w, ground (arith, get-insert id v.id w' m, at, ==→≡ id v.id, n, k), cand, same, stored),
        ground (arith, k),
      )

  pub claim_all-IsClaim :
      (req : DequeueRequest) (now_ms : ℤ) (clock : String → DateTime) (latest : Bool)
      (ts : List Ticket) (m : Map String (WorkflowStatus V)) {l : List (WorkflowStatus V)}
      → Once ts
      → All (Candidate req latest m) ts
      → (claim_all req now_ms clock ts m).0 ≡ some l
      → All
          (λ (w : WorkflowStatus V).
            IsClaim req now_ms clock latest m (claim_all req now_ms clock ts m).1 w
            × (count (for_id w.id) ts ≢ 0))
          l
  claim_all-IsClaim req now_ms clock latest [] m {l} o h e =
      let same : [] ≡ l = some-injective _ _ (unfold claim_all in e) in rw (← same) tt
  claim_all-IsClaim req now_ms clock latest ((p, c, id) ∷ ts) m {l} o h e =
      let (w, at, named, cand) = h.0 in
      let w' = claim_row req now_ms (clock id) w in
      let m' = Map.insert id w' m in
      let rest = claim_all req now_ms clock ts m' in
      let step = claim_all-step req now_ms clock p c id ts m at in
      let none_left = Once-head (p, c, id) ts o in
      let (l0, e0, el) = claim_cons-some w' rest (ap (λ r. r.0) (sym step) ∙ e) in
      let after : (claim_all req now_ms clock ((p, c, id) ∷ ts) m).1 ≡ rest.1 =
        ap (λ r. r.1) step ∙ claim_cons-map w' rest in
      let own : w'.id ≡ id = claim_row-id req now_ms (clock id) w ∙ named in
      let claims =
        claim_all-IsClaim req now_ms clock latest ts m' {l = l0} (Once-cons (p, c, id) ts o)
          (Candidate-insert req latest m id w' ts none_left h.1) e0 in
      let Good : Map String (WorkflowStatus V) → WorkflowStatus V → Type 0 = λ end v.
        IsClaim req now_ms clock latest m end v × (count (for_id v.id) ((p, c, id) ∷ ts) ≢ 0) in
      let stored = get-claim_all req now_ms clock ts m' id none_left ∙ get-insert_self id w' m in
      let first = first-IsClaim req now_ms clock latest id m w w' rest.1 own at cand refl stored in
      let later =
        All-weaken _ (Good rest.1) l0
          (λ v hv. earlier-IsClaim req now_ms clock latest p c id ts m w' rest.1 v none_left hv)
          claims in
      subst (λ end. All (Good end) l) (sym after)
        (subst (λ x. All (Good rest.1) x) (sym el)
          ((first, counted (p, c, id) ts w'.id own), later))
