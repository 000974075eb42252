-- ===== src/Map/Laws.antt =====
-- The map seen through `get`: what a read returns after each write.
use durare.Prelude.{
  ◌≡◌, refl, none, some, [], ◌∷◌, Bool, PartialEq, ◌==◌, if◌then◌else◌, arith, ==_refl, ==→≡,
  Bool-cases, inl, inr,
}
use durare.Map.{Map, get, insert, remove, retain, map_values, Unique}

module _ {ℓ κ} {K : Type ℓ} {V : Type κ} ⦃e : PartialEq K⦄ where
  pub get-insert :
      (k j : K) (v : V) (m : Map K V) → get j (insert k v m) ≡ (if k == j then some v else get j m)
  unfolding get insert
  get-insert k j v [] = refl
  get-insert k j v ((i, w) ∷ m) =
      ground (arith, e.beq_iff i k, e.beq_iff i j, e.beq_iff k j, get-insert k j v m)

  pub get-insert_self : (k : K) (v : V) (m : Map K V) → get k (insert k v m) ≡ some v
  get-insert_self k v m = rw (get-insert, ==_refl k)

  -- A write at a fresh key leaves the other entries.
  pub get-insert_absent :
      (k j : K) (v : V) (m : Map K V) {w : V}
      → get k m ≡ none
      → get j m ≡ some w
      → get j (insert k v m) ≡ some w
  get-insert_absent k j v m {w} n g = ground (arith, get-insert k j v m, ==→≡ k j)

  pub get-remove : (k j : K) (m : Map K V) → get j (remove k m) ≡ (if k == j then none else get j m)
  unfolding get remove
  get-remove k j [] = ground arith
  get-remove k j ((i, w) ∷ m) =
      ground (arith, e.beq_iff i k, e.beq_iff i j, e.beq_iff k j, get-remove k j m)

  pub get-retain :
      (p : K → Bool) (j : K) (m : Map K V) → get j (retain p m) ≡ (if p j then get j m else none)
  unfolding get retain
  get-retain p j [] = ground arith
  get-retain p j ((i, w) ∷ m) = elim (Bool-cases (i == j)) [
    | inl h ↦ rw (==→≡ i j h) (ground (arith, get-retain p j m, ==_refl j))
    | inr h ↦ ground (arith, get-retain p j m)
  ]

  pub get-map_values-none :
      (f : V → V) (k : K) (m : Map K V) → get k m ≡ none → get k (map_values f m) ≡ none
  unfolding get map_values
  get-map_values-none f k [] h = refl
  get-map_values-none f k ((i, w) ∷ m) h = ground (arith, get-map_values-none f k m)

  pub get-map_values-some :
      (f : V → V) (k : K) (m : Map K V) {v : V}
      → get k m ≡ some v
      → get k (map_values f m) ≡ some (f v)
  unfolding get map_values
  get-map_values-some f k [] h = cc
  get-map_values-some f k ((i, w) ∷ m) {v} h = ground (arith, get-map_values-some f k m {v = v})

  pub insert-Unique : (k : K) (v : V) (m : Map K V) → Unique m → Unique (insert k v m)
  unfolding insert get
  insert-Unique k v [] u = (refl, tt)
  insert-Unique k v ((i, w) ∷ m) u =
      ground (arith, e.beq_iff i k, e.beq_iff k i, get-insert k i v m, insert-Unique k v m u.1)

  pub remove-Unique : (k : K) (m : Map K V) → Unique m → Unique (remove k m)
  unfolding remove get
  remove-Unique k [] u = tt
  remove-Unique k ((i, w) ∷ m) u =
      ground (arith, get-remove k i m, e.beq_iff k i, e.beq_iff i k, remove-Unique k m u.1)

  pub map_values-Unique : (f : V → V) (m : Map K V) → Unique m → Unique (map_values f m)
  unfolding map_values get
  map_values-Unique f [] u = tt
  map_values-Unique f ((i, w) ∷ m) u = (get-map_values-none f i m u.0, map_values-Unique f m u.1)

pub ruleset map_laws = (get-insert, get-remove, get-retain)
