-- ===== src/Map/Values.antt =====
-- Searches over `values()`: what a search that fails or succeeds says of the entries.
use durare.Prelude.{
  ℕ, ◌+◌, ◌≡◌, Option, none, some, List, [], ◌∷◌, Bool, true, false, PartialEq, ◌==◌, if◌then◌else◌,
  arith, Bool-cases, inl, inr, any, find, count,
}
use durare.Map.{Map, get, insert, values}

-- What an entry counts for.
abbrev pub tally {κ} : {V : Type κ} → (V → Bool) → Option V → ℕ
tally p none = 0
tally p (some v) = if p v then 1 else 0

module _ {ℓ κ} {K : Type ℓ} {V : Type κ} ⦃e : PartialEq K⦄ where
  pub any-false :
      (p : V → Bool) (m : Map K V)
      → any p (values m) ≡ false
      → (k : K) {v : V} → get k m ≡ some v
      → p v ≡ false
  unfolding any get
  any-false p [] h k g = cc
  any-false p ((j, w) ∷ m) h k {v} g = elim (Bool-cases (j == k)) [
    | inl q ↦ ground arith
    | inr q ↦ any-false p m (ground arith) k (ground arith)
  ]

  pub find-none :
      (p : V → Bool) (m : Map K V)
      → find p (values m) ≡ none
      → (k : K) {v : V} → get k m ≡ some v
      → p v ≡ false
  unfolding find get
  find-none p [] h k g = cc
  find-none p ((j, w) ∷ m) h k {v} g = elim (Bool-cases (j == k)) [
    | inl q ↦ ground arith
    | inr q ↦ find-none p m (ground arith) k (ground arith)
  ]

  -- A write of a value that does not pass lets none pass.
  pub any-insert :
      (p : V → Bool) (k : K) (v : V) (m : Map K V)
      → any p (values m) ≡ false
      → p v ≡ false
      → any p (values (insert k v m)) ≡ false
  unfolding any insert
  any-insert p k v [] h n = ground arith
  any-insert p k v ((j, w) ∷ m) h n = ground (arith, any-insert p k v m)

  -- One write changes a count by what the old and the new entry count for.
  pub count-insert :
      (p : V → Bool) (k : K) (v : V) (m : Map K V)
      → count p (values (insert k v m)) + tally p (get k m) ≡ count p (values m) + tally p (some v)
  unfolding count insert get
  count-insert p k v [] = ground arith
  count-insert p k v ((j, w) ∷ m) = ground (arith, count-insert p k v m)

-- A test that some element passes is passed by the first that a weaker test finds.
pub any-find {ℓ} :
    {A : Type ℓ} (p q : A → Bool) (l : List A)
    → ((a : A) → p a ≡ true → q a ≡ true)
    → any p l ≡ true
    → (a : A) × (find q l ≡ some a)
unfolding any find
any-find p q [] w h = cc
any-find p q (x ∷ l) w h = elim (Bool-cases (q x)) [
  | inl y ↦ (x, ground arith)
  | inr n ↦ let (a, f) = any-find p q l w (ground (arith, w x)) in (a, ground arith)
]
