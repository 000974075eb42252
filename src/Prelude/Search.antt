-- ===== src/Prelude/Search.antt =====
-- What all elements satisfy, and whether some element passes, through the list operations.
use Prim.Native.Nat.{ℕ, zero, suc}
use mathlib.Core.Path.{◌≡◌, refl}
use mathlib.Core.Logic.{inl, inr}
use mathlib.Core.Bool.{Bool, true, ◌||◌, ◌&&◌}
use mathlib.Core.List.{List, [], ◌∷◌, ◌++◌, map, reverse, reverse-cons}
use native.Mathlib.Omega.{arith}
use durare.Prelude.Tests.{Bool-cases}
use durare.Prelude.Lists.{All, any, filter, take, drop}
use durare.Prelude.Sort.{sort, insert_sorted}

module _ {ℓ κ} {A : Type ℓ} (P : A → Type κ) where
  pub All-take : (n : ℕ) (l : List A) → All P l → All P (take n l)
  All-take zero l h = tt
  All-take (suc n) [] h = tt
  All-take (suc n) (x ∷ l) h = (h.0, All-take n l h.1)

  pub All-drop : (n : ℕ) (l : List A) → All P l → All P (drop n l)
  All-drop zero l h = h
  All-drop (suc n) [] h = tt
  All-drop (suc n) (x ∷ l) h = All-drop n l h.1

  pub All-append : (l r : List A) → All P l → All P r → All P (l ++ r)
  All-append [] r h k = k
  All-append (x ∷ l) r h k = (h.0, All-append l r h.1 k)

  pub All-reverse : (l : List A) → All P l → All P (reverse l)
  All-reverse [] h = tt
  All-reverse (x ∷ l) h =
      rw (reverse-cons x l) (All-append (reverse l) (x ∷ []) (All-reverse l h.1) (h.0, tt))

  pub All-filter : (p : A → Bool) (l : List A) → All P l → All P (filter p l)
  unfolding filter
  All-filter p [] h = tt
  All-filter p (x ∷ l) h = elim (Bool-cases (p x)) [
    | inl e ↦ rw e (h.0, All-filter p l h.1)
    | inr e ↦ rw e (All-filter p l h.1)
  ]

-- What passes a filter has passed its test.
pub filter-All {ℓ} : {A : Type ℓ} (p : A → Bool) (l : List A) → All (λ x. p x ≡ true) (filter p l)
unfolding filter
filter-All p [] = tt
filter-All p (x ∷ l) = elim (Bool-cases (p x)) [
  | inl e ↦ rw e (e, filter-All p l)
  | inr e ↦ rw e (filter-All p l)
]

pub All-both {ℓ κ μ} :
    {A : Type ℓ} (P : A → Type κ) (Q : A → Type μ) (l : List A)
    → All P l
    → All Q l
    → All (λ x. P x × Q x) l
All-both P Q [] h k = tt
All-both P Q (x ∷ l) h k = ((h.0, k.0), All-both P Q l h.1 k.1)

pub All-map {ℓ κ μ} :
    {A : Type ℓ} {B : Type κ} (P : B → Type μ) (f : A → B) (l : List A)
    → All (λ a. P (f a)) l
    → All P (map f l)
All-map P f [] h = tt
All-map P f (x ∷ l) h = (h.0, All-map P f l h.1)

pub All-weaken {ℓ κ μ} :
    {A : Type ℓ} (P : A → Type κ) (Q : A → Type μ) (l : List A)
    → ((x : A) → P x → Q x)
    → All P l
    → All Q l
All-weaken P Q [] w h = tt
All-weaken P Q (x ∷ l) w h = (w x h.0, All-weaken P Q l w h.1)

module _ {ℓ} {A : Type ℓ} (p : A → Bool) where
  pub any-append : (l r : List A) → any p (l ++ r) ≡ (any p l || any p r)
  unfolding any
  any-append [] r = refl
  any-append (x ∷ l) r = ground (arith, any-append l r)

  pub any-reverse : (l : List A) → any p (reverse l) ≡ any p l
  unfolding any
  any-reverse [] = refl
  any-reverse (x ∷ l) =
      rw (reverse-cons x l) (ground (arith, any-append (reverse l) (x ∷ []), any-reverse l))

  pub any-insert_sorted :
      (le : A → A → Bool) (x : A) (l : List A) → any p (insert_sorted le x l) ≡ (p x || any p l)
  unfolding any insert_sorted
  any-insert_sorted le x [] = refl
  any-insert_sorted le x (y ∷ l) = ground (arith, any-insert_sorted le x l)

  pub any-sort : (le : A → A → Bool) (l : List A) → any p (sort le l) ≡ any p l
  unfolding any sort
  any-sort le [] = refl
  any-sort le (x ∷ l) = ground (arith, any-insert_sorted le x (sort le l), any-sort le l)

  -- What passes both tests is found in the filtered list.
  pub any-filter : (q : A → Bool) (l : List A) → any p (filter q l) ≡ any (λ x. p x && q x) l
  unfolding any filter
  any-filter q [] = refl
  any-filter q (x ∷ l) = ground (arith, any-filter q l)

pub any-map {ℓ κ} :
    {A : Type ℓ} {B : Type κ} (p : B → Bool) (f : A → B) (l : List A)
    → any p (map f l) ≡ any (λ a. p (f a)) l
unfolding any
any-map p f [] = refl
any-map p f (x ∷ l) = ground (arith, any-map p f l)
