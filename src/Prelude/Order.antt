-- ===== src/Prelude/Order.antt =====
-- Sorted lists, and lists read by position (Rust's `sort_by`, `reverse`, `drain` and `truncate`).
use Prim.Native.Nat.{ℕ, zero, suc, ◌+◌}
use mathlib.Core.Path.{◌≡◌, refl, ◌∙◌, ap}
use mathlib.Core.Logic.{inl, inr}
use mathlib.Core.Bool.{Bool, true, false}
use mathlib.Core.List.{List, [], ◌∷◌, ◌++◌, map, reverse, reverse-cons}
use mathlib.Core.Option.{Option, none, some}
use mathlib.Core.Option
use native.Mathlib.Omega.{arith}
use durare.Prelude.Tests.{if◌then◌else◌, ltb, Bool-cases}
use durare.Prelude.Lists.{length, All, filter, count, get_elem?, take, drop, length-append}
use durare.Prelude.Search.{All-append, All-reverse, All-weaken, All-map}
use durare.Prelude.Sort.{sort, insert_sorted, All-insert_sorted, length-insert_sorted}

-- Every element stands to each later one as `R` says.
abbrev pub Ordered {ℓ κ} : {A : Type ℓ} → (A → A → Type κ) → List A → Type κ
Ordered R [] = Unit
Ordered R (x ∷ l) = All (R x) l × Ordered R l

module _ {ℓ} {A : Type ℓ} where
  module _ {κ} (R : A → A → Type κ) where
    Ordered-append :
        (l r : List A) → Ordered R l → Ordered R r → All (λ a. All (R a) r) l → Ordered R (l ++ r)
    Ordered-append [] r h k c = k
    Ordered-append (x ∷ l) r h k c = (All-append (R x) l r h.0 c.0, Ordered-append l r h.1 k c.1)

    pub Ordered-reverse : (l : List A) → Ordered (λ a b. R b a) l → Ordered R (reverse l)
    Ordered-reverse [] h = tt
    Ordered-reverse (x ∷ l) h = rw (reverse-cons x l) (
        Ordered-append (reverse l) (x ∷ []) (Ordered-reverse l h.1) (tt, tt)
          (All-weaken (λ a. R a x) (λ a. All (R a) (x ∷ [])) (reverse l) (λ a r. (r, tt))
            (All-reverse (λ a. R a x) l h.0)))

    module _ (le : A → A → Bool) (yes : (a b : A) → le a b ≡ true → R a b)
        (no : (a b : A) → le a b ≡ false → R b a)
        (trans : (a b c : A) → R a b → R b c → R a c) where
      Ordered-insert_sorted : (x : A) (l : List A) → Ordered R l → Ordered R (insert_sorted le x l)
      unfolding insert_sorted
      Ordered-insert_sorted x [] h = (tt, tt)
      Ordered-insert_sorted x (y ∷ l) h = elim (Bool-cases (le x y)) [
        | inl e ↦
            rw e ((yes x y e, All-weaken (R y) (R x) l (λ z r. trans x y z (yes x y e) r) h.0), h)
        | inr e ↦
            rw e (All-insert_sorted le (R y) x l (no x y e) h.0, Ordered-insert_sorted x l h.1)
      ]

      pub Ordered-sort : (l : List A) → Ordered R (sort le l)
      unfolding sort
      Ordered-sort [] = tt
      Ordered-sort (x ∷ l) = Ordered-insert_sorted x (sort le l) (Ordered-sort l)

  pub length-sort : (le : A → A → Bool) (l : List A) → length (sort le l) ≡ length l
  unfolding sort
  length-sort le [] = refl
  length-sort le (x ∷ l) = ground (arith, length-insert_sorted le x (sort le l), length-sort le l)

  pub length-reverse : (l : List A) → length (reverse l) ≡ length l
  length-reverse [] = refl
  length-reverse (x ∷ l) =
      rw (reverse-cons x l) (ground (arith, length-append (reverse l) (x ∷ []), length-reverse l))

  pub length-filter : (p : A → Bool) (l : List A) → length (filter p l) ≡ count p l
  unfolding filter count
  length-filter p [] = refl
  length-filter p (x ∷ l) = ground (arith, length-filter p l)

  pub get_elem?-take :
      (n : ℕ) (l : List A) (i : ℕ)
      → get_elem? (take n l) i ≡ (if ltb i n then get_elem? l i else none)
  get_elem?-take zero l i = ground arith
  get_elem?-take (suc n) [] i = ground arith
  get_elem?-take (suc n) (x ∷ l) zero = ground arith
  get_elem?-take (suc n) (x ∷ l) (suc i) = ground (arith, get_elem?-take n l i)

  pub get_elem?-drop : (n : ℕ) (l : List A) (i : ℕ) → get_elem? (drop n l) i ≡ get_elem? l (n + i)
  get_elem?-drop zero l i = ap (get_elem? l) (omega arith)
  get_elem?-drop (suc n) [] i = refl
  get_elem?-drop (suc n) (x ∷ l) i =
      let next : suc (n + i) ≡ suc n + i = omega arith in
      get_elem?-drop n l i ∙ ap (get_elem? (x ∷ l)) next

  pub get_elem?-All {κ} :
      (P : A → Type κ) (l : List A) (i : ℕ) {x : A} → All P l → get_elem? l i ≡ some x → P x
  get_elem?-All P [] i h e = cc
  get_elem?-All P (y ∷ l) zero h e = ground (arith, h.0)
  get_elem?-All P (y ∷ l) (suc i) h e = get_elem?-All P l i h.1 e

module _ {ℓ κ} {A : Type ℓ} {B : Type κ} (f : A → B) where
  pub Ordered-map {μ} :
      (R : B → B → Type μ) (l : List A) → Ordered (λ a b. R (f a) (f b)) l → Ordered R (map f l)
  Ordered-map R [] h = tt
  Ordered-map R (x ∷ l) h = (All-map (R (f x)) f l h.0, Ordered-map R l h.1)

  pub get_elem?-map : (l : List A) (i : ℕ) → get_elem? (map f l) i ≡ Option.map f (get_elem? l i)
  get_elem?-map [] i = refl
  get_elem?-map (x ∷ l) zero = refl
  get_elem?-map (x ∷ l) (suc i) = get_elem?-map l i

  pub length-map : (l : List A) → length (map f l) ≡ length l
  length-map [] = refl
  length-map (x ∷ l) = ap suc (length-map l)
