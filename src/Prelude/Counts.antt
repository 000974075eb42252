-- ===== src/Prelude/Counts.antt =====
-- How the list operations change a count.
use Prim.Native.Nat.{ℕ, zero, suc, ◌≤◌}
use mathlib.Core.Path.{◌≡◌, refl}
use mathlib.Core.Bool.{Bool}
use mathlib.Core.List.{List, [], ◌∷◌, map}
use native.Mathlib.Omega.{arith}
use durare.Prelude.Lists.{count, filter, take}
use durare.Prelude.Sort.{sort, insert_sorted}

pub count-take-le :
    {A : Type 0} (p : A → Bool) (n : ℕ) (l : List A) → count p (take n l) ≤ count p l
unfolding count
count-take-le p zero l = omega arith
count-take-le p (suc n) [] = omega arith
count-take-le p (suc n) (x ∷ l) = ground (arith, count-take-le p n l)

pub count-insert_sorted :
    {A : Type 0} (p : A → Bool) (le : A → A → Bool) (x : A) (l : List A)
    → count p (insert_sorted le x l) ≡ count p (x ∷ l)
unfolding count insert_sorted
count-insert_sorted p le x [] = refl
count-insert_sorted p le x (y ∷ l) = ground (arith, count-insert_sorted p le x l)

pub count-sort :
    {A : Type 0} (p : A → Bool) (le : A → A → Bool) (l : List A) → count p (sort le l) ≡ count p l
unfolding count sort
count-sort p le [] = refl
count-sort p le (x ∷ l) = ground (arith, count-insert_sorted p le x (sort le l), count-sort p le l)

pub count-filter-le : {A : Type 0} (p q : A → Bool) (l : List A) → count p (filter q l) ≤ count p l
unfolding count filter
count-filter-le p q [] = omega arith
count-filter-le p q (x ∷ l) = ground (arith, count-filter-le p q l)

pub count-map :
    {A B : Type 0} (p : B → Bool) (f : A → B) (l : List A)
    → count p (map f l) ≡ count (λ a. p (f a)) l
unfolding count
count-map p f [] = refl
count-map p f (x ∷ l) = ground (arith, count-map p f l)
