-- ===== src/Prelude/Int.antt =====
-- Signed integers over the native numbers, and the wrap-around of Rust's `i32` and `i64`.
use Prim.Native.Nat.{ℕ, suc, ◌+◌, ◌-◌, ◌≤◌, ◌<◌, ◌%◌, ◌^◌}
use mathlib.Core.Path.{◌≡◌}
use mathlib.Core.Logic.{◌↔◌}
use mathlib.Core.Bool.{Bool, true, false}
use native.Mathlib.Omega.{arith}
use durare.Prelude.Tests.{PartialEq, ltb, leb, eqb, if◌then◌else◌}

-- `negsuc n` is -(n + 1).
pub data ℤ : Type 0 where
  pos : ℕ → ℤ
  negsuc : ℕ → ℤ

abbrev pub pos_part : ℤ → ℕ
pos_part (pos n) = n
pos_part (negsuc n) = 0

abbrev pub neg_part : ℤ → ℕ
neg_part (pos n) = 0
neg_part (negsuc n) = suc n

-- a - b, as an integer.
abbrev pub sub_ℕ : ℕ → ℕ → ℤ
sub_ℕ a b = if leb b a then pos (a - b) else negsuc (b - a - 1)

infix 50 ◌≤ℤ◌ ◌<ℤ◌
abbrev pub ◌≤ℤ◌ : ℤ → ℤ → Type 0
a ≤ℤ b = pos_part a + neg_part b ≤ pos_part b + neg_part a

abbrev pub ◌<ℤ◌ : ℤ → ℤ → Type 0
a <ℤ b = pos_part a + neg_part b < pos_part b + neg_part a

abbrev pub ltb_ℤ : ℤ → ℤ → Bool
ltb_ℤ a b = ltb (pos_part a + neg_part b) (pos_part b + neg_part a)

abbrev pub leb_ℤ : ℤ → ℤ → Bool
leb_ℤ a b = leb (pos_part a + neg_part b) (pos_part b + neg_part a)

abbrev pub eqb_ℤ : ℤ → ℤ → Bool
eqb_ℤ (pos m) (pos n) = eqb m n
eqb_ℤ (negsuc m) (negsuc n) = eqb m n
eqb_ℤ _ _ = false

pub eqb_ℤ_iff : (a b : ℤ) → (eqb_ℤ a b ≡ true) ↔ (a ≡ b)
eqb_ℤ_iff (pos m) (pos n) = ground arith
eqb_ℤ_iff (pos m) (negsuc n) = ground arith
eqb_ℤ_iff (negsuc m) (pos n) = ground arith
eqb_ℤ_iff (negsuc m) (negsuc n) = ground arith

instance abbrev pub int_eq : PartialEq ℤ
int_eq = record { eq = eqb_ℤ; beq_iff = eqb_ℤ_iff }

unfoldable pub min_ℤ : ℤ → ℤ → ℤ
min_ℤ a b = if leb_ℤ a b then a else b

unfoldable pub max_ℤ : ℤ → ℤ → ℤ
max_ℤ a b = if leb_ℤ a b then b else a

-- The 2^64 bit pattern of an integer, and the `i64` that a pattern stands for.
abbrev pub half64 : ℕ
half64 = 2 ^ 63

abbrev pub mod64 : ℕ
mod64 = 2 ^ 64

unfoldable pub wrap_i64 : ℤ → ℤ
wrap_i64 (pos n) = let r = n % mod64 in if ltb r half64 then pos r else negsuc (mod64 - 1 - r)
wrap_i64 (negsuc n) = let r = n % mod64 in if ltb r half64 then negsuc r else pos (mod64 - 1 - r)

-- The value fits an `i64`.
abbrev pub IsI64 : ℤ → Type 0
IsI64 z = (pos_part z < half64) × (neg_part z ≤ half64)

unfoldable pub add_i64 : ℤ → ℤ → ℤ
add_i64 a b = wrap_i64 (sub_ℕ (pos_part a + pos_part b) (neg_part a + neg_part b))

unfoldable pub sub_i64 : ℤ → ℤ → ℤ
sub_i64 a b = wrap_i64 (sub_ℕ (pos_part a + neg_part b) (neg_part a + pos_part b))

abbrev pub half32 : ℕ
half32 = 2 ^ 31

abbrev pub mod32 : ℕ
mod32 = 2 ^ 32

unfoldable pub wrap_i32 : ℤ → ℤ
wrap_i32 (pos n) = let r = n % mod32 in if ltb r half32 then pos r else negsuc (mod32 - 1 - r)
wrap_i32 (negsuc n) = let r = n % mod32 in if ltb r half32 then negsuc r else pos (mod32 - 1 - r)

abbrev pub IsI32 : ℤ → Type 0
IsI32 z = (pos_part z < half32) × (neg_part z ≤ half32)

-- `x += 1` on an `i32`
unfoldable pub succ_i32 : ℤ → ℤ
succ_i32 a = wrap_i32 (sub_ℕ (pos_part a + 1) (neg_part a))

-- Subtracting a count from a number that is not negative does not overflow.
pub sub_i64_exact : (a b : ℕ) → a < half64 → b < half64 → sub_i64 (pos a) (pos b) ≡ sub_ℕ a b
unfolding sub_i64 wrap_i64
sub_i64_exact a b p q = ground arith
