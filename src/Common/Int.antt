-- ===== src/Common/Int.antt =====
-- Go's `int` where it may be negative, over the native numbers. Overflow of 64 bits is left out.
use Prim.Native.Nat.{ℕ, suc, ◌+◌, ◌-◌, ◌≤◌}
use mathlib.Core.Path.{◌≡◌}
use mathlib.Core.Bool.{Bool, true, false}
use native.Mathlib.Omega.{arith}
use go_mahjong.Common.Tests.{ltb, leb, ◌==◌, if◌then◌else◌}

-- `negsuc n` is -(n + 1).
pub data ℤ : Type 0 where
  pos : ℕ → ℤ
  negsuc : ℕ → ℤ

abbrev pub pos_part : ℤ → ℕ
pos_part (pos n) = n
pos_part (negsuc n) = 0

abbrev pub neg_part : ℤ → ℕ
neg_part (pos n) = 0
neg_part (negsuc n) = suc n

-- a - b, as an integer.
abbrev pub sub_ℕ : ℕ → ℕ → ℤ
sub_ℕ a b = if leb b a then pos (a - b) else negsuc (b - a - 1)

infixl 65 ◌+ℤ◌ ◌-ℤ◌
infix 50 ◌≤ℤ◌
unfoldable pub ◌+ℤ◌ : ℤ → ℤ → ℤ
a +ℤ b = sub_ℕ (pos_part a + pos_part b) (neg_part a + neg_part b)

unfoldable pub ◌-ℤ◌ : ℤ → ℤ → ℤ
a -ℤ b = sub_ℕ (pos_part a + neg_part b) (neg_part a + pos_part b)

abbrev pub ◌≤ℤ◌ : ℤ → ℤ → Type 0
a ≤ℤ b = pos_part a + neg_part b ≤ pos_part b + neg_part a

abbrev pub ltb_ℤ : ℤ → ℤ → Bool
ltb_ℤ a b = ltb (pos_part a + neg_part b) (pos_part b + neg_part a)

pub +ℤ_parts :
    (a b : ℤ)
    → pos_part (a +ℤ b) + neg_part a + neg_part b ≡ neg_part (a +ℤ b) + pos_part a + pos_part b
unfolding ◌+ℤ◌
+ℤ_parts a b = ground arith

pub -ℤ_parts :
    (a b : ℤ)
    → pos_part (a -ℤ b) + neg_part a + pos_part b ≡ neg_part (a -ℤ b) + pos_part a + neg_part b
unfolding ◌-ℤ◌
-ℤ_parts a b = ground arith

pub eq_of_parts : (a b : ℤ) → pos_part a + neg_part b ≡ pos_part b + neg_part a → a ≡ b
eq_of_parts a b h = ground arith

pub ruleset int_laws = (arith, +ℤ_parts, -ℤ_parts, eq_of_parts)

abbrev pub eqb_ℤ : ℤ → ℤ → Bool
eqb_ℤ (pos a) (pos b) = a == b
eqb_ℤ (negsuc a) (negsuc b) = a == b
eqb_ℤ (pos a) (negsuc b) = false
eqb_ℤ (negsuc a) (pos b) = false

pub +ℤ_comm : (a b : ℤ) → a +ℤ b ≡ b +ℤ a
+ℤ_comm a b = eq_of_parts (a +ℤ b) (b +ℤ a) (omega (arith, +ℤ_parts a b, +ℤ_parts b a))

pub +ℤ_assoc : (a b c : ℤ) → (a +ℤ b) +ℤ c ≡ a +ℤ (b +ℤ c)
+ℤ_assoc a b c =
    eq_of_parts ((a +ℤ b) +ℤ c) (a +ℤ (b +ℤ c))
      (omega (arith, +ℤ_parts a b, +ℤ_parts (a +ℤ b) c, +ℤ_parts b c, +ℤ_parts a (b +ℤ c)))

pub +ℤ_zero : (a : ℤ) → a +ℤ pos 0 ≡ a
+ℤ_zero a = eq_of_parts (a +ℤ pos 0) a (omega (arith, +ℤ_parts a (pos 0)))

pub +ℤ_right_swap : (a b c : ℤ) → (a +ℤ b) +ℤ c ≡ (a +ℤ c) +ℤ b
+ℤ_right_swap a b c =
    eq_of_parts ((a +ℤ b) +ℤ c) ((a +ℤ c) +ℤ b)
      (omega (arith, +ℤ_parts a b, +ℤ_parts (a +ℤ b) c, +ℤ_parts a c, +ℤ_parts (a +ℤ c) b))

pub +ℤ_swap : (a b c : ℤ) → a +ℤ (b +ℤ c) ≡ b +ℤ (a +ℤ c)
+ℤ_swap a b c =
    eq_of_parts (a +ℤ (b +ℤ c)) (b +ℤ (a +ℤ c))
      (omega (arith, +ℤ_parts b c, +ℤ_parts a (b +ℤ c), +ℤ_parts a c, +ℤ_parts b (a +ℤ c)))

pub -ℤ_swap : (a b c : ℤ) → (a -ℤ b) +ℤ c ≡ (a +ℤ c) -ℤ b
-ℤ_swap a b c =
    eq_of_parts ((a -ℤ b) +ℤ c) ((a +ℤ c) -ℤ b)
      (omega (arith, -ℤ_parts a b, +ℤ_parts (a -ℤ b) c, +ℤ_parts a c, -ℤ_parts (a +ℤ c) b))

pub +ℤ_-ℤ_assoc : (a b c : ℤ) → a +ℤ (b -ℤ c) ≡ (a +ℤ b) -ℤ c
+ℤ_-ℤ_assoc a b c =
    eq_of_parts (a +ℤ (b -ℤ c)) ((a +ℤ b) -ℤ c)
      (omega (arith, -ℤ_parts b c, +ℤ_parts a (b -ℤ c), +ℤ_parts a b, -ℤ_parts (a +ℤ b) c))

pub sub_add_cancel : (a b : ℤ) → (a -ℤ b) +ℤ b ≡ a
sub_add_cancel a b =
    eq_of_parts ((a -ℤ b) +ℤ b) a (omega (arith, -ℤ_parts a b, +ℤ_parts (a -ℤ b) b))

pub add_sub_cancel : (a b : ℤ) → (a +ℤ b) -ℤ b ≡ a
add_sub_cancel a b =
    eq_of_parts ((a +ℤ b) -ℤ b) a (omega (arith, +ℤ_parts a b, -ℤ_parts (a +ℤ b) b))

pub pos_add : (m n : ℕ) → pos (m + n) ≡ pos m +ℤ pos n
unfolding ◌+ℤ◌
pos_add m n = ground arith

pub eqb_ℤ_iff : (a b : ℤ) → eqb_ℤ a b ≡ true → a ≡ b
eqb_ℤ_iff (pos a) (pos b) e = ground arith
eqb_ℤ_iff (negsuc a) (negsuc b) e = ground arith
eqb_ℤ_iff (pos a) (negsuc b) e = absurd (cc)
eqb_ℤ_iff (negsuc a) (pos b) e = absurd (cc)

pub +ℤ_exchange : (a b c d : ℤ) → (a +ℤ b) +ℤ (c +ℤ d) ≡ (a +ℤ c) +ℤ (b +ℤ d)
+ℤ_exchange a b c d = eq_of_parts ((a +ℤ b) +ℤ (c +ℤ d)) ((a +ℤ c) +ℤ (b +ℤ d)) (
    omega (
      arith,
      +ℤ_parts a b,
      +ℤ_parts c d,
      +ℤ_parts (a +ℤ b) (c +ℤ d),
      +ℤ_parts a c,
      +ℤ_parts b d,
      +ℤ_parts (a +ℤ c) (b +ℤ d),
    ))
