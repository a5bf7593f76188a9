-- ===== src/Prelude/Int.antt =====
-- Go's signed integers: integers over the native numbers, and the wrap-around of a width.
use Prim.Native.Nat.{ℕ, suc, ◌+◌, ◌-◌, ◌*◌, ◌%◌, ◌≤◌, ◌<◌, compare, Ordering}
use mathlib.Core.Path.{◌≡◌}
use mathlib.Core.Bool.{Bool, true, false}
use native.Mathlib.Omega.{arith}
use jec.Prelude.Tests.{ltb, leb, if◌then◌else◌}

-- `negsuc n` is -(n + 1).
pub data ℤ : Type 0 where
  pos : ℕ → ℤ
  negsuc : ℕ → ℤ

abbrev pub pos_part : ℤ → ℕ
pos_part (pos n) = n
pos_part (negsuc n) = 0

abbrev pub neg_part : ℤ → ℕ
neg_part (pos n) = 0
neg_part (negsuc n) = suc n

abbrev pub sub_ℕ : ℕ → ℕ → ℤ
sub_ℕ a b = if leb b a then pos (a - b) else negsuc (b - a - 1)

infixl 65 ◌+ℤ◌
infixl 70 ◌*ℤ◌
unfoldable pub ◌+ℤ◌ : ℤ → ℤ → ℤ
a +ℤ b = sub_ℕ (pos_part a + pos_part b) (neg_part a + neg_part b)

unfoldable pub ◌*ℤ◌ : ℤ → ℤ → ℤ
a *ℤ b =
    sub_ℕ (pos_part a * pos_part b + neg_part a * neg_part b)
      (pos_part a * neg_part b + neg_part a * pos_part b)

infix 50 ◌≤ℤ◌ ◌<ℤ◌
abbrev pub ◌≤ℤ◌ : ℤ → ℤ → Type 0
a ≤ℤ b = pos_part a + neg_part b ≤ pos_part b + neg_part a

abbrev pub ◌<ℤ◌ : ℤ → ℤ → Type 0
a <ℤ b = pos_part a + neg_part b < pos_part b + neg_part a

abbrev pub ltb_ℤ : ℤ → ℤ → Bool
ltb_ℤ a b = ltb (pos_part a + neg_part b) (pos_part b + neg_part a)

abbrev pub leb_ℤ : ℤ → ℤ → Bool
leb_ℤ a b = leb (pos_part a + neg_part b) (pos_part b + neg_part a)

abbrev pub eqb_ℤ : ℤ → ℤ → Bool
eqb_ℤ a b = elim (compare (pos_part a + neg_part b) (pos_part b + neg_part a)) [
  | Ordering.eq ↦ true
  | _ ↦ false
]

-- The value of a signed word whose bits are those of `m`, over the modulus `2 * half`.
abbrev signed : ℕ → ℕ → ℤ
signed half m = if ltb m half then pos m else negsuc (half + half - 1 - m)

-- Two's complement: the result of arithmetic on a signed type with `2 * half` values.
unfoldable pub wrap : ℕ → ℤ → ℤ
wrap half (pos n) = signed half (n % (half + half))
wrap half (negsuc n) = signed half (half + half - 1 - n % (half + half))

abbrev pub half32 : ℕ
half32 = 2147483648

abbrev pub half64 : ℕ
half64 = 9223372036854775808

abbrev pub add32 : ℤ → ℤ → ℤ
add32 a b = wrap half32 (a +ℤ b)

abbrev pub neg32 : ℤ → ℤ
neg32 a = wrap half32 (sub_ℕ (neg_part a) (pos_part a))

abbrev pub mul64 : ℤ → ℤ → ℤ
mul64 a b = wrap half64 (a *ℤ b)

-- Sums of counters that stay in range do not wrap.
pub add32-pos : (n m : ℕ) → n + m < half32 → add32 (pos n) (pos m) ≡ pos (n + m)
unfolding wrap ◌+ℤ◌
add32-pos n m h = ground arith

pub add32-pred : (n : ℕ) → 0 < n → n < half32 → add32 (pos n) (negsuc 0) ≡ pos (n - 1)
unfolding wrap ◌+ℤ◌
add32-pred n p h = ground arith

pub add32-sub : (n m : ℕ) → m ≤ n → n < half32 → add32 (pos n) (neg32 (pos m)) ≡ pos (n - m)
unfolding wrap ◌+ℤ◌
add32-sub n m p h = ground arith
