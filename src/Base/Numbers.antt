-- ===== src/Base/Numbers.antt =====
-- The numbers of the program: Python's floats and integers, with the rounded operations. The code
-- does not implement them, so they are a parameter. `rank` is the place of a number in the order,
-- in which -0.0 and 0.0 are one; NaN and the infinities are left out. The laws are those of
-- IEEE 754 arithmetic, whose rounding is monotone: no law says that an operation is exact.
use Prim.Native.Nat.{ℕ, suc, ◌*◌, ◌≤◌, ◌<◌}
use mathlib.Core.Bool.{Bool, not, ◌&&◌}
use mathlib.Core.List.{List}
use oanda_trader.Base.Tests.{if◌then◌else◌}
use oanda_trader.Base.Int.{ℤ, ◌≤ℤ◌, ◌<ℤ◌, ◌≈ℤ◌, ltb_ℤ}

pub record Float : Type 1 where
  pub Num : Type 0
  pub rank : Num → ℤ
  pub add : Num → Num → Num
  pub sub : Num → Num → Num
  pub mul : Num → Num → Num
  pub div : Num → Num → Num
  -- `dec m k` is the literal m · 10^-k
  pub dec : ℕ → ℕ → Num
  -- `int(x)`
  pub trunc : Num → Num
  pub add_mono :
      (a b c d : Num) → rank a ≤ℤ rank b → rank c ≤ℤ rank d → rank (add a c) ≤ℤ rank (add b d)
  pub add_zero : (a : Num) → rank (add a (dec 0 0)) ≈ℤ rank a
  pub zero_add : (a : Num) → rank (add (dec 0 0) a) ≈ℤ rank a
  pub add_comm_le : (a b : Num) → rank (add a b) ≤ℤ rank (add b a)
  pub sub_mono :
      (a b c d : Num) → rank a ≤ℤ rank b → rank d ≤ℤ rank c → rank (sub a c) ≤ℤ rank (sub b d)
  pub sub_zero : (a : Num) → rank (sub a (dec 0 0)) ≈ℤ rank a
  pub sub_self : (a : Num) → rank (sub a a) ≈ℤ rank (dec 0 0)
  pub mul_mono :
      (a b c d : Num)
      → rank (dec 0 0) ≤ℤ rank a
      → rank (dec 0 0) ≤ℤ rank c
      → rank a ≤ℤ rank b
      → rank c ≤ℤ rank d
      → rank (mul a c) ≤ℤ rank (mul b d)
  pub mul_zero : (a : Num) → rank (mul a (dec 0 0)) ≈ℤ rank (dec 0 0)
  pub zero_mul : (a : Num) → rank (mul (dec 0 0) a) ≈ℤ rank (dec 0 0)
  pub mul_one : (a : Num) → rank (mul a (dec 1 0)) ≈ℤ rank a
  pub one_mul : (a : Num) → rank (mul (dec 1 0) a) ≈ℤ rank a
  pub div_mono :
      (a b c : Num) → rank (dec 0 0) <ℤ rank c → rank a ≤ℤ rank b → rank (div a c) ≤ℤ rank (div b c)
  pub zero_div : (c : Num) → rank (dec 0 0) <ℤ rank c → rank (div (dec 0 0) c) ≈ℤ rank (dec 0 0)
  pub div_self : (c : Num) → rank (dec 0 0) <ℤ rank c → rank (div c c) ≈ℤ rank (dec 1 0)
  pub dec_mono : (m n k : ℕ) → m ≤ n → rank (dec m k) ≤ℤ rank (dec n k)
  -- one value, written with one more place
  pub dec_shift : (m k : ℕ) → rank (dec (m * 10) (suc k)) ≈ℤ rank (dec m k)
  pub of_ℕ_pos : (n : ℕ) → rank (dec 0 0) <ℤ rank (dec (suc n) 0)
  -- different short decimals are different numbers
  pub dec_lt : (m n k : ℕ) → m < n → n ≤ 1_000_000 → k ≤ 6 → rank (dec m k) <ℤ rank (dec n k)
  pub dec_zero : (k : ℕ) → rank (dec 0 k) ≈ℤ rank (dec 0 0)
  pub trunc_mono : (a b : Num) → rank a ≤ℤ rank b → rank (trunc a) ≤ℤ rank (trunc b)
  pub trunc_le : (a : Num) → rank (dec 0 0) ≤ℤ rank a → rank (trunc a) ≤ℤ rank a
  pub trunc_of_ℕ : (n : ℕ) → rank (trunc (dec n 0)) ≈ℤ rank (dec n 0)

abbrev pub Num : ⦃F : Float⦄ → Type 0
Num ⦃F⦄ = F.Num

module _ ⦃F : Float⦄ where
  infixl 65 ◌⊕◌ ◌⊖◌
  infixl 70 ◌⊗◌ ◌⊘◌
  infix 50 ◌≼◌ ◌≺◌ ◌≃◌
  abbrev pub ◌⊕◌ : Num → Num → Num
  a ⊕ b = F.add a b

  abbrev pub ◌⊖◌ : Num → Num → Num
  a ⊖ b = F.sub a b

  abbrev pub ◌⊗◌ : Num → Num → Num
  a ⊗ b = F.mul a b

  abbrev pub ◌⊘◌ : Num → Num → Num
  a ⊘ b = F.div a b

  abbrev pub dec : ℕ → ℕ → Num
  dec m k = F.dec m k

  abbrev pub of_ℕ : ℕ → Num
  of_ℕ n = F.dec n 0

  abbrev pub nought : Num
  nought = F.dec 0 0

  abbrev pub one : Num
  one = F.dec 1 0

  -- `int(x)`
  abbrev pub int : Num → Num
  int a = F.trunc a

  abbrev pub ◌≼◌ : Num → Num → Type 0
  a ≼ b = F.rank a ≤ℤ F.rank b

  abbrev pub ◌≺◌ : Num → Num → Type 0
  a ≺ b = F.rank a <ℤ F.rank b

  -- Equal in value: `a == b` of the code.
  abbrev pub ◌≃◌ : Num → Num → Type 0
  a ≃ b = (a ≼ b) × (b ≼ a)

  -- `a < b`, `a <= b`, `a == b`
  abbrev pub lt : Num → Num → Bool
  lt a b = ltb_ℤ (F.rank a) (F.rank b)

  abbrev pub le : Num → Num → Bool
  le a b = not (lt b a)

  abbrev pub eq : Num → Num → Bool
  eq a b = not (lt a b) && not (lt b a)

  -- `max(a, b)` and `min(a, b)`: the first of the two where they are equal
  abbrev pub max : Num → Num → Num
  max a b = if lt a b then b else a

  abbrev pub min : Num → Num → Num
  min a b = if lt b a then b else a

  -- `abs(x)`
  abbrev pub abs : Num → Num
  abs a = if lt a nought then nought ⊖ a else a

-- `np.mean`, `np.std` and `np.sqrt`
pub record Numpy ⦃F : Float⦄ : Type 0 where
  pub mean : List Num → Num
  pub std : List Num → Num
  pub sqrt : Num → Num
