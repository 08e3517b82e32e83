-- ===== src/Base/NumberLaws.antt =====
-- What the laws of the numbers give for the operations as the code writes them.
use Prim.Native.Nat.{ℕ, suc, ◌≤◌}
use native.Mathlib.Omega.{arith}
use oanda_trader.Base.Numbers.{
  Float, Num, ◌⊕◌, ◌⊖◌, ◌⊗◌, ◌⊘◌, ◌≼◌, ◌≺◌, dec, of_ℕ, nought, one, int, max, min,
}

module _ ⦃F : Float⦄ where
  pub ≼_refl : (a : Num) → a ≼ a
  ≼_refl a = omega arith

  pub ≼_trans : (a b c : Num) → a ≼ b → b ≼ c → a ≼ c
  ≼_trans a b c h k = omega arith

  pub dec_nonneg : (m k : ℕ) → nought ≼ dec m k
  dec_nonneg m k = omega (arith, F.dec_mono 0 m k (omega arith), F.dec_zero k)

  pub le-⊕ : (a b : Num) → nought ≼ b → a ≼ a ⊕ b
  le-⊕ a b h = omega (arith, F.add_mono a a nought b (≼_refl a) h, F.add_zero a)

  pub le-⊕_right : (a b : Num) → nought ≼ a → b ≼ a ⊕ b
  le-⊕_right a b h = omega (arith, F.add_mono nought a b b h (≼_refl b), F.zero_add b)

  pub ⊕_nonneg : (a b : Num) → nought ≼ a → nought ≼ b → nought ≼ a ⊕ b
  ⊕_nonneg a b h k = ≼_trans _ _ _ h (le-⊕ a b k)

  pub ⊖-le : (a b : Num) → nought ≼ b → a ⊖ b ≼ a
  ⊖-le a b h = omega (arith, F.sub_mono a a b nought (≼_refl a) h, F.sub_zero a)

  pub ⊖_nonneg : (a b : Num) → b ≼ a → nought ≼ a ⊖ b
  ⊖_nonneg a b h = omega (arith, F.sub_mono b a b b h (≼_refl b), F.sub_self b)

  pub ⊗_nonneg : (a b : Num) → nought ≼ a → nought ≼ b → nought ≼ a ⊗ b
  ⊗_nonneg a b h k =
      omega
        (arith, F.mul_mono nought a nought b (≼_refl nought) (≼_refl nought) h k, F.mul_zero nought)

  pub ⊗-le : (a b : Num) → nought ≼ a → nought ≼ b → b ≼ one → a ⊗ b ≼ a
  ⊗-le a b h k l = omega (arith, F.mul_mono a a b one h k (≼_refl a) l, F.mul_one a)

  pub le-⊗ : (a b : Num) → nought ≼ a → one ≼ b → a ≼ a ⊗ b
  le-⊗ a b h k = omega (arith, F.mul_mono a a one b h (dec_nonneg 1 0) (≼_refl a) k, F.mul_one a)

  pub ⊘_nonneg : (a c : Num) → nought ≼ a → nought ≺ c → nought ≼ a ⊘ c
  ⊘_nonneg a c h k = omega (arith, F.div_mono nought a c k h, F.zero_div c k)

  pub int_nonneg : (a : Num) → nought ≼ a → nought ≼ int a
  int_nonneg a h = omega (arith, F.trunc_mono nought a h, F.trunc_of_ℕ 0)

  pub clamp_bounds : (lo hi x : Num) → lo ≼ hi → (lo ≼ max lo (min hi x)) × (max lo (min hi x) ≼ hi)
  clamp_bounds lo hi x h = ground arith

  -- A part of a positive whole is at most 1.
  pub ⊘-le-one : (a c : Num) → a ≼ c → nought ≺ c → a ⊘ c ≼ one
  ⊘-le-one a c h k = omega (arith, F.div_mono a c c k h, F.div_self c k)

  -- A share of a count, which is not 0, is between 0 and 1.
  pub share_bounds :
      (m n : ℕ) → m ≤ suc n → (nought ≼ of_ℕ m ⊘ of_ℕ (suc n)) × (of_ℕ m ⊘ of_ℕ (suc n) ≼ one)
  share_bounds m n h = (
    ⊘_nonneg (of_ℕ m) (of_ℕ (suc n)) (dec_nonneg m 0) (F.of_ℕ_pos n),
    ⊘-le-one (of_ℕ m) (of_ℕ (suc n)) (F.dec_mono m (suc n) 0 h) (F.of_ℕ_pos n),
  )

  pub half_le-one : dec 5 1 ≼ one
  half_le-one = omega (arith, F.dec_mono 5 10 1 (omega arith), F.dec_shift 1 0)
