-- ===== src/Base/Fixed.antt =====
-- Fixed-point numbers with six places: a value of the parameter `Float`, at which the definitions
-- run. Products and quotients are rounded towards nought.
use Prim.Native.Nat.{ℕ, zero, suc, ◌+◌, ◌*◌, ◌/◌, ◌^◌, ◌≤◌, ◌<◌}
use native.Mathlib.Omega.{arith}
use native.Mathlib.Nat.{
  mul-le-mul, div-zero, zero-div, div-mul-le_self, le-div_iff_mul-le, pow-suc, mul_right_comm,
  mul-div-mul_right, mul-div_cancel_left,
}
use mathlib.Core.Path.{◌≡◌}
use oanda_trader.Base.Int.{ℤ, pos, negsuc, pos_part, neg_part, sub_ℕ, sub_ℕ_parts, ◌≤ℤ◌, ◌<ℤ◌, ◌≈ℤ◌}
use oanda_trader.Base.Numbers.{Float}

-- The numbers are multiples of 10^-6.
abbrev scale : ℕ
scale = 1_000_000

unfoldable pub plus : ℤ → ℤ → ℤ
plus a b = sub_ℕ (pos_part a + pos_part b) (neg_part a + neg_part b)

unfoldable pub minus : ℤ → ℤ → ℤ
minus a b = sub_ℕ (pos_part a + neg_part b) (neg_part a + pos_part b)

unfoldable pub times : ℤ → ℤ → ℤ
times a b =
    sub_ℕ ((pos_part a * pos_part b) / scale + (neg_part a * neg_part b) / scale)
      ((pos_part a * neg_part b) / scale + (neg_part a * pos_part b) / scale)

unfoldable pub over : ℤ → ℤ → ℤ
over a b =
    sub_ℕ ((pos_part a * scale) / pos_part b + (neg_part a * scale) / neg_part b)
      ((pos_part a * scale) / neg_part b + (neg_part a * scale) / pos_part b)

abbrev pub decimal : ℕ → ℕ → ℤ
decimal m k = pos ((m * scale) / 10 ^ k)

unfoldable pub whole : ℤ → ℤ
whole a = sub_ℕ ((pos_part a / scale) * scale) ((neg_part a / scale) * scale)

plus_parts :
    (a b : ℤ)
    → pos_part (plus a b) + (neg_part a + neg_part b)
      ≡ neg_part (plus a b) + (pos_part a + pos_part b)
unfolding plus
plus_parts a b = sub_ℕ_parts _ _

minus_parts :
    (a b : ℤ)
    → pos_part (minus a b) + (neg_part a + pos_part b)
      ≡ neg_part (minus a b) + (pos_part a + neg_part b)
unfolding minus
minus_parts a b = sub_ℕ_parts _ _

div_mono : (m n d : ℕ) → m ≤ n → m / d ≤ n / d
div_mono m n zero h = rw (div-zero m, div-zero n) (omega arith)
div_mono m n (suc d) h =
    (le-div_iff_mul-le (omega arith)).1 (omega (arith, div-mul-le_self m (suc d)))

pub times_mono : (a b c d : ℤ) → pos 0 ≤ℤ a → pos 0 ≤ℤ c → a ≤ℤ b → c ≤ℤ d → times a c ≤ℤ times b d
unfolding times
times_mono (pos a) (pos b) (pos c) (pos d) _ _ h k =
    let products : a * c ≤ b * d = mul-le-mul (omega arith) (omega arith) in
    ground (arith, products)
times_mono (pos a) (pos b) (pos c) (negsuc d) _ _ h k = absurd (omega arith)
times_mono (pos a) (negsuc b) c d _ _ h k = absurd (omega arith)
times_mono (pos a) (pos b) (negsuc c) d _ q h k = absurd (omega arith)
times_mono (negsuc a) b c d p _ h k = absurd (omega arith)

pub over_mono : (a b c : ℤ) → pos 0 <ℤ c → a ≤ℤ b → over a c ≤ℤ over b c
unfolding over
over_mono a b (negsuc c) p h = absurd (omega arith)
over_mono (pos a) (pos b) (pos c) p h =
    ground (arith, div_mono (a * scale) (b * scale) c (omega arith))
over_mono (negsuc a) (pos b) (pos c) p h = ground arith
over_mono (pos a) (negsuc b) (pos c) p h = absurd (omega arith)
over_mono (negsuc a) (negsuc b) (pos c) p h =
    ground (arith, div_mono (suc b * scale) (suc a * scale) c (omega arith))

pub plus_mono : (a b c d : ℤ) → a ≤ℤ b → c ≤ℤ d → plus a c ≤ℤ plus b d
plus_mono a b c d h k = omega (arith, plus_parts a c, plus_parts b d)

pub plus_zero : (a : ℤ) → plus a (decimal 0 0) ≈ℤ a
plus_zero a = omega (arith, plus_parts a (pos 0))

pub zero_plus : (a : ℤ) → plus (decimal 0 0) a ≈ℤ a
zero_plus a = omega (arith, plus_parts (pos 0) a)

pub plus_comm : (a b : ℤ) → plus a b ≤ℤ plus b a
plus_comm a b = omega (arith, plus_parts a b, plus_parts b a)

pub minus_mono : (a b c d : ℤ) → a ≤ℤ b → d ≤ℤ c → minus a c ≤ℤ minus b d
minus_mono a b c d h k = omega (arith, minus_parts a c, minus_parts b d)

pub minus_zero : (a : ℤ) → minus a (decimal 0 0) ≈ℤ a
minus_zero a = omega (arith, minus_parts a (pos 0))

pub minus_self : (a : ℤ) → minus a a ≈ℤ decimal 0 0
minus_self a = omega (arith, minus_parts a a)

pub times_zero : (a : ℤ) → times a (decimal 0 0) ≈ℤ decimal 0 0
unfolding times
times_zero a = ground arith

pub zero_times : (a : ℤ) → times (decimal 0 0) a ≈ℤ decimal 0 0
unfolding times
zero_times a = ground arith

pub times_one : (a : ℤ) → times a (decimal 1 0) ≈ℤ a
unfolding times
times_one a = ground arith

pub one_times : (a : ℤ) → times (decimal 1 0) a ≈ℤ a
unfolding times
one_times a = ground arith

pub zero_over : (c : ℤ) → pos 0 <ℤ c → over (decimal 0 0) c ≈ℤ decimal 0 0
unfolding over
zero_over c h = ground (arith, zero-div (pos_part c), zero-div (neg_part c))

pub over_self : (c : ℤ) → pos 0 <ℤ c → over c c ≈ℤ decimal 1 0
unfolding over
over_self (pos c) h = ground (arith, mul-div_cancel_left scale {n = c} (omega arith))
over_self (negsuc c) h = absurd (omega arith)

pub decimal_mono : (m n k : ℕ) → m ≤ n → decimal m k ≤ℤ decimal n k
decimal_mono m n k h = omega (arith, div_mono (m * scale) (n * scale) (10 ^ k) (omega arith))

pub decimal_zero : (k : ℕ) → decimal 0 k ≈ℤ decimal 0 0
decimal_zero k = omega (arith, zero-div (10 ^ k))

pub decimal_pos : (n : ℕ) → decimal 0 0 <ℤ decimal (suc n) 0
decimal_pos n = omega arith

pub decimal_lt : (m n k : ℕ) → m < n → n ≤ 1_000_000 → k ≤ 6 → decimal m k <ℤ decimal n k
decimal_lt m n zero h l p = omega arith
decimal_lt m n (suc zero) h l p = omega arith
decimal_lt m n (suc (suc zero)) h l p = omega arith
decimal_lt m n (suc (suc (suc zero))) h l p = omega arith
decimal_lt m n (suc (suc (suc (suc zero)))) h l p = omega arith
decimal_lt m n (suc (suc (suc (suc (suc zero))))) h l p = omega arith
decimal_lt m n (suc (suc (suc (suc (suc (suc zero)))))) h l p = omega arith
decimal_lt m n (suc (suc (suc (suc (suc (suc (suc k))))))) h l p = absurd (omega arith)

pub decimal_shift : (m k : ℕ) → decimal (m * 10) (suc k) ≈ℤ decimal m k
decimal_shift m k = rw (
  pow-suc 10 k,
  mul_right_comm m 10 scale,
  mul-div-mul_right {m = 10} (m * scale) (10 ^ k) (omega arith),
)

pub whole_mono : (a b : ℤ) → a ≤ℤ b → whole a ≤ℤ whole b
unfolding whole
whole_mono a b h = ground arith

pub whole_le : (a : ℤ) → pos 0 ≤ℤ a → whole a ≤ℤ a
unfolding whole
whole_le a h = ground arith

pub whole_decimal : (n : ℕ) → whole (decimal n 0) ≈ℤ decimal n 0
unfolding whole
whole_decimal n = ground arith

instance abbrev pub fixed : Float
fixed = record {
  Num = ℤ;
  rank = λ a. a;
  add = plus;
  sub = minus;
  mul = times;
  div = over;
  dec = decimal;
  trunc = whole;
  add_mono = plus_mono;
  add_zero = plus_zero;
  zero_add = zero_plus;
  add_comm_le = plus_comm;
  sub_mono = minus_mono;
  sub_zero = minus_zero;
  sub_self = minus_self;
  mul_mono = times_mono;
  mul_zero = times_zero;
  zero_mul = zero_times;
  mul_one = times_one;
  one_mul = one_times;
  div_mono = over_mono;
  zero_div = zero_over;
  div_self = over_self;
  dec_mono = decimal_mono;
  dec_shift = decimal_shift;
  of_ℕ_pos = decimal_pos;
  dec_lt = decimal_lt;
  dec_zero = decimal_zero;
  trunc_mono = whole_mono;
  trunc_le = whole_le;
  trunc_of_ℕ = whole_decimal;
}
