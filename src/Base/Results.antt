-- ===== src/Base/Results.antt =====
-- Python's division, which raises `ZeroDivisionError`, and the chain of two steps that may raise it.
use mathlib.Core.Path.{◌≡◌, refl}
use mathlib.Core.Bool.{true}
use native.Mathlib.Omega.{arith}
use oanda_trader.Base.Tests.{if◌then◌else◌}
use oanda_trader.Base.Numbers.{Float, Num, ◌⊘◌, nought, eq}

-- A result, or `ZeroDivisionError`.
pub data Result (A : Type 0) : Type 0 where
  ok : A → Result A
  zero_division : Result A

-- A step that uses the result of another, as the `do` blocks of the models chain them.
infixl 5 ◌>>=◌
abbrev pub ◌>>=◌ : {A B : Type 0} → Result A → (A → Result B) → Result B
ok a >>= f = f a
zero_division >>= f = zero_division

-- A chain gives a result only if both steps do.
pub >>=-ok :
    {A B : Type 0} (r : Result A) (f : A → Result B) (b : B)
    → (r >>= f) ≡ ok b
    → (a : A) × (r ≡ ok a) × (f a ≡ ok b)
>>=-ok (ok a) f b h = (a, refl, h)
>>=-ok zero_division f b h = absurd (ground arith)

module _ ⦃F : Float⦄ where
  -- `a / b`
  abbrev pub divide : Num → Num → Result Num
  divide a b = if eq b nought then zero_division else ok (a ⊘ b)

  pub divide-zero : (a b : Num) → divide a b ≡ zero_division → eq b nought ≡ true
  divide-zero a b h = ground arith
