-- ===== src/Analytics/Suggestions/Extremes.antt =====
-- The entries that `max` and `min` of `_generate_suggestions` in analytics.py choose.
use oanda_trader.Base.{
  refl, if◌then◌else◌, Bool, true, false, List, [], ◌∷◌, Float, Num, ◌≼◌, lt, arith, All,
}
use mathlib.Core.List.{Memᴰ}
use mathlib.Core.List.Memᴰ as member
use oanda_trader.Base.NumberLaws.{≼_refl}
use oanda_trader.Analytics.Suggestions.{max_by, min_by}

module _ ⦃F : Float⦄ {A : Type 0} (f : A → Num) where
  pub max_by_lem :
      (e : A) (es : List A) → (f e ≼ f (max_by f e es)) × All (λ d. f d ≼ f (max_by f e es)) es
  unfolding max_by
  max_by_lem e [] = (≼_refl (f e), tt)
  max_by_lem e (d ∷ ds) =
      let ih = max_by_lem (if lt (f e) (f d) then d else e) ds in
      (ground (arith, ih.0), (ground (arith, ih.0), ih.1))

  pub min_by_lem :
      (e : A) (es : List A) → (f (min_by f e es) ≼ f e) × All (λ d. f (min_by f e es) ≼ f d) es
  unfolding min_by
  min_by_lem e [] = (≼_refl (f e), tt)
  min_by_lem e (d ∷ ds) =
      let ih = min_by_lem (if lt (f d) (f e) then d else e) ds in
      (ground (arith, ih.0), (ground (arith, ih.0), ih.1))

  -- An entry that is among one of two and the rest is among all three.
  widen :
      (b : Bool) (a e d : A) (ds : List A)
      → Memᴰ a ((if b then d else e) ∷ ds)
      → Memᴰ a (e ∷ d ∷ ds)
  widen b a e d ds (member.tail h) = member.tail (member.tail h)
  widen true a e d ds (member.head h) = member.tail (member.head h)
  widen false a e d ds (member.head h) = member.head h

  pub max_by_member : (e : A) (es : List A) → Memᴰ (max_by f e es) (e ∷ es)
  unfolding max_by
  max_by_member e [] = member.head refl
  max_by_member e (d ∷ ds) =
      widen (lt (f e) (f d)) _ e d ds (max_by_member (if lt (f e) (f d) then d else e) ds)

  pub min_by_member : (e : A) (es : List A) → Memᴰ (min_by f e es) (e ∷ es)
  unfolding min_by
  min_by_member e [] = member.head refl
  min_by_member e (d ∷ ds) =
      widen (lt (f d) (f e)) _ e d ds (min_by_member (if lt (f d) (f e) then d else e) ds)
