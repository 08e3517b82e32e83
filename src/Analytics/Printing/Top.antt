-- ===== src/Analytics/Printing/Top.antt =====
-- The instruments that `print_report` of analytics.py shows.
use oanda_trader.Base.{
  ℕ, zero, suc, ◌≤◌, ◌≡◌, ◌⊎◌, sym, List, [], ◌∷◌, ◌++◌, arith, All, All-map, length, take, drop,
  take-All, drop-All, take-drop, take_all_or, length-take-le, Bool-cases, inl, inr, String, Dict,
  Float, Num, ◌≼◌, lt,
}
use mathlib.Core.Path.{subst}
use mathlib.Core.List.{Perm}
use mathlib.Core.List.Perm as permutation
use oanda_trader.Base.NumberLaws.{≼_trans}
use oanda_trader.Analytics.Groups.{GroupPerformance}
use oanda_trader.Analytics.Printing.{insert_down, sorted_down, pnl_of, top_instruments}

module _ ⦃F : Float⦄ where
  module _ {A : Type 0} (key : A → Num) where
    -- Each key is at least those that follow.
    abbrev pub Descends : List A → Type 0
    Descends [] = Unit
    Descends (x ∷ xs) = All (λ y. key y ≼ key x) xs × Descends xs

    insert_down-Perm : (x : A) (xs : List A) → Perm (insert_down key x xs) (x ∷ xs)
    unfolding insert_down
    insert_down-Perm x [] = permutation.refl (x ∷ [])
    insert_down-Perm x (y ∷ ys) = elim (Bool-cases (lt (key x) (key y))) [
      | inl e ↦
          rw e (
            permutation.trans (permutation.cons y (insert_down-Perm x ys))
              (permutation.swap x y ys))
      | inr e ↦ rw e (permutation.refl (x ∷ y ∷ ys))
    ]

    sorted_down-Perm : (xs : List A) → Perm (sorted_down key xs) xs
    unfolding sorted_down
    sorted_down-Perm [] = permutation.refl []
    sorted_down-Perm (x ∷ xs) =
        permutation.trans (insert_down-Perm x (sorted_down key xs))
          (permutation.cons x (sorted_down-Perm xs))

    insert_down-All :
        (b : Num) (x : A) (xs : List A)
        → key x ≼ b
        → All (λ y. key y ≼ b) xs
        → All (λ y. key y ≼ b) (insert_down key x xs)
    unfolding insert_down
    insert_down-All b x [] h k = (h, tt)
    insert_down-All b x (y ∷ ys) h (k, ks) = elim (Bool-cases (lt (key x) (key y))) [
      | inl e ↦ rw e (k, insert_down-All b x ys h ks)
      | inr e ↦ rw e (h, (k, ks))
    ]

    insert_down-Descends : (x : A) (xs : List A) → Descends xs → Descends (insert_down key x xs)
    unfolding insert_down
    insert_down-Descends x [] d = (tt, tt)
    insert_down-Descends x (y ∷ ys) (h, d) = elim (Bool-cases (lt (key x) (key y))) [
      | inl e ↦
          rw e (insert_down-All (key y) x ys (ground (arith, e)) h, insert_down-Descends x ys d)
      | inr e ↦
          let first : key y ≼ key x = ground (arith, e) in
          rw e ((first, All-map ys (λ z k. ≼_trans (key z) (key y) (key x) k first) h), (h, d))
    ]

    sorted_down-Descends : (xs : List A) → Descends (sorted_down key xs)
    unfolding sorted_down
    sorted_down-Descends [] = tt
    sorted_down-Descends (x ∷ xs) =
        insert_down-Descends x (sorted_down key xs) (sorted_down-Descends xs)

    -- The first ones descend, and none of the others is above one of them.
    take-Descends :
        (n : ℕ) (xs : List A)
        → Descends xs
        → Descends (take n xs) × All (λ x. All (λ y. key y ≼ key x) (drop n xs)) (take n xs)
    take-Descends zero xs d = (tt, tt)
    take-Descends (suc n) [] d = (tt, tt)
    take-Descends (suc n) (x ∷ xs) (h, d) =
        let (d', above) = take-Descends n xs d in
        ((take-All (λ y. key y ≼ key x) n xs h, d'), (drop-All (λ y. key y ≼ key x) n xs h, above))

  -- The instruments that are shown, and those that are left out.
  pub record AreTop (d : Dict GroupPerformance) (top : List (String × GroupPerformance))
      : Type 0 where
    pub left_out : List (String × GroupPerformance)
    pub all : Perm (top ++ left_out) d
    pub descending : Descends pnl_of top
    pub best : All (λ x. All (λ y. pnl_of y ≼ pnl_of x) left_out) top
    pub five : (length top ≤ 5) × ((length top ≡ 5) ⊎ (left_out ≡ []))

  -- The instruments shown are at most five, in the order of their results from the greatest down,
  -- and each of the instruments is shown or left out, as often as it is there; none that is left out
  -- has a greater result than one shown, and some are left out only if five are shown.
  pub top_instruments-AreTop : (d : Dict GroupPerformance) → AreTop d (top_instruments d)
  unfolding top_instruments
  top_instruments-AreTop d =
      let s = sorted_down pnl_of d in
      let (descending, best) = take-Descends pnl_of 5 s (sorted_down-Descends pnl_of d) in
      record {
        left_out = drop 5 s;
        all = subst (λ l. Perm l d) (sym (take-drop 5 s)) (sorted_down-Perm pnl_of d);
        descending = descending;
        best = best;
        five = (length-take-le 5 s, take_all_or 5 s);
      }
