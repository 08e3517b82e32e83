-- ===== src/Predictor/Labels.antt =====
-- The labels of ml_predictor.py, against the moves to each later price.
use oanda_trader.Base.{
  ℕ, zero, suc, ◌≤◌, ◌<◌, ◌≡◌, ◌↔◌, ◌⊎◌, refl, inl, inr, Bool, true, false, List, [], ◌∷◌, arith,
  length, take, leb, All, Any, if◌then◌else◌, Bool-cases, Float, Num, ◌⊖◌, ◌⊘◌, ◌≼◌, ◌≺◌, nought,
  lt, max, min,
}
use mathlib.Core.Path.{subst}
use oanda_trader.Base.NumberLaws.{≼_refl, ≼_trans}
use oanda_trader.Analytics.{greatest, least}
use oanda_trader.Predictor.{label, labels_from, zeros, create_labels}

module _ ⦃F : Float⦄ where
  -- A later price is far enough from the price, on one of the sides.
  abbrev pub Moves : Num → Num → Num → Type 0
  Moves threshold price w = (threshold ≺ (w ⊖ price) ⊘ price) ⊎ (threshold ≺ (price ⊖ w) ⊘ price)

  greatest_bound : (x : Num) (xs : List Num) → All (λ w. w ≼ greatest (x ∷ xs)) (x ∷ xs)
  unfolding greatest
  greatest_bound x [] = (≼_refl x, tt)
  greatest_bound x (y ∷ xs) =
      let ih = greatest_bound (max x y) xs in
      (≼_trans x (max x y) _ (ground arith) ih.0, (≼_trans y (max x y) _ (ground arith) ih.0, ih.1))

  least_bound : (x : Num) (xs : List Num) → All (λ w. least (x ∷ xs) ≼ w) (x ∷ xs)
  unfolding least
  least_bound x [] = (≼_refl x, tt)
  least_bound x (y ∷ xs) =
      let ih = least_bound (min x y) xs in
      (≼_trans _ (min x y) x ih.0 (ground arith), (≼_trans _ (min x y) y ih.0 (ground arith), ih.1))

  Any-two :
      (P : Num → Type 0) (b : Bool) (x y : Num) (xs : List Num)
      → P (if b then y else x) ⊎ Any P xs
      → P x ⊎ (P y ⊎ Any P xs)
  Any-two P true x y xs (inl p) = inr (inl p)
  Any-two P false x y xs (inl p) = inl p
  Any-two P b x y xs (inr h) = inr (inr h)

  greatest_reached : (x : Num) (xs : List Num) → Any (λ w. greatest (x ∷ xs) ≡ w) (x ∷ xs)
  unfolding greatest
  greatest_reached x [] = inl refl
  greatest_reached x (y ∷ xs) =
      Any-two (λ w. greatest (max x y ∷ xs) ≡ w) (lt x y) x y xs (greatest_reached (max x y) xs)

  least_reached : (x : Num) (xs : List Num) → Any (λ w. least (x ∷ xs) ≡ w) (x ∷ xs)
  unfolding least
  least_reached x [] = inl refl
  least_reached x (y ∷ xs) =
      Any-two (λ w. least (min x y ∷ xs) ≡ w) (lt y x) x y xs (least_reached (min x y) xs)

  Any-map : (P Q : Num → Type 0) (xs : List Num) → ((w : Num) → P w → Q w) → Any P xs → Any Q xs
  Any-map P Q [] f h = elim h [ ]
  Any-map P Q (x ∷ xs) f (inl p) = inl (f x p)
  Any-map P Q (x ∷ xs) f (inr h) = inr (Any-map P Q xs f h)

  -- One of the tests on the greatest and the least price holds if the move to some price is large.
  moves_test :
      (t p top low : Num) (ws : List Num)
      → nought ≺ p
      → All (λ w. w ≼ top) ws
      → All (λ w. low ≼ w) ws
      → Any (Moves t p) ws
      → (t ≺ (top ⊖ p) ⊘ p) ⊎ (t ≺ (p ⊖ low) ⊘ p)
  moves_test t p top low [] pos h k m = elim m [ ]
  moves_test t p top low (w ∷ ws) pos (h, hs) (k, ks) (inl (inl m)) =
      inl (omega (arith, m, F.div_mono (w ⊖ p) (top ⊖ p) p pos (F.sub_mono w top p p h (≼_refl p))))
  moves_test t p top low (w ∷ ws) pos (h, hs) (k, ks) (inl (inr m)) =
      inr (omega (arith, m, F.div_mono (p ⊖ w) (p ⊖ low) p pos (F.sub_mono p p w low (≼_refl p) k)))
  moves_test t p top low (w ∷ ws) pos (h, hs) (k, ks) (inr m) =
      moves_test t p top low ws pos hs ks m

  label_iff : (t p : Num) (ws : List Num) → nought ≺ p → (label t p ws ≡ true) ↔ Any (Moves t p) ws
  unfolding label
  label_iff t p [] pos = (λ e. absurd (ground arith), λ m. elim m [ ])
  label_iff t p (w ∷ ws) pos =
      let top : Num = greatest (w ∷ ws) in
      let low : Num = least (w ∷ ws) in
      (
        λ e. elim (Bool-cases (lt t ((top ⊖ p) ⊘ p))) [
          | inl h ↦
              Any-map (λ v. top ≡ v) (Moves t p) (w ∷ ws)
                (λ v g. inl (subst (λ u. t ≺ (u ⊖ p) ⊘ p) g (ground (arith, h))))
                (greatest_reached w ws)
          | inr h ↦
              Any-map (λ v. low ≡ v) (Moves t p) (w ∷ ws)
                (λ v g. inr (subst (λ u. t ≺ (p ⊖ u) ⊘ p) g (ground (arith, h, e))))
                (least_reached w ws)
        ],
        λ m.
            ground (
              arith,
              moves_test t p top low (w ∷ ws) pos (greatest_bound w ws) (least_bound w ws) m,
            ),
      )

  -- One label for each price: by the moves to the next prices where there are enough of them, and
  -- otherwise 0.
  abbrev pub AreLabels : ℕ → Num → List Num → List Bool → Type 0
  AreLabels n t [] [] = Unit
  AreLabels n t [] (l ∷ ls) = ⊥
  AreLabels n t (p ∷ ps) [] = ⊥
  AreLabels n t (p ∷ ps) (l ∷ ls) =
      (n ≤ length ps → (l ≡ true) ↔ Any (Moves t p) (take n ps))
      × (length ps < n → l ≡ false)
      × AreLabels n t ps ls

  zeros-AreLabels :
      (n : ℕ) (t : Num) (ps : List Num) (k : ℕ) → length ps ≡ k → k ≤ n → AreLabels n t ps (zeros k)
  unfolding zeros
  zeros-AreLabels n t [] zero e h = tt
  zeros-AreLabels n t [] (suc k) e h = absurd (omega (arith, e))
  zeros-AreLabels n t (p ∷ ps) zero e h = absurd (omega (arith, e))
  zeros-AreLabels n t (p ∷ ps) (suc k) e h = (
    λ m. absurd (omega (arith, e, h, m)),
    λ m. refl,
    zeros-AreLabels n t ps k (omega (arith, e)) (omega (arith, h)),
  )

  -- With as many prices as the horizon at least, all positive, there is a label for each price: it is
  -- 1 exactly if, on one of the two sides, the relative move to one of the next prices of the horizon
  -- is above the threshold, and it is 0 for the prices at the end that have fewer after them.
  pub create_labels-AreLabels :
      (n : ℕ) (t : Num) (prices : List Num)
      → n ≤ length prices
      → All (λ p. nought ≺ p) prices
      → AreLabels n t prices (create_labels n t prices)
  unfolding create_labels labels_from
  create_labels-AreLabels n t [] h pos = zeros-AreLabels n t [] n (omega (arith, h)) (omega arith)
  create_labels-AreLabels n t (p ∷ ps) h (pos, rest) = elim (Bool-cases (leb n (length ps))) [
    | inl e ↦ rw e (
      λ m. label_iff t p (take n ps) pos,
      λ m. absurd (ground (arith, e, m)),
      create_labels-AreLabels n t ps (ground (arith, e)) rest,
    )
    | inr e ↦ rw e (zeros-AreLabels n t (p ∷ ps) n (ground (arith, e, h)) (omega arith))
  ]
