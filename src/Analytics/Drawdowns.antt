-- ===== src/Analytics/Drawdowns.antt =====
-- The drawdown of analytics.py, against all pairs of an earlier and a later total.
use oanda_trader.Base.{
  ◌≡◌, ◌⊎◌, refl, ap, ◌∙◌, inl, inr, Option, none, some, List, [], ◌∷◌, arith, All, Any, All-map,
  if◌then◌else◌, Bool-cases, Float, Num, ◌⊕◌, ◌⊖◌, ◌≼◌, nought, lt,
}
use mathlib.Core.Path.{subst}
use oanda_trader.Base.NumberLaws.{≼_refl, ≼_trans}
use oanda_trader.Analytics.{
  Trade, pnls_of, cumulative_from, drawdown_loop, last_of, Drawdown, share_of, drawdown_of,
  analyze_drawdown,
}

module _ ⦃F : Float⦄ where
  -- No total lies further below an earlier one, or itself, than `d`.
  abbrev pub Bounds : Num → List Num → Type 0
  Bounds d [] = Unit
  Bounds d (v ∷ vs) = All (λ w. v ⊖ w ≼ d) (v ∷ vs) × Bounds d vs

  -- Some total lies just `d` below an earlier one, or itself.
  abbrev pub Attains : Num → List Num → Type 0
  Attains d [] = ⊥
  Attains d (v ∷ vs) = Any (λ w. d ≡ v ⊖ w) (v ∷ vs) ⊎ Attains d vs

  -- What the loop does from a peak and a drawdown before.
  record IsLoop (peak worst : Num) (vs : List Num) (peak' worst' : Num) : Type 0 where
    grows : worst ≼ worst'
    below : All (λ w. peak ⊖ w ≼ worst') vs
    pairs : Bounds worst' vs
    attained : (worst' ≡ worst) ⊎ Any (λ w. worst' ≡ peak ⊖ w) vs ⊎ Attains worst' vs
    higher : peak ≼ peak'
    highest : All (λ w. w ≼ peak') vs
    reached : (peak' ≡ peak) ⊎ Any (λ w. peak' ≡ w) vs

  lower_peak :
      (p q d : Num) (vs : List Num) → p ≼ q → All (λ w. q ⊖ w ≼ d) vs → All (λ w. p ⊖ w ≼ d) vs
  lower_peak p q d vs h =
      All-map vs (λ w k. ≼_trans (p ⊖ w) (q ⊖ w) d (F.sub_mono p q w w h (≼_refl w)) k)

  attained_step :
      (peak worst v q e d : Num) (vs : List Num)
      → (q ≡ peak) ⊎ (q ≡ v)
      → (e ≡ worst) ⊎ (e ≡ q ⊖ v)
      → (d ≡ e) ⊎ Any (λ w. d ≡ q ⊖ w) vs ⊎ Attains d vs
      → (d ≡ worst) ⊎ Any (λ w. d ≡ peak ⊖ w) (v ∷ vs) ⊎ Attains d (v ∷ vs)
  attained_step peak worst v q e d vs x (inl y) (inl z) = inl (z ∙ y)
  attained_step peak worst v q e d vs (inl x) (inr y) (inl z) =
      inr (inl (inl (z ∙ y ∙ ap (λ t. t ⊖ v) x)))
  attained_step peak worst v q e d vs (inr x) (inr y) (inl z) =
      inr (inr (inl (inl (z ∙ y ∙ ap (λ t. t ⊖ v) x))))
  attained_step peak worst v q e d vs (inl x) y (inr (inl z)) =
      inr (inl (inr (subst (λ t. Any (λ w. d ≡ t ⊖ w) vs) x z)))
  attained_step peak worst v q e d vs (inr x) y (inr (inl z)) =
      inr (inr (inl (inr (subst (λ t. Any (λ w. d ≡ t ⊖ w) vs) x z))))
  attained_step peak worst v q e d vs x y (inr (inr z)) = inr (inr (inr z))

  reached_step :
      (peak v q p : Num) (vs : List Num)
      → (q ≡ peak) ⊎ (q ≡ v)
      → (p ≡ q) ⊎ Any (λ w. p ≡ w) vs
      → (p ≡ peak) ⊎ Any (λ w. p ≡ w) (v ∷ vs)
  reached_step peak v q p vs (inl x) (inl y) = inl (y ∙ x)
  reached_step peak v q p vs (inr x) (inl y) = inr (inl (y ∙ x))
  reached_step peak v q p vs x (inr y) = inr (inr y)

  -- One step, to the peak `q` and the drawdown `e`, and then the loop from there.
  IsLoop-step :
      (peak worst v q e p d : Num) (vs : List Num)
      → peak ≼ q
      → v ≼ q
      → (q ≡ peak) ⊎ (q ≡ v)
      → worst ≼ e
      → q ⊖ v ≼ e
      → (e ≡ worst) ⊎ (e ≡ q ⊖ v)
      → IsLoop q e vs p d
      → IsLoop peak worst (v ∷ vs) p d
  IsLoop-step peak worst v q e p d vs a b c f g h l =
      let here = ≼_trans (q ⊖ v) e d g l.grows in
      record {
        grows = ≼_trans worst e d f l.grows;
        below = (
          ≼_trans (peak ⊖ v) (q ⊖ v) d (F.sub_mono peak q v v a (≼_refl v)) here,
          lower_peak peak q d vs a l.below,
        );
        pairs = (
          (
            ≼_trans (v ⊖ v) (q ⊖ v) d (F.sub_mono v q v v b (≼_refl v)) here,
            lower_peak v q d vs b l.below,
          ),
          l.pairs,
        );
        attained = attained_step peak worst v q e d vs c h l.attained;
        higher = ≼_trans peak q p a l.higher;
        highest = (≼_trans v q p b l.higher, l.highest);
        reached = reached_step peak v q p vs c l.reached;
      }

  drawdown_loop-IsLoop :
      (peak worst : Num) (vs : List Num)
      → let ends = drawdown_loop peak worst vs in IsLoop peak worst vs ends.0 ends.1
  unfolding drawdown_loop
  drawdown_loop-IsLoop peak worst [] = record {
    grows = ≼_refl worst;
    below = tt;
    pairs = tt;
    attained = inl refl;
    higher = ≼_refl peak;
    highest = tt;
    reached = inl refl;
  }
  drawdown_loop-IsLoop peak worst (v ∷ vs) =
      let q : Num = if lt peak v then v else peak in
      let e : Num = if lt worst (q ⊖ v) then q ⊖ v else worst in
      IsLoop-step peak worst v q e _ _ vs (ground arith) (ground arith)
        (elim (Bool-cases (lt peak v)) [ inl x ↦ inr (rw x) | inr x ↦ inl (rw x) ]) (ground arith)
        (ground arith)
        (elim (Bool-cases (lt worst (q ⊖ v))) [ inl x ↦ inr (rw x) | inr x ↦ inl (rw x) ])
        (drawdown_loop-IsLoop q e vs)

  whole_attained :
      (v d : Num) (vs : List Num)
      → (d ≡ nought) ⊎ Any (λ w. d ≡ v ⊖ w) (v ∷ vs) ⊎ Attains d (v ∷ vs)
      → (d ≡ nought) ⊎ Attains d (v ∷ vs)
  whole_attained v d vs (inl x) = inl x
  whole_attained v d vs (inr (inl x)) = inr (inl x)
  whole_attained v d vs (inr (inr x)) = inr x

  -- The peak is one of the totals, so some total is the highest.
  highest_step :
      (p last : Num) (all vs : List Num)
      → All (λ w. w ≼ p) all
      → Any (λ w. p ≡ w) vs
      → Any (λ v. All (λ w. w ≼ v) all × (p ⊖ last ≡ v ⊖ last)) vs
  highest_step p last all [] h x = elim x [ ]
  highest_step p last all (v ∷ vs) h (inl x) =
      inl (subst (λ t. All (λ w. w ≼ t) all) x h, ap (λ t. t ⊖ last) x)
  highest_step p last all (v ∷ vs) h (inr x) = inr (highest_step p last all vs h x)

  highest_lem :
      (v p last : Num) (vs : List Num)
      → All (λ w. w ≼ p) (v ∷ vs)
      → (p ≡ v) ⊎ Any (λ w. p ≡ w) (v ∷ vs)
      → Any (λ t. All (λ w. w ≼ t) (v ∷ vs) × (p ⊖ last ≡ t ⊖ last)) (v ∷ vs)
  highest_lem v p last vs h (inl x) = highest_step p last (v ∷ vs) (v ∷ vs) h (inl x)
  highest_lem v p last vs h (inr x) = highest_step p last (v ∷ vs) (v ∷ vs) h x

  -- What a drawdown says of the running totals.
  pub record IsDrawdown (threshold : Num) (balance : Option Num) (totals : List Num) (d : Drawdown)
      : Type 0 where
    pub bounded : Bounds d.max_drawdown totals
    pub attained : (d.max_drawdown ≡ nought) ⊎ Attains d.max_drawdown totals
    pub current :
        Any (λ v. All (λ w. w ≼ v) totals × (d.current_drawdown ≡ v ⊖ last_of nought totals)) totals
    pub alerted : d.alert ≡ lt threshold (share_of balance d.current_drawdown)

  abbrev pub IsAnalysis : Num → Option Num → List Num → Option Drawdown → Type 0
  IsAnalysis threshold balance pnls none = pnls ≡ []
  IsAnalysis threshold balance pnls (some d) =
      IsDrawdown threshold balance (cumulative_from nought pnls) d

  drawdown_of_lem :
      (threshold : Num) (balance : Option Num) (pnls : List Num)
      → IsAnalysis threshold balance pnls
          (drawdown_of threshold balance (cumulative_from nought pnls))
  unfolding drawdown_of cumulative_from last_of
  drawdown_of_lem threshold balance [] = refl
  drawdown_of_lem threshold balance (p ∷ ps) =
      let v : Num = nought ⊕ p in
      let vs : List Num = cumulative_from v ps in
      let l = drawdown_loop-IsLoop v nought (v ∷ vs) in
      record {
        bounded = l.pairs;
        attained = whole_attained v _ vs l.attained;
        current = highest_lem v _ (last_of v vs) vs l.highest l.reached;
        alerted = refl;
      }

  -- Where a trade has a result, the maximal drawdown is at least every fall from an earlier running
  -- total to a later one, and is one of those falls, or 0; the present drawdown is the fall from the
  -- highest total to the last; the alert is given exactly if its share of the balance is above the
  -- threshold. There is no analysis exactly if no trade has a result.
  pub analyze_drawdown-IsDrawdown :
      (threshold : Num) (ts : List Trade) (balance : Option Num)
      → IsAnalysis threshold balance (pnls_of ts) (analyze_drawdown threshold ts balance)
  unfolding analyze_drawdown
  analyze_drawdown-IsDrawdown threshold ts balance = drawdown_of_lem threshold balance (pnls_of ts)
