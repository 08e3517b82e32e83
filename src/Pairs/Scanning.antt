-- ===== src/Pairs/Scanning.antt =====
-- Which pairs of persistent_pairs.py are scanned, when they are checked again, and their counts.
use oanda_trader.Base.{
  ℕ, zero, suc, ◌+◌, ◌≤◌, ◌≡◌, ◌∙◌, refl, Bool, true, false, ◌||◌, none, some, List, [], ◌∷◌, arith,
  Bool-cases, Option-cases, List-cases, inl, inr, String, Dict, lookup, has, insert, contains, take,
  length, length-take-le, values, Float, Num, ◌⊖◌, le, lt, min,
}
use text.Mathlib.TextEquality.{eq_iff}
use oanda_trader.Base.Dicts.{lookup-insert, same_text_refl}
use oanda_trader.Base.NumberLaws.{≼_refl}
use oanda_trader.Pairs.{
  Writing, PairInfo, PairsManager, is_qualified, checked_at, qualified_names, get_pairs_to_scan,
  update_pair_qualification, remove_pair, oldest, should_requalify_pairs, qualified_count,
  get_stats,
}
use oanda_trader.Base.Dicts.{IsUnique, insert-IsUnique}

module _ ⦃F : Float⦄ where
  -- Whether a name is there and qualified.
  abbrev pub qualifies : String → Dict PairInfo → Bool
  qualifies i d = elim (lookup i d) [ none ↦ false | some p ↦ is_qualified p ]

  absent :
      (i : String) (d : Dict PairInfo) → has i d ≡ false → contains i (qualified_names d) ≡ false
  unfolding lookup contains qualified_names
  absent i [] h = refl
  absent i ((j, p) ∷ d) h = ground (arith, absent i d)

  contains-qualified_names :
      (i : String) (d : Dict PairInfo) → IsUnique d → contains i (qualified_names d) ≡ qualifies i d
  unfolding lookup contains qualified_names
  contains-qualified_names i [] u = refl
  contains-qualified_names i ((j, p) ∷ d) (h, u) =
      ground (arith, eq_iff j i, absent i d, contains-qualified_names i d u)

  contains-take :
      (i : String) (n : ℕ) (xs : List String)
      → contains i xs ≡ false
      → contains i (take n xs) ≡ false
  unfolding contains
  contains-take i zero xs h = refl
  contains-take i (suc n) [] h = refl
  contains-take i (suc n) (x ∷ xs) h = ground (arith, contains-take i n xs)

  qualifies-insert :
      (i : String) (p : PairInfo) (d : Dict PairInfo) → qualifies i (insert i p d) ≡ is_qualified p
  qualifies-insert i p d = ground (arith, lookup-insert i i p d, same_text_refl i)

  qualifies-remove :
      (m : PairsManager) (i : String) (now : Num) (w : Writing)
      → (qualifies i (remove_pair m i now w).pairs ≡ false)
  unfolding remove_pair update_pair_qualification
  qualifies-remove m i now w = elim (Option-cases (lookup i m.pairs)) [
    | inl e ↦ ground arith
    | inr (p, e) ↦
        let off : PairInfo = record p { last_check = some now; qualified = some false } in
        ground (arith, qualifies-insert i off m.pairs)
  ]

  remove_pair-IsUnique :
      (m : PairsManager) (i : String) (now : Num) (w : Writing)
      → IsUnique m.pairs
      → IsUnique (remove_pair m i now w).pairs
  unfolding remove_pair update_pair_qualification
  remove_pair-IsUnique m i now w u = elim (Option-cases (lookup i m.pairs)) [
    | inl e ↦ rw (e, update_pair_qualification) u
    | inr (p, e) ↦ rw (e, update_pair_qualification) (insert-IsUnique i _ m.pairs u)
  ]

  -- Where each name is stored once, a removed pair is not scanned, whatever it was before, and at
  -- most `max_pairs` pairs are.
  get_pairs_to_scan-remove_pair :
      (m : PairsManager) (i : String) (now : Num) (w : Writing)
      → IsUnique m.pairs
      → (contains i (get_pairs_to_scan (remove_pair m i now w)) ≡ false)
        × (length (get_pairs_to_scan (remove_pair m i now w)) ≤ (remove_pair m i now w).max_pairs)
  unfolding get_pairs_to_scan
  get_pairs_to_scan-remove_pair m i now w u =
      let after = remove_pair m i now w in
      let gone = contains-qualified_names i after.pairs (remove_pair-IsUnique m i now w u) in
      (
        contains-take i after.max_pairs (qualified_names after.pairs)
            (gone ∙ qualifies-remove m i now w),
        length-take-le after.max_pairs (qualified_names after.pairs),
      )

  -- Whether a pair was checked long enough ago.
  abbrev pub is_due : PairsManager → Num → PairInfo → Bool
  is_due m now p = le m.requalification_interval (now ⊖ checked_at p)

  unfoldable pub any_due : PairsManager → Num → List PairInfo → Bool
  any_due m now [] = false
  any_due m now (p ∷ ps) = is_due m now p || any_due m now ps

  due_min :
      (interval now a b : Num)
      → le interval (now ⊖ min a b) ≡ (le interval (now ⊖ a) || le interval (now ⊖ b))
  due_min interval now a b =
      let down = F.sub_mono now now a b (≼_refl now) in
      let up = F.sub_mono now now b a (≼_refl now) in
      elim (Bool-cases (lt b a)) [
        | inl e ↦ rw e (ground (arith, down (ground arith)))
        | inr e ↦ rw e (ground (arith, up (ground arith)))
      ]

  due_oldest :
      (m : PairsManager) (now t : Num) (ps : List PairInfo)
      → le m.requalification_interval (now ⊖ oldest t ps)
        ≡ (le m.requalification_interval (now ⊖ t) || any_due m now ps)
  unfolding oldest any_due
  due_oldest m now t [] = ground arith
  due_oldest m now t (p ∷ ps) = ground (
    arith,
    due_oldest m now (min t (checked_at p)) ps,
    due_min m.requalification_interval now t (checked_at p),
  )

  -- No pairs at all, or one that is due.
  abbrev pub is_stale : PairsManager → Num → List PairInfo → Bool
  is_stale m now [] = true
  is_stale m now (p ∷ ps) = any_due m now (p ∷ ps)

  -- The pairs are checked again exactly if there are none, or one of them was checked at least the
  -- interval ago.
  should_requalify_pairs_lem :
      (m : PairsManager) (now : Num)
      → should_requalify_pairs m now ≡ is_stale m now (values m.pairs)
  unfolding should_requalify_pairs any_due
  should_requalify_pairs_lem m now = elim (List-cases (values m.pairs)) [
    | inl e ↦ rw (e, should_requalify_pairs) refl
    | inr (p, ps, e) ↦ rw (e, should_requalify_pairs) (due_oldest m now (checked_at p) ps)
  ]

  count-names :
      (d : Dict PairInfo)
      → (qualified_count (values d) ≡ length (qualified_names d))
        × (length (qualified_names d) ≤ length d)
  unfolding qualified_count qualified_names
  count-names [] = (refl, omega arith)
  count-names ((i, p) ∷ d) = ground (arith, count-names d)

  -- The statistics: the qualified pairs are as many as the qualified names, and with the
  -- disqualified ones they are all the pairs.
  get_stats_lem :
      (m : PairsManager)
      → let s = get_stats m in
        (s.qualified_pairs ≡ length (qualified_names m.pairs))
        × (s.qualified_pairs + s.disqualified_pairs ≡ s.total_pairs)
        × (s.total_pairs ≡ length m.pairs)
  unfolding get_stats
  get_stats_lem m =
      let (same, below) = count-names m.pairs in (same, omega (arith, same, below), refl)
