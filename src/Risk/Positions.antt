-- ===== src/Risk/Positions.antt =====
-- What `RiskManager` of risk_manager.py holds after a synchronisation, and after a trade is closed.
use oanda_trader.Base.{
  contains, ◌+◌, ◌≡◌, ◌∙◌, refl, sym, ap, false, ◌||◌, Option, none, some, List, [], ◌∷◌, ◌++◌,
  length, arith, if◌then◌else◌, String, Dict, lookup, has, insert, same_text, Float, Num, ◌⊕◌,
  nought, eq, Bool-cases, Option-cases, inl, inr,
}
use mathlib.Core.List.{append-nil, append_assoc}
use oanda_trader.Base.Dicts.{lookup-insert, same_text_refl, same_text_sound}
use oanda_trader.Risk.{
  RiskManager, Position, ApiPosition, base_currency, group, remove_first, reset, track_position,
  track_api, track_all, update_positions_from_api, register_position, close_position, opened,
  synced,
}
use oanda_trader.Risk.Groups.{
  group-insert, group-nil_lem, has-nil, remove_first-append_self, erase-insert_absent, with_base,
}

module _ ⦃F : Float⦄ where
  -- Whether a position of the API has a name and a net number of units that is not 0.
  unfoldable pub counts : ApiPosition → Option String
  counts p = elim p.instrument [
    | none ↦ none
    | some i ↦
        if same_text i "" then none else (if eq (p.long ⊕ p.short) nought then none else some i)
  ]

  -- The names of those that count, in order.
  unfoldable pub tracked : List ApiPosition → List String
  tracked [] = []
  tracked (p ∷ ps) = elim (counts p) [ none ↦ tracked ps | some i ↦ i ∷ tracked ps ]

  -- What a manager holds when instruments `is` have been tracked on top of `s`.
  pub record Holds (s : RiskManager) (is : List String) (s' : RiskManager) : Type 0 where
    pub count : s'.position_count ≡ s.position_count + length is
    pub held : (j : String) → has j s'.open_positions ≡ (has j s.open_positions || contains j is)
    pub grouped :
        (k : String)
        → group k s'.correlation_groups ≡ group k s.correlation_groups ++ with_base k is
    pub risk : s'.total_risk_amount ≡ s.total_risk_amount

  Holds-nil : (s : RiskManager) → Holds s [] s
  unfolding contains with_base
  Holds-nil s = record {
    count = omega arith;
    held = λ j. ground arith;
    grouped = λ k. sym (append-nil _);
    risk = refl;
  }

  track_api-none : (s : RiskManager) (p : ApiPosition) → counts p ≡ none → track_api s p ≡ s
  unfolding track_api track_position counts
  track_api-none s p e = ground arith

  -- The manager with one more position.
  abbrev added : RiskManager → String → ApiPosition → RiskManager
  added s i p = record s {
    open_positions = insert i (synced p) s.open_positions;
    position_count = s.position_count + 1;
    correlation_groups =
        insert (base_currency i) (group (base_currency i) s.correlation_groups ++ (i ∷ []))
          s.correlation_groups;
  }

  track_api-some :
      (s : RiskManager) (p : ApiPosition) (i : String)
      → counts p ≡ some i
      → track_api s p ≡ added s i p
  unfolding track_api track_position counts
  track_api-some s p i e = ground arith

  added-Holds :
      (s : RiskManager) (i : String) (p : ApiPosition) (is : List String) (s' : RiskManager)
      → Holds (added s i p) is s'
      → Holds s (i ∷ is) s'
  unfolding contains with_base
  added-Holds s i p is s' h = record {
    count = omega (arith, h.count);
    held = λ j. ground (arith, h.held j, lookup-insert i j (synced p) s.open_positions);
    grouped = λ k.
        let base = base_currency i in
        let members = group base s.correlation_groups in
        let inserted = group-insert base k (members ++ (i ∷ [])) s.correlation_groups in
        elim (Bool-cases (same_text base k)) [
          | inl e ↦
              let same : group base s.correlation_groups ≡ group k s.correlation_groups =
                ap (λ x. group x s.correlation_groups) (same_text_sound base k e) in
              rw (h.grouped k, inserted, e, same) (append_assoc _ (i ∷ []) (with_base k is))
          | inr e ↦ rw (h.grouped k, inserted, e)
        ];
    risk = h.risk;
  }

  track_all-Holds :
      (s : RiskManager) (ps : List ApiPosition) → Holds s (tracked ps) (track_all s ps)
  unfolding track_all tracked
  track_all-Holds s [] = Holds-nil s
  track_all-Holds s (p ∷ ps) = elim (Option-cases (counts p)) [
    | inl e ↦ rw (e, tracked, track_all, track_api-none s p e) (track_all-Holds s ps)
    | inr (i, e) ↦
        rw (e, tracked, track_all, track_api-some s p i e)
          (added-Holds s i p (tracked ps) _ (track_all-Holds (added s i p) ps))
  ]

  -- After a synchronisation, whatever was tracked before: the count is the number of reported
  -- positions with a name and a net number of units that is not 0, a position is held exactly in
  -- their instruments, the group of each currency lists those with that base currency in order, and
  -- the total risk is 0.0.
  pub update_positions_from_api_lem :
      (s : RiskManager) (ps : List ApiPosition)
      → let after = update_positions_from_api s ps in
        (after.position_count ≡ length (tracked ps))
        × ((i : String) → has i after.open_positions ≡ contains i (tracked ps))
        × ((k : String) → group k after.correlation_groups ≡ with_base k (tracked ps))
        × (after.total_risk_amount ≡ nought)
  unfolding update_positions_from_api reset
  update_positions_from_api_lem s ps =
      let start : RiskManager = reset s in
      let h = track_all-Holds start ps in
      (
        omega (arith, h.count),
        λ i. h.held i ∙ has-nil Position i (contains i (tracked ps)),
        λ k. h.grouped k ∙ ap (λ g. g ++ with_base k (tracked ps)) (group-nil_lem k),
        h.risk,
      )

  -- A group that got an item behind it, and lost it again, is as before.
  regroup :
      (b k i : String) (m : Dict (List String))
      → contains i (group b m) ≡ false
      → let longer = insert b (group b m ++ (i ∷ [])) m in
        group k (insert b (remove_first i (group b longer)) longer) ≡ group k m
  regroup b k i m c =
      let longer = insert b (group b m ++ (i ∷ [])) m in
      let own : group b longer ≡ group b m ++ (i ∷ []) =
        rw (group-insert b b (group b m ++ (i ∷ [])) m, same_text_refl b) in
      let back : remove_first i (group b longer) ≡ group b m =
        rw own (remove_first-append_self i (group b m) c) in
      elim (Bool-cases (same_text b k)) [
        | inl e ↦
            rw (group-insert b k (remove_first i (group b longer)) longer, e)
              (back ∙ ap (λ x. group x m) (same_text_sound b k e))
        | inr e ↦
            rw (group-insert b k (remove_first i (group b longer)) longer, e)
              (rw (group-insert b k (group b m ++ (i ∷ [])) m, e))
      ]

  -- Closing a position that was just registered in an instrument neither held nor in its group gives
  -- back the positions, their count, and every group.
  close-register :
      (s : RiskManager) (i : String) (units risk now : Num)
      → has i s.open_positions ≡ false
      → contains i (group (base_currency i) s.correlation_groups) ≡ false
      → s.position_count ≡ length s.open_positions
      → let after = close_position (register_position s i units risk now) i in
        (after.open_positions ≡ s.open_positions)
        × (after.position_count ≡ s.position_count)
        × ((k : String) → group k after.correlation_groups ≡ group k s.correlation_groups)
  unfolding close_position register_position
  close-register s i units risk now h c n =
      let found : lookup i (insert i (opened units risk now) s.open_positions)
          ≡ some (opened units risk now) =
        rw (lookup-insert i i (opened units risk now) s.open_positions, same_text_refl i) in
      let gone = erase-insert_absent i (opened units risk now) s.open_positions h in
      (
        rw (found, close_position) gone,
        rw (found, close_position) (ap length gone ∙ sym n),
        λ k.
            rw (found, close_position)
              (rw c (regroup (base_currency i) k i s.correlation_groups c)),
      )
