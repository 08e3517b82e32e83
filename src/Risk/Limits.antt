-- ===== src/Risk/Limits.antt =====
-- The limits that `can_open_position` of risk_manager.py enforces, one by one and over a run.
use oanda_trader.Base.{
  ℕ, ◌≤◌, ◌<◌, ◌≡◌, ◌↔◌, ◌⊎◌, refl, Bool, true, false, List, [], ◌∷◌, ◌++◌, length, arith,
  length-append, if◌then◌else◌, String, lookup, has, Float, Num, ◌⊕◌, ◌⊘◌, ◌≼◌, nought, abs, keys,
  ◌∙◌, sym, ap, same_text, contains, insert, erase, Bool-cases, Option-cases, inl, inr,
}
use mathlib.Core.Path.{subst}
use oanda_trader.Base.Dicts.{
  same_text_sound, length-insert, length-erase-le, IsUnique, insert-IsUnique,
}
use oanda_trader.Risk.{
  RiskManager, Permission, allowed, base_currency, group, remove_first, new_risk_manager,
  can_open_position, register_position, close_position, opened,
}
use oanda_trader.Risk.Groups.{
  group-insert, group-nil_lem, length-remove_first-le, with_base, with_base-nil, with_base-append,
  with_base-erase, keys-insert_fresh, contains-with_base, erase-IsUnique,
}

-- The first part of the answer.
abbrev pub is_allowed : Permission → Bool
is_allowed allowed = true
is_allowed _ = false

is_allowed_sound : (p : Permission) → is_allowed p ≡ true → p ≡ allowed
is_allowed_sound p h = ground arith

module _ ⦃F : Float⦄ where
  -- The conditions of the docstring, all at once.
  pub record Permits (s : RiskManager) (i : String) (units risk balance : Num) : Type 0 where
    pub room : s.position_count < s.max_open_positions
    pub fresh : has i s.open_positions ≡ false
    pub small : abs units ≼ s.max_units_per_instrument
    pub trade_risk : (balance ≼ nought) ⊎ (risk ⊘ balance ≼ s.max_risk_per_trade)
    pub total_risk :
        (balance ≼ nought) ⊎ ((s.total_risk_amount ⊕ risk) ⊘ balance ≼ s.max_total_risk)
    pub uncorrelated :
        length (group (base_currency i) s.correlation_groups) < s.max_correlation_positions

  -- A position may be opened exactly if every limit holds: fewer open positions than the maximum,
  -- none in this instrument, not too many units, the trade's risk and the total risk within their
  -- shares of a positive balance, and fewer instruments with this base currency than allowed.
  pub can_open_position_iff :
      (s : RiskManager) (i : String) (units risk balance : Num)
      → (can_open_position s i units risk balance ≡ allowed) ↔ Permits s i units risk balance
  unfolding can_open_position
  can_open_position_iff s i units risk balance = (
    λ e. record {
      room = ground arith;
      fresh = ground arith;
      small = ground arith;
      trade_risk = ground arith;
      total_risk = ground arith;
      uncorrelated = ground arith;
    },
    λ p. ground (arith, p.trade_risk, p.total_risk),
  )

  -- What happens to a manager between two synchronisations: a trade is tried, or a position closed.
  pub data Event : Type 0 where
    try_open : String → Num → Num → Num → Num → Event
    close : String → Event

  -- A trade is registered only if the manager allows it.
  unfoldable pub handle : RiskManager → Event → RiskManager
  handle s (try_open i units risk balance now) =
      if is_allowed (can_open_position s i units risk balance)
      then register_position s i units risk now
      else s
  handle s (close i) = close_position s i

  unfoldable pub handle_all : RiskManager → List Event → RiskManager
  handle_all s [] = s
  handle_all s (e ∷ es) = handle_all (handle s e) es

  -- The instruments that are open in a base currency.
  abbrev pub open_in : String → RiskManager → List String
  open_in k s = with_base k (keys s.open_positions)

  pub record WithinLimits (positions correlated : ℕ) (s : RiskManager) : Type 0 where
    pub positions_same : s.max_open_positions ≡ positions
    pub correlated_same : s.max_correlation_positions ≡ correlated
    pub unique : IsUnique s.open_positions
    pub counted : s.position_count ≡ length s.open_positions
    pub few : s.position_count ≤ positions
    pub grouped : (k : String) → group k s.correlation_groups ≡ open_in k s
    pub spread : (k : String) → length (open_in k s) ≤ correlated

  module _ (positions correlated : ℕ) (s : RiskManager)
      (w : WithinLimits positions correlated s) where
    -- A new instrument is put behind those of its base currency.
    register-open_in :
        (i k : String) (units risk now : Num)
        → has i s.open_positions ≡ false
        → open_in k (register_position s i units risk now)
          ≡ (if same_text (base_currency i) k then open_in k s ++ (i ∷ []) else open_in k s)
    unfolding register_position
    register-open_in i k units risk now h =
        rw (keys-insert_fresh i (opened units risk now) s.open_positions h)
          (with_base-append k (keys s.open_positions) i)

    -- The group of a currency by its other name.
    same_group :
        (base k : String) → same_text base k ≡ true → group base s.correlation_groups ≡ open_in k s
    same_group base k e =
        subst (λ j. group base s.correlation_groups ≡ open_in j s) (same_text_sound base k e)
          (w.grouped base)

    register-grouped :
        (i k : String) (units risk now : Num)
        → has i s.open_positions ≡ false
        → let s' = register_position s i units risk now in
          group k s'.correlation_groups ≡ open_in k s'
    unfolding register_position
    register-grouped i k units risk now h =
        let base = base_currency i in
        let groups = s.correlation_groups in
        let members = group base groups in
        let absent : contains i members ≡ false =
          rw (w.grouped base) (contains-with_base i base s.open_positions h) in
        rw
          (
            absent,
            register-open_in i k units risk now h,
            group-insert base k (members ++ (i ∷ [])) groups,
          )
          (elim (Bool-cases (same_text base k)) [
            | inl e ↦ rw e (ap (λ xs. xs ++ (i ∷ [])) (same_group base k e))
            | inr e ↦ rw e (w.grouped k)
          ])

    register-spread :
        (i k : String) (units risk now : Num)
        → has i s.open_positions ≡ false
        → length (group (base_currency i) s.correlation_groups) < correlated
        → length (open_in k (register_position s i units risk now)) ≤ correlated
    register-spread i k units risk now h l =
        let base = base_currency i in
        rw (register-open_in i k units risk now h) (elim (Bool-cases (same_text base k)) [
          | inl e ↦ rw e (
              omega
                (arith, length-append (open_in k s) (i ∷ []), l, ap length (same_group base k e)))
          | inr e ↦ rw e (w.spread k)
        ])

    register_position-WithinLimits :
        (i : String) (units risk balance now : Num)
        → Permits s i units risk balance
        → WithinLimits positions correlated (register_position s i units risk now)
    unfolding register_position
    register_position-WithinLimits i units risk balance now p = record {
      positions_same = w.positions_same;
      correlated_same = w.correlated_same;
      unique = insert-IsUnique i (opened units risk now) s.open_positions w.unique;
      counted = refl;
      few = ground (
        arith,
        length-insert i (opened units risk now) s.open_positions,
        p.room,
        p.fresh,
        w.counted,
        w.positions_same,
      );
      grouped = λ k. register-grouped i k units risk now p.fresh;
      spread = λ k.
          register-spread i k units risk now p.fresh
            (omega (arith, p.uncorrelated, w.correlated_same));
    }

    close-grouped :
        (i k : String)
        → let base = base_currency i in
          let members = remove_first i (group base s.correlation_groups) in
          group k (insert base members s.correlation_groups)
          ≡ with_base k (keys (erase i s.open_positions))
    close-grouped i k =
        let base = base_currency i in
        let members = remove_first i (group base s.correlation_groups) in
        rw
          (
            with_base-erase i k s.open_positions w.unique,
            group-insert base k members s.correlation_groups,
          )
          (elim (Bool-cases (same_text base k)) [
            | inl e ↦ rw e (ap (remove_first i) (same_group base k e))
            | inr e ↦ rw e (w.grouped k)
          ])

    close-spread :
        (i k : String) → length (with_base k (keys (erase i s.open_positions))) ≤ correlated
    close-spread i k =
        rw (with_base-erase i k s.open_positions w.unique)
          (elim (Bool-cases (same_text (base_currency i) k)) [
            | inl e ↦ rw e (omega (arith, length-remove_first-le i (open_in k s), w.spread k))
            | inr e ↦ rw e (w.spread k)
          ])

    close_position-WithinLimits :
        (i : String) → WithinLimits positions correlated (close_position s i)
    unfolding close_position
    close_position-WithinLimits i = elim (Option-cases (lookup i s.open_positions)) [
      | inl e ↦ rw (e, close_position) w
      | inr (p, e) ↦
          let base = base_currency i in
          let members = group base s.correlation_groups in
          rw (e, close_position)
            (record {
              positions_same = w.positions_same;
              correlated_same = w.correlated_same;
              unique = erase-IsUnique i s.open_positions w.unique;
              counted = refl;
              few = omega (arith, length-erase-le i s.open_positions, w.counted, w.few);
              grouped = λ k. close-grouped i k;
              spread = λ k. close-spread i k;
            })
    ]

  handle-WithinLimits :
      (positions correlated : ℕ) (s : RiskManager) (e : Event)
      → WithinLimits positions correlated s
      → WithinLimits positions correlated (handle s e)
  unfolding handle
  handle-WithinLimits positions correlated s (close i) w =
      close_position-WithinLimits positions correlated s w i
  handle-WithinLimits positions correlated s (try_open i units risk balance now) w =
      elim (Bool-cases (is_allowed (can_open_position s i units risk balance))) [
        | inl e ↦ rw e (
            register_position-WithinLimits positions correlated s w i units risk balance now
              ((can_open_position_iff s i units risk balance).0 (is_allowed_sound _ e)))
        | inr e ↦ rw e w
      ]

  handle_all-WithinLimits :
      (positions correlated : ℕ) (s : RiskManager) (es : List Event)
      → WithinLimits positions correlated s
      → WithinLimits positions correlated (handle_all s es)
  unfolding handle_all
  handle_all-WithinLimits positions correlated s [] w = w
  handle_all-WithinLimits positions correlated s (e ∷ es) w =
      handle_all-WithinLimits positions correlated (handle s e) es
        (handle-WithinLimits positions correlated s e w)

  -- From a new manager, over any trades and closings between synchronisations, where a trade is
  -- registered only if `can_open_position` allows it: each instrument is held once, the count is the
  -- number of positions held and never exceeds the maximum, the group of each base currency lists just
  -- the open instruments of that currency in their order, and there are at most as many of them as
  -- allowed.
  pub handle_all-new_risk_manager :
      (positions correlated : ℕ) (trade_risk total_risk units : Num) (es : List Event)
      → WithinLimits positions correlated
          (handle_all (new_risk_manager positions trade_risk total_risk correlated units) es)
  unfolding new_risk_manager
  handle_all-new_risk_manager positions correlated trade_risk total_risk units es =
      handle_all-WithinLimits positions correlated
        (new_risk_manager positions trade_risk total_risk correlated units) es
        (record {
          positions_same = refl;
          correlated_same = refl;
          counted = refl;
          few = omega arith;
          unique = tt;
          grouped = λ k. group-nil_lem k ∙ sym (with_base-nil k);
          spread = λ k. rw (with_base-nil k) (omega arith);
        })
