-- ===== src/Risk.antt =====
-- risk_manager.py: the class `RiskManager`. The numbers of an API position are taken as already
-- converted by `float`; the clock is read by the caller.
use Prim.Native.Char.{Char, code}
use Prim.Native.String
use oanda_trader.Base.{
  contains, ℕ, suc, ◌+◌, ◌-◌, Bool, true, false, not, ◌&&◌, Option, none, some, List, [], ◌∷◌, ◌++◌,
  length, ltb, leb, ◌==◌, if◌then◌else◌, String, Dict, lookup, has, insert, erase, keys, same_text,
  Float, Num, ◌⊕◌, ◌⊖◌, ◌⊗◌, ◌⊘◌, of_ℕ, nought, lt, eq, max, abs,
}
pub mod Groups
pub mod Limits
pub mod Positions
pub mod Orders

-- `instrument.split('_')[0]`
unfoldable pub base_currency : String → String
base_currency String.[] = String.[]
base_currency (String.◌∷◌ c s) =
    if code c == b'_' then String.[] else String.◌∷◌ c (base_currency s)

-- `xs.remove(a)`: the first `a` goes.
unfoldable pub remove_first : String → List String → List String
remove_first a [] = []
remove_first a (x ∷ xs) = if same_text x a then xs else x ∷ remove_first a xs

-- `groups.get(base, [])`
unfoldable pub group : String → Dict (List String) → List String
group k m = elim (lookup k m) [ none ↦ [] | some g ↦ g ]

-- The answers of `can_open_position`, by their reasons.
pub data Permission : Type 0 where
  allowed : Permission
  too_many_positions : Permission
  already_open : Permission
  too_many_units : Permission
  trade_risk_too_high : Permission
  total_risk_too_high : Permission
  too_correlated : Permission

module _ ⦃F : Float⦄ where
  -- The keys that only one of the two writers sets are optional.
  pub record Position : Type 0 where
    pub units : Num
    pub unrealized_pl : Num
    pub risk_amount : Option Num
    pub opened_at : Option Num
    pub long_units : Option Num
    pub short_units : Option Num

  pub record ApiPosition : Type 0 where
    pub instrument : Option String
    pub long : Num
    pub short : Num
    pub profit : Num

  pub record RiskManager : Type 0 where
    pub max_open_positions : ℕ
    pub max_risk_per_trade : Num
    pub max_total_risk : Num
    pub max_correlation_positions : ℕ
    pub max_units_per_instrument : Num
    pub open_positions : Dict Position
    pub position_count : ℕ
    pub total_risk_amount : Num
    pub correlation_groups : Dict (List String)

  unfoldable pub new_risk_manager : ℕ → Num → Num → ℕ → Num → RiskManager
  new_risk_manager positions trade_risk total_risk correlated units = record {
    max_open_positions = positions;
    max_risk_per_trade = trade_risk;
    max_total_risk = total_risk;
    max_correlation_positions = correlated;
    max_units_per_instrument = units;
    open_positions = [];
    position_count = 0;
    total_risk_amount = nought;
    correlation_groups = [];
  }

  unfoldable pub reset : RiskManager → RiskManager
  reset s = record s {
    open_positions = [];
    position_count = 0;
    total_risk_amount = nought;
    correlation_groups = [];
  }

  -- The record of a position that the API reports: the short units are negative there.
  abbrev pub synced : ApiPosition → Position
  synced pos = record {
    units = pos.long ⊕ pos.short;
    unrealized_pl = pos.profit;
    risk_amount = none;
    opened_at = none;
    long_units = some pos.long;
    short_units = some (abs pos.short);
  }

  -- The body of the loop for an instrument with a name.
  unfoldable pub track_position : RiskManager → String → ApiPosition → RiskManager
  track_position s i pos =
      let base = base_currency i in
      if eq (pos.long ⊕ pos.short) nought then s else record s {
        open_positions = insert i (synced pos) s.open_positions;
        position_count = s.position_count + 1;
        correlation_groups =
            insert base (group base s.correlation_groups ++ (i ∷ [])) s.correlation_groups;
      }

  -- One position: `None` and the empty name are passed over.
  unfoldable pub track_api : RiskManager → ApiPosition → RiskManager
  unfolding track_position
  track_api s pos = elim pos.instrument [
    | none ↦ s
    | some i ↦ if same_text i "" then s else track_position s i pos
  ]

  unfoldable pub track_all : RiskManager → List ApiPosition → RiskManager
  unfolding track_api
  track_all s [] = s
  track_all s (p ∷ ps) = track_all (track_api s p) ps

  unfoldable pub update_positions_from_api : RiskManager → List ApiPosition → RiskManager
  unfolding reset track_all
  update_positions_from_api s positions = track_all (reset s) positions

  unfoldable pub can_open_position : RiskManager → String → Num → Num → Num → Permission
  can_open_position s i units risk balance =
      if leb s.max_open_positions s.position_count
      then too_many_positions
      else (if has i s.open_positions
          then already_open
          else (if lt s.max_units_per_instrument (abs units)
              then too_many_units
              else (if lt nought balance && lt s.max_risk_per_trade (risk ⊘ balance)
                  then trade_risk_too_high
                  else (if lt nought balance
                        && lt s.max_total_risk ((s.total_risk_amount ⊕ risk) ⊘ balance)
                      then total_risk_too_high
                      else (if leb s.max_correlation_positions
                            (length (group (base_currency i) s.correlation_groups))
                          then too_correlated
                          else allowed)))))

  -- The record of a position that the bot opens.
  abbrev pub opened : Num → Num → Num → Position
  opened units risk now = record {
    units = units;
    unrealized_pl = nought;
    risk_amount = some risk;
    opened_at = some now;
    long_units = none;
    short_units = none;
  }

  unfoldable pub register_position : RiskManager → String → Num → Num → Num → RiskManager
  register_position s i units risk now =
      let positions = insert i (opened units risk now) s.open_positions in
      let base = base_currency i in
      let members = group base s.correlation_groups in
      record s {
        open_positions = positions;
        position_count = length positions;
        total_risk_amount = s.total_risk_amount ⊕ risk;
        correlation_groups =
            (if contains i members
              then s.correlation_groups
              else insert base (members ++ (i ∷ [])) s.correlation_groups);
      }

  -- The risk that a position was registered with, 0.0 for one from the API.
  abbrev pub risk_of : Position → Num
  risk_of p = elim p.risk_amount [ none ↦ nought | some r ↦ r ]

  -- Reading the group of a currency with none adds an empty one.
  unfoldable pub close_position : RiskManager → String → RiskManager
  close_position s i = elim (lookup i s.open_positions) [
    | none ↦ s
    | some p ↦
        let positions = erase i s.open_positions in
        let base = base_currency i in
        record s {
          open_positions = positions;
          position_count = length positions;
          total_risk_amount = max nought (s.total_risk_amount ⊖ risk_of p);
          correlation_groups =
              insert base (remove_first i (group base s.correlation_groups)) s.correlation_groups;
        }
  ]

  unfoldable pub get_position_info : RiskManager → String → Option Position
  get_position_info s i = lookup i s.open_positions

  pub record RiskSummary : Type 0 where
    pub open_count : ℕ
    pub positions_available : ℕ
    pub total_risk : Num
    pub total_risk_pct : Num
    pub max_risk_pct : Num
    pub risk_capacity_used_pct : Num
    pub instruments : List String

  -- The subtraction stops at 0, as `max(0, …)` of the code does.
  unfoldable pub get_risk_summary : RiskManager → Num → RiskSummary
  get_risk_summary s balance =
      let pct = if lt nought balance then (s.total_risk_amount ⊘ balance) ⊗ of_ℕ 100 else nought in
      let limit = s.max_total_risk ⊗ of_ℕ 100 in
      record {
        open_count = s.position_count;
        positions_available = s.max_open_positions - s.position_count;
        total_risk = s.total_risk_amount;
        total_risk_pct = pct;
        max_risk_pct = limit;
        risk_capacity_used_pct =
            (if lt nought s.max_total_risk then (pct ⊘ limit) ⊗ of_ℕ 100 else nought);
        instruments = keys s.open_positions;
      }
