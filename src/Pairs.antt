-- ===== src/Pairs.antt =====
-- persistent_pairs.py: the class `PersistentPairsManager`. The file is the dictionary that was last
-- written to it, `none` where there is no readable file. How each write ends is an argument, since
-- the code goes on after one that fails. The clock is read by the caller.
use oanda_trader.Base.{
  ℕ, suc, ◌-◌, Bool, true, false, Option, none, some, List, [], ◌∷◌, length, take, if◌then◌else◌,
  String, Dict, lookup, has, insert, values, Float, Num, ◌⊖◌, nought, le, min,
}
pub mod Storage
pub mod Scanning
pub mod Qualification

-- How a write to the file ends: in full, with an exception before the file is opened, or with one
-- after, which leaves no readable file.
pub data Writing : Type 0 where
  written not_opened broken_off : Writing

module _ ⦃F : Float⦄ where
  -- The record of a pair, whose keys may be missing in the file.
  pub record PairInfo : Type 0 where
    pub added : Option Num
    pub last_check : Option Num
    pub qualified : Option Bool

  pub record PairsManager : Type 0 where
    pub requalification_interval : Num
    pub max_pairs : ℕ
    pub pairs : Dict PairInfo
    pub storage_file : Option (Dict PairInfo)

  -- `info.get('qualified', True)`
  abbrev pub is_qualified : PairInfo → Bool
  is_qualified p = elim p.qualified [ none ↦ true | some b ↦ b ]

  -- `info.get('last_check', 0)`
  abbrev pub checked_at : PairInfo → Num
  checked_at p = elim p.last_check [ none ↦ nought | some t ↦ t ]

  unfoldable pub load_from_disk : Option (Dict PairInfo) → Dict PairInfo
  load_from_disk none = []
  load_from_disk (some d) = d

  unfoldable pub new_pairs_manager : Option (Dict PairInfo) → Num → ℕ → PairsManager
  unfolding load_from_disk
  new_pairs_manager file interval max_pairs = record {
    requalification_interval = interval;
    max_pairs = max_pairs;
    pairs = load_from_disk file;
    storage_file = file;
  }

  -- The file after a write of these pairs.
  abbrev pub file_after : Writing → Dict PairInfo → Option (Dict PairInfo) → Option (Dict PairInfo)
  file_after written pairs file = some pairs
  file_after not_opened pairs file = file
  file_after broken_off pairs file = none

  -- The pairs in memory, written to the file; an exception is logged and no more.
  abbrev pub save_to_disk : PairsManager → Dict PairInfo → Writing → PairsManager
  save_to_disk m pairs w = record m {
    pairs = pairs;
    storage_file = file_after w pairs m.storage_file;
  }

  -- The names of the qualified pairs, in order.
  unfoldable pub qualified_names : Dict PairInfo → List String
  qualified_names [] = []
  qualified_names ((i, p) ∷ m) = if is_qualified p then i ∷ qualified_names m else qualified_names m

  unfoldable pub get_pairs_to_scan : PairsManager → List String
  unfolding qualified_names
  get_pairs_to_scan m = take m.max_pairs (qualified_names m.pairs)

  -- The clock is read twice for a new pair.
  unfoldable pub add_pair : PairsManager → String → Num → Num → Writing → PairsManager
  add_pair m i now later w = elim (lookup i m.pairs) [
    | none ↦
        save_to_disk m
          (insert i (record { added = some now; last_check = some later; qualified = some true })
            m.pairs)
          w
    | some p ↦
        if is_qualified p
        then m
        else save_to_disk m
            (insert i (record p { last_check = some now; qualified = some true }) m.pairs) w
  ]

  unfoldable pub update_pair_qualification :
      PairsManager → String → Bool → Num → Writing → PairsManager
  update_pair_qualification m i qualified now w = elim (lookup i m.pairs) [
    | none ↦ m
    | some p ↦
        save_to_disk m
          (insert i (record p { last_check = some now; qualified = some qualified }) m.pairs) w
  ]

  unfoldable pub remove_pair : PairsManager → String → Num → Writing → PairsManager
  unfolding update_pair_qualification
  remove_pair m i now w = update_pair_qualification m i false now w

  -- `min` of the times of the checks, the first of which is `t`
  unfoldable pub oldest : Num → List PairInfo → Num
  oldest t [] = t
  oldest t (p ∷ ps) = oldest (min t (checked_at p)) ps

  unfoldable pub should_requalify_pairs : PairsManager → Num → Bool
  unfolding oldest
  should_requalify_pairs m now = elim (values m.pairs) [
    | [] ↦ true
    | p ∷ ps ↦ le m.requalification_interval (now ⊖ oldest (checked_at p) ps)
  ]

  -- `writings n` is how the write for the name number `n` ends, if there is one.
  unfoldable pub add_pairs : PairsManager → List String → Num → (ℕ → Writing) → PairsManager
  unfolding add_pair
  add_pairs m [] now writings = m
  add_pairs m (i ∷ is) now writings =
      add_pairs (add_pair m i now now (writings 0)) is now (λ n. writings (suc n))

  -- Only an empty list of pairs is initialised. One reading of the clock stands for all.
  unfoldable pub initialize_from_available :
      PairsManager → List String → Num → (ℕ → Writing) → PairsManager
  unfolding add_pairs
  initialize_from_available m available now writings = elim m.pairs [
    | [] ↦ add_pairs m (take m.max_pairs available) now writings
    | e ∷ es ↦ m
  ]

  pub record PairStats : Type 0 where
    pub total_pairs : ℕ
    pub qualified_pairs : ℕ
    pub disqualified_pairs : ℕ
    pub maximum : ℕ

  -- `sum(1 for info in … if …)`
  unfoldable pub qualified_count : List PairInfo → ℕ
  qualified_count [] = 0
  qualified_count (p ∷ ps) = if is_qualified p then suc (qualified_count ps) else qualified_count ps

  unfoldable pub get_stats : PairsManager → PairStats
  unfolding qualified_count
  get_stats m = record {
    total_pairs = length m.pairs;
    qualified_pairs = qualified_count (values m.pairs);
    disqualified_pairs = length m.pairs - qualified_count (values m.pairs);
    maximum = m.max_pairs;
  }
