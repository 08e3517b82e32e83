-- ===== src/Examples/Pairs.antt =====
-- Runs of persistent_pairs.py: a file with one pair, and a manager for two.
use oanda_trader.Base.{
  ◌≡◌, refl, true, false, none, some, List, [], ◌∷◌, Dict, lookup, insert, contains, of_ℕ,
}
use oanda_trader.Base.Dicts.{IsUnique}
use oanda_trader.Base.Fixed.{fixed, plus, minus, times, over, whole}
use oanda_trader.Pairs.{
  written, not_opened, broken_off, PairInfo, PairsManager, load_from_disk, new_pairs_manager,
  qualified_names, get_pairs_to_scan, add_pair, update_pair_qualification, remove_pair, oldest,
  should_requalify_pairs, add_pairs, initialize_from_available, qualified_count, get_stats,
}
use oanda_trader.Pairs.Storage.{
  Event, add, remove, update, initialize, handle, handle_all, new_pairs_manager-handle_all,
}
use oanda_trader.Pairs.Scanning.{any_due}
use oanda_trader.Base.{◌↔◌}
use oanda_trader.Examples.Strategies.{repeat}
use oanda_trader.Pairs.Qualification.{
  any_row, check_pair_qualification, Qualifies, check_pair_qualification_iff,
}

program : Unit {0}
unfolding load_from_disk new_pairs_manager qualified_names get_pairs_to_scan add_pair
    update_pair_qualification remove_pair oldest should_requalify_pairs add_pairs
    initialize_from_available qualified_count get_stats handle handle_all any_due lookup insert
    contains plus minus times over whole
program = tt

abbrev file : Dict PairInfo
file = ("EUR_USD", record { added = none; last_check = some (of_ℕ 10); qualified = none }) ∷ []

abbrev manager : PairsManager
manager = new_pairs_manager (some file) (of_ℕ 300) 2

abbrev events : List Event
events =
    add "GBP_USD" (of_ℕ 20) (of_ℕ 20) written
    ∷ remove "EUR_USD" (of_ℕ 30) broken_off
    ∷ add "USD_JPY" (of_ℕ 40) (of_ℕ 40) not_opened
    ∷ update "GBP_USD" true (of_ℕ 50) not_opened
    ∷ initialize ("AUD_USD" ∷ []) (of_ℕ 60) (λ n. written)
    ∷ []

scan_run : get_pairs_to_scan (handle_all manager events) ≡ "GBP_USD" ∷ "USD_JPY" ∷ []
unfolding program
scan_run = refl

requalify_run : should_requalify_pairs manager (of_ℕ 310) ≡ true
unfolding program
requalify_run = refl

-- After the failures a new manager would start with no pairs.
failed_run : (new_pairs_manager (handle_all manager events).storage_file (of_ℕ 60) 9).pairs ≡ []
unfolding program
failed_run = refl

abbrev later : List Event
later = add "AUD_USD" (of_ℕ 80) (of_ℕ 80) written ∷ []

new_pairs_manager-handle_all_example :
    let m =
      handle_all
        (update_pair_qualification (handle_all manager events) "GBP_USD" false (of_ℕ 70) written)
        later in
    ((new_pairs_manager m.storage_file (of_ℕ 60) 9).pairs ≡ m.pairs) × IsUnique m.pairs
unfolding program
new_pairs_manager-handle_all_example =
    new_pairs_manager-handle_all (some file) (of_ℕ 300) (of_ℕ 60) 2 9 events later "GBP_USD" false
      (of_ℕ 70) (refl, tt) refl (refl, tt)

qualification_run : check_pair_qualification (λ df. of_ℕ 100) (some (repeat 30)) ≡ true
unfolding program any_row check_pair_qualification
qualification_run = refl

check_pair_qualification_iff_example :
    (check_pair_qualification (λ df. of_ℕ 100) (some (repeat 30)) ≡ true)
    ↔ Qualifies (λ df. of_ℕ 100) (some (repeat 30))
check_pair_qualification_iff_example =
    check_pair_qualification_iff (λ df. of_ℕ 100) (some (repeat 30))
