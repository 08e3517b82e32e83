-- ===== src/Pairs/Storage.antt =====
-- The file of persistent_pairs.py, over every run.
use oanda_trader.Base.{
  ℕ, suc, ◌≡◌, All, true, has, arith, refl, Bool, false, Option, List, [], ◌∷◌, Bool-cases,
  Option-cases, List-cases, inl, inr, String, Dict, lookup, insert, take, Float, Num,
}
use oanda_trader.Base.Dicts.{IsUnique, insert-IsUnique}
use oanda_trader.Pairs.{
  Writing, written, PairInfo, PairsManager, is_qualified, load_from_disk, new_pairs_manager,
  save_to_disk, add_pair, update_pair_qualification, remove_pair, add_pairs,
  initialize_from_available,
}

module _ ⦃F : Float⦄ where
  -- The file holds what is in memory.
  abbrev pub IsStored : PairsManager → Type 0
  IsStored m = load_from_disk m.storage_file ≡ m.pairs

  -- What happens to a manager, each with the clock, and with how the writes end.
  pub data Event : Type 0 where
    add : String → Num → Num → Writing → Event
    remove : String → Num → Writing → Event
    update : String → Bool → Num → Writing → Event
    initialize : List String → Num → (ℕ → Writing) → Event

  unfoldable pub handle : PairsManager → Event → PairsManager
  handle m (add i now later w) = add_pair m i now later w
  handle m (remove i now w) = remove_pair m i now w
  handle m (update i qualified now w) = update_pair_qualification m i qualified now w
  handle m (initialize available now ws) = initialize_from_available m available now ws

  unfoldable pub handle_all : PairsManager → List Event → PairsManager
  handle_all m [] = m
  handle_all m (e ∷ es) = handle_all (handle m e) es

  -- A condition on each write of an event.
  abbrev pub Writes : (Writing → Type 0) → Event → Type 0
  Writes Ok (add i now later w) = Ok w
  Writes Ok (remove i now w) = Ok w
  Writes Ok (update i qualified now w) = Ok w
  Writes Ok (initialize available now ws) = (n : ℕ) → Ok (ws n)

  -- What every save whose write passes the test keeps, the operations keep.
  module _ (Keeps : PairsManager → Type 0) (Ok : Writing → Type 0)
      (save : (m : PairsManager) (i : String) (p : PairInfo) (w : Writing)
        → Ok w
        → Keeps m
        → Keeps (save_to_disk m (insert i p m.pairs) w)) where
    add_pair-Keeps :
        (m : PairsManager) (i : String) (now later : Num) (w : Writing)
        → Ok w
        → Keeps m
        → Keeps (add_pair m i now later w)
    unfolding add_pair
    add_pair-Keeps m i now later w o s = elim (Option-cases (lookup i m.pairs)) [
      | inl e ↦ rw (e, add_pair) (save m i _ w o s)
      | inr (p, e) ↦ elim (Bool-cases (is_qualified p)) [
        | inl f ↦ rw (e, f, add_pair) s
        | inr f ↦ rw (e, f, add_pair) (save m i _ w o s)
      ]
    ]

    update-Keeps :
        (m : PairsManager) (i : String) (qualified : Bool) (now : Num) (w : Writing)
        → Ok w
        → Keeps m
        → Keeps (update_pair_qualification m i qualified now w)
    unfolding update_pair_qualification
    update-Keeps m i qualified now w o s = elim (Option-cases (lookup i m.pairs)) [
      | inl e ↦ rw (e, update_pair_qualification) s
      | inr (p, e) ↦ rw (e, update_pair_qualification) (save m i _ w o s)
    ]

    add_pairs-Keeps :
        (m : PairsManager) (is : List String) (now : Num) (ws : ℕ → Writing)
        → ((n : ℕ) → Ok (ws n))
        → Keeps m
        → Keeps (add_pairs m is now ws)
    unfolding add_pairs
    add_pairs-Keeps m [] now ws o s = s
    add_pairs-Keeps m (i ∷ is) now ws o s =
        add_pairs-Keeps (add_pair m i now now (ws 0)) is now (λ n. ws (suc n)) (λ n. o (suc n))
          (add_pair-Keeps m i now now (ws 0) (o 0) s)

    initialize-Keeps :
        (m : PairsManager) (available : List String) (now : Num) (ws : ℕ → Writing)
        → ((n : ℕ) → Ok (ws n))
        → Keeps m
        → Keeps (initialize_from_available m available now ws)
    unfolding initialize_from_available
    initialize-Keeps m available now ws o s = elim (List-cases m.pairs) [
      | inl e ↦
          rw (e, initialize_from_available)
            (add_pairs-Keeps m (take m.max_pairs available) now ws o s)
      | inr (p, ps, e) ↦ rw (e, initialize_from_available) s
    ]

    handle-Keeps : (m : PairsManager) (e : Event) → Writes Ok e → Keeps m → Keeps (handle m e)
    unfolding handle remove_pair
    handle-Keeps m (add i now later w) o s = add_pair-Keeps m i now later w o s
    handle-Keeps m (remove i now w) o s = update-Keeps m i false now w o s
    handle-Keeps m (update i q now w) o s = update-Keeps m i q now w o s
    handle-Keeps m (initialize available now ws) o s = initialize-Keeps m available now ws o s

    handle_all-Keeps :
        (m : PairsManager) (es : List Event)
        → All (Writes Ok) es
        → Keeps m
        → Keeps (handle_all m es)
    unfolding handle_all
    handle_all-Keeps m [] o s = s
    handle_all-Keeps m (e ∷ es) (o, os) s =
        handle_all-Keeps (handle m e) es os (handle-Keeps m e o s)

  any_write : (es : List Event) → All (Writes (λ w. Unit {0})) es
  any_write [] = tt
  any_write (add i now later w ∷ es) = (tt, any_write es)
  any_write (remove i now w ∷ es) = (tt, any_write es)
  any_write (update i q now w ∷ es) = (tt, any_write es)
  any_write (initialize available now ws ∷ es) = ((λ n. tt), any_write es)

  -- Each name stays once, whatever the writes do.
  handle_all-IsUnique :
      (m : PairsManager) (es : List Event) → IsUnique m.pairs → IsUnique (handle_all m es).pairs
  handle_all-IsUnique m es u =
      handle_all-Keeps (λ m. IsUnique m.pairs) (λ w. Unit)
        (λ m i p w o s. insert-IsUnique i p m.pairs s) m es (any_write es) u

  save-IsStored :
      (m : PairsManager) (pairs : Dict PairInfo) (w : Writing)
      → w ≡ written
      → IsStored (save_to_disk m pairs w)
  unfolding load_from_disk
  save-IsStored m pairs w o = rw o refl

  -- A save in full makes the file what is in memory, whatever it was before.
  update-IsStored :
      (m : PairsManager) (i : String) (qualified : Bool) (now : Num)
      → has i m.pairs ≡ true
      → IsStored (update_pair_qualification m i qualified now written)
  unfolding update_pair_qualification
  update-IsStored m i qualified now h = elim (Option-cases (lookup i m.pairs)) [
    | inl e ↦ absurd (ground arith)
    | inr (p, e) ↦ rw (e, update_pair_qualification) (save-IsStored m _ written refl)
  ]

  handle_all-IsStored :
      (m : PairsManager) (es : List Event)
      → All (Writes (λ w. w ≡ written)) es
      → IsStored m
      → IsStored (handle_all m es)
  handle_all-IsStored m es o s =
      handle_all-Keeps IsStored (λ w. w ≡ written) (λ m i p w o s. save-IsStored m _ w o) m es o s

  -- Whatever additions, removals, checks and initialisations a manager went through, and whichever of
  -- their writes failed: once the check of a pair that it has was written in full, and no write failed
  -- after that, a new manager over the file left behind has the same pairs as the old one. The old one
  -- has each name once, if the file at first has.
  pub new_pairs_manager-handle_all :
      (file : Option (Dict PairInfo)) (interval interval' : Num) (most most' : ℕ)
      (before after : List Event) (i : String) (qualified : Bool) (now : Num)
      → IsUnique (load_from_disk file)
      → let m = handle_all (new_pairs_manager file interval most) before in
        has i m.pairs ≡ true
        → All (Writes (λ w. w ≡ written)) after
        → let m' = handle_all (update_pair_qualification m i qualified now written) after in
          ((new_pairs_manager m'.storage_file interval' most').pairs ≡ m'.pairs) × IsUnique m'.pairs
  unfolding new_pairs_manager
  new_pairs_manager-handle_all file interval interval' most most' before after i qualified now u h
        o =
      let m = handle_all (new_pairs_manager file interval most) before in
      let checked = update_pair_qualification m i qualified now written in
      (
        handle_all-IsStored checked after o (update-IsStored m i qualified now h),
        handle_all-IsUnique checked after (
            update-Keeps (λ m. IsUnique m.pairs) (λ w. Unit)
              (λ m i p w o s. insert-IsUnique i p m.pairs s) m i qualified now written tt
              (handle_all-IsUnique (new_pairs_manager file interval most) before u)),
      )
