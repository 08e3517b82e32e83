-- ===== src/Base/Dicts.antt =====
-- A Python dictionary keyed by texts, as an association list in insertion order: a write to a key
-- that is there replaces its value in place, and `del` drops the entries of the key.
use Prim.Native.Nat.{suc, ◌≤◌}
use Prim.Native.String.{String}
use mathlib.Core.Path.{◌≡◌, refl}
use mathlib.Core.Bool.{Bool, true, false}
use mathlib.Core.Option.{Option, none, some}
use mathlib.Core.List.{List, [], ◌∷◌, map}
use native.Mathlib.Omega.{arith}
use text.Mathlib.Text.{◌==◌ as str_eq}
use text.Mathlib.TextEquality.{eq_iff}
use text.Mathlib.TextPositions.{eq_refl}
use oanda_trader.Base.Tests.{if◌then◌else◌}
use oanda_trader.Base.Lists.{length}

abbrev pub same_text : String → String → Bool
same_text = str_eq

-- `a in xs`
unfoldable pub contains : String → List String → Bool
contains a [] = false
contains a (x ∷ xs) = if str_eq x a then true else contains a xs

abbrev pub Dict {ℓ} : Type ℓ → Type ℓ
Dict V = List (String × V)

abbrev pub is_some {ℓ} : {A : Type ℓ} → Option A → Bool
is_some none = false
is_some (some a) = true

module _ {ℓ} {V : Type ℓ} where
  unfoldable pub lookup : String → Dict V → Option V
  lookup k [] = none
  lookup k ((j, v) ∷ m) = if str_eq j k then some v else lookup k m

  -- `k in m`
  abbrev pub has : String → Dict V → Bool
  has k m = is_some (lookup k m)

  -- `m[k] = v`
  unfoldable pub insert : String → V → Dict V → Dict V
  insert k v [] = (k, v) ∷ []
  insert k v ((j, w) ∷ m) = if str_eq j k then (k, v) ∷ m else (j, w) ∷ insert k v m

  -- `del m[k]`
  unfoldable pub erase : String → Dict V → Dict V
  erase k [] = []
  erase k ((j, w) ∷ m) = if str_eq j k then erase k m else (j, w) ∷ erase k m

  abbrev pub values : Dict V → List V
  values = map (λ e. e.1)

  abbrev pub keys : Dict V → List String
  keys = map (λ e. e.0)

  pub lookup-insert :
      (written asked : String) (a : V) (d : Dict V)
      → lookup asked (insert written a d)
        ≡ (if str_eq written asked then some a else lookup asked d)
  unfolding insert lookup
  lookup-insert written asked a [] = refl
  lookup-insert written asked a ((i, b) ∷ d) = ground (
    arith,
    lookup-insert written asked a d,
    eq_iff i asked,
    eq_iff i written,
    eq_iff written asked,
  )

  pub lookup-erase :
      (k j : String) (m : Dict V) → lookup j (erase k m) ≡ (if str_eq k j then none else lookup j m)
  unfolding lookup erase
  lookup-erase k j [] = ground arith
  lookup-erase k j ((i, w) ∷ m) =
      ground (arith, eq_iff k j, eq_iff i k, eq_iff i j, lookup-erase k j m)

  pub length-insert :
      (k : String) (v : V) (m : Dict V)
      → length (insert k v m) ≡ (if has k m then length m else suc (length m))
  unfolding lookup insert
  length-insert k v [] = refl
  length-insert k v ((j, w) ∷ m) = ground (arith, length-insert k v m)

  pub length-erase-le : (k : String) (m : Dict V) → length (erase k m) ≤ length m
  unfolding erase
  length-erase-le k [] = omega arith
  length-erase-le k ((j, w) ∷ m) = ground (arith, length-erase-le k m)

  -- A present key leaves a shorter dictionary.
  pub length-erase-lt :
      (k : String) (m : Dict V) → has k m ≡ true → suc (length (erase k m)) ≤ length m
  unfolding erase lookup
  length-erase-lt k [] h = ground arith
  length-erase-lt k ((j, w) ∷ m) h = ground (arith, length-erase-le k m, length-erase-lt k m)

-- A dictionary has each key once.
abbrev pub IsUnique {ℓ} : {V : Type ℓ} → Dict V → Type 0
IsUnique [] = Unit
IsUnique ((k, v) ∷ m) = (has k m ≡ false) × IsUnique m

pub insert-IsUnique {ℓ} :
    {V : Type ℓ} (k : String) (v : V) (m : Dict V) → IsUnique m → IsUnique (insert k v m)
unfolding insert lookup
insert-IsUnique k v [] h = (refl, tt)
insert-IsUnique k v ((j, w) ∷ m) (h, u) =
    ground (arith, eq_iff j k, eq_iff k j, lookup-insert k j v m, insert-IsUnique k v m)

pub same_text_refl : (k : String) → same_text k k ≡ true
same_text_refl k = eq_refl k

pub same_text_sound : (j k : String) → same_text j k ≡ true → j ≡ k
same_text_sound j k h = (eq_iff j k).0 h
