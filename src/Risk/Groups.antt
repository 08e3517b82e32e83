-- ===== src/Risk/Groups.antt =====
-- The lists of instruments by base currency in risk_manager.py.
use mathlib.Core.Path.{subst, ap}
use oanda_trader.Base.{
  Bool-cases, inl, inr, contains, ◌≤◌, ◌≡◌, refl, Bool, false, ◌||◌, List, [], ◌∷◌, ◌++◌, length,
  arith, if◌then◌else◌, String, Dict, lookup, insert, erase, has, same_text, keys,
}
use oanda_trader.Base.Dicts.{lookup-insert, lookup-erase, same_text_refl, same_text_sound, IsUnique}
use oanda_trader.Risk.{group, remove_first, base_currency}

pub group-insert :
    (k j : String) (g : List String) (m : Dict (List String))
    → group j (insert k g m) ≡ (if same_text k j then g else group j m)
unfolding group
group-insert k j g m = ground (arith, lookup-insert k j g m)

pub length-remove_first-le :
    (a : String) (xs : List String) → length (remove_first a xs) ≤ length xs
unfolding remove_first
length-remove_first-le a [] = omega arith
length-remove_first-le a (x ∷ xs) = ground (arith, length-remove_first-le a xs)

-- An item put behind a list without it is what `remove` takes.
pub remove_first-append_self :
    (a : String) (xs : List String) → contains a xs ≡ false → remove_first a (xs ++ (a ∷ [])) ≡ xs
unfolding remove_first contains
remove_first-append_self a [] h = rw (same_text_refl a)
remove_first-append_self a (x ∷ xs) h = ground (arith, remove_first-append_self a xs)

pub erase-insert_absent {ℓ} :
    {V : Type ℓ} (k : String) (v : V) (m : Dict V) → has k m ≡ false → erase k (insert k v m) ≡ m
unfolding lookup insert erase
erase-insert_absent k v [] h = rw (same_text_refl k)
erase-insert_absent k v ((j, w) ∷ m) h = ground (arith, erase-insert_absent k v m)

pub group-nil_lem : (k : String) → group k [] ≡ []
unfolding group lookup
group-nil_lem k = refl

pub has-nil {ℓ} : (V : Type ℓ) (i : String) (b : Bool) → (has {V = V} i [] || b) ≡ b
unfolding lookup
has-nil V i b = refl

-- The instruments with a given base currency, in order.
unfoldable pub with_base : String → List String → List String
with_base k [] = []
with_base k (i ∷ is) = if same_text (base_currency i) k then i ∷ with_base k is else with_base k is

pub with_base-nil : (k : String) → with_base k [] ≡ []
unfolding with_base
with_base-nil k = refl

pub with_base-append :
    (k : String) (xs : List String) (i : String)
    → with_base k (xs ++ (i ∷ []))
      ≡ (if same_text (base_currency i) k then with_base k xs ++ (i ∷ []) else with_base k xs)
unfolding with_base
with_base-append k [] i = refl
with_base-append k (x ∷ xs) i = ground (arith, with_base-append k xs i)

pub keys-insert_fresh {ℓ} :
    {V : Type ℓ} (i : String) (v : V) (m : Dict V)
    → has i m ≡ false
    → keys (insert i v m) ≡ keys m ++ (i ∷ [])
unfolding insert lookup
keys-insert_fresh i v [] h = refl
keys-insert_fresh i v ((j, w) ∷ m) h = ground (arith, keys-insert_fresh i v m)

-- A key is among those of its base currency only if it is there.
pub contains-with_base {ℓ} :
    {V : Type ℓ} (i k : String) (m : Dict V)
    → has i m ≡ false
    → contains i (with_base k (keys m)) ≡ false
unfolding contains with_base lookup
contains-with_base i k [] h = refl
contains-with_base i k ((j, w) ∷ m) h = ground (arith, contains-with_base i k m)

erase-absent {ℓ} : {V : Type ℓ} (i : String) (m : Dict V) → has i m ≡ false → erase i m ≡ m
unfolding erase lookup
erase-absent i [] h = refl
erase-absent i ((j, w) ∷ m) h = ground (arith, erase-absent i m)

-- Without a key, the keys of its own currency are those that `remove` leaves, and the keys of any
-- other currency are as before.
pub with_base-erase {ℓ} :
    {V : Type ℓ} (i k : String) (m : Dict V)
    → IsUnique m
    → with_base k (keys (erase i m)) ≡ (
        if same_text (base_currency i) k
        then remove_first i (with_base k (keys m))
        else with_base k (keys m))
unfolding with_base erase remove_first
with_base-erase i k [] u = ground arith
with_base-erase i k ((j, w) ∷ m) (h, u) = elim (Bool-cases (same_text j i)) [
  | inl e ↦
      let same : j ≡ i = same_text_sound j i e in
      ground (arith, erase-absent i m (subst (λ a. has a m ≡ false) same h), ap base_currency same)
  | inr e ↦ ground (arith, with_base-erase i k m u)
]

pub erase-IsUnique {ℓ} : {V : Type ℓ} (i : String) (m : Dict V) → IsUnique m → IsUnique (erase i m)
unfolding erase
erase-IsUnique i [] u = tt
erase-IsUnique i ((j, w) ∷ m) (h, u) = ground (arith, erase-IsUnique i m u, lookup-erase i j m)
