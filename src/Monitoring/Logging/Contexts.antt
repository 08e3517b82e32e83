-- ===== src/Monitoring/Logging/Contexts.antt =====
-- The context of `StructuredLogger` of monitoring.py over runs.
use oanda_trader.Base.{
  ◌≡◌, refl, ap, false, Option, none, some, List, [], ◌∷◌, arith, Option-cases, Bool-cases, inl,
  inr, All, String, Dict, lookup, has, insert, same_text,
}
use oanda_trader.Base.Dicts.{IsUnique, insert-IsUnique, lookup-insert, same_text_sound}
use oanda_trader.Monitoring.Logging.{
  StructuredLogger, new_logger, update, set_context, clear_context, all_context,
}

-- What a later dictionary says of a key, and else an earlier one.
abbrev pub or_else : Option String → Option String → Option String
or_else none o = o
or_else (some v) o = some v

absent : (k : String) (d : Dict String) → has k d ≡ false → lookup k d ≡ none
absent k d h = elim (Option-cases (lookup k d)) [
  | inl e ↦ e
  | inr (v, e) ↦ absurd (ground (arith, e))
]

lookup-update :
    (k : String) (d kwargs : Dict String)
    → IsUnique kwargs
    → lookup k (update d kwargs) ≡ or_else (lookup k kwargs) (lookup k d)
unfolding update lookup
lookup-update k d [] u = refl
lookup-update k d ((j, v) ∷ kwargs) (h, u) =
    let later = lookup-update k (insert j v d) kwargs u in
    let written = lookup-insert j k v d in
    elim (Bool-cases (same_text j k)) [
      | inl e ↦
          rw (later, written, e)
            (ap (λ o. or_else o (some v)) (absent k kwargs (rw (← same_text_sound j k e) h)))
      | inr e ↦ rw (later, written, e) refl
    ]

update-IsUnique : (d kwargs : Dict String) → IsUnique d → IsUnique (update d kwargs)
unfolding update
update-IsUnique d [] u = u
update-IsUnique d ((k, v) ∷ kwargs) u =
    update-IsUnique (insert k v d) kwargs (insert-IsUnique k v d u)

-- What happens to the context of a logger.
pub data Event : Type 0 where
  sets : Dict String → Event
  clears : Event

unfoldable pub handle : StructuredLogger → Event → StructuredLogger
handle l (sets kwargs) = set_context l kwargs
handle l clears = clear_context l

unfoldable pub handle_all : StructuredLogger → List Event → StructuredLogger
handle_all l [] = l
handle_all l (e ∷ es) = handle_all (handle l e) es

-- The keywords of a call have different names.
abbrev pub HasNames : Event → Type 0
HasNames (sets kwargs) = IsUnique kwargs
HasNames clears = Unit

-- The value that a key was last set to since the last clearing, and before that `o`.
unfoldable pub last_set : String → Option String → List Event → Option String
last_set k o [] = o
last_set k o (sets kwargs ∷ es) = last_set k (or_else (lookup k kwargs) o) es
last_set k o (clears ∷ es) = last_set k none es

lookup-handle_all :
    (k : String) (l : StructuredLogger) (es : List Event)
    → All HasNames es
    → lookup k (handle_all l es).context ≡ last_set k (lookup k l.context) es
unfolding handle_all handle last_set set_context clear_context lookup
lookup-handle_all k l [] u = refl
lookup-handle_all k l (sets kwargs ∷ es) (u, us) =
    rw (← lookup-update k l.context kwargs u) (lookup-handle_all k (set_context l kwargs) es us)
lookup-handle_all k l (clears ∷ es) (u, us) = lookup-handle_all k (clear_context l) es us

handle_all-IsUnique :
    (l : StructuredLogger) (es : List Event)
    → IsUnique l.context
    → IsUnique (handle_all l es).context
unfolding handle_all handle set_context clear_context
handle_all-IsUnique l [] u = u
handle_all-IsUnique l (sets kwargs ∷ es) u =
    handle_all-IsUnique (set_context l kwargs) es (update-IsUnique l.context kwargs u)
handle_all-IsUnique l (clears ∷ es) u = handle_all-IsUnique (clear_context l) es tt

-- After any settings and clearings of a new logger's context, whose calls name each keyword once,
-- the dictionary that a message shows has each key once; a key of the call has the value of the
-- call, and any other key the value that it was last set to since the last clearing, if there is
-- one.
pub all_context-handle_all :
    (name k : String) (es : List Event) (kwargs : Dict String)
    → All HasNames es
    → IsUnique kwargs
    → let shown = all_context (handle_all (new_logger name) es) kwargs in
      IsUnique shown × (lookup k shown ≡ or_else (lookup k kwargs) (last_set k none es))
unfolding all_context lookup
all_context-handle_all name k es kwargs us u =
    let l = handle_all (new_logger name) es in
    let context = l.context in
    (
      update-IsUnique context kwargs (handle_all-IsUnique (new_logger name) es tt),
      rw (lookup-update k context kwargs u, lookup-handle_all k (new_logger name) es us) refl,
    )
