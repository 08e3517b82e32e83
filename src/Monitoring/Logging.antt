-- ===== src/Monitoring/Logging.antt =====
-- monitoring.py: the class `StructuredLogger`. A value of the context is the text that Python formats
-- it as. What a call hands to the logger of the library logging is the result; `none` is the
-- `TypeError` for a keyword that is given twice.
use oanda_trader.Base.{
  ◌≡◌, refl, Bool, true, false, Option, none, some, List, [], ◌∷◌, arith, Option-cases, Bool-cases,
  inl, inr, All, if◌then◌else◌, String, Dict, lookup, has, insert, keys, same_text, ap,
}
use Prim.Native.String.{◌++◌ as ◌<>◌}
use oanda_trader.Base.Dicts.{IsUnique, insert-IsUnique, lookup-insert, same_text_sound}
pub mod Contexts

pub data Level : Type 0 where
  debug info warning error critical : Level

-- A record for the library: its level and its text.
pub record Entry : Type 0 where
  pub level : Level
  pub text : String

pub record StructuredLogger : Type 0 where
  pub name : String
  pub context : Dict String

abbrev pub new_logger : String → StructuredLogger
new_logger name = record { name = name; context = [] }

-- `d.update(kwargs)`
unfoldable pub update : Dict String → Dict String → Dict String
update d [] = d
update d ((k, v) ∷ kwargs) = update (insert k v d) kwargs

unfoldable pub set_context : StructuredLogger → Dict String → StructuredLogger
unfolding update
set_context l kwargs = record l { context = update l.context kwargs }

unfoldable pub clear_context : StructuredLogger → StructuredLogger
clear_context l = record l { context = [] }

-- `{**self.context, **kwargs}`
unfoldable pub all_context : StructuredLogger → Dict String → Dict String
unfolding update
all_context l kwargs = update l.context kwargs

-- `' '.join([f"{k}={v}" …])`
unfoldable pub context_str : Dict String → String
context_str [] = ""
context_str ((k, v) ∷ []) = k <> "=" <> v
context_str ((k, v) ∷ e ∷ d) = k <> "=" <> v <> " " <> context_str (e ∷ d)

abbrev pub with_context : String → Dict String → String
with_context message [] = message
with_context message (e ∷ d) = message <> " | " <> context_str (e ∷ d)

unfoldable pub format_message : StructuredLogger → String → Dict String → String
unfolding all_context context_str
format_message l message kwargs = with_context message (all_context l kwargs)

-- A keyword that has the name of a parameter is given twice.
unfoldable pub clashes : List String → Dict String → Bool
clashes [] kwargs = false
clashes (p ∷ parameters) kwargs = if has p kwargs then true else clashes parameters kwargs

-- The methods `debug` to `critical`.
unfoldable pub log : StructuredLogger → Level → String → Dict String → Option Entry
unfolding format_message clashes
log l level message kwargs =
    if clashes ("self" ∷ "message" ∷ []) kwargs
    then none
    else some (record { level = level; text = format_message l message kwargs })

-- A call of a method with keywords of its own, and further ones, `details`, that its caller gives.
abbrev pub log_with :
    StructuredLogger → List String → Level → String → Dict String → Dict String → Option Entry
log_with l parameters level message own details =
    if clashes parameters details
    then none
    else (if clashes (keys own) details then none else log l level message (update own details))

-- `three` formats with three digits after the point.
unfoldable pub log_trade_decision {ℓ} :
    {N : Type ℓ}
    → (N → String)
    → StructuredLogger
    → String
    → String
    → N
    → String
    → String
    → Option Entry
unfolding log
log_trade_decision three l instrument signal confidence action reason =
    log l info ("Trade Decision: " <> action) (
      ("instrument", instrument)
      ∷ ("signal", signal)
      ∷ ("confidence", three confidence)
      ∷ ("reason", reason)
      ∷ [])

unfoldable pub log_order_result :
    StructuredLogger → String → String → String → Dict String → Option Entry
unfolding log clashes update
log_order_result l instrument order_type result details =
    log_with l ("self" ∷ "instrument" ∷ "order_type" ∷ "result" ∷ []) info
      ("Order Result: " <> result) (("instrument", instrument) ∷ ("order_type", order_type) ∷ [])
      details

unfoldable pub log_risk_check :
    StructuredLogger → String → Bool → String → Dict String → Option Entry
unfolding log clashes update
log_risk_check l check_type passed reason details =
    log_with l ("self" ∷ "check_type" ∷ "passed" ∷ "reason" ∷ []) (if passed then info else warning)
      ("Risk Check: " <> check_type <> " - " <> (if passed then "PASSED" else "FAILED"))
      (("reason", reason) ∷ []) details

unfoldable pub log_api_error : StructuredLogger → String → String → String → Option Entry
unfolding log
log_api_error l endpoint error_text retry_count =
    log l error ("API Error: " <> endpoint)
      (("error", error_text) ∷ ("retry_count", retry_count) ∷ [])

unfoldable pub log_validation_error :
    StructuredLogger → String → String → Dict String → Option Entry
unfolding log clashes update
log_validation_error l validation_type error_message details =
    log_with l ("self" ∷ "validation_type" ∷ "error_message" ∷ []) warning
      ("Validation Failed: " <> validation_type) (("error", error_message) ∷ []) details
