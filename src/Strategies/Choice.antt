-- ===== src/Strategies/Choice.antt =====
-- The choice of a strategy by name in strategies.py.
use oanda_trader.Base.{
  ◌≡◌, refl, sym, Bool, true, false, Option, none, some, List, arith, is_some, if◌then◌else◌,
  String, same_text, Float, dec, nought, one,
}
use oanda_trader.Base.Dicts.{same_text_sound}
use oanda_trader.Base.NumberLaws.{≼_refl}
use oanda_trader.Timeframe.{Signal}
use oanda_trader.Strategies.{
  Candle, Library, Reading, advanced_scalp, get_signal, get_signal_with_confidence,
}
use oanda_trader.Strategies.Confidence.{IsRated, advanced_scalp-IsRated, part_le-one}

module _ ⦃F : Float⦄ where
  IsRated-by_default :
      (o : Option Signal)
      → IsRated
          (record { signal = o; confidence = if is_some o then one else nought; atr = nought })
  IsRated-by_default none = refl
  IsRated-by_default (some s) = (part_le-one 3 (ground arith), ≼_refl one)

  choice_lem :
      (b : Bool) (r : Reading) (o : Option Signal)
      → (b ≡ true → r.signal ≡ o)
      → IsRated r
      → let q : Reading = if b then r else record {
        signal = o;
        confidence = if is_some o then one else nought;
        atr = nought;
      } in
        (q.signal ≡ o) × IsRated q
  choice_lem true r o h k = (h refl, k)
  choice_lem false r o h k = (refl, IsRated-by_default o)

  module _ (lib : Library) (df : List Candle) where
    get_signal_advanced :
        (strategy : String)
        → same_text strategy "advanced_scalp" ≡ true
        → get_signal lib df strategy ≡ (advanced_scalp lib df 14 20 (dec 12 1)).signal
    unfolding get_signal
    get_signal_advanced strategy h = rw (same_text_sound strategy "advanced_scalp" h) refl

    -- For every strategy's name, the signal with a confidence is the signal without, and its
    -- confidence is 0 where there is none, and between three tenths and 1 where there is one.
    pub get_signal_with_confidence_lem :
        (strategy : String)
        → let r = get_signal_with_confidence lib df strategy in
          (r.signal ≡ get_signal lib df strategy) × IsRated r
    unfolding get_signal_with_confidence
    get_signal_with_confidence_lem strategy =
        choice_lem (same_text strategy "advanced_scalp") (advanced_scalp lib df 14 20 (dec 12 1))
          (get_signal lib df strategy) (λ h. sym (get_signal_advanced strategy h))
          (advanced_scalp-IsRated lib df 14 20 (dec 12 1))
