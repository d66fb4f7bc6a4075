-- ===== src/ThirdPass/PolicyLaws.antt =====
-- When `evaluate_validation_policy` allows the third pass.
use vocabulary_micro.Prelude.{
  ◌≡◌, inl, inr, Bool, true, false, ◌&&◌, ◌||◌, not, Option, none, some, List, [], ◌∷◌, arith, ltb,
  if◌then◌else◌, Bool-cases, is_empty, any, fold, IsWeakOrder, nat_equality, list_equality,
  pair_equality,
}
use vocabulary_micro.Text.{Text}
use vocabulary_micro.TextProcessor.Tokens.{Occurrence}
use vocabulary_micro.ThirdPass.{
  is_trf_signal, is_suspicious, safe_float, Signals, count_signal, no_signals, judge_signals,
  listed, evaluate_validation_policy,
}

-- The item is an occurrence from the semantic pass for which the test holds.
abbrev pub signal_with : (Occurrence → Bool) → Option Occurrence → Bool
signal_with p none = false
signal_with p (some o) = is_trf_signal o && p o

module _ {Score : Type 0} (less : Score → Score → Bool) (zero_score : Score)
    (order : IsWeakOrder less) (to_float : Text → Option Score) (threshold : Score) where
  abbrev pub exceeds : Occurrence → Bool
  exceeds o = less threshold (safe_float less zero_score to_float o.score)

  above_max :
      (m c : Score)
      → less threshold (if less m c then c else m) ≡ (less threshold m || less threshold c)
  above_max m c =
      ground
        (arith, order.negative threshold c m, order.negative threshold m c, order.asymmetric m c)

  count_signal-exceeds :
      (s : Signals Score) (o : Option Occurrence)
      → less threshold (count_signal less zero_score to_float s o).max_confidence
        ≡ (less threshold s.max_confidence || signal_with exceeds o)
  unfolding count_signal
  count_signal-exceeds s none = ground arith
  count_signal-exceeds s (some o) = elim (Bool-cases (is_trf_signal o)) [
    | inl e ↦ rw e (above_max s.max_confidence (safe_float less zero_score to_float o.score))
    | inr e ↦ rw e (ground arith)
  ]

  count_signal-suspicious :
      (s : Signals Score) (o : Option Occurrence)
      → ltb 0 (count_signal less zero_score to_float s o).suspicious_count
        ≡ (ltb 0 s.suspicious_count || signal_with is_suspicious o)
  unfolding count_signal
  count_signal-suspicious s none = ground arith
  count_signal-suspicious s (some o) = ground arith

  count_signal-counts :
      (s : Signals Score) (o : Option Occurrence)
      → ltb 0 (count_signal less zero_score to_float s o).signal_count
        ≡ (ltb 0 s.signal_count || signal_with (λ o. true) o)
  unfolding count_signal
  count_signal-counts s none = ground arith
  count_signal-counts s (some o) = ground arith

  fold-signals :
      (os : List (Option Occurrence)) (s : Signals Score)
      → (less threshold (fold (count_signal less zero_score to_float) s os).max_confidence
          ≡ (less threshold s.max_confidence || any (signal_with exceeds) os))
        × (ltb 0 (fold (count_signal less zero_score to_float) s os).suspicious_count
            ≡ (ltb 0 s.suspicious_count || any (signal_with is_suspicious) os))
        × (ltb 0 (fold (count_signal less zero_score to_float) s os).signal_count
            ≡ (ltb 0 s.signal_count || any (signal_with (λ o. true)) os))
  unfolding fold
  fold-signals [] s = (ground arith, ground arith, ground arith)
  fold-signals (o ∷ os) s =
      let rest = fold-signals os (count_signal less zero_score to_float s o) in
      (
        ground (arith, rest.0, count_signal-exceeds s o),
        ground (arith, rest.1, count_signal-suspicious s o),
        ground (arith, rest.2, count_signal-counts s o),
      )

  -- For scores in a weak order and a threshold that is not negative: the third pass is allowed
  -- exactly if it and the second pass are requested and the second pass has no occurrences, or none
  -- of its semantic occurrences is above the threshold, and one of them is suspicious or there is
  -- none.
  pub evaluate_validation_policy_iff :
      (third second : Bool) (os : Option (List (Option Occurrence)))
      → less threshold zero_score ≡ false
      → (evaluate_validation_policy less zero_score to_float threshold third second os).allowed ≡ (
          third
          && (second
              && (is_empty (listed os)
                  || not (any (signal_with exceeds) (listed os))
                    && (any (signal_with is_suspicious) (listed os)
                        || not (any (signal_with (λ o. true)) (listed os))))))
  unfolding evaluate_validation_policy judge_signals
  evaluate_validation_policy_iff third second os h =
      ground (arith, h, fold-signals (listed os) (no_signals less zero_score))
