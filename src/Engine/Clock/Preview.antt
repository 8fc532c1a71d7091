-- ===== src/Engine/Clock/Preview.antt =====
-- crates/librewave-engine/src/rate_estimation.rs: `preview`, which changes nothing, and `commit`.
use libre_wave.Common.{
  ℕ, Bool, true, false, not, ◌||◌, ◌&&◌, ◌==◌, leb, if◌then◌else◌, Option, none, some, Result, ok,
  ◌>>=◌, ensure, ok_or,
}
use libre_wave.Engine.Clock.{
  Floats, ClockObservation, ClockRateEstimatorConfig, ClockRateSide, ClockRateEstimate, priming,
  measured, ClockRateEstimatorError, cross_clock_epoch, attempt_epoch_changed,
  cross_product_overflow, invalid_ratio, ratio_outside_bounds, ObservationPair, ClockRateEstimator,
  ClockRateEstimatorStep, ClockDelta, checked_mul, validate_skew, validate_progress, checked_delta,
}

module _ {F : Type 0} where
  -- `if let Some(expected) = self.epoch && expected != input.epoch`
  unfoldable pub check_epoch : Option ℕ → ℕ → Result (ClockRateEstimatorError F) (Unit {0})
  check_epoch none actual = ok tt
  check_epoch (some expected) actual =
      ensure (expected == actual) (attempt_epoch_changed expected actual)

  -- `if let Some(latest) = self.latest`
  unfoldable pub check_latest :
      Option ObservationPair → ObservationPair → Result (ClockRateEstimatorError F) (Unit {0})
  unfolding validate_progress
  check_latest none pair = ok tt
  check_latest (some latest) pair = do
    _ ← validate_progress ClockRateSide.input latest.input pair.input
    validate_progress ClockRateSide.output latest.output pair.output

  unfoldable pub enough_evidence : ClockRateEstimatorConfig F → ClockDelta → ClockDelta → Bool
  enough_evidence config delta_in delta_out =
      leb config.input.minimum_frames delta_in.frames
      && (leb config.input.minimum_nanoseconds delta_in.nanoseconds
          && (leb config.output.minimum_frames delta_out.frames
              && leb config.output.minimum_nanoseconds delta_out.nanoseconds))

  -- The estimate while there is too little evidence: `map_or` on the ratio so far.
  unfoldable pub kept_estimate : Option F → ClockRateEstimate F
  kept_estimate none = priming
  kept_estimate (some ratio) = measured ratio false

  unfoldable pub first_pair : ObservationPair → ClockRateEstimatorStep F
  first_pair pair = record {
    epoch = pair.input.epoch;
    anchor = pair;
    latest = pair;
    ratio = none;
    estimate = priming;
  }

module _ {F : Type 0} (floats : Floats F) where
  -- The ratio of two deltas, checked.
  unfoldable pub checked_ratio :
      ClockRateEstimatorConfig F → ClockDelta → ClockDelta → Result (ClockRateEstimatorError F) F
  checked_ratio config delta_in delta_out = do
    numerator ← ok_or (checked_mul delta_out.frames delta_in.nanoseconds) cross_product_overflow
    denominator ← ok_or (checked_mul delta_in.frames delta_out.nanoseconds) cross_product_overflow
    let ratio = floats.quotient numerator denominator
    _ ← ensure (floats.is_finite ratio && floats.is_positive ratio) (invalid_ratio ratio)
    _ ←
        ensure
          (not (
            floats.is_less ratio config.ratio_bounds.minimum
            || floats.is_less config.ratio_bounds.maximum ratio))
          (ratio_outside_bounds ratio config.ratio_bounds.minimum config.ratio_bounds.maximum
            delta_in.frames delta_in.nanoseconds delta_out.frames delta_out.nanoseconds)
    ok ratio

  -- The update once there is enough evidence.
  unfoldable pub remeasured :
      ClockRateEstimatorConfig F
      → ObservationPair
      → ClockDelta
      → ClockDelta
      → Result (ClockRateEstimatorError F) (ClockRateEstimatorStep F)
  unfolding checked_ratio
  remeasured config pair delta_in delta_out = do
    ratio ← checked_ratio config delta_in delta_out
    ok (record {
      epoch = pair.input.epoch;
      anchor = pair;
      latest = pair;
      ratio = some ratio;
      estimate = measured ratio true;
    })

  -- `preview` behind the checks of the pair
  unfoldable pub since_anchor :
      ClockRateEstimator F
      → ObservationPair
      → Option ObservationPair
      → Result (ClockRateEstimatorError F) (ClockRateEstimatorStep F)
  unfolding checked_delta enough_evidence remeasured kept_estimate first_pair
  since_anchor estimator pair none = ok (first_pair pair)
  since_anchor estimator pair (some anchor) = do
    delta_in ← checked_delta ClockRateSide.input anchor.input pair.input estimator.config.input
    delta_out ← checked_delta ClockRateSide.output anchor.output pair.output estimator.config.output
    let update = remeasured estimator.config pair delta_in delta_out
    if enough_evidence estimator.config delta_in delta_out
        then update
        else ok (record {
          epoch = pair.input.epoch;
          anchor = anchor;
          latest = pair;
          ratio = estimator.ratio;
          estimate = kept_estimate estimator.ratio;
        })

  unfoldable pub preview :
      ClockRateEstimator F
      → ClockObservation
      → ClockObservation
      → Result (ClockRateEstimatorError F) (ClockRateEstimatorStep F)
  unfolding check_epoch validate_skew check_latest since_anchor
  preview estimator observed_in observed_out = do
    _ ←
        ensure (observed_in.epoch == observed_out.epoch)
          (cross_clock_epoch observed_in.epoch observed_out.epoch)
    _ ← check_epoch estimator.epoch observed_in.epoch
    _ ← validate_skew estimator.config observed_in observed_out
    _ ← check_latest estimator.latest (record { input = observed_in; output = observed_out })
    since_anchor estimator (record { input = observed_in; output = observed_out }) estimator.anchor

module _ {F : Type 0} where
  unfoldable pub commit : ClockRateEstimatorStep F → ClockRateEstimator F → ClockRateEstimator F
  commit step estimator = record estimator {
    epoch = some step.epoch;
    anchor = some step.anchor;
    latest = some step.latest;
    ratio = step.ratio;
  }

  unfoldable pub reset : ClockRateEstimator F → ClockRateEstimator F
  reset estimator = record estimator { epoch = none; anchor = none; latest = none; ratio = none }
