-- ===== src/Engine/Clock.antt =====
-- crates/librewave-engine/src/rate_estimation.rs: the relative rate of two clocks, from pairs of frame
-- positions and times. The floating-point numbers `F` and what the code does with them are parameters.
pub mod Preview
pub mod Accepts
pub mod History
pub mod Products
use libre_wave.Common.{
  ℕ, ◌-◌, ◌*◌, ◌^◌, Bool, true, false, not, ◌||◌, ◌&&◌, ◌==◌, ltb, leb, if◌then◌else◌, Option, none,
  some, Result, ok, err, ◌>>=◌, ensure,
}

-- What the code uses of `f64`. `quotient` converts two `u128` and divides.
pub record Floats (F : Type 0) : Type 0 where
  pub quotient : ℕ → ℕ → F
  pub is_finite : F → Bool
  pub is_positive : F → Bool
  pub is_less : F → F → Bool

-- A nonzero epoch, a frame position and nanoseconds are the numbers that they wrap.
pub data ClockAttemptEpochError : Type 0 where
  zero_epoch : ClockAttemptEpochError

unfoldable pub try_new_epoch : ℕ → Result ClockAttemptEpochError ℕ
try_new_epoch value = if value == 0 then err zero_epoch else ok value

pub record ClockObservation : Type 0 where
  pub epoch : ℕ
  pub frame_position : ℕ
  pub monotonic_time : ℕ

pub record ClockDeltaBounds : Type 0 where
  pub minimum_frames : ℕ
  pub maximum_frames : ℕ
  pub minimum_nanoseconds : ℕ
  pub maximum_nanoseconds : ℕ

pub data ClockRateEstimatorConfigError : Type 0 where
  invalid_frame_delta_bounds : (minimum maximum : ℕ) → ClockRateEstimatorConfigError
  invalid_time_delta_bounds : (minimum maximum : ℕ) → ClockRateEstimatorConfigError

unfoldable pub try_new_bounds :
    ℕ → ℕ → ℕ → ℕ → Result ClockRateEstimatorConfigError ClockDeltaBounds
try_new_bounds minimum_frames maximum_frames minimum_nanoseconds maximum_nanoseconds = do
  _ ←
      ensure (not ((minimum_frames == 0) || ltb maximum_frames minimum_frames))
        (invalid_frame_delta_bounds minimum_frames maximum_frames)
  _ ←
      ensure (not ((minimum_nanoseconds == 0) || ltb maximum_nanoseconds minimum_nanoseconds))
        (invalid_time_delta_bounds minimum_nanoseconds maximum_nanoseconds)
  ok (record {
    minimum_frames = minimum_frames;
    maximum_frames = maximum_frames;
    minimum_nanoseconds = minimum_nanoseconds;
    maximum_nanoseconds = maximum_nanoseconds;
  })

pub record RateMatchRatioBounds (F : Type 0) : Type 0 where
  pub minimum : F
  pub maximum : F

pub record ClockRateEstimatorConfig (F : Type 0) : Type 0 where
  pub input : ClockDeltaBounds
  pub output : ClockDeltaBounds
  pub maximum_observation_skew_nanoseconds : ℕ
  pub ratio_bounds : RateMatchRatioBounds F

pub data ClockRateSide : Type 0 where
  input output : ClockRateSide

pub data ClockRateEstimate (F : Type 0) : Type 0 where
  priming : ClockRateEstimate F
  measured : (ratio : F) (updated : Bool) → ClockRateEstimate F

pub data ClockRateEstimatorError (F : Type 0) : Type 0 where
  cross_clock_epoch : (input output : ℕ) → ClockRateEstimatorError F
  attempt_epoch_changed : (expected actual : ℕ) → ClockRateEstimatorError F
  repeated_frame_position : (side : ClockRateSide) (position : ℕ) → ClockRateEstimatorError F
  frame_position_regression :
      (side : ClockRateSide) (previous actual : ℕ) → ClockRateEstimatorError F
  repeated_monotonic_time : (side : ClockRateSide) (time : ℕ) → ClockRateEstimatorError F
  monotonic_time_regression :
      (side : ClockRateSide) (previous actual : ℕ) → ClockRateEstimatorError F
  frame_delta_outside_bounds :
      (side : ClockRateSide) (actual maximum : ℕ) → ClockRateEstimatorError F
  time_delta_outside_bounds :
      (side : ClockRateSide) (actual maximum : ℕ) → ClockRateEstimatorError F
  observation_skew : (actual maximum : ℕ) → ClockRateEstimatorError F
  cross_product_overflow : ClockRateEstimatorError F
  invalid_ratio : (actual : F) → ClockRateEstimatorError F
  ratio_outside_bounds :
      (actual minimum maximum : F)
      (input_frames input_nanoseconds output_frames output_nanoseconds : ℕ)
      → ClockRateEstimatorError F

pub record ObservationPair : Type 0 where
  pub input : ClockObservation
  pub output : ClockObservation

pub record ClockRateEstimator (F : Type 0) : Type 0 where
  pub config : ClockRateEstimatorConfig F
  pub epoch : Option ℕ
  pub anchor : Option ObservationPair
  pub latest : Option ObservationPair
  pub ratio : Option F

-- The candidate without the estimator that it borrows.
pub record ClockRateEstimatorStep (F : Type 0) : Type 0 where
  pub epoch : ℕ
  pub anchor : ObservationPair
  pub latest : ObservationPair
  pub ratio : Option F
  pub estimate : ClockRateEstimate F

pub record ClockDelta : Type 0 where
  pub frames : ℕ
  pub nanoseconds : ℕ

-- `u64::abs_diff`
abbrev pub abs_diff : ℕ → ℕ → ℕ
abs_diff a b = if ltb a b then b - a else a - b

-- `u128::checked_mul`
abbrev pub checked_mul : ℕ → ℕ → Option ℕ
checked_mul a b = if ltb (a * b) (2 ^ 128) then some (a * b) else none

module _ {F : Type 0} where
  unfoldable pub new : ClockRateEstimatorConfig F → ClockRateEstimator F
  new config = record { config = config; epoch = none; anchor = none; latest = none; ratio = none }

  unfoldable pub validate_skew :
      ClockRateEstimatorConfig F
      → ClockObservation
      → ClockObservation
      → Result (ClockRateEstimatorError F) (Unit {0})
  validate_skew config observed_in observed_out =
      let actual = abs_diff observed_in.monotonic_time observed_out.monotonic_time in
      ensure (not (ltb config.maximum_observation_skew_nanoseconds actual))
        (observation_skew actual config.maximum_observation_skew_nanoseconds)

  unfoldable pub validate_progress :
      ClockRateSide
      → ClockObservation
      → ClockObservation
      → Result (ClockRateEstimatorError F) (Unit {0})
  validate_progress side previous actual = do
    _ ←
        ensure (not (actual.frame_position == previous.frame_position))
          (repeated_frame_position side actual.frame_position)
    _ ←
        ensure (not (ltb actual.frame_position previous.frame_position))
          (frame_position_regression side previous.frame_position actual.frame_position)
    _ ←
        ensure (not (actual.monotonic_time == previous.monotonic_time))
          (repeated_monotonic_time side actual.monotonic_time)
    ensure (not (ltb actual.monotonic_time previous.monotonic_time))
        (monotonic_time_regression side previous.monotonic_time actual.monotonic_time)

  -- The differences are not negative after `validate_progress`.
  unfoldable pub checked_delta :
      ClockRateSide
      → ClockObservation
      → ClockObservation
      → ClockDeltaBounds
      → Result (ClockRateEstimatorError F) ClockDelta
  unfolding validate_progress
  checked_delta side previous actual bounds = do
    _ ← validate_progress side previous actual
    let frames = actual.frame_position - previous.frame_position
    _ ←
        ensure (not (ltb bounds.maximum_frames frames))
          (frame_delta_outside_bounds side frames bounds.maximum_frames)
    let nanoseconds = actual.monotonic_time - previous.monotonic_time
    _ ←
        ensure (not (ltb bounds.maximum_nanoseconds nanoseconds))
          (time_delta_outside_bounds side nanoseconds bounds.maximum_nanoseconds)
    ok (record { frames = frames; nanoseconds = nanoseconds })
