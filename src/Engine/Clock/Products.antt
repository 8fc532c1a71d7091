-- ===== src/Engine/Clock/Products.antt =====
-- The cross products of two clock deltas.
use native.Mathlib.Nat.{mul-le-mul}
use libre_wave.Common.{
  ℕ, ◌*◌, ◌^◌, ◌≤◌, ◌<◌, ◌≡◌, ◌≢◌, refl, Bool, true, false, Option, none, some, Result, ok, err,
  ensure, arith, inl, inr, Bool-cases, ◌>>=◌, ◌==◌,
}
use libre_wave.Common.Bytes.{usize_mod}
use libre_wave.Engine.Clock.{
  Floats, ClockObservation, ClockDeltaBounds, ClockRateEstimatorConfig, ClockRateSide,
  ClockRateEstimatorError, ObservationPair, ClockRateEstimator, ClockDelta, cross_product_overflow,
  validate_progress, validate_skew, checked_delta, cross_clock_epoch,
}
use libre_wave.Engine.Clock.Preview.{
  check_epoch, check_latest, enough_evidence, checked_ratio, remeasured, since_anchor, preview,
}
use libre_wave.Engine.Clock.Accepts.{checked_delta-Ahead}

-- A chain has no error that its steps do not have.
>>=-ne-err :
    {E A B : Type 0} (r : Result E A) (next : A → Result E B) (e : E)
    → r ≢ err e
    → ((a : A) → r ≡ ok a → next a ≢ err e)
    → (r >>= next) ≢ err e
>>=-ne-err (ok a) next e first rest = rest a refl
>>=-ne-err (err f) next e first rest = λ same. first (ground arith)

ensure-ne-err : {E : Type 0} (test : Bool) (f e : E) → f ≢ e → ensure test f ≢ err e
ensure-ne-err true f e other = λ same. cc
ensure-ne-err false f e other = λ same. other cc

product_small : (a b : ℕ) → a < 2 ^ 64 → b < 2 ^ 64 → a * b < 2 ^ 128
product_small a b ha hb =
    let ha' : a ≤ 18446744073709551615 = omega arith in
    let hb' : b ≤ 18446744073709551615 = omega arith in
    let top : a * b ≤ 18446744073709551615 * 18446744073709551615 = mul-le-mul ha' hb' in
    omega (arith, top)

-- The numbers of an observation are `u64`.
abbrev pub IsU64 : ClockObservation → Type 0
IsU64 o = (o.frame_position < usize_mod) × (o.monotonic_time < usize_mod)

module _ {F : Type 0} (floats : Floats F) where
  abbrev overflow : ClockRateEstimatorError F
  overflow = cross_product_overflow

  checked_ratio-ne :
      (config : ClockRateEstimatorConfig F) (i o : ClockDelta)
      → i.frames < usize_mod
      → i.nanoseconds < usize_mod
      → o.frames < usize_mod
      → o.nanoseconds < usize_mod
      → checked_ratio floats config i o ≢ err overflow
  unfolding checked_ratio
  checked_ratio-ne config i o a b c d h =
      ground
        (arith, product_small o.frames i.nanoseconds c b, product_small i.frames o.nanoseconds a d)

  validate_progress-ne :
      (side : ClockRateSide) (p a : ClockObservation)
      → validate_progress {F = F} side p a ≢ err overflow
  unfolding validate_progress
  validate_progress-ne side p a h = ground arith

  checked_delta-ne :
      (side : ClockRateSide) (p a : ClockObservation) (bounds : ClockDeltaBounds)
      → checked_delta {F = F} side p a bounds ≢ err overflow
  unfolding checked_delta
  checked_delta-ne side p a bounds =
      >>=-ne-err (validate_progress side p a) _ overflow (validate_progress-ne side p a)
        λ u progress h. ground arith

  check_latest-ne :
      (latest : Option ObservationPair) (pair : ObservationPair)
      → check_latest {F = F} latest pair ≢ err overflow
  unfolding check_latest
  check_latest-ne none pair = λ h. cc
  check_latest-ne (some latest) pair =
      >>=-ne-err (validate_progress ClockRateSide.input latest.input pair.input) _ overflow
        (validate_progress-ne ClockRateSide.input latest.input pair.input)
        λ u progress. validate_progress-ne ClockRateSide.output latest.output pair.output

  check_epoch-ne : (known : Option ℕ) (epoch : ℕ) → check_epoch {F = F} known epoch ≢ err overflow
  unfolding check_epoch
  check_epoch-ne known epoch h = ground arith

  validate_skew-ne :
      (config : ClockRateEstimatorConfig F) (i o : ClockObservation)
      → validate_skew config i o ≢ err overflow
  unfolding validate_skew
  validate_skew-ne config i o h = ground arith

  remeasured-ne :
      (config : ClockRateEstimatorConfig F) (pair : ObservationPair) (i o : ClockDelta)
      → checked_ratio floats config i o ≢ err overflow
      → remeasured floats config pair i o ≢ err overflow
  unfolding remeasured
  remeasured-ne config pair i o ratio =
      >>=-ne-err (checked_ratio floats config i o) _ overflow ratio λ r e h. cc

  since_anchor-ne :
      (e : ClockRateEstimator F) (pair : ObservationPair) (anchor : Option ObservationPair)
      → IsU64 pair.input
      → IsU64 pair.output
      → since_anchor floats e pair anchor ≢ err overflow
  unfolding since_anchor
  since_anchor-ne e pair none wide_in wide_out = λ h. cc
  since_anchor-ne e pair (some anchor) wide_in wide_out =
      >>=-ne-err (checked_delta ClockRateSide.input anchor.input pair.input e.config.input) _
        overflow (checked_delta-ne ClockRateSide.input anchor.input pair.input e.config.input)
        λ i delta_in.
          >>=-ne-err (checked_delta ClockRateSide.output anchor.output pair.output e.config.output)
            _ overflow
            (checked_delta-ne ClockRateSide.output anchor.output pair.output e.config.output)
            λ o delta_out h.
              let facts_in =
                checked_delta-Ahead floats _ anchor.input pair.input e.config.input i delta_in in
              let facts_out =
                checked_delta-Ahead floats _ anchor.output pair.output e.config.output o
                  delta_out in
              let never = remeasured-ne e.config pair i o (
                checked_ratio-ne e.config i o (omega (arith, facts_in.1))
                  (omega (arith, facts_in.2)) (omega (arith, facts_out.1))
                  (omega (arith, facts_out.2))) in
              elim (Bool-cases (enough_evidence e.config i o)) [
                | inl enough ↦ never (ground arith)
                | inr little ↦ absurd (ground arith)
              ]

  -- If the numbers of the two observations are `u64`, the cross products fit a `u128`, so `preview` never
  -- fails with `CrossProductOverflow`, whatever the history.
  pub preview_no_overflow :
      (e : ClockRateEstimator F) (i o : ClockObservation)
      → IsU64 i
      → IsU64 o
      → preview floats e i o ≢ err overflow
  unfolding preview
  preview_no_overflow e i o wide_in wide_out =
      >>=-ne-err (ensure (i.epoch == o.epoch) (cross_clock_epoch i.epoch o.epoch)) _ overflow
        (ensure-ne-err (i.epoch == o.epoch) (cross_clock_epoch i.epoch o.epoch) overflow (λ h. cc))
        λ u1 h1.
          >>=-ne-err (check_epoch e.epoch i.epoch) _ overflow (check_epoch-ne e.epoch i.epoch)
            λ u2 h2.
              >>=-ne-err (validate_skew e.config i o) _ overflow (validate_skew-ne e.config i o)
                λ u3 h3.
                  >>=-ne-err (check_latest e.latest (record { input = i; output = o })) _ overflow
                    (check_latest-ne e.latest (record { input = i; output = o }))
                    λ u4 h4.
                      since_anchor-ne e (record { input = i; output = o }) e.anchor wide_in wide_out
