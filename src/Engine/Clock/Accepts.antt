-- ===== src/Engine/Clock/Accepts.antt =====
-- What is known of a pair that `preview` accepts, and of the step that it makes.
use libre_wave.Common.{
  subst, ◌==◌, ℕ, ◌-◌, ◌*◌, ◌≤◌, ◌<◌, ◌≡◌, refl, true, false, Option, none, some, ok, ensure, arith,
  ◌⊎◌, inl, inr, Bool-cases, >>=-eq-ok,
}
use libre_wave.Engine.Clock.{
  Floats, ClockObservation, ClockDeltaBounds, ClockRateEstimatorConfig, ClockRateSide,
  ObservationPair, ClockRateEstimator, ClockRateEstimatorStep, ClockDelta, cross_clock_epoch,
  measured, validate_progress, validate_skew, checked_delta,
}
use libre_wave.Engine.Clock.Preview.{
  check_epoch, check_latest, enough_evidence, kept_estimate, first_pair, checked_ratio, remeasured,
  since_anchor, preview,
}

-- Later in both frames and time.
abbrev pub Ahead : ClockObservation → ClockObservation → Type 0
Ahead previous actual =
    (previous.frame_position < actual.frame_position)
    × (previous.monotonic_time < actual.monotonic_time)

module _ {F : Type 0} (floats : Floats F) where
  -- A ratio that passed the checks of the caller's policy.
  abbrev pub IsUsable : ClockRateEstimatorConfig F → Option F → Type 0
  IsUsable config none = Unit
  IsUsable config (some ratio) =
      (floats.is_finite ratio ≡ true)
      × (floats.is_positive ratio ≡ true)
      × (floats.is_less ratio config.ratio_bounds.minimum ≡ false)
      × (floats.is_less config.ratio_bounds.maximum ratio ≡ false)

  validate_progress-Ahead :
      (side : ClockRateSide) (p a : ClockObservation) {u : Unit {0}}
      → validate_progress {F = F} side p a ≡ ok u
      → Ahead p a
  unfolding validate_progress
  validate_progress-Ahead side p a h = ground arith

  pub checked_delta-Ahead :
      (side : ClockRateSide) (p a : ClockObservation) (bounds : ClockDeltaBounds) (d : ClockDelta)
      → checked_delta {F = F} side p a bounds ≡ ok d
      → Ahead p a
        × (d.frames ≡ a.frame_position - p.frame_position)
        × (d.nanoseconds ≡ a.monotonic_time - p.monotonic_time)
        × (d.frames ≤ bounds.maximum_frames)
        × (d.nanoseconds ≤ bounds.maximum_nanoseconds)
  unfolding checked_delta validate_progress
  checked_delta-Ahead side p a bounds d h = ground arith

  checked_ratio-IsUsable :
      (config : ClockRateEstimatorConfig F) (i o : ClockDelta) (ratio : F)
      → checked_ratio floats config i o ≡ ok ratio
      → IsUsable config (some ratio)
        × (ratio ≡ floats.quotient (o.frames * i.nanoseconds) (i.frames * o.nanoseconds))
  unfolding checked_ratio
  checked_ratio-IsUsable config i o ratio h = ground arith

  check_latest-Ahead :
      (latest pair : ObservationPair) {u : Unit {0}}
      → check_latest {F = F} (some latest) pair ≡ ok u
      → Ahead latest.input pair.input × Ahead latest.output pair.output
  unfolding check_latest
  check_latest-Ahead latest pair h =
      let (u, first, second) =
        >>=-eq-ok (validate_progress ClockRateSide.input latest.input pair.input) _ h in
      (
        validate_progress-Ahead ClockRateSide.input latest.input pair.input first,
        validate_progress-Ahead ClockRateSide.output latest.output pair.output second,
      )

  -- What a candidate step is made of.
  pub record Stepped (e : ClockRateEstimator F) (pair : ObservationPair)
      (anchor : Option ObservationPair) (step : ClockRateEstimatorStep F) : Type 0 where
    pub epoch_of : step.epoch ≡ pair.input.epoch
    pub latest_of : step.latest ≡ pair
    pub anchor_of :
        (step.anchor ≡ pair)
        ⊎ ((anchor ≡ some step.anchor)
            × Ahead step.anchor.input pair.input
            × Ahead step.anchor.output pair.output)
    pub usable : IsUsable e.config e.ratio → IsUsable e.config step.ratio

  abbrev updated_step : ObservationPair → F → ClockRateEstimatorStep F
  updated_step pair ratio = record {
    epoch = pair.input.epoch;
    anchor = pair;
    latest = pair;
    ratio = some ratio;
    estimate = measured ratio true;
  }

  abbrev kept_step :
      ClockRateEstimator F → ObservationPair → ObservationPair → ClockRateEstimatorStep F
  kept_step e pair anchor = record {
    epoch = pair.input.epoch;
    anchor = anchor;
    latest = pair;
    ratio = e.ratio;
    estimate = kept_estimate e.ratio;
  }

  first_pair-Stepped :
      (e : ClockRateEstimator F) (pair : ObservationPair) → Stepped e pair none (first_pair pair)
  unfolding first_pair
  first_pair-Stepped e pair = record {
    epoch_of = refl;
    latest_of = refl;
    anchor_of = inl refl;
    usable = λ u. tt;
  }

  remeasured-Stepped :
      (e : ClockRateEstimator F) (pair : ObservationPair) (anchor : Option ObservationPair)
      (i o : ClockDelta) (step : ClockRateEstimatorStep F)
      → remeasured floats e.config pair i o ≡ ok step
      → Stepped e pair anchor step
  unfolding remeasured
  remeasured-Stepped e pair anchor i o step h =
      let (ratio, good, rest) = >>=-eq-ok (checked_ratio floats e.config i o) _ h in
      let same : updated_step pair ratio ≡ step = cc in
      rw (← same) (record {
        epoch_of = refl;
        latest_of = refl;
        anchor_of = inl refl;
        usable = λ u. (checked_ratio-IsUsable e.config i o ratio good).0;
      })

  since_anchor-Stepped :
      (e : ClockRateEstimator F) (pair : ObservationPair) (anchor : Option ObservationPair)
      (step : ClockRateEstimatorStep F)
      → since_anchor floats e pair anchor ≡ ok step
      → Stepped e pair anchor step
  unfolding since_anchor
  since_anchor-Stepped e pair none step h =
      let same : first_pair pair ≡ step = cc in rw (← same) (first_pair-Stepped e pair)
  since_anchor-Stepped e pair (some anchor) step h =
      let (i, delta_in, more) =
        >>=-eq-ok (checked_delta ClockRateSide.input anchor.input pair.input e.config.input) _ h in
      let (o, delta_out, rest) =
        >>=-eq-ok (checked_delta ClockRateSide.output anchor.output pair.output e.config.output) _
          more in
      elim (Bool-cases (enough_evidence e.config i o)) [
        | inl enough ↦ remeasured-Stepped e pair (some anchor) i o step (ground arith)
        | inr little ↦
            let same : kept_step e pair anchor ≡ step = ground arith in
            rw (← same) (record {
              epoch_of = refl;
              latest_of = refl;
              anchor_of = inr (
                refl,
                (checked_delta-Ahead _ anchor.input pair.input e.config.input i delta_in).0,
                (checked_delta-Ahead _ anchor.output pair.output e.config.output o delta_out).0,
              );
              usable = λ u. u;
            })
      ]

  check_epoch-same :
      (known : Option ℕ) (epoch actual : ℕ) {u : Unit {0}}
      → known ≡ some epoch
      → check_epoch {F = F} known actual ≡ ok u
      → actual ≡ epoch
  unfolding check_epoch
  check_epoch-same known epoch actual k h = ground arith

  -- What is known of a pair that `preview` accepts.
  pub record Accepted (e : ClockRateEstimator F) (pair : ObservationPair)
      (step : ClockRateEstimatorStep F) : Type 0 where
    pub one_epoch : pair.input.epoch ≡ pair.output.epoch
    pub same_epoch : (epoch : ℕ) → e.epoch ≡ some epoch → pair.input.epoch ≡ epoch
    pub ahead :
        (latest : ObservationPair)
        → e.latest ≡ some latest
        → Ahead latest.input pair.input × Ahead latest.output pair.output
    pub stepped : Stepped e pair e.anchor step

  pub preview-Accepted :
      (e : ClockRateEstimator F) (i o : ClockObservation) (step : ClockRateEstimatorStep F)
      → preview floats e i o ≡ ok step
      → Accepted e (record { input = i; output = o }) step
  unfolding preview
  preview-Accepted e i o step h =
      let (u1, epochs, h1) =
        >>=-eq-ok (ensure (i.epoch == o.epoch) (cross_clock_epoch i.epoch o.epoch)) _ h in
      let (u2, known, h2) = >>=-eq-ok (check_epoch e.epoch i.epoch) _ h1 in
      let (u3, near, h3) = >>=-eq-ok (validate_skew e.config i o) _ h2 in
      let (u4, later, h4) =
        >>=-eq-ok (check_latest e.latest (record { input = i; output = o })) _ h3 in
      record {
        one_epoch = ground arith;
        same_epoch = λ epoch k. check_epoch-same e.epoch epoch i.epoch k known;
        ahead = λ latest k.
            check_latest-Ahead latest (record { input = i; output = o })
              (subst (λ l. check_latest {F = F} l (record { input = i; output = o }) ≡ ok tt) k
                later);
        stepped = since_anchor-Stepped e (record { input = i; output = o }) e.anchor step h4;
      }
