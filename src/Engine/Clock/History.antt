-- ===== src/Engine/Clock/History.antt =====
-- What a committed history of the estimator says.
use libre_wave.Common.{ℕ, ◌≤◌, ◌≡◌, ◌∙◌, sym, inl, inr, refl, Option, none, some, ok, arith}
use libre_wave.Engine.Clock.{
  Floats, ClockObservation, ClockRateEstimatorConfig, ObservationPair, ClockRateEstimator,
  ClockRateEstimatorStep, new,
}
use libre_wave.Engine.Clock.Preview.{preview, commit, reset}
use libre_wave.Engine.Clock.Accepts.{IsUsable, Accepted, preview-Accepted}

-- The same, or later.
abbrev pub NotBehind : ClockObservation → ClockObservation → Type 0
NotBehind previous actual =
    (previous.frame_position ≤ actual.frame_position)
    × (previous.monotonic_time ≤ actual.monotonic_time)

abbrev pub OfEpoch : ℕ → ObservationPair → Type 0
OfEpoch epoch pair = (pair.input.epoch ≡ epoch) × (pair.output.epoch ≡ epoch)

module _ {F : Type 0} (floats : Floats F) where
  abbrev Fits :
      ClockRateEstimatorConfig F
      → Option ℕ
      → Option ObservationPair
      → Option ObservationPair
      → Option F
      → Type 0
  Fits config none none none none = Unit
  Fits config (some epoch) (some anchor) (some latest) ratio =
      OfEpoch epoch anchor
      × OfEpoch epoch latest
      × NotBehind anchor.input latest.input
      × NotBehind anchor.output latest.output
      × IsUsable floats config ratio
  Fits config _ _ _ _ = ⊥

  -- No history at all, or a history of one attempt, whose anchor is not ahead of its latest pair and whose
  -- ratio is within the policy.
  abbrev pub IsHistory : ClockRateEstimator F → Type 0
  IsHistory e = Fits e.config e.epoch e.anchor e.latest e.ratio

  Fits-anchor :
      (config : ClockRateEstimatorConfig F) (known : Option ℕ)
      (anchor latest : Option ObservationPair) (ratio : Option F) (a : ObservationPair)
      → Fits config known anchor latest ratio
      → anchor ≡ some a
      → (epoch : ℕ) × (known ≡ some epoch) × OfEpoch epoch a
  Fits-anchor config none none none none a f h = cc
  Fits-anchor config (some n) (some b) (some l) ratio a f h =
      let same : b ≡ a = cc in (n, refl, rw (← same) f.0)
  Fits-anchor config none none none (some r) a f h = absurd f
  Fits-anchor config none none (some l) ratio a f h = absurd f
  Fits-anchor config none (some b) latest ratio a f h = absurd f
  Fits-anchor config (some n) none latest ratio a f h = absurd f
  Fits-anchor config (some n) (some b) none ratio a f h = absurd f

  Fits-IsUsable :
      (config : ClockRateEstimatorConfig F) (known : Option ℕ)
      (anchor latest : Option ObservationPair) (ratio : Option F)
      → Fits config known anchor latest ratio
      → IsUsable floats config ratio
  Fits-IsUsable config none none none none f = tt
  Fits-IsUsable config (some n) (some b) (some l) ratio f = f.4
  Fits-IsUsable config none none none (some r) f = absurd f
  Fits-IsUsable config none none (some l) ratio f = absurd f
  Fits-IsUsable config none (some b) latest ratio f = absurd f
  Fits-IsUsable config (some n) none latest ratio f = absurd f
  Fits-IsUsable config (some n) (some b) none ratio f = absurd f

  -- The anchor of the step belongs to the attempt, and is not ahead.
  anchored :
      (e : ClockRateEstimator F) (pair : ObservationPair) (step : ClockRateEstimatorStep F)
      → IsHistory e
      → Accepted floats e pair step
      → OfEpoch pair.input.epoch step.anchor
        × NotBehind step.anchor.input pair.input
        × NotBehind step.anchor.output pair.output
  anchored e pair step history is = elim is.stepped.anchor_of [
    | inl same ↦
        rw same ((refl, sym is.one_epoch), (omega arith, omega arith), (omega arith, omega arith))
    | inr (old, ahead_in, ahead_out) ↦
        let (epoch, known, of) =
          Fits-anchor e.config e.epoch e.anchor e.latest e.ratio step.anchor history old in
        let same = is.same_epoch epoch known in
        (
          (of.0 ∙ sym same, of.1 ∙ sym same),
          (omega (arith, ahead_in.0), omega (arith, ahead_in.1)),
          (omega (arith, ahead_out.0), omega (arith, ahead_out.1)),
        )
  ]

  commit-IsHistory :
      (e : ClockRateEstimator F) (pair : ObservationPair) (step : ClockRateEstimatorStep F)
      → IsHistory e
      → Accepted floats e pair step
      → IsHistory (commit step e)
  unfolding commit
  commit-IsHistory e pair step history is =
      let (of, front, back) = anchored e pair step history is in
      rw (is.stepped.epoch_of, is.stepped.latest_of)
        (
          of,
          (refl, sym is.one_epoch),
          front,
          back,
          is.stepped.usable (Fits-IsUsable e.config e.epoch e.anchor e.latest e.ratio history),
        )

  -- The estimators that previews, commits and resets lead to.
  pub data Reach (config : ClockRateEstimatorConfig F) : ClockRateEstimator F → Type 0 where
    begin : Reach config (new config)
    observed :
        {e : ClockRateEstimator F} (i o : ClockObservation) (step : ClockRateEstimatorStep F)
        → Reach config e
        → preview floats e i o ≡ ok step
        → Reach config (commit step e)
    cleared : {e : ClockRateEstimator F} → Reach config e → Reach config (reset e)

  -- Every estimator that previews, commits and resets lead to has either no history, or the history of one
  -- attempt epoch, whose anchor is not ahead of its latest pair in frames or time on either side, and
  -- whose ratio, if there is one, is finite, positive and within the caller's bounds.
  pub Reach-IsHistory :
      {config : ClockRateEstimatorConfig F} {e : ClockRateEstimator F}
      → Reach config e
      → IsHistory e
  unfolding new reset
  Reach-IsHistory begin = tt
  Reach-IsHistory (observed {e} i o step path h) =
      commit-IsHistory e (record { input = i; output = o }) step (Reach-IsHistory path)
        (preview-Accepted floats e i o step h)
  Reach-IsHistory (cleared path) = tt
