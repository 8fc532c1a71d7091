-- ===== src/Engine/Tests.antt =====
-- The properties of crates/librewave-engine at concrete inputs.
use libre_wave.Common.{
  ℕ, ◌≡◌, ◌≢◌, ◌++◌, refl, List, [], ◌∷◌, true, false, none, some, ok, err, arith, length, map, All,
  Unique, ltb,
}
use libre_wave.Common.Int.{pos}
use libre_wave.Core.Mixer.{
  FaderGain, SourceControls, OutputControls, MixRoute, mix_route, source_controls,
}
use libre_wave.Engine.Handoff.{Slot, empty, reserve, write, commit, load, copy, new, run}
use libre_wave.Engine.Handoff.History.{IsCoherent, run-IsCoherent}
use libre_wave.Engine.Config.{MixerConfig, try_new, sources_of, source_index}
use libre_wave.Engine.Config.Valid.{IsLayout, try_new_lem}
use libre_wave.Engine.Staging.{control_channel, try_stage, take_controls}
use libre_wave.Engine.Staging.Served.{IsAtRest, try_stage_lem}
use libre_wave.Engine.Controls.{
  ControlMappingError, StageError, controls, ControlSnapshot, compile_route, compile_snapshot,
}
use libre_wave.Engine.Controls.Complete.{Holds, compile_snapshot_lem}
use libre_wave.Engine.Clock.{
  Floats, ClockObservation, ClockRateEstimatorConfig, ClockRateEstimator, ObservationPair,
  cross_product_overflow, new as new_estimator,
}
use libre_wave.Engine.Clock.Preview.{first_pair, preview, commit as commit_step}
use libre_wave.Engine.Clock.Products.{preview_no_overflow}
use libre_wave.Engine.Clock.History.{IsHistory, begin, observed, Reach-IsHistory}

abbrev same : ℕ → ℕ
same v = v

run-IsCoherent_example :
    IsCoherent (run same (reserve 5 ∷ write ∷ commit ∷ load ∷ reserve 6 ∷ copy ∷ []) (new 0))
run-IsCoherent_example =
    run-IsCoherent same (reserve 5 ∷ write ∷ commit ∷ load ∷ reserve 6 ∷ copy ∷ []) 0

try_new_lem_example :
    (IsLayout 512 1 (1 ∷ 2 ∷ [])
      → (config : MixerConfig) × (try_new 512 1 (1 ∷ 2 ∷ []) ≡ ok config)
        × (sources_of config ≡ 1 ∷ 2 ∷ []))
    × ((config : MixerConfig)
        → try_new 512 1 (1 ∷ 2 ∷ []) ≡ ok config
        → IsLayout 512 1 (1 ∷ 2 ∷ []))
try_new_lem_example = try_new_lem 512 1 (1 ∷ 2 ∷ [])

abbrev two_sources : MixerConfig
two_sources = record {
  max_frames = 512;
  microphone_source = 1;
  microphone_index = 0;
  sources = 1 ∷ 2 ∷ 0 ∷ 0 ∷ 0 ∷ 0 ∷ 0 ∷ 0 ∷ 0 ∷ 0 ∷ 0 ∷ 0 ∷ [];
  source_count = 2;
}

two_sources_made : try_new 512 1 (1 ∷ 2 ∷ []) ≡ ok two_sources
unfolding try_new
two_sources_made = refl

-- A coefficient is 0 or 1.
abbrev on : MixRoute
on = mix_route true (record { half_decibel_steps = pos 0 })

abbrev off : MixRoute
off = mix_route false (record { half_decibel_steps = pos 0 })

abbrev unity : FaderGain → ℕ
unity gain = 1

abbrev swapped : List SourceControls
swapped = source_controls 2 on off ∷ source_controls 1 off on ∷ []

abbrev both_on : OutputControls
both_on = record { monitor = on; stream = on }

abbrev silent : List ℕ
silent = 0 ∷ 0 ∷ 0 ∷ 0 ∷ 0 ∷ 0 ∷ 0 ∷ 0 ∷ 0 ∷ 0 ∷ []

abbrev mixed : ControlSnapshot ℕ
mixed = record {
  monitor = map (λ n. record { coefficient = n }) (0 ∷ 1 ∷ silent);
  stream = map (λ n. record { coefficient = n }) (1 ∷ 0 ∷ silent);
  outputs = record { coefficient = 1 } ∷ record { coefficient = 1 } ∷ [];
}

compile_snapshot_lem_example :
    (length swapped ≡ length (sources_of two_sources))
    × Unique (map (λ (c : SourceControls). c.source) swapped)
    × All (Holds 0 unity two_sources mixed) swapped
    × (mixed.outputs ≡ compile_route 0 unity on ∷ compile_route 0 unity on ∷ [])
unfolding compile_snapshot source_index
compile_snapshot_lem_example =
    compile_snapshot_lem 0 unity two_sources swapped both_on mixed (omega arith) refl

abbrev channel : Slot (ControlSnapshot ℕ)
channel = control_channel 0 unity

compiles : compile_snapshot 0 unity two_sources swapped both_on ≡ ok mixed
unfolding compile_snapshot source_index
compiles = refl

channel-IsAtRest : IsAtRest channel
unfolding control_channel new
channel-IsAtRest = record { producer_idle = refl; consumer_idle = refl }

try_stage_lem_example :
    ((e : ControlMappingError)
      → compile_snapshot 0 unity two_sources swapped both_on ≡ err e
      → try_stage 0 unity two_sources swapped both_on channel ≡ (err (controls e), channel))
    × ((a : ControlSnapshot ℕ)
        → compile_snapshot 0 unity two_sources swapped both_on ≡ ok a
        → channel.state ≢ empty
        → try_stage 0 unity two_sources swapped both_on channel ≡ (err StageError.full, channel))
    × ((a : ControlSnapshot ℕ)
        → compile_snapshot 0 unity two_sources swapped both_on ≡ ok a
        → IsAtRest channel
        → channel.state ≡ empty
        → ((try_stage 0 unity two_sources swapped both_on channel).0 ≡ ok tt)
          × ((take_controls (try_stage 0 unity two_sources swapped both_on channel).1).0 ≡ some a)
          × ((take_controls (try_stage 0 unity two_sources swapped both_on channel).1).1
              ≡ record channel {
                value = a;
                committed = channel.committed ++ (a ∷ []);
                taken = channel.taken ++ (a ∷ []);
              })
          × ((other : List SourceControls) (others : OutputControls) (b : ControlSnapshot ℕ)
              → compile_snapshot 0 unity two_sources other others ≡ ok b
              → try_stage 0 unity two_sources other others
                  (try_stage 0 unity two_sources swapped both_on channel).1
                ≡ (err StageError.full, (try_stage 0 unity two_sources swapped both_on channel).1)))
    × (IsAtRest channel → channel.state ≡ empty → take_controls channel ≡ (none, channel))
try_stage_lem_example = try_stage_lem 0 unity two_sources swapped both_on channel

-- So the audio thread is served the compiled controls.
mixed_is_served :
    (take_controls (try_stage 0 unity two_sources swapped both_on channel).1).0 ≡ some mixed
unfolding control_channel new
mixed_is_served =
    ((try_stage_lem 0 unity two_sources swapped both_on channel).2 mixed compiles channel-IsAtRest
      refl).1

-- The numbers stand for the floating-point numbers.
abbrev naturals : Floats ℕ
naturals = record {
  quotient = λ a b. a;
  is_finite = λ a. true;
  is_positive = λ a. true;
  is_less = ltb;
}

abbrev policy : ClockRateEstimatorConfig ℕ
policy = record {
  input = record {
    minimum_frames = 1;
    maximum_frames = 4096;
    minimum_nanoseconds = 1;
    maximum_nanoseconds = 1000000;
  };
  output = record {
    minimum_frames = 1;
    maximum_frames = 4096;
    minimum_nanoseconds = 1;
    maximum_nanoseconds = 1000000;
  };
  maximum_observation_skew_nanoseconds = 100;
  ratio_bounds = record { minimum = 0; maximum = 1000 };
}

abbrev seen_in : ClockObservation
seen_in = record { epoch = 1; frame_position = 480; monotonic_time = 10000 }

abbrev seen_out : ClockObservation
seen_out = record { epoch = 1; frame_position = 96; monotonic_time = 10050 }

abbrev first : ObservationPair
first = record { input = seen_in; output = seen_out }

abbrev primed : ClockRateEstimator ℕ
primed = record {
  config = policy;
  epoch = some 1;
  anchor = some first;
  latest = some first;
  ratio = none;
}

Reach-IsHistory_example : IsHistory naturals primed
unfolding new_estimator commit_step first_pair preview
Reach-IsHistory_example =
    Reach-IsHistory naturals {config = policy}
      (observed seen_in seen_out (first_pair first) begin refl)

preview_no_overflow_example : preview naturals primed seen_in seen_out ≢ err cross_product_overflow
preview_no_overflow_example =
    preview_no_overflow naturals primed seen_in seen_out (omega arith, omega arith)
      (omega arith, omega arith)
