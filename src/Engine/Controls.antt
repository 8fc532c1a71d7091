-- ===== src/Engine/Controls.antt =====
-- crates/librewave-engine/src/transfer.rs: a set of source controls is compiled into the snapshot that the
-- audio thread mixes with. A coefficient has any type `R`; its power of ten is a parameter.
pub mod Complete
use libre_wave.Common.{
  ℕ, List, [], ◌∷◌, Bool, true, false, not, ◌==◌, if◌then◌else◌, Option, none, some, Result, ok,
  err, ◌>>=◌, ensure, length, get_or, set, replicate,
}
use libre_wave.Core.Mixer.{
  FaderGain, MixRoute, SourceControls, OutputControls, output_route, monitor, stream,
}
use libre_wave.Engine.Config.{MixerConfig, max_sources, sources_of, source_index}

pub data ControlMappingError : Type 0 where
  control_count : (expected actual : ℕ) → ControlMappingError
  unknown_source duplicate_source : (source : ℕ) → ControlMappingError

pub data StageError : Type 0 where
  controls : ControlMappingError → StageError
  full : StageError

pub record RuntimeRoute (R : Type 0) : Type 0 where
  pub coefficient : R

pub record ControlSnapshot (R : Type 0) : Type 0 where
  pub monitor : List (RuntimeRoute R)
  pub stream : List (RuntimeRoute R)
  pub outputs : List (RuntimeRoute R)

module _ {R : Type 0} (silence : R) (power : FaderGain → R) where
  abbrev pub no_route : RuntimeRoute R
  no_route = record { coefficient = silence }

  abbrev pub empty_snapshot : ControlSnapshot R
  empty_snapshot = record {
    monitor = replicate max_sources no_route;
    stream = replicate max_sources no_route;
    outputs = replicate 2 no_route;
  }

  abbrev pub compile_route : MixRoute → RuntimeRoute R
  compile_route route = record {
    coefficient = if route.enabled then power route.fader else silence;
  }

  -- The assignments of the loop body.
  abbrev pub put_source : ControlSnapshot R → ℕ → SourceControls → ControlSnapshot R
  put_source snapshot index c = record snapshot {
    monitor = set snapshot.monitor index (compile_route c.monitor);
    stream = set snapshot.stream index (compile_route c.stream);
  }

  -- The loop over the controls, with `present` and the snapshot so far.
  unfoldable pub put_sources :
      MixerConfig
      → List Bool
      → ControlSnapshot R
      → List SourceControls
      → Result ControlMappingError (ControlSnapshot R)
  put_sources config present snapshot [] = ok snapshot
  put_sources config present snapshot (c ∷ rest) = elim (source_index config c.source) [
    | none ↦ err (unknown_source c.source)
    | some index ↦ elim (get_or present index false) [
      | true ↦ err (duplicate_source c.source)
      | false ↦ put_sources config (set present index true) (put_source snapshot index c) rest
    ]
  ]

  unfoldable pub compile_snapshot :
      MixerConfig
      → List SourceControls
      → OutputControls
      → Result ControlMappingError (ControlSnapshot R)
  unfolding put_sources
  compile_snapshot config list outputs = do
    _ ←
        ensure (length list == length (sources_of config))
          (control_count (length (sources_of config)) (length list))
    put_sources config (replicate max_sources false)
        (record empty_snapshot {
          outputs =
              compile_route (output_route outputs monitor)
              ∷ compile_route (output_route outputs stream)
              ∷ [];
        })
        list
