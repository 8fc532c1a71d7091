-- ===== src/Core/Meters.antt =====
-- crates/librewave-core/src/meters.rs: a frame of meter levels, and its admission from the wire.
pub mod Admitted
use libre_wave.Common.{
  ℕ, List, [], ◌∷◌, Bool, not, ◌||◌, ◌==◌, ltb, length, any, Result, ok, ◌>>=◌, ◌>>◌, ensure,
}

pub record StereoLevels : Type 0 where
  pub peak_left : ℕ
  pub peak_right : ℕ
  pub rms_left : ℕ
  pub rms_right : ℕ

pub record SourceLevels : Type 0 where
  pub source : ℕ
  pub levels : StereoLevels

abbrev pub max_mixer_sources : ℕ
max_mixer_sources = 12

-- The array of the three outputs: microphone, monitor mix and stream mix.
pub record MeterFrame : Type 0 where
  pub sequence : ℕ
  pub sources : List SourceLevels
  pub outputs : StereoLevels × StereoLevels × StereoLevels

pub record FrameWire : Type 0 where
  pub sequence : ℕ
  pub sources : List SourceLevels
  pub outputs : StereoLevels × StereoLevels × StereoLevels

-- The two error texts.
pub data FrameError : Type 0 where
  sequence_or_count source_invalid : FrameError

abbrev pub has_source : SourceLevels → SourceLevels → Bool
has_source s previous = previous.source == s.source

-- The loop over the sources; `prior` holds the sources before, in some order.
unfoldable pub check_sources : List SourceLevels → List SourceLevels → Result FrameError (Unit {0})
check_sources prior [] = ok tt
check_sources prior (s ∷ rest) = do
  ensure (not (s.source == 0 || any (has_source s) prior)) source_invalid
  check_sources (s ∷ prior) rest

-- `MeterFrame::try_from`
unfoldable pub try_from : FrameWire → Result FrameError MeterFrame
unfolding check_sources
try_from wire = do
  ensure
      (not (
        wire.sequence == 0
        || length wire.sources == 0
        || ltb max_mixer_sources (length wire.sources)))
      sequence_or_count
  check_sources [] wire.sources
  ok (record { sequence = wire.sequence; sources = wire.sources; outputs = wire.outputs })
