-- ===== src/Engine/Config.antt =====
-- crates/librewave-engine/src/config.rs: the layout of a mixer, checked when it is made.
pub mod Valid
use libre_wave.Common.{
  ℕ, suc, ◌*◌, ◌^◌, List, [], ◌∷◌, Bool, true, false, ◌||◌, ◌==◌, ltb, if◌then◌else◌, Option, none,
  some, Result, ok, err, ◌>>=◌, ensure, ok_or, not, length, set, take, replicate, any, position,
}
use libre_wave.Common.Bytes.{usize_mod}
use libre_wave.Core.Meters.{max_mixer_sources}

-- A source identity is the number that it wraps.
pub record MixerConfig : Type 0 where
  pub max_frames : ℕ
  pub microphone_source : ℕ
  pub microphone_index : ℕ
  pub sources : List ℕ
  pub source_count : ℕ

pub data ConfigError : Type 0 where
  zero_max_frames frame_sample_count_overflow : ConfigError
  source_count : (actual : ℕ) → ConfigError
  duplicate_source microphone_source_missing : (source : ℕ) → ConfigError

abbrev pub max_sources : ℕ
max_sources = max_mixer_sources

abbrev pub channels : ℕ
channels = 2

-- The loop that fills the array `configured` and looks for each source among those before it.
unfoldable pub configure : List ℕ → ℕ → List ℕ → List ℕ → Result ConfigError (List ℕ)
configure all index configured [] = ok configured
configure all index configured (source ∷ rest) =
    let more = configure all (suc index) (set configured index source) rest in
    if any (λ s. s == source) (take index all) then err (duplicate_source source) else more

unfoldable pub try_new : ℕ → ℕ → List ℕ → Result ConfigError MixerConfig
unfolding configure
try_new max_frames microphone_source sources = do
  _ ← ensure (not (max_frames == 0)) zero_max_frames
  _ ← ensure (ltb (max_frames * channels) usize_mod) frame_sample_count_overflow
  _ ←
      ensure (not ((length sources == 0) || ltb max_sources (length sources)))
        (ConfigError.source_count (length sources))
  configured ← configure sources 0 (replicate max_sources 0) sources
  microphone_index ←
      ok_or (position (λ s. s == microphone_source) sources)
        (microphone_source_missing microphone_source)
  ok (record {
    max_frames = max_frames;
    microphone_source = microphone_source;
    microphone_index = microphone_index;
    sources = configured;
    source_count = length sources;
  })

-- `MixerConfig::sources`, the part of the array that is in use
abbrev pub sources_of : MixerConfig → List ℕ
sources_of config = take config.source_count config.sources

unfoldable pub source_index : MixerConfig → ℕ → Option ℕ
source_index config source = position (λ configured. configured == source) (sources_of config)
