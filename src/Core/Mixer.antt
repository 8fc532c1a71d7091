-- ===== src/Core/Mixer.antt =====
-- crates/librewave-core/src/mixer.rs: the mixer profile and its validation. A `SourceId` and a
-- `MixerGeneration` are the numbers that they wrap.
pub mod Edits
pub mod Defaults
pub mod Profile
pub mod Validation
pub mod Kept
pub mod Inputs
pub mod Reorder
pub mod FirstRun
pub mod Follows
pub mod Lookup
pub mod Removal
pub mod Capacity
pub mod History
use libre_wave.Common.{
  ℕ, ◌+◌, ◌^◌, List, [], ◌∷◌, Bool, true, false, Option, none, some, not, ◌&&◌, ◌||◌, ◌==◌, ltb,
  leb, if◌then◌else◌, holds, length, any, find, Result, ok, err, ◌>>=◌, ◌>>◌, ensure, ok_or,
}
use libre_wave.Common.Int.{ℤ, pos, negsuc, ltb_ℤ}
use libre_wave.Core.Meters.{max_mixer_sources}
use libre_wave.Core.InputName.{Text, Text-discrete, is_input_name}
use libre_wave.Core.Applications.{ApplicationAssignment, same_application}

pub record FaderGain : Type 0 where
  pub half_decibel_steps : ℤ

pub data FaderGainError : Type 0 where
  not_finite out_of_range not_half_decibel_step : FaderGainError

abbrev min_half_decibel_steps : ℤ
min_half_decibel_steps = negsuc 119

abbrev max_half_decibel_steps : ℤ
max_half_decibel_steps = pos 24

unfoldable pub from_half_decibel_steps : ℤ → Result FaderGainError FaderGain
from_half_decibel_steps steps = do
  ensure (not (ltb_ℤ steps min_half_decibel_steps || ltb_ℤ max_half_decibel_steps steps))
      out_of_range
  ok (record { half_decibel_steps = steps })

abbrev pub unity_gain : FaderGain
unity_gain = record { half_decibel_steps = pos 0 }

pub record MixRoute : Type 0 where
  pub enabled : Bool
  pub fader : FaderGain

abbrev pub mix_route : Bool → FaderGain → MixRoute
mix_route enabled fader = record { enabled = enabled; fader = fader }

pub record SourceControls : Type 0 where
  pub source : ℕ
  pub monitor : MixRoute
  pub stream : MixRoute

abbrev pub source_controls : ℕ → MixRoute → MixRoute → SourceControls
source_controls source monitor stream = record {
  source = source;
  monitor = monitor;
  stream = stream;
}

pub data MixTarget : Type 0 where
  monitor stream : MixTarget

-- `SourceControls::route` and `with_route`.
abbrev pub source_route : SourceControls → MixTarget → MixRoute
source_route controls monitor = controls.monitor
source_route controls stream = controls.stream

abbrev pub source_with_route : SourceControls → MixTarget → MixRoute → SourceControls
source_with_route controls monitor route = record controls { monitor = route }
source_with_route controls stream route = record controls { stream = route }

pub record OutputControls : Type 0 where
  pub monitor : MixRoute
  pub stream : MixRoute

-- `OutputControls::route` and `with_route`.
abbrev pub output_route : OutputControls → MixTarget → MixRoute
output_route outputs monitor = outputs.monitor
output_route outputs stream = outputs.stream

abbrev pub output_with_route : OutputControls → MixTarget → MixRoute → OutputControls
output_with_route outputs monitor route = record outputs { monitor = route }
output_with_route outputs stream route = record outputs { stream = route }

pub data SourceRole : Type 0 where
  microphone system software : SourceRole

unfoldable pub SourceRole-discrete : Discrete SourceRole
SourceRole-discrete = hlevel

abbrev pub same_role : SourceRole → SourceRole → Bool
same_role a b = holds (SourceRole-discrete a b)

pub record MixerSourceSnapshot : Type 0 where
  pub role : SourceRole
  pub name : Text
  pub controls : SourceControls

pub record MixerProfile : Type 0 where
  pub generation : ℕ
  pub next_source_id : ℕ
  pub assignments : List ApplicationAssignment
  pub microphone_source : ℕ
  pub sources : List MixerSourceSnapshot
  pub outputs : OutputControls

pub data MixerProfileError : Type 0 where
  bad_microphone_source source_id_exhausted invalid_order invalid_assignment : MixerProfileError
  source_count : (actual : ℕ) → MixerProfileError
  source_identity : (id : ℕ) → MixerProfileError
  unknown_source : (id : ℕ) → MixerProfileError
  generation_exhausted : MixerProfileError

abbrev pub microphone_source_id : ℕ
microphone_source_id = 1

abbrev pub system_source_id : ℕ
system_source_id = 2

abbrev pub max_assignments : ℕ
max_assignments = 128

-- "Microphone"
abbrev pub microphone_name : Text
microphone_name = 77 ∷ 105 ∷ 99 ∷ 114 ∷ 111 ∷ 112 ∷ 104 ∷ 111 ∷ 110 ∷ 101 ∷ []

-- "System"
abbrev pub system_name : Text
system_name = 83 ∷ 121 ∷ 115 ∷ 116 ∷ 101 ∷ 109 ∷ []

pub record ProductSource : Type 0 where
  pub id : ℕ
  pub role : SourceRole
  pub name : Text

abbrev pub product_sources : List ProductSource
product_sources =
    record { id = microphone_source_id; role = microphone; name = microphone_name }
    ∷ record { id = system_source_id; role = system; name = system_name }
    ∷ []

abbrev pub source_id : MixerSourceSnapshot → ℕ
source_id s = s.controls.source

abbrev pub is_source : ℕ → MixerSourceSnapshot → Bool
is_source id s = source_id s == id

-- `MixerProfile::source`
abbrev pub source_of : List MixerSourceSnapshot → ℕ → Option MixerSourceSnapshot
source_of sources id = find (is_source id) sources

unfoldable pub validate_source :
    MixerSourceSnapshot → ProductSource → Result MixerProfileError (Unit {0})
unfolding SourceRole-discrete Text-discrete
validate_source source expected =
    ensure
      (not (
        not (source_id source == expected.id)
        || not (same_role source.role expected.role)
        || not (holds (Text-discrete source.name expected.name))))
      (source_identity expected.id)

unfoldable pub validate_product :
    List MixerSourceSnapshot → List ProductSource → Result MixerProfileError (Unit {0})
unfolding validate_source
validate_product sources [] = ok tt
validate_product sources (expected ∷ rest) = do
  source ← ok_or (source_of sources expected.id) (unknown_source expected.id)
  validate_source source expected
  validate_product sources rest

abbrev pub bad_source : ℕ → List MixerSourceSnapshot → MixerSourceSnapshot → Bool
bad_source next_source_id prior s =
    source_id s == 0
    || leb next_source_id (source_id s)
    || any (is_source (source_id s)) prior
    || (leb 3 (source_id s) && (not (same_role s.role software) || not (is_input_name s.name)))

-- The loop over the sources; `prior` holds the sources before, in some order.
unfoldable pub validate_sources :
    ℕ → List MixerSourceSnapshot → List MixerSourceSnapshot → Result MixerProfileError (Unit {0})
validate_sources next_source_id prior [] = ok tt
validate_sources next_source_id prior (s ∷ rest) = do
  ensure (not (bad_source next_source_id prior s)) (source_identity (source_id s))
  validate_sources next_source_id (s ∷ prior) rest

-- `.is_none_or(|source| source.role == SourceRole::Microphone)`
abbrev pub no_destination : Option MixerSourceSnapshot → Bool
no_destination none = true
no_destination (some s) = same_role s.role microphone

abbrev pub is_rule_of : ApplicationAssignment → ApplicationAssignment → Bool
is_rule_of rule prior = same_application prior.application rule.application

unfoldable pub any_bad_rule :
    List MixerSourceSnapshot → List ApplicationAssignment → List ApplicationAssignment → Bool
any_bad_rule sources prior [] = false
any_bad_rule sources prior (rule ∷ rest) =
    (no_destination (source_of sources rule.source) || any (is_rule_of rule) prior)
    || any_bad_rule sources (rule ∷ prior) rest

unfoldable pub validate : MixerProfile → Result MixerProfileError (Unit {0})
unfolding validate_product validate_sources any_bad_rule
validate p = do
  ensure (p.microphone_source == microphone_source_id) bad_microphone_source
  ensure
      (leb (length product_sources) (length p.sources) && leb (length p.sources) max_mixer_sources)
      (source_count (length p.sources))
  validate_product p.sources product_sources
  ensure (not (ltb p.next_source_id 3)) source_id_exhausted
  validate_sources p.next_source_id [] p.sources
  ensure
      (not (ltb max_assignments (length p.assignments) || any_bad_rule p.sources [] p.assignments))
      invalid_assignment
