-- ===== src/Core/Mixer/Edits.antt =====
-- crates/librewave-core/src/mixer.rs: the edits of a mixer profile. Each returns a new profile.
use libre_wave.Common.{
  ℕ, ◌+◌, ◌^◌, List, [], ◌∷◌, ◌++◌, map, Bool, true, false, Option, none, some, not, ◌&&◌, ◌==◌,
  ltb, if◌then◌else◌, length, retain, update, position, remove, insert, Result, ok, err, ◌>>=◌,
  ◌>>◌, ensure, ok_or,
}
use libre_wave.Core.Meters.{max_mixer_sources}
use libre_wave.Core.InputName.{Text, InputName}
use libre_wave.Core.Applications.{ApplicationId, ApplicationAssignment, same_application}
use libre_wave.Core.Mixer.{
  FaderGain, unity_gain, MixRoute, mix_route, source_controls, MixTarget, source_with_route,
  output_with_route, software, same_role, MixerSourceSnapshot, MixerProfile, MixerProfileError,
  source_id_exhausted, invalid_order, invalid_assignment, source_count, unknown_source,
  generation_exhausted, system_source_id, is_source, source_of, no_destination, validate,
}

-- `checked_add` at a type of the numbers below `modulus`.
abbrev pub checked_add_below : ℕ → ℕ → ℕ → Option ℕ
checked_add_below modulus a b = if ltb (a + b) modulus then some (a + b) else none

abbrev pub u16_mod : ℕ
u16_mod = 65536

abbrev pub u64_mod : ℕ
u64_mod = 2 ^ 64

unfoldable pub advance_generation : MixerProfile → Result MixerProfileError MixerProfile
advance_generation p = do
  generation ← ok_or (checked_add_below u64_mod p.generation 1) generation_exhausted
  ok (record p { generation = generation })

abbrev pub with_sources : MixerProfile → List MixerSourceSnapshot → MixerProfile
with_sources p sources = record p { sources = sources }

abbrev pub set_faders : ℕ → FaderGain → FaderGain → MixerSourceSnapshot → MixerSourceSnapshot
set_faders source monitor stream s = record s {
  controls =
      source_controls source (mix_route s.controls.monitor.enabled monitor)
        (mix_route s.controls.stream.enabled stream);
}

unfoldable pub with_faders :
    MixerProfile → ℕ → FaderGain → FaderGain → Result MixerProfileError MixerProfile
unfolding advance_generation
with_faders p source monitor stream = do
  sources ←
      ok_or (update (is_source source) (set_faders source monitor stream) p.sources)
        (unknown_source source)
  advance_generation (with_sources p sources)

unfoldable pub with_output :
    MixerProfile → MixTarget → MixRoute → Result MixerProfileError MixerProfile
unfolding advance_generation
with_output p target route =
    advance_generation (record p { outputs = output_with_route p.outputs target route })

abbrev pub set_route : MixTarget → MixRoute → MixerSourceSnapshot → MixerSourceSnapshot
set_route target route s = record s { controls = source_with_route s.controls target route }

unfoldable pub with_route :
    MixerProfile → ℕ → MixTarget → MixRoute → Result MixerProfileError MixerProfile
unfolding advance_generation
with_route p source target route = do
  sources ←
      ok_or (update (is_source source) (set_route target route) p.sources) (unknown_source source)
  advance_generation (with_sources p sources)

abbrev pub unity_route : MixRoute
unity_route = mix_route true unity_gain

abbrev pub software_source : ℕ → Text → MixerSourceSnapshot
software_source id name = record {
  role = software;
  name = name;
  controls = source_controls id unity_route unity_route;
}

unfoldable pub with_input : MixerProfile → InputName → Result MixerProfileError MixerProfile
unfolding advance_generation
with_input p name = do
  ensure (not (length p.sources == max_mixer_sources)) (source_count (length p.sources + 1))
  next_id ← ok_or (checked_add_below u16_mod p.next_source_id 1) source_id_exhausted
  advance_generation (record p {
    next_source_id = next_id;
    sources = p.sources ++ (software_source p.next_source_id name.text ∷ []);
  })

-- `.is_none_or(|source| source.role != SourceRole::Software)`, negated.
abbrev pub is_software : Option MixerSourceSnapshot → Bool
is_software none = false
is_software (some s) = same_role s.role software

abbrev pub redirect : ℕ → ApplicationAssignment → ApplicationAssignment
redirect id rule = if rule.source == id then record rule { source = system_source_id } else rule

unfoldable pub without_input : MixerProfile → ℕ → Result MixerProfileError MixerProfile
unfolding advance_generation
without_input p id = do
  ensure (is_software (source_of p.sources id)) (unknown_source id)
  advance_generation (record p {
    sources = retain (λ s. not (is_source id s)) p.sources;
    assignments = map (redirect id) p.assignments;
  })

unfoldable pub renamed : MixerProfile → ℕ → InputName → Result MixerProfileError MixerProfile
unfolding advance_generation
renamed p id name = do
  sources ←
      ok_or
        (update (λ s. is_source id s && same_role s.role software)
          (λ s. record s { name = name.text }) p.sources)
        (unknown_source id)
  advance_generation (with_sources p sources)

-- The position was found, so the removal is in range.
unfoldable pub reinserted :
    MixerProfile
    → ℕ
    → ℕ
    → Option (MixerSourceSnapshot × List MixerSourceSnapshot)
    → Result MixerProfileError MixerProfile
unfolding advance_generation
reinserted p id to none = err (unknown_source id)
reinserted p id to (some (source, rest)) =
    advance_generation (with_sources p (insert rest to source))

unfoldable pub moved : MixerProfile → ℕ → ℕ → Result MixerProfileError MixerProfile
unfolding reinserted
moved p id to = do
  ensure (ltb to (length p.sources)) invalid_order
  index ← ok_or (position (is_source id) p.sources) (unknown_source id)
  reinserted p id to (remove p.sources index)

-- `source.is_some_and(..)`
abbrev pub forbidden : MixerProfile → Option ℕ → Bool
forbidden p none = false
forbidden p (some id) = no_destination (source_of p.sources id)

abbrev pub new_rule : ApplicationId → Option ℕ → List ApplicationAssignment
new_rule application none = []
new_rule application (some source) = record { application = application; source = source } ∷ []

abbrev pub with_rule : MixerProfile → ApplicationId → Option ℕ → MixerProfile
with_rule p application source = record p {
  assignments =
      retain (λ rule. not (same_application rule.application application)) p.assignments
      ++ new_rule application source;
}

unfoldable pub assigned :
    MixerProfile → ApplicationId → Option ℕ → Result MixerProfileError MixerProfile
assigned p application source = do
  ensure (not (forbidden p source)) invalid_assignment
  validate (with_rule p application source)
  advance_generation (with_rule p application source)
