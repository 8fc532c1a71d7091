-- ===== src/Core/Tests.antt =====
-- The properties of crates/librewave-core at concrete inputs.
use mathlib.Core.List.{Permᴰ}
use mathlib.Core.Option
use libre_wave.Common.{
  ◌^◌, ◌-◌, All, Unique, ℕ, ◌+◌, ◌<◌, ◌≤◌, ◌≡◌, ◌≢◌, ◌↔◌, ◌⊎◌, refl, [], ◌∷◌, map, true, false,
  none, some, arith, length, get_elem?, Has, ok, err,
}
use libre_wave.Core.Meters.{StereoLevels, MeterFrame, FrameWire, try_from}
use libre_wave.Core.Meters.Admitted.{try_from_iff}
use libre_wave.Core.DeviceGeneration.{DeviceGeneration, to_string, from_str}
use libre_wave.Core.DeviceGeneration.Canonical.{from_str_iff}
use libre_wave.Core.DeviceGeneration.Token.{IsGeneration, from_str-to_string}
use libre_wave.Core.InputName.{
  InputName, is_input_name, Text-discrete, try_new, byte_length, is_control,
}
use libre_wave.Core.InputName.Admitted.{IsTrimmed, try_new_iff}
use libre_wave.Core.Applications.{
  ApplicationId, ApplicationAssignment, desktop, ApplicationId-discrete,
}
use libre_wave.Core.Mixer.{
  unity_gain, MixTarget, stream, MixRoute, mix_route, source_route, MixerSourceSnapshot,
  MixerProfile, source_count, source_id_exhausted, generation_exhausted, source_id, source_of,
  validate, validate_product, validate_source, validate_sources, any_bad_rule, SourceRole-discrete,
}
use libre_wave.Core.Mixer.Edits.{
  advance_generation, with_route, with_input, without_input, moved, reinserted, assigned,
}
use libre_wave.Core.Mixer.Defaults.{
  music, DefaultInput-discrete, default_profile, numbered, default_rules, defaults, first_run,
}
use libre_wave.Core.Mixer.Profile.{IsProfile, ids, application_of}
use libre_wave.Core.Mixer.Validation.{validate_iff}
use libre_wave.Core.Mixer.FirstRun.{first_run-IsProfile}
use libre_wave.Core.Mixer.Reorder.{moved_lem}
use libre_wave.Core.Mixer.Lookup.{rule_of, with_route_lem, assigned_lem}
use libre_wave.Core.Mixer.Removal.{without_input_lem}
use libre_wave.Core.Mixer.Follows.{Follows}
use libre_wave.Core.Mixer.History.{add_input, remove_input, edit_lem, start, step, Reach-absent}
use libre_wave.Core.Mixer.Capacity.{with_input_cases}

-- "a" and "b"
abbrev name_a : InputName
name_a = record { text = 97 ∷ [] }

abbrev name_b : InputName
name_b = record { text = 98 ∷ [] }

-- The first-run profile, with one detected application.
abbrev fresh : MixerProfile
fresh = first_run ((desktop name_a, music) ∷ [])

fresh-IsProfile : IsProfile fresh
fresh-IsProfile = first_run-IsProfile ((desktop name_a, music) ∷ [])

first_run-IsProfile_example : IsProfile (first_run ((desktop name_a, music) ∷ []))
first_run-IsProfile_example = first_run-IsProfile ((desktop name_a, music) ∷ [])

validate_iff_example : (validate fresh ≡ ok tt) ↔ IsProfile fresh
validate_iff_example = validate_iff fresh

-- Its input 3, Music, is removed.
removes_music : (q : MixerProfile) × (without_input fresh 3 ≡ ok q)
unfolding first_run defaults default_profile numbered default_rules DefaultInput-discrete
    SourceRole-discrete ApplicationId-discrete Text-discrete is_input_name advance_generation
    without_input
removes_music = (_, refl)

abbrev without_music : MixerProfile
without_music = removes_music.0

without_input_lem_example :
    (source_of without_music.sources 3 ≡ none)
    × ((k : ℕ) → 3 ≢ k → source_of without_music.sources k ≡ source_of fresh.sources k)
    × ((application : ApplicationId) (rule : ApplicationAssignment)
        → rule_of fresh.assignments application ≡ some rule
        → rule.source ≡ 3
        → Option.map (λ rule. rule.source) (rule_of without_music.assignments application) ≡ some 2)
    × ((application : ApplicationId) (rule : ApplicationAssignment)
        → rule_of fresh.assignments application ≡ some rule
        → rule.source ≢ 3
        → rule_of without_music.assignments application ≡ some rule)
    × ((application : ApplicationId)
        → rule_of fresh.assignments application ≡ none
        → rule_of without_music.assignments application ≡ none)
    × (map application_of without_music.assignments ≡ map application_of fresh.assignments)
    × (without_music.outputs ≡ fresh.outputs)
    × (without_music.next_source_id ≡ fresh.next_source_id)
without_input_lem_example = without_input_lem fresh without_music 3 fresh-IsProfile removes_music.1

edit_lem_example : IsProfile without_music × Follows fresh without_music
edit_lem_example = edit_lem fresh without_music (remove_input 3) fresh-IsProfile tt removes_music.1

music_is_gone : Has 3 (ids without_music) → ⊥
unfolding first_run defaults default_profile numbered default_rules DefaultInput-discrete
    SourceRole-discrete ApplicationId-discrete Text-discrete is_input_name advance_generation
    without_input removes_music
music_is_gone h = absurd (ground arith)

adds_a : (q : MixerProfile) × (with_input without_music name_a ≡ ok q)
unfolding first_run defaults default_profile numbered default_rules DefaultInput-discrete
    SourceRole-discrete ApplicationId-discrete Text-discrete is_input_name advance_generation
    without_input removes_music with_input
adds_a = (_, refl)

abbrev with_a : MixerProfile
with_a = adds_a.0

name_a_is_valid : is_input_name name_a.text ≡ true
unfolding is_input_name Text-discrete
name_a_is_valid = refl

three_was_issued : 3 < without_music.next_source_id
unfolding first_run defaults default_profile numbered default_rules DefaultInput-discrete
    SourceRole-discrete ApplicationId-discrete Text-discrete is_input_name advance_generation
    without_input removes_music
three_was_issued = omega arith

Reach-absent_example : Has 3 (ids with_a) → ⊥
Reach-absent_example =
    Reach-absent 3 edit_lem_example.0 (step (add_input name_a) start name_a_is_valid adds_a.1)
      three_was_issued music_is_gone

moves_music : (q : MixerProfile) × (moved fresh 3 0 ≡ ok q)
unfolding first_run defaults default_profile numbered default_rules DefaultInput-discrete
    SourceRole-discrete ApplicationId-discrete Text-discrete is_input_name advance_generation moved
    reinserted
moves_music = (_, refl)

moved_lem_example :
    (s : MixerSourceSnapshot) × (source_id s ≡ 3)
    × (get_elem? moves_music.0.sources 0 ≡ some s)
    × Permᴰ fresh.sources moves_music.0.sources
    × (moves_music.0
        ≡ record fresh { sources = moves_music.0.sources; generation = fresh.generation + 1 })
moved_lem_example = moved_lem fresh moves_music.0 3 0 moves_music.1

abbrev silent : MixRoute
silent = mix_route false unity_gain

mutes_music : (q : MixerProfile) × (with_route fresh 3 stream silent ≡ ok q)
unfolding first_run defaults default_profile numbered default_rules DefaultInput-discrete
    SourceRole-discrete ApplicationId-discrete Text-discrete is_input_name advance_generation
    with_route
mutes_music = (_, refl)

with_route_lem_example :
    (s : MixerSourceSnapshot) × (t : MixerSourceSnapshot) × (source_of fresh.sources 3 ≡ some s)
    × (source_of mutes_music.0.sources 3 ≡ some t)
    × (source_route t.controls stream ≡ silent)
    × ((other : MixTarget)
        → stream ≢ other
        → source_route t.controls other ≡ source_route s.controls other)
    × (t.role ≡ s.role)
    × (t.name ≡ s.name)
    × ((k : ℕ) → 3 ≢ k → source_of mutes_music.0.sources k ≡ source_of fresh.sources k)
    × (mutes_music.0.assignments ≡ fresh.assignments)
    × (mutes_music.0.outputs ≡ fresh.outputs)
with_route_lem_example = with_route_lem fresh mutes_music.0 3 stream silent mutes_music.1

assigns_b : (q : MixerProfile) × (assigned fresh (desktop name_b) (some 2) ≡ ok q)
unfolding first_run defaults default_profile numbered default_rules DefaultInput-discrete
    SourceRole-discrete ApplicationId-discrete Text-discrete is_input_name advance_generation
    assigned validate validate_product validate_source validate_sources any_bad_rule
assigns_b = (_, refl)

assigned_lem_example :
    (Option.map (λ rule. rule.source) (rule_of assigns_b.0.assignments (desktop name_b)) ≡ some 2)
    × ((other : ApplicationId)
        → desktop name_b ≢ other
        → rule_of assigns_b.0.assignments other ≡ rule_of fresh.assignments other)
    × (assigns_b.0.sources ≡ fresh.sources)
    × (assigns_b.0.outputs ≡ fresh.outputs)
assigned_lem_example = assigned_lem fresh assigns_b.0 (desktop name_b) (some 2) assigns_b.1

with_input_cases_example :
    ((length fresh.sources ≡ 12) × (with_input fresh name_a ≡ err (source_count 13)))
    ⊎ ((length fresh.sources ≢ 12)
        × (65535 ≤ fresh.next_source_id)
        × (with_input fresh name_a ≡ err source_id_exhausted))
    ⊎ ((length fresh.sources ≢ 12)
        × (fresh.next_source_id < 65535)
        × (18446744073709551615 ≤ fresh.generation)
        × (with_input fresh name_a ≡ err generation_exhausted))
    ⊎ ((length fresh.sources ≢ 12)
        × (fresh.next_source_id < 65535)
        × (fresh.generation < 18446744073709551615)
        × ((q : MixerProfile) × (with_input fresh name_a ≡ ok q)))
with_input_cases_example = with_input_cases fresh name_a

abbrev silence : StereoLevels
silence = record { peak_left = 0; peak_right = 0; rms_left = 0; rms_right = 0 }

abbrev wire : FrameWire
wire = record {
  sequence = 1;
  sources = record { source = 1; levels = silence } ∷ record { source = 2; levels = silence } ∷ [];
  outputs = (silence, silence, silence);
}

abbrev frame : MeterFrame
frame = record { sequence = 1; sources = wire.sources; outputs = wire.outputs }

try_from_iff_example : (try_from wire ≡ ok frame) ↔ (
    (frame ≡ frame)
    × (wire.sequence ≢ 0)
    × (1 ≤ length wire.sources)
    × (length wire.sources ≤ 12)
    × All (λ s. s.source ≢ 0) wire.sources
    × Unique (map (λ s. s.source) wire.sources))
try_from_iff_example = try_from_iff wire frame

abbrev generation : DeviceGeneration
generation = record {
  epoch = 0 ∷ 1 ∷ 10 ∷ 16 ∷ 255 ∷ 171 ∷ 0 ∷ 9 ∷ 99 ∷ 200 ∷ 7 ∷ 8 ∷ 128 ∷ 127 ∷ 64 ∷ 1 ∷ [];
  revision = 2 ^ 64 - 1;
}

reads_back : from_str (to_string generation) ≡ ok generation
reads_back =
    from_str-to_string generation
      (record { sixteen = refl; bytes = omega arith; small = omega arith })

from_str_iff_example :
    (from_str (to_string generation) ≡ ok generation)
    ↔ (IsGeneration generation × (to_string generation ≡ to_string generation))
from_str_iff_example = from_str_iff (to_string generation) generation

-- "a b"
abbrev spaced : InputName
spaced = record { text = 97 ∷ 32 ∷ 98 ∷ [] }

try_new_iff_example : (try_new spaced.text ≡ ok spaced) ↔ (
    (1 ≤ length spaced.text)
    × (byte_length spaced.text ≤ 64)
    × IsTrimmed spaced.text
    × All (λ c. is_control c ≢ true) spaced.text
    × (spaced ≡ spaced))
try_new_iff_example = try_new_iff spaced.text spaced
