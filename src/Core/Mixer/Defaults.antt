-- ===== src/Core/Mixer/Defaults.antt =====
-- crates/librewave-core/src/mixer.rs: the first-run profile and the reset to it.
use libre_wave.Common.{
  ℕ, ◌+◌, List, [], ◌∷◌, ◌++◌, map, Bool, false, Option, none, some, ◌==◌, if◌then◌else◌, holds,
  length, any, find, Result, ◌>>◌, ensure,
}
use libre_wave.Core.InputName.{Text}
use libre_wave.Core.Applications.{ApplicationId, ApplicationAssignment, same_application}
use libre_wave.Core.Mixer.{
  unity_gain, mix_route, source_controls, monitor, source_with_route, MixerSourceSnapshot,
  MixerProfile, MixerProfileError, source_id_exhausted, microphone_source_id, max_assignments,
  product_sources, ProductSource,
}
use libre_wave.Core.Mixer.Edits.{
  checked_add_below, u16_mod, advance_generation, unity_route, software_source,
}
use libre_wave.Protocol.Codec.{is_some}

pub data DefaultInput : Type 0 where
  music browser voice_chat game : DefaultInput

unfoldable pub DefaultInput-discrete : Discrete DefaultInput
DefaultInput-discrete = hlevel

abbrev pub all_default_inputs : List DefaultInput
all_default_inputs = music ∷ browser ∷ voice_chat ∷ game ∷ []

-- "Music", "Browser", "Voice Chat" and "Game"
abbrev pub default_name : DefaultInput → Text
default_name music = 77 ∷ 117 ∷ 115 ∷ 105 ∷ 99 ∷ []
default_name browser = 66 ∷ 114 ∷ 111 ∷ 119 ∷ 115 ∷ 101 ∷ 114 ∷ []
default_name voice_chat = 86 ∷ 111 ∷ 105 ∷ 99 ∷ 101 ∷ 32 ∷ 67 ∷ 104 ∷ 97 ∷ 116 ∷ []
default_name game = 71 ∷ 97 ∷ 109 ∷ 101 ∷ []

abbrev pub product_source : ProductSource → MixerSourceSnapshot
product_source source = record {
  role = source.role;
  name = source.name;
  controls = source_controls source.id unity_route unity_route;
}

-- `MixerProfile::default`
unfoldable pub default_profile : MixerProfile
default_profile = record {
  generation = 0;
  next_source_id = 3;
  assignments = [];
  microphone_source = microphone_source_id;
  sources = map product_source product_sources;
  outputs = record { monitor = unity_route; stream = unity_route };
}

-- `profile.sources[0].controls = ..`
abbrev pub mute_first : List MixerSourceSnapshot → List MixerSourceSnapshot
mute_first [] = []
mute_first (s ∷ rest) =
    record s { controls = source_with_route s.controls monitor (mix_route false unity_gain) } ∷ rest

-- The inputs with their new identities, `id` and those after it.
unfoldable pub numbered : ℕ → List DefaultInput → List (DefaultInput × ℕ)
numbered id [] = []
numbered id (input ∷ rest) = (input, id) ∷ numbered (id + 1) rest

abbrev pub default_source : DefaultInput × ℕ → MixerSourceSnapshot
default_source (input, id) = software_source id (default_name input)

abbrev pub is_candidate : DefaultInput → DefaultInput × ℕ → Bool
is_candidate input (candidate, id) = holds (DefaultInput-discrete candidate input)

abbrev pub default_rule : ApplicationId → Option (DefaultInput × ℕ) → List ApplicationAssignment
default_rule application none = []
default_rule application (some (input, source)) =
    record { application = application; source = source } ∷ []

-- The loop over the applications, which stops at the capacity.
unfoldable pub default_rules :
    List (DefaultInput × ℕ)
    → List (ApplicationId × DefaultInput)
    → List ApplicationAssignment
    → List ApplicationAssignment
unfolding DefaultInput-discrete
default_rules inputs [] rules = rules
default_rules inputs ((application, input) ∷ rest) rules =
    if length rules == max_assignments
    then rules
    else if any (λ rule. same_application rule.application application) rules
    then default_rules inputs rest rules
    else default_rules inputs rest
        (rules ++ default_rule application (find (is_candidate input) inputs))

-- The numbers of the inputs are below 2 ^ 16, at 3 and where `reset` has checked it.
unfoldable pub defaults : ℕ → List (ApplicationId × DefaultInput) → MixerProfile
unfolding default_profile numbered default_rules
defaults first_id applications =
    let inputs = numbered first_id all_default_inputs in
    record default_profile {
      next_source_id = first_id + length all_default_inputs;
      sources = mute_first default_profile.sources ++ map default_source inputs;
      assignments = default_rules inputs applications default_profile.assignments;
    }

unfoldable pub first_run : List (ApplicationId × DefaultInput) → MixerProfile
unfolding defaults
first_run applications = defaults 3 applications

unfoldable pub reset :
    MixerProfile → List (ApplicationId × DefaultInput) → Result MixerProfileError MixerProfile
unfolding defaults advance_generation
reset p applications = do
  ensure (is_some (checked_add_below u16_mod p.next_source_id (length all_default_inputs)))
      source_id_exhausted
  advance_generation (record (defaults p.next_source_id applications) { generation = p.generation })
