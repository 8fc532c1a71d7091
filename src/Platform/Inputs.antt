-- ===== src/Platform/Inputs.antt =====
-- crates/librewave-platform-linux/src/audio_host/input_layout.rs: which of the ten fixed slots of the
-- graph each software input of a profile has.
pub mod Slots
pub mod Placed
pub mod Updated
pub mod Pairs
pub mod Carried
use libre_wave.Common.{
  ◌^◌, bit_or, ℕ, ◌+◌, List, [], ◌∷◌, map, Bool, false, not, ◌==◌, leb, if◌then◌else◌, Option, none,
  some, any, position, replicate, find, zero, suc, Result, ok, ◌>>=◌,
}
use libre_wave.Core.Mixer.{
  MixerProfileError, MixRoute, mix_route, unity_gain, SourceControls, source_controls, software,
  SourceRole-discrete, same_role, MixerSourceSnapshot, MixerProfile, source_id, source_of,
}
use libre_wave.Core.InputName.{InputName}
use libre_wave.Core.Mixer.Edits.{with_input}
use libre_wave.Core.Mixer.Defaults.{default_profile}

pub record InputLayout : Type 0 where
  pub slots : List (Option ℕ)

abbrev pub slot_count : ℕ
slot_count = 10

-- `*s == Some(id)`
abbrev pub is_seat : ℕ → Option ℕ → Bool
is_seat id none = false
is_seat id (some x) = x == id

-- What the first loop of `updated` leaves in a slot.
abbrev pub known : Option ℕ → Option MixerSourceSnapshot → Option ℕ
known slot none = none
known slot (some _) = slot

abbrev pub cleared : List MixerSourceSnapshot → Option ℕ → Option ℕ
cleared sources none = none
cleared sources (some id) = known (some id) (source_of sources id)

-- The first empty slot takes the input, if there is one.
abbrev pub place : ℕ → List (Option ℕ) → List (Option ℕ)
place id [] = []
place id (none ∷ rest) = some id ∷ rest
place id (some x ∷ rest) = some x ∷ place id rest

abbrev pub put_input : List (Option ℕ) → ℕ → List (Option ℕ)
put_input slots id = if not (any (is_seat id) slots) then place id slots else slots

-- The second loop of `updated`.
unfoldable pub put_inputs : List (Option ℕ) → List MixerSourceSnapshot → List (Option ℕ)
unfolding SourceRole-discrete
put_inputs slots [] = slots
put_inputs slots (input ∷ rest) =
    let next = if same_role input.role software then put_input slots (source_id input) else slots in
    put_inputs next rest

unfoldable pub updated : InputLayout → MixerProfile → InputLayout
unfolding put_inputs
updated layout profile = record {
  slots = put_inputs (map (cleared profile.sources) layout.slots) profile.sources;
}

unfoldable pub new : MixerProfile → InputLayout
unfolding updated
new profile = updated (record { slots = replicate slot_count none }) profile

abbrev pub slot_source : Option ℕ → Option ℕ
slot_source none = none
slot_source (some index) = some (index + 3)

unfoldable pub slot : InputLayout → ℕ → Option ℕ
slot layout source =
    if leb source 2 then some source else slot_source (position (is_seat source) layout.slots)

abbrev pub slot_bit : ℕ → Option ℕ → ℕ
slot_bit i none = 0
slot_bit i (some source) = 2 ^ (i + 1)

-- The fold of `active_mask`, from slot `i` on
abbrev pub mask_from : ℕ → ℕ → List (Option ℕ) → ℕ
mask_from i mask [] = mask
mask_from i mask (source ∷ rest) = mask_from (suc i) (bit_or mask (slot_bit i source)) rest

unfoldable pub active_mask : InputLayout → ℕ
active_mask layout = mask_from 0 1 layout.slots

-- The occupied slots from the one of this index on, each with the input that it has.
abbrev pub pairs_from : ℕ → List (Option ℕ) → List (ℕ × ℕ)
pairs_from index [] = []
pairs_from index (none ∷ rest) = pairs_from (suc index) rest
pairs_from index (some source ∷ rest) = (source, index + 3) ∷ pairs_from (suc index) rest

unfoldable pub pairs : InputLayout → List (ℕ × ℕ)
pairs layout = (1, 1) ∷ (2, 2) ∷ pairs_from 0 layout.slots

-- "Reserved"
abbrev pub reserved : InputName
reserved = record { text = 82 ∷ 101 ∷ 115 ∷ 101 ∷ 114 ∷ 118 ∷ 101 ∷ 100 ∷ [] }

unfoldable pub reserve : ℕ → MixerProfile → Result MixerProfileError MixerProfile
unfolding with_input
reserve zero dsp = ok dsp
reserve (suc n) dsp = with_input dsp reserved >>= λ next. reserve n next

abbrev pub muted : MixRoute
muted = mix_route false unity_gain

-- `map_or` at the end of the search for the source of a slot
abbrev pub slot_controls : ℕ → Option MixerSourceSnapshot → SourceControls
slot_controls slot none = source_controls slot muted muted
slot_controls slot (some source) =
    source_controls slot source.controls.monitor source.controls.stream

abbrev pub source_at : MixerProfile → Option (ℕ × ℕ) → Option MixerSourceSnapshot
source_at profile none = none
source_at profile (some pair) = source_of profile.sources pair.0

abbrev pub carried : List (ℕ × ℕ) → MixerProfile → MixerSourceSnapshot → MixerSourceSnapshot
carried pairs profile input =
    let slot = source_id input in
    record input {
      controls = slot_controls slot (source_at profile (find (λ pair. pair.1 == slot) pairs));
    }

-- `InputLayout::profile`. The code takes each `with_input` to succeed, by `expect`.
unfoldable pub dsp_profile : InputLayout → MixerProfile → Result MixerProfileError MixerProfile
unfolding reserve default_profile pairs
dsp_profile layout profile = do
  dsp ← reserve slot_count default_profile
  ok (record dsp {
    sources = map (carried (pairs layout) profile) dsp.sources;
    outputs = profile.outputs;
  })
