-- ===== src/Core/Mixer/Capacity.antt =====
-- The limits of crates/librewave-core/src/mixer.rs: the range of a fader, and the number of inputs,
-- identities and generations.
use libre_wave.Common.{
  ℕ, ◌+◌, ◌-◌, ◌<◌, ℕ_discrete, dec_lt, ◌≤◌, ◌≡◌, ◌≢◌, ◌↔◌, ◌⊎◌, inl, inr, arith, length, ok, err,
}
use libre_wave.Common.Int.{ℤ, pos, negsuc, sub_ℕ}
use libre_wave.Core.InputName.{InputName}
use libre_wave.Core.Mixer.{
  FaderGain, from_half_decibel_steps, MixerProfile, source_count, source_id_exhausted,
  generation_exhausted,
}
use libre_wave.Core.Mixer.Edits.{with_input}
use libre_wave.Core.Mixer.Inputs.{added}

steps_in_range :
    (steps : ℤ) (gain : FaderGain)
    → from_half_decibel_steps steps ≡ ok gain
    → (gain.half_decibel_steps ≡ steps) × ((k : ℕ) × (k ≤ 144) × (steps ≡ sub_ℕ k 120))
unfolding from_half_decibel_steps
steps_in_range (pos n) gain h = (ground arith, (n + 120, ground arith, ground arith))
steps_in_range (negsuc n) gain h = (ground arith, (119 - n, ground arith, ground arith))

steps_accepted :
    (k : ℕ)
    → k ≤ 144
    → from_half_decibel_steps (sub_ℕ k 120) ≡ ok (record { half_decibel_steps = sub_ℕ k 120 })
unfolding from_half_decibel_steps
steps_accepted k h = ground arith

-- A fader is made of exactly the half-decibel steps from -120 to 24, and keeps them.
pub from_half_decibel_steps_iff :
    (steps : ℤ) (gain : FaderGain)
    → (from_half_decibel_steps steps ≡ ok gain)
      ↔ ((gain.half_decibel_steps ≡ steps) × ((k : ℕ) × (k ≤ 144) × (steps ≡ sub_ℕ k 120)))
from_half_decibel_steps_iff steps gain =
    (steps_in_range steps gain, λ h. ground (arith, steps_accepted h.1.0 h.1.1))

-- Adding an input succeeds, with a profile, exactly when there are not 12 sources, and neither the
-- identities nor the generations are exhausted. Otherwise the error says which, in this order.
pub with_input_cases :
    (p : MixerProfile) (name : InputName)
    → ((length p.sources ≡ 12) × (with_input p name ≡ err (source_count 13)))
      ⊎ ((length p.sources ≢ 12)
          × (65535 ≤ p.next_source_id)
          × (with_input p name ≡ err source_id_exhausted))
      ⊎ ((length p.sources ≢ 12)
          × (p.next_source_id < 65535)
          × (18446744073709551615 ≤ p.generation)
          × (with_input p name ≡ err generation_exhausted))
      ⊎ ((length p.sources ≢ 12)
          × (p.next_source_id < 65535)
          × (p.generation < 18446744073709551615)
          × ((q : MixerProfile) × (with_input p name ≡ ok q)))
unfolding with_input
with_input_cases p name = elim (ℕ_discrete (length p.sources) 12) [
  | yes full ↦ inl (full, ground arith)
  | no room ↦ elim (dec_lt p.next_source_id 65535) [
    | no ids_ ↦ inr (inl (room, ground arith, ground arith))
    | yes fits ↦ elim (dec_lt p.generation 18446744073709551615) [
      | no generations ↦ inr (inr (inl (room, fits, ground arith, ground arith)))
      | yes early ↦ inr (
          inr (
            inr (
              room,
              fits,
              early,
              (
                record (added p (p.next_source_id + 1) name) { generation = p.generation + 1 },
                ground arith,
              ),
            )))
    ]
  ]
]
