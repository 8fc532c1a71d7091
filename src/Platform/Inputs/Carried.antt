-- ===== src/Platform/Inputs/Carried.antt =====
-- The profile that `profile` of crates/librewave-platform-linux/src/audio_host/input_layout.rs gives to
-- the engine: twelve sources with fixed identities, which carry the controls of the inputs.
use libre_wave.Common.{
  ℕ, zero, suc, ◌+◌, ◌≤◌, ◌<◌, ◌≡◌, ◌≢◌, inl, inr, refl, ap, sym, ◌∙◌, List, [], ◌∷◌, ◌++◌, map,
  false, Option, none, some, arith, Has, Bool-cases, Option-cases, Result, ok, ◌>>=◌, leb→le,
  ℕ_discrete, leb, subst,
}
use libre_wave.Common.Search.Order.{position_lem}
use libre_wave.Core.Mixer.{
  MixerSourceSnapshot, MixerProfile, MixerProfileError, source_controls, product_sources, source_id,
  is_source, source_of,
}
use libre_wave.Core.Mixer.Edits.{software_source, with_input, advance_generation}
use libre_wave.Core.Mixer.Defaults.{product_source, default_profile}
use libre_wave.Core.Mixer.Profile.{IsSource, IsProfile, is_source_iff}
use libre_wave.Platform.Inputs.{
  InputLayout, is_seat, slot, pairs, reserved, reserve, slot_count, muted, slot_controls, source_at,
  carried, dsp_profile,
}
use libre_wave.Platform.Inputs.Slots.{seat}
use libre_wave.Platform.Inputs.Placed.{IsLayout, entry_of, source_of-Has, fixed_slot, free_slot}
use libre_wave.Platform.Inputs.Pairs.{at_slot, slot-pairs, pairs-slot}

abbrev range : ℕ → ℕ → List ℕ
range from zero = []
range from (suc n) = from ∷ range (suc from) n

Has-range : (from n k : ℕ) → from ≤ k → k < from + n → Has k (range from n)
Has-range from zero k low high = absurd (omega arith)
Has-range from (suc n) k low high = elim (ℕ_discrete from k) [
  | yes e ↦ inl e
  | no e ↦ inr (Has-range (suc from) n k (omega arith) (omega arith))
]

-- The default profile with ten reserved inputs
abbrev base : MixerProfile
base = record default_profile {
  generation = 10;
  next_source_id = 13;
  sources =
      map product_source product_sources
      ++ map (λ id. software_source id reserved.text) (range 3 10);
}

reserve-base : reserve slot_count default_profile ≡ ok base
unfolding reserve default_profile with_input advance_generation
reserve-base = refl

base-ids : map source_id base.sources ≡ range 1 12
unfolding default_profile
base-ids = refl

source_of-map :
    (f : MixerSourceSnapshot → MixerSourceSnapshot) (k : ℕ) (l : List MixerSourceSnapshot)
    → ((s : MixerSourceSnapshot) → source_id (f s) ≡ source_id s)
    → Has k (map source_id l)
    → (s : MixerSourceSnapshot) × (source_id s ≡ k) × (source_of (map f l) k ≡ some (f s))
source_of-map f k [] same h = absurd h
source_of-map f k (s ∷ rest) same h = elim (Bool-cases (is_source k (f s))) [
  | inl e ↦ (s, sym (same s) ∙ (is_source_iff k (f s)).0 e, rw e refl)
  | inr e ↦ let (t, id, found) = source_of-map f k rest same (later e h) in (t, id, rw e found)
]
  where
    later :
        is_source k (f s) ≡ false
        → Has k (source_id s ∷ map source_id rest)
        → Has k (map source_id rest)
    later e (inl q) = absurd (ground (arith, (is_source_iff k (f s)).1 (same s ∙ q)))
    later e (inr h) = h

slot_controls-source : (k : ℕ) (s : Option MixerSourceSnapshot) → (slot_controls k s).source ≡ k
slot_controls-source k none = refl
slot_controls-source k (some s) = refl

module _ (layout : InputLayout) (p : MixerProfile) where
  -- What the engine is given
  dsp : MixerProfile
  dsp = record base { sources = map (carried (pairs layout) p) base.sources; outputs = p.outputs }

  dsp_profile-dsp : dsp_profile layout p ≡ ok dsp
  unfolding dsp_profile dsp
  dsp_profile-dsp =
      let made : Result MixerProfileError MixerProfile → Result MixerProfileError MixerProfile =
        λ r. r >>= λ reserved. ok (record reserved {
          sources = map (carried (pairs layout) p) reserved.sources;
          outputs = p.outputs;
        }) in
      ap made reserve-base

  dsp-slot :
      (k : ℕ)
      → 1 ≤ k
      → k ≤ 12
      → (t : MixerSourceSnapshot) × (source_of dsp.sources k ≡ some t)
        × (t.controls ≡ slot_controls k (source_at p (at_slot k (pairs layout))))
  unfolding dsp
  dsp-slot k low high =
      let f = carried (pairs layout) p in
      let h : Has k (map source_id base.sources) =
        subst (Has k) (sym base-ids) (Has-range 1 12 k low (omega arith)) in
      let (s, id, found) =
        source_of-map f k base.sources
          (λ s.
            slot_controls-source (source_id s) (source_at p (at_slot (source_id s) (pairs layout))))
          h in
      (f s, found, ap (λ j. slot_controls j (source_at p (at_slot j (pairs layout)))) id)

slot_bounds :
    (layout : InputLayout) (id k : ℕ)
    → IsLayout layout.slots
    → id ≢ 0
    → slot layout id ≡ some k
    → (1 ≤ k) × (k ≤ 12)
slot_bounds layout id k fine nonzero at = elim (Bool-cases (leb id 2)) [
  | inl low ↦
      let same : id ≡ k = ground (arith, fixed_slot layout id low) in
      let small = leb→le id 2 low in (omega arith, omega arith)
  | inr high ↦ elim (Option-cases (seat id layout.slots)) [
    | inl q ↦ absurd (ground (arith, free_slot layout id high))
    | inr (i, q) ↦
        let here : k ≡ i + 3 = ground (arith, free_slot layout id high) in
        let (s, at_i, test, small) = position_lem (is_seat id) layout.slots q in
        (omega arith, omega (arith, fine.ten))
  ]
]

-- From a layout and a valid profile, the profile for the engine is made, with the outputs of the
-- profile. At the slot of each of the profile's sources it has the routes of that source, and any of
-- its twelve slots that no source of the profile has is muted in both mixes.
pub dsp_profile_lem :
    (layout : InputLayout) (p : MixerProfile)
    → IsLayout layout.slots
    → IsProfile p
    → (dsp : MixerProfile) × (dsp_profile layout p ≡ ok dsp)
      × (dsp.outputs ≡ p.outputs)
      × ((id k : ℕ) (s : MixerSourceSnapshot)
          → source_of p.sources id ≡ some s
          → slot layout id ≡ some k
          → (t : MixerSourceSnapshot) × (source_of dsp.sources k ≡ some t)
            × (t.controls ≡ source_controls k s.controls.monitor s.controls.stream))
      × ((k : ℕ)
          → 1 ≤ k
          → k ≤ 12
          → ((id : ℕ) → source_of p.sources id ≢ none → slot layout id ≢ some k)
          → (t : MixerSourceSnapshot) × (source_of dsp.sources k ≡ some t)
            × (t.controls ≡ source_controls k muted muted))
unfolding dsp
dsp_profile_lem layout p fine valid = (dsp layout p, dsp_profile-dsp layout p, refl, given, vacant)
  where
    given :
        (id k : ℕ) (s : MixerSourceSnapshot)
        → source_of p.sources id ≡ some s
        → slot layout id ≡ some k
        → (t : MixerSourceSnapshot) × (source_of (dsp layout p).sources k ≡ some t)
          × (t.controls ≡ source_controls k s.controls.monitor s.controls.stream)
    given id k s found at =
        let h = (source_of-Has p valid id).0 (λ e. ground arith) in
        let (r, e, source) = entry_of (IsSource p.next_source_id) id p.sources valid.sources h in
        let nonzero : id ≢ 0 = λ z. source.nonzero (e ∙ z) in
        let (low, high) = slot_bounds layout id k fine nonzero at in
        let (t, there, controls) = dsp-slot layout p k low high in
        (
          t,
          there,
          controls
              ∙ ap (λ q. slot_controls k (source_at p q)) (slot-pairs layout id k nonzero at)
              ∙ ap (slot_controls k) found,
        )

    vacant :
        (k : ℕ)
        → 1 ≤ k
        → k ≤ 12
        → ((id : ℕ) → source_of p.sources id ≢ none → slot layout id ≢ some k)
        → (t : MixerSourceSnapshot) × (source_of (dsp layout p).sources k ≡ some t)
          × (t.controls ≡ source_controls k muted muted)
    vacant k low high free =
        let (t, there, controls) = dsp-slot layout p k low high in
        (
          t,
          there,
          controls ∙ elim (Option-cases (at_slot k (pairs layout))) [
            | inl q ↦ ap (λ q. slot_controls k (source_at p q)) q
            | inr (pair, q) ↦ elim (Option-cases (source_of p.sources pair.0)) [
              | inl gone ↦ ap (λ q. slot_controls k (source_at p q)) q ∙ ap (slot_controls k) gone
              | inr (s, found) ↦
                  absurd (free pair.0 (λ e. ground arith) (pairs-slot layout k fine q))
            ]
          ],
        )
