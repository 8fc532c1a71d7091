-- ===== src/Platform/Inputs/Updated.antt =====
-- What `updated` of crates/librewave-platform-linux/src/audio_host/input_layout.rs makes of a layout.
use libre_wave.Common.{
  ℕ, ◌≤◌, ◌≡◌, ◌≢◌, ◌↔◌, inl, inr, refl, ap, sym, ◌∙◌, subst, List, map, false, none, some, arith,
  All, Has, Bool-cases, Option-cases, tests, leb, replicate,
}
use libre_wave.Common.Search.Edits.{All-mono, All-zip}
use libre_wave.Core.Mixer.{software, MixerSourceSnapshot, MixerProfile, source_id, source_of}
use libre_wave.Core.Mixer.Profile.{IsSource, IsProfile, ids}
use libre_wave.Platform.Inputs.{InputLayout, slot_count, cleared, updated, new, slot_source, slot}
use libre_wave.Platform.Inputs.Slots.{taken, seat, Has-seat, seat-Has, seat-cleared}
use libre_wave.Platform.Inputs.Placed.{
  IsLayout, Keeps, IsInput, Filled, put_inputs-Filled, software-input, source_of-Has,
  cleared-IsPlaced, own_ids, entry_of, All-lookup, fixed_slot, free_slot,
}

module _ (p : MixerProfile) (valid : IsProfile p) where
  -- The slots of `updated layout p`
  updated-Filled :
      (layout : InputLayout)
      → IsLayout layout.slots
      → Filled p valid (map (cleared p.sources) layout.slots) p.sources (updated layout p).slots
  unfolding updated IsInput
  updated-Filled layout fine =
      put_inputs-Filled p valid p.sources (map (cleared p.sources) layout.slots)
        (inputs p.sources (
          All-zip (IsSource p.next_source_id) (λ s. Has (source_id s) (ids p)) p.sources
            valid.sources (own_ids p.sources)))
        (cleared-IsPlaced p valid layout.slots fine)
    where
      inputs :
          (l : List MixerSourceSnapshot)
          → All (λ s. IsSource p.next_source_id s × Has (source_id s) (ids p)) l
          → All (IsInput p valid) l
      inputs l h = All-mono l (λ s both. (both.1, software-input p valid s both.0)) h

  kept_slot :
      (layout : InputLayout) (id k : ℕ)
      → IsLayout layout.slots
      → source_of p.sources id ≢ none
      → slot layout id ≡ some k
      → slot (updated layout p) id ≡ some k
  unfolding Filled Keeps
  kept_slot layout id k fine known at = elim (Bool-cases (leb id 2)) [
    | inl fixed ↦ fixed_slot (updated layout p) id fixed ∙ sym (fixed_slot layout id fixed) ∙ at
    | inr free ↦ elim (Option-cases (seat id layout.slots)) [
      | inl q ↦ absurd (ground (arith, free_slot layout id free))
      | inr (i, q) ↦
          let (placed, keep, all) = updated-Filled layout fine in
          let now = keep id i (seat-cleared p.sources id layout.slots known ∙ q) in
          free_slot (updated layout p) id free
          ∙ ap slot_source (now ∙ sym q)
          ∙ sym (free_slot layout id free)
          ∙ at
    ]
  ]

  has_slot :
      (layout : InputLayout) (id : ℕ)
      → IsLayout layout.slots
      → 3 ≤ id
      → (slot (updated layout p) id ≢ none) ↔ (source_of p.sources id ≢ none)
  unfolding Filled
  has_slot layout id fine input =
      let (placed, keep, all) = updated-Filled layout fine in
      let free : leb id 2 ≡ false = grind tests in
      let seats = (updated layout p).slots in
      (
        λ n. elim (Option-cases (seat id seats)) [
          | inl q ↦ absurd (n (free_slot (updated layout p) id free ∙ ap slot_source q))
          | inr (i, q) ↦ (source_of-Has p valid id).1 (
              All-lookup (λ x. Has x (ids p)) id (taken seats) placed.sources (seat-Has id seats q))
        ],
        λ known.
            let h = (source_of-Has p valid id).0 known in
            let (s, e, (source, there)) =
              entry_of
                (λ s.
                  IsSource p.next_source_id s
                  × (s.role ≡ software → Has (source_id s) (taken seats)))
                id p.sources
                (All-zip (IsSource p.next_source_id)
                  (λ s. s.role ≡ software → Has (source_id s) (taken seats)) p.sources valid.sources
                  all)
                h in
            let seated =
              subst (λ k. Has k (taken seats)) e
                (there (source.software_is (subst (λ k. 3 ≤ k) (sym e) input)).0) in
            elim (Option-cases (seat id seats)) [
              | inl q ↦ λ n. Has-seat id seats seated q
              | inr (i, q) ↦ λ n. ground (arith, free_slot (updated layout p) id free)
            ],
      )

-- Updating a layout for a valid profile leaves a layout: ten slots, no source in two of them, and
-- no product source in any. Each source that the profile still has keeps its slot, and of the
-- inputs, exactly those of the profile have one.
pub updated_lem :
    (layout : InputLayout) (p : MixerProfile)
    → IsLayout layout.slots
    → IsProfile p
    → IsLayout (updated layout p).slots
      × ((id k : ℕ)
          → source_of p.sources id ≢ none
          → slot layout id ≡ some k
          → slot (updated layout p) id ≡ some k)
      × ((id : ℕ) → 3 ≤ id → (slot (updated layout p) id ≢ none) ↔ (source_of p.sources id ≢ none))
unfolding Filled
updated_lem layout p fine valid = (
  (updated-Filled p valid layout fine).0.layout,
  λ id k. kept_slot p valid layout id k fine,
  λ id. has_slot p valid layout id fine,
)

pub new-IsLayout : (p : MixerProfile) → IsProfile p → IsLayout (new p).slots
unfolding new
new-IsLayout p valid =
    (updated_lem (record { slots = replicate slot_count none }) p
      (record { ten = refl; once = tt; inputs = tt }) valid).0
