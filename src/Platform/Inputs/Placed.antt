-- ===== src/Platform/Inputs/Placed.antt =====
-- The two loops of `updated` of crates/librewave-platform-linux/src/audio_host/input_layout.rs.
use libre_wave.Common.{
  ℕ, ◌≤◌, ◌≡◌, ◌≢◌, ◌↔◌, inl, inr, refl, ◌∙◌, subst, List, [], ◌∷◌, map, true, false, Option, none,
  some, arith, length, length-map, any, All, Unique, Has, Bool-cases, Option-cases, holds_iff, leb,
  dec_lt, ℕ_discrete,
}
use libre_wave.Common.Search.Edits.{All-mono, find-Has, Has-find}
use libre_wave.Common.Search.Order.{Unique-Permᴰ, All-Permᴰ, Has-Permᴰ, length-Unique}
use libre_wave.Core.Mixer.{
  software, SourceRole-discrete, same_role, MixerSourceSnapshot, MixerProfile, source_id, is_source,
  source_of,
}
use libre_wave.Core.Mixer.Profile.{IsSource, IsProfile, ids, is_source_iff}
use libre_wave.Platform.Inputs.{
  InputLayout, is_seat, cleared, put_input, put_inputs, slot_source, slot,
}
use libre_wave.Platform.Inputs.Slots.{
  taken, seat, length-place, place_cases, seat-place, any-Has, Has-seat, seat-Has, any-false-Has,
  length-cleared, All-cleared, Unique-cleared, cleared-known,
}

-- Ten slots, no source in two of them, and neither product source in any.
pub record IsLayout (slots : List (Option ℕ)) : Type 0 where
  pub ten : length slots ≡ 10
  pub once : Unique (taken slots)
  pub inputs : All (λ id. 3 ≤ id) (taken slots)

-- What `next` has of the slots before: each source that had a slot still has it.
unfoldable pub Keeps : List (Option ℕ) → List (Option ℕ) → Type 0
Keeps slots next = (other k : ℕ) → seat other slots ≡ some k → seat other next ≡ some k

Keeps-Has :
    (id : ℕ) (slots next : List (Option ℕ))
    → Keeps slots next
    → Has id (taken slots)
    → Has id (taken next)
unfolding Keeps
Keeps-Has id slots next keep h = elim (Option-cases (seat id slots)) [
  | inl q ↦ absurd (Has-seat id slots h q)
  | inr (k, q) ↦ seat-Has id next (keep id k q)
]

pub All-lookup : (P : ℕ → Type 0) (x : ℕ) (xs : List ℕ) → All P xs → Has x xs → P x
All-lookup P x [] h k = absurd k
All-lookup P x (y ∷ xs) h (inl e) = subst P e h.0
All-lookup P x (y ∷ xs) h (inr later) = All-lookup P x xs h.1 later

pub fixed_slot : (l : InputLayout) (id : ℕ) → leb id 2 ≡ true → slot l id ≡ some id
unfolding slot
fixed_slot l id e = rw e refl

pub free_slot :
    (l : InputLayout) (id : ℕ) → leb id 2 ≡ false → slot l id ≡ slot_source (seat id l.slots)
unfolding slot
free_slot l id e = rw e refl

pub own_ids : (l : List MixerSourceSnapshot) → All (λ s. Has (source_id s) (map source_id l)) l
own_ids [] = tt
own_ids (s ∷ rest) = (inl refl, All-mono rest (λ t. inr) (own_ids rest))

-- An identity in the list is that of an entry.
pub entry_of :
    (P : MixerSourceSnapshot → Type 0) (id : ℕ) (l : List MixerSourceSnapshot)
    → All P l
    → Has id (map source_id l)
    → (s : MixerSourceSnapshot) × (source_id s ≡ id) × P s
entry_of P id [] h k = absurd k
entry_of P id (s ∷ rest) h (inl e) = (s, e, h.0)
entry_of P id (s ∷ rest) h (inr later) = entry_of P id rest h.1 later

module _ (p : MixerProfile) (valid : IsProfile p) where
  pub record IsPlaced (slots : List (Option ℕ)) : Type 0 where
    pub layout : IsLayout slots
    pub sources : All (λ id. Has id (ids p)) (taken slots)

  -- A valid profile has no more inputs than there are slots.
  room :
      (id : ℕ) (slots : List (Option ℕ))
      → 3 ≤ id
      → Has id (ids p)
      → All (λ x. id ≢ x) (taken slots)
      → IsPlaced slots
      → length (taken slots) ≢ length slots
  room id slots input present fresh placed full =
      let apart : All (λ x. 2 ≢ x) (taken slots) =
        All-mono (taken slots) (λ x h e. omega arith) placed.layout.inputs in
      let other : All (λ x. 1 ≢ x) (taken slots) =
        All-mono (taken slots) (λ x h e. omega arith) placed.layout.inputs in
      let few =
        length-Unique (1 ∷ 2 ∷ id ∷ taken slots) (ids p)
          (
            (λ e. omega arith, (λ e. omega arith, other)),
            ((λ e. omega arith, apart), (fresh, placed.layout.once)),
          )
          (valid.has_microphone, (valid.has_system, (present, placed.sources))) in
      omega (arith, placed.layout.ten, valid.few_sources, length-map p.sources source_id)

  put_input-IsPlaced :
      (id : ℕ) (slots : List (Option ℕ))
      → 3 ≤ id
      → Has id (ids p)
      → IsPlaced slots
      → IsPlaced (put_input slots id)
        × Has id (taken (put_input slots id))
        × Keeps slots (put_input slots id)
  unfolding Keeps
  put_input-IsPlaced id slots input present placed = elim (Bool-cases (any (is_seat id) slots)) [
    | inl e ↦ rw e (placed, any-Has id slots e, λ other k q. q)
    | inr e ↦
        let fresh = any-false-Has id slots e in
        elim (place_cases id slots) [
          | inl full ↦ absurd (room id slots input present fresh placed full)
          | inr m ↦
              let apart : (other k : ℕ) → seat other slots ≡ some k → id ≢ other = λ other k q same.
                All-lookup (λ x. id ≢ x) other (taken slots) fresh (seat-Has other slots q) same in
              rw e (
                record {
                  layout = record {
                    ten = length-place id slots ∙ placed.layout.ten;
                    once = Unique-Permᴰ m (fresh, placed.layout.once);
                    inputs = All-Permᴰ (λ x. 3 ≤ x) m (input, placed.layout.inputs);
                  };
                  sources = All-Permᴰ (λ x. Has x (ids p)) m (present, placed.sources);
                },
                Has-Permᴰ id m (inl refl),
                λ other k q. seat-place id other slots (apart other k q) ∙ q,
              )
        ]
  ]

  unfoldable pub IsInput : MixerSourceSnapshot → Type 0
  IsInput s = Has (source_id s) (ids p) × (s.role ≡ software → 3 ≤ source_id s)

  -- What the second loop makes of `slots` with the sources `rest`.
  unfoldable pub Filled : List (Option ℕ) → List MixerSourceSnapshot → List (Option ℕ) → Type 0
  Filled slots rest next =
      IsPlaced next
      × Keeps slots next
      × All (λ s. s.role ≡ software → Has (source_id s) (taken next)) rest

  pub put_inputs-Filled :
      (rest : List MixerSourceSnapshot) (slots : List (Option ℕ))
      → All IsInput rest
      → IsPlaced slots
      → Filled slots rest (put_inputs slots rest)
  unfolding put_inputs Keeps IsInput Filled
  put_inputs-Filled [] slots known placed = (placed, λ other k q. q, tt)
  put_inputs-Filled (s ∷ rest) slots known placed =
      let role = holds_iff (SourceRole-discrete s.role software) in
      let id = source_id s in
      elim (Bool-cases (same_role s.role software)) [
        | inl e ↦
            let (first, there, moved) =
              put_input-IsPlaced id slots (known.0.1 (role.0 e)) known.0.0 placed in
            let next = put_input slots id in
            let (last, keep, all) = put_inputs-Filled rest next known.1 first in
            let same : put_inputs next rest ≡ put_inputs slots (s ∷ rest) = rw e refl in
            subst (Filled slots (s ∷ rest)) same (
              last,
              λ other k q. keep other k (moved other k q),
              (λ r. Keeps-Has id next (put_inputs next rest) keep there, all),
            )
        | inr e ↦
            let (last, keep, all) = put_inputs-Filled rest slots known.1 placed in
            let same : put_inputs slots rest ≡ put_inputs slots (s ∷ rest) = rw e refl in
            subst (Filled slots (s ∷ rest)) same
              (last, keep, (λ r. absurd (ground (arith, role.1 r)), all))
      ]

  pub software-input :
      (s : MixerSourceSnapshot) → IsSource p.next_source_id s → s.role ≡ software → 3 ≤ source_id s
  software-input s source role = elim (dec_lt (source_id s) 3) [
    | yes low ↦ elim (ℕ_discrete (source_id s) 1) [
      | yes one ↦ absurd (ground (arith, (source.microphone_is one).0))
      | no n ↦ elim (ℕ_discrete (source_id s) 2) [
        | yes two ↦ absurd (ground (arith, (source.system_is two).0))
        | no m ↦ absurd (omega (arith, source.nonzero))
      ]
    ]
    | no high ↦ omega arith
  ]

  pub source_of-Has : (id : ℕ) → (source_of p.sources id ≢ none) ↔ Has id (ids p)
  source_of-Has id = (
    λ n. elim (Option-cases (source_of p.sources id)) [
      | inl q ↦ absurd (n q)
      | inr (s, q) ↦ Has-find source_id (is_source id) id p.sources s (is_source_iff id) q
    ],
    λ h e.
        let (s, q) = find-Has source_id (is_source id) id p.sources (is_source_iff id) h in
        ground arith,
  )

  pub cleared-IsPlaced :
      (slots : List (Option ℕ)) → IsLayout slots → IsPlaced (map (cleared p.sources) slots)
  cleared-IsPlaced slots layout = record {
    layout = record {
      ten = length-cleared p.sources slots ∙ layout.ten;
      once = Unique-cleared p.sources slots layout.once;
      inputs = All-cleared p.sources (λ id. 3 ≤ id) slots layout.inputs;
    };
    sources =
        All-mono (taken (map (cleared p.sources) slots)) (λ id. (source_of-Has id).0)
          (cleared-known p.sources slots);
  }
