-- ===== src/Platform/Inputs/Pairs.antt =====
-- `pairs` of crates/librewave-platform-linux/src/audio_host/input_layout.rs lists what `slot` answers.
use libre_wave.Common.{
  ℕ, zero, suc, ◌+◌, ◌≤◌, ◌≡◌, ◌≢◌, inl, inr, refl, ap, sym, ◌∙◌, List, [], ◌∷◌, false, ◌==◌,
  ==_iff, leb, Option, none, some, arith, tests, subst, leb→le, ℕ_discrete, find, Unique,
  Bool-cases, Option-cases,
}
use libre_wave.Platform.Inputs.{InputLayout, slot_source, slot, pairs_from, pairs}
use libre_wave.Platform.Inputs.Slots.{taken, seat, seat-Has}
use libre_wave.Platform.Inputs.Placed.{IsLayout, All-lookup, fixed_slot, free_slot}

abbrev pub at_slot : ℕ → List (ℕ × ℕ) → Option (ℕ × ℕ)
at_slot k pairs = find (λ pair. pair.1 == k) pairs

seat-pairs :
    (id j i k : ℕ) (slots : List (Option ℕ))
    → seat id slots ≡ some i
    → k ≡ j + i + 3
    → at_slot k (pairs_from j slots) ≡ some (id, k)
seat-pairs id j i k [] e here = absurd (ground arith)
seat-pairs id j i k (none ∷ rest) e here = elim (Option-cases (seat id rest)) [
  | inl q ↦ absurd (ground arith)
  | inr (m, q) ↦ seat-pairs id (suc j) m k rest q (ground arith)
]
seat-pairs id j i k (some x ∷ rest) e here = elim (Bool-cases (x == id)) [
  | inl same ↦
      let first : i ≡ 0 = ground arith in
      let x-id = (==_iff x id).0 same in
      let at : j + 3 ≡ k = omega arith in
      let test = (==_iff (j + 3) k).1 at in
      rw test (ap some (ap (λ a. (a, j + 3)) x-id ∙ ap (λ b. (id, b)) at))
  | inr other ↦ elim (Option-cases (seat id rest)) [
    | inl q ↦ absurd (ground arith)
    | inr (m, q) ↦
        let later : i ≡ suc m = ground arith in
        elim (Bool-cases (j + 3 == k)) [
          | inl test ↦ let at = (==_iff (j + 3) k).0 test in absurd (omega arith)
          | inr test ↦ rw test (seat-pairs id (suc j) m k rest q (omega arith))
        ]
  ]
]

pairs-seat :
    (j k : ℕ) (slots : List (Option ℕ)) {q : ℕ × ℕ}
    → Unique (taken slots)
    → at_slot k (pairs_from j slots) ≡ some q
    → (i : ℕ) × (seat q.0 slots ≡ some i) × (k ≡ j + i + 3)
pairs-seat j k [] u e = absurd (ground arith)
pairs-seat j k (none ∷ rest) u e =
    let (i, at, here) = pairs-seat (suc j) k rest u e in (suc i, rw at refl, omega arith)
pairs-seat j k (some x ∷ rest) {q} u e = elim (Bool-cases (j + 3 == k)) [
  | inl test ↦
      let at = (==_iff (j + 3) k).0 test in
      let x-q : x ≡ q.0 = ground arith in (0, rw ((==_iff x (q.0)).1 x-q) refl, omega arith)
  | inr test ↦
      let (i, at, here) = pairs-seat (suc j) k rest {q = q} u.1 (ground arith) in
      let apart = All-lookup (λ y. x ≢ y) (q.0) (taken rest) u.0 (seat-Has (q.0) rest at) in
      elim (Bool-cases (x == q.0)) [
        | inl same ↦ absurd (apart ((==_iff x (q.0)).0 same))
        | inr n ↦ (suc i, rw (n, at) refl, omega arith)
      ]
]

-- The product sources have the first two slots.
fixed_pair :
    (layout : InputLayout) (id : ℕ) → id ≢ 0 → id ≤ 2 → at_slot id (pairs layout) ≡ some (id, id)
unfolding pairs
fixed_pair layout zero nonzero low = absurd (nonzero refl)
fixed_pair layout (suc zero) nonzero low = refl
fixed_pair layout (suc (suc zero)) nonzero low = refl
fixed_pair layout (suc (suc (suc id))) nonzero low = absurd (omega arith)

apart : (a b : ℕ) → b ≢ a → (a == b) ≡ false
apart a b n = elim (Bool-cases (a == b)) [ inl e ↦ absurd (n (sym ((==_iff a b).0 e))) | inr e ↦ e ]

other_pair :
    (layout : InputLayout) (k : ℕ)
    → k ≢ 1
    → k ≢ 2
    → at_slot k (pairs layout) ≡ at_slot k (pairs_from 0 layout.slots)
unfolding pairs
other_pair layout k n m = let one = apart 1 k n in let two = apart 2 k m in rw (one, two) refl

-- A source with a slot is paired with it.
pub slot-pairs :
    (layout : InputLayout) (id k : ℕ)
    → id ≢ 0
    → slot layout id ≡ some k
    → at_slot k (pairs layout) ≡ some (id, k)
slot-pairs layout id k nonzero at = elim (Bool-cases (leb id 2)) [
  | inl low ↦
      let same : id ≡ k = ground (arith, fixed_slot layout id low) in
      subst (λ k. at_slot k (pairs layout) ≡ some (id, k)) same
        (fixed_pair layout id nonzero (leb→le id 2 low))
  | inr high ↦ elim (Option-cases (seat id layout.slots)) [
    | inl q ↦ absurd (ground (arith, free_slot layout id high))
    | inr (i, q) ↦
        let here : k ≡ i + 3 = ground (arith, free_slot layout id high) in
        other_pair layout k (omega arith) (omega arith)
        ∙ seat-pairs id 0 i k layout.slots q (omega arith)
  ]
]

-- A pair is a source with its slot.
pub pairs-slot :
    (layout : InputLayout) (k : ℕ) {q : ℕ × ℕ}
    → IsLayout layout.slots
    → at_slot k (pairs layout) ≡ some q
    → slot layout q.0 ≡ some k
pairs-slot layout k {q} fine e = elim (ℕ_discrete k 1) [
  | yes one ↦ product one (omega arith, omega arith)
  | no n ↦ elim (ℕ_discrete k 2) [
    | yes two ↦ product two (omega arith, omega arith)
    | no m ↦
        let (i, at, here) =
          pairs-seat 0 k layout.slots {q = q} fine.once (sym (other_pair layout k n m) ∙ e) in
        let input =
          All-lookup (λ x. 3 ≤ x) (q.0) (taken layout.slots) fine.inputs
            (seat-Has (q.0) layout.slots at) in
        free_slot layout (q.0) (grind tests) ∙ ap slot_source at ∙ ap some (omega arith)
  ]
]
  where
    product : {n : ℕ} → k ≡ n → (1 ≤ n) × (n ≤ 2) → slot layout q.0 ≡ some k
    product h between =
        let same : k ≡ q.0 = ground (arith, fixed_pair layout k (omega arith) (omega arith)) in
        fixed_slot layout (q.0) (grind tests) ∙ ap some (sym same)
