-- ===== src/Platform/Inputs/Slots.antt =====
-- The sources that have a slot, as a list, and what clearing and placing does to it.
use mathlib.Core.List.{Permᴰ}
use mathlib.Core.List.Permᴰ.{cons, swap, trans}
use mathlib.Core.List.Permᴰ
use libre_wave.Common.{
  ℕ, suc, ◌≡◌, ◌≢◌, ◌⊎◌, inl, inr, refl, ap, sym, subst, List, [], ◌∷◌, map, true, false, ◌==◌,
  ==_iff, arith, Option, none, some, length, any, position, next_some, All, Unique, Has, Bool-cases,
  Option-cases,
}
use libre_wave.Core.Mixer.{MixerSourceSnapshot, source_of}
use libre_wave.Platform.Inputs.{is_seat, cleared, place}

abbrev pub taken : List (Option ℕ) → List ℕ
taken [] = []
taken (none ∷ rest) = taken rest
taken (some id ∷ rest) = id ∷ taken rest

abbrev pub seat : ℕ → List (Option ℕ) → Option ℕ
seat id slots = position (is_seat id) slots

pub length-place : (id : ℕ) (slots : List (Option ℕ)) → length (place id slots) ≡ length slots
length-place id [] = refl
length-place id (none ∷ rest) = refl
length-place id (some x ∷ rest) = ap suc (length-place id rest)

-- Either all slots are taken, or the source is now among those that have one.
pub place_cases :
    (id : ℕ) (slots : List (Option ℕ))
    → (length (taken slots) ≡ length slots) ⊎ Permᴰ (id ∷ taken slots) (taken (place id slots))
place_cases id [] = inl refl
place_cases id (none ∷ rest) = inr (Permᴰ.refl (id ∷ taken rest))
place_cases id (some x ∷ rest) = elim (place_cases id rest) [
  | inl full ↦ inl (ap suc full)
  | inr p ↦ inr (trans (swap refl refl) (cons refl p))
]

-- Placing a source moves no other.
pub seat-place :
    (id other : ℕ) (slots : List (Option ℕ))
    → id ≢ other
    → seat other (place id slots) ≡ seat other slots
seat-place id other [] n = refl
seat-place id other (none ∷ rest) n = elim (Bool-cases (id == other)) [
  | inl e ↦ absurd (n ((==_iff id other).0 e))
  | inr e ↦ rw e refl
]
seat-place id other (some x ∷ rest) n = elim (Bool-cases (x == other)) [
  | inl e ↦ rw e refl
  | inr e ↦ rw e (ap next_some (seat-place id other rest n))
]

pub any-Has :
    (id : ℕ) (slots : List (Option ℕ)) → any (is_seat id) slots ≡ true → Has id (taken slots)
any-Has id [] e = absurd (ground arith)
any-Has id (none ∷ rest) e = any-Has id rest e
any-Has id (some x ∷ rest) e = elim (Bool-cases (x == id)) [
  | inl q ↦ inl ((==_iff x id).0 q)
  | inr q ↦ inr (any-Has id rest (ground arith))
]

pub Has-seat : (id : ℕ) (slots : List (Option ℕ)) → Has id (taken slots) → seat id slots ≢ none
Has-seat id [] h e = h
Has-seat id (none ∷ rest) h e = elim (Option-cases (seat id rest)) [
  | inl q ↦ Has-seat id rest h q
  | inr (k, q) ↦ absurd (ground arith)
]
Has-seat id (some x ∷ rest) h e = elim (Bool-cases (x == id)) [
  | inl q ↦ absurd (ground arith)
  | inr q ↦ elim h [
    | inl same ↦ absurd (ground (arith, (==_iff x id).1 same))
    | inr later ↦ elim (Option-cases (seat id rest)) [
      | inl r ↦ Has-seat id rest later r
      | inr (k, r) ↦ absurd (ground arith)
    ]
  ]
]

pub seat-Has :
    (id : ℕ) (slots : List (Option ℕ)) {k : ℕ} → seat id slots ≡ some k → Has id (taken slots)
seat-Has id [] e = absurd (ground arith)
seat-Has id (none ∷ rest) e = elim (Option-cases (seat id rest)) [
  | inl q ↦ absurd (ground arith)
  | inr (k, q) ↦ seat-Has id rest q
]
seat-Has id (some x ∷ rest) e = elim (Bool-cases (x == id)) [
  | inl q ↦ inl ((==_iff x id).0 q)
  | inr q ↦ elim (Option-cases (seat id rest)) [
    | inl r ↦ absurd (ground arith)
    | inr (k, r) ↦ inr (seat-Has id rest r)
  ]
]

pub any-false-Has :
    (id : ℕ) (slots : List (Option ℕ))
    → any (is_seat id) slots ≡ false
    → All (λ x. id ≢ x) (taken slots)
any-false-Has id [] e = tt
any-false-Has id (none ∷ rest) e = any-false-Has id rest e
any-false-Has id (some x ∷ rest) e = elim (Bool-cases (x == id)) [
  | inl q ↦ absurd (ground arith)
  | inr q ↦
      (λ same. ground (arith, (==_iff x id).1 (sym same)), any-false-Has id rest (ground arith))
]

module _ (sources : List MixerSourceSnapshot) where
  pub length-cleared :
      (slots : List (Option ℕ)) → length (map (cleared sources) slots) ≡ length slots
  length-cleared [] = refl
  length-cleared (s ∷ rest) = ap suc (length-cleared rest)

  -- Clearing leaves a source that the profile still has where it was.
  pub seat-cleared :
      (id : ℕ) (slots : List (Option ℕ))
      → source_of sources id ≢ none
      → seat id (map (cleared sources) slots) ≡ seat id slots
  seat-cleared id [] n = refl
  seat-cleared id (none ∷ rest) n = ap next_some (seat-cleared id rest n)
  seat-cleared id (some x ∷ rest) n = elim (Option-cases (source_of sources x)) [
    | inl q ↦ elim (Bool-cases (x == id)) [
      | inl e ↦ absurd (n (subst (λ k. source_of sources k ≡ none) ((==_iff x id).0 e) q))
      | inr e ↦ rw (q, e) (ap next_some (seat-cleared id rest n))
    ]
    | inr (s, q) ↦ elim (Bool-cases (x == id)) [
      | inl e ↦ rw (q, e) refl
      | inr e ↦ rw (q, e) (ap next_some (seat-cleared id rest n))
    ]
  ]

  pub All-cleared :
      (P : ℕ → Type 0) (slots : List (Option ℕ))
      → All P (taken slots)
      → All P (taken (map (cleared sources) slots))
  All-cleared P [] h = tt
  All-cleared P (none ∷ rest) h = All-cleared P rest h
  All-cleared P (some x ∷ rest) h = elim (Option-cases (source_of sources x)) [
    | inl q ↦ rw q (All-cleared P rest h.1)
    | inr (s, q) ↦ rw q (h.0, All-cleared P rest h.1)
  ]

  pub Unique-cleared :
      (slots : List (Option ℕ))
      → Unique (taken slots)
      → Unique (taken (map (cleared sources) slots))
  Unique-cleared [] h = tt
  Unique-cleared (none ∷ rest) h = Unique-cleared rest h
  Unique-cleared (some x ∷ rest) h = elim (Option-cases (source_of sources x)) [
    | inl q ↦ rw q (Unique-cleared rest h.1)
    | inr (s, q) ↦ rw q (All-cleared (λ y. x ≢ y) rest h.0, Unique-cleared rest h.1)
  ]

  pub cleared-known :
      (slots : List (Option ℕ))
      → All (λ id. source_of sources id ≢ none) (taken (map (cleared sources) slots))
  cleared-known [] = tt
  cleared-known (none ∷ rest) = cleared-known rest
  cleared-known (some x ∷ rest) = elim (Option-cases (source_of sources x)) [
    | inl q ↦ rw q (cleared-known rest)
    | inr (s, q) ↦ rw q (λ n. cc, cleared-known rest)
  ]
