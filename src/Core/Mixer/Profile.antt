-- ===== src/Core/Mixer/Profile.antt =====
-- The invariant of a mixer profile of crates/librewave-core/src/mixer.rs, stated entry by entry, and
-- the loops of `validate`.
use libre_wave.Common.{
  ℕ, ◌<◌, ◌≤◌, ◌≡◌, ◌≢◌, ◌↔◌, inl, inr, refl, ap, sym, ◌∙◌, List, [], ◌∷◌, map, true, false, some,
  ==_iff, leb, arith, holds_iff, length, All, any, Unique, Has, Bool-cases, Option-cases, ok,
}
use libre_wave.Common.Search.Priors.{any-false_iff, Apart, Apart-cons_iff}
use libre_wave.Core.InputName.{is_input_name}
use libre_wave.Core.Applications.{
  ApplicationId, ApplicationAssignment, ApplicationId-discrete, same_application,
}
use libre_wave.Core.Mixer.{
  microphone, system, software, same_role, SourceRole-discrete, MixerSourceSnapshot, MixerProfile,
  microphone_name, system_name, source_id, is_source, source_of, bad_source, validate_sources,
  no_destination, is_rule_of, any_bad_rule,
}

-- The product sources have their role and name; any other is a software input with a valid name.
pub record IsSource (next : ℕ) (s : MixerSourceSnapshot) : Type 0 where
  pub nonzero : source_id s ≢ 0
  pub issued : source_id s < next
  pub microphone_is : source_id s ≡ 1 → (s.role ≡ microphone) × (s.name ≡ microphone_name)
  pub system_is : source_id s ≡ 2 → (s.role ≡ system) × (s.name ≡ system_name)
  pub software_is : 3 ≤ source_id s → (s.role ≡ software) × (is_input_name s.name ≡ true)

abbrev pub ids : MixerProfile → List ℕ
ids p = map source_id p.sources

abbrev pub application_of : ApplicationAssignment → ApplicationId
application_of rule = rule.application

pub record IsProfile (p : MixerProfile) : Type 0 where
  pub microphone_id : p.microphone_source ≡ 1
  pub few_sources : length p.sources ≤ 12
  pub next_id : 3 ≤ p.next_source_id
  pub unique_ids : Unique (ids p)
  pub has_microphone : Has 1 (ids p)
  pub has_system : Has 2 (ids p)
  pub sources : All (IsSource p.next_source_id) p.sources
  pub few_rules : length p.assignments ≤ 128
  pub destinations : All (λ rule. Has rule.source (ids p) × (rule.source ≢ 1)) p.assignments
  pub unique_rules : Unique (map application_of p.assignments)

pub is_source_iff :
    (id : ℕ) (s : MixerSourceSnapshot) → (is_source id s ≡ true) ↔ (source_id s ≡ id)
is_source_iff id s = ==_iff (source_id s) id

pub record IsFine (next : ℕ) (s : MixerSourceSnapshot) : Type 0 where
  pub nonzero : source_id s ≢ 0
  pub issued : source_id s < next
  pub software_is : 3 ≤ source_id s → (s.role ≡ software) × (is_input_name s.name ≡ true)

bad_source_iff :
    (next : ℕ) (prior : List MixerSourceSnapshot) (s : MixerSourceSnapshot)
    → (bad_source next prior s ≡ false)
      ↔ (IsFine next s × All (λ p. source_id p ≢ source_id s) prior)
unfolding SourceRole-discrete
bad_source_iff next prior s =
    let priors =
      any-false_iff (is_source (source_id s)) (λ p. source_id p ≡ source_id s) prior
        (is_source_iff (source_id s)) in
    (
      λ h. (
        record { nonzero = ground arith; issued = ground arith; software_is = λ q. ground arith },
        priors.0 (ground arith),
      ),
      λ h. back h.0 (priors.1 h.1),
    )
  where
    back :
        IsFine next s
        → any (is_source (source_id s)) prior ≡ false
        → bad_source next prior s ≡ false
    back fine apart = elim (Bool-cases (leb 3 (source_id s))) [
      | inl t ↦ ground (arith, fine.nonzero, fine.issued, fine.software_is)
      | inr t ↦ ground (arith, fine.nonzero, fine.issued)
    ]

pub validate_sources_iff :
    (next : ℕ) (prior rest : List MixerSourceSnapshot)
    → (validate_sources next prior rest ≡ ok tt)
      ↔ (All (IsFine next) rest × Unique (map source_id rest) × Apart source_id prior rest)
unfolding validate_sources
validate_sources_iff next prior [] = (λ h. (tt, tt, tt), λ h. refl)
validate_sources_iff next prior (s ∷ rest) =
    let here = bad_source_iff next prior s in
    let there = validate_sources_iff next (s ∷ prior) rest in
    let split = Apart-cons_iff source_id s prior rest in
    elim (Bool-cases (bad_source next prior s)) [
      | inl e ↦ (λ h. absurd (ground arith), λ h. absurd (ground (arith, here.1 (h.0.0, h.2.0))))
      | inr e ↦ (
        λ h.
            let (fine, unique, apart) = there.0 (ground arith) in
            let (new, old) = split.0 apart in
            ((((here.0 e).0, fine)), (new, unique), ((here.0 e).1, old)),
        λ h. rw e (there.1 (h.0.1, h.1.1, split.1 (h.1.0, h.2.1))),
      )
    ]

pub same_application_iff : (a b : ApplicationId) → (same_application a b ≡ true) ↔ (a ≡ b)
same_application_iff a b = holds_iff (ApplicationId-discrete a b)

-- A rule has a destination when its source is there and is no microphone.
pub no_destination_iff :
    (sources : List MixerSourceSnapshot) (id : ℕ)
    → (no_destination (source_of sources id) ≡ false)
      ↔ ((s : MixerSourceSnapshot) × (source_of sources id ≡ some s) × (s.role ≢ microphone))
no_destination_iff sources id = elim (Option-cases (source_of sources id)) [
  | inl e ↦ (λ h. absurd (ground arith), λ h. absurd (ground (arith, h.1)))
  | inr (s, e) ↦
      let role = holds_iff (SourceRole-discrete s.role microphone) in
      (
        λ h. (s, e, λ q. absurd (ground (arith, role.1 q))),
        λ (s', e', n).
            let same : s ≡ s' = ground arith in
            elim (Bool-cases (same_role s.role microphone)) [
              | inl t ↦ absurd (n (sym (ap (λ (s : MixerSourceSnapshot). s.role) same) ∙ role.0 t))
              | inr t ↦ ground arith
            ],
      )
]

pub any_bad_rule_iff :
    (sources : List MixerSourceSnapshot) (prior rest : List ApplicationAssignment)
    → (any_bad_rule sources prior rest ≡ false) ↔ (
        All (λ rule. no_destination (source_of sources rule.source) ≡ false) rest
        × Unique (map application_of rest)
        × Apart application_of prior rest)
unfolding any_bad_rule
any_bad_rule_iff sources prior [] = (λ h. (tt, tt, tt), λ h. refl)
any_bad_rule_iff sources prior (rule ∷ rest) =
    let priors =
      any-false_iff (is_rule_of rule) (λ p. p.application ≡ rule.application) prior
        (λ p. same_application_iff p.application rule.application) in
    let there = any_bad_rule_iff sources (rule ∷ prior) rest in
    let split = Apart-cons_iff application_of rule prior rest in
    (
      λ h.
          let (fine, unique, apart) = there.0 (ground arith) in
          let (new, old) = split.0 apart in
          ((ground arith, fine), ((new, unique)), (priors.0 (ground arith), old)),
      λ h.
          let later = there.1 (h.0.1, h.1.1, split.1 (h.1.0, h.2.1)) in
          let here = h.0.0 in let before = priors.1 h.2.0 in ground arith,
    )
