-- ===== src/Core/Mixer/Removal.antt =====
-- What the removal of an input of crates/librewave-core/src/mixer.rs does to the sources and the rules.
use mathlib.Core.Option
use libre_wave.Common.{
  ℕ, ◌≡◌, ◌≢◌, inl, inr, refl, ap, sym, ◌∙◌, List, map, not, none, some, arith, find, Bool-cases,
  ok, ==_iff, ◌==◌, [], ◌∷◌,
}
use libre_wave.Common.Search.Found.{find-retain, find-retain-none}
use libre_wave.Core.Applications.{ApplicationId, ApplicationAssignment, same_application}
use libre_wave.Core.Mixer.{MixerSourceSnapshot, MixerProfile, is_source, source_of}
use libre_wave.Core.Mixer.Edits.{redirect, without_input}
use libre_wave.Core.Mixer.Profile.{IsProfile, application_of, is_source_iff}
use libre_wave.Core.Mixer.Kept.{advance_generation-Steps}
use libre_wave.Core.Mixer.Inputs.{map-redirect, removed, without_input-removed}
use libre_wave.Core.Mixer.Lookup.{other_source, rule_of}

-- A rule to the input leads to System now, another one stays, and either keeps its application.
redirected :
    (id : ℕ) (rule : ApplicationAssignment) → rule.source ≡ id → (redirect id rule).source ≡ 2
redirected id rule e = let t = (==_iff rule.source id).1 e in rw t refl

undirected : (id : ℕ) (rule : ApplicationAssignment) → rule.source ≢ id → redirect id rule ≡ rule
undirected id rule n = elim (Bool-cases (rule.source == id)) [
  | inl t ↦ absurd (n ((==_iff rule.source id).0 t))
  | inr t ↦ rw t refl
]

redirect-application :
    (id : ℕ) (rule : ApplicationAssignment)
    → application_of (redirect id rule) ≡ application_of rule
redirect-application id rule = elim (Bool-cases (rule.source == id)) [
  | inl t ↦ rw t refl
  | inr t ↦ rw t refl
]

-- What a look-up finds after the rules were redirected
rule_of-redirect :
    (id : ℕ) (rules : List ApplicationAssignment) (application : ApplicationId)
    → rule_of (map (redirect id) rules) application
      ≡ Option.map (redirect id) (rule_of rules application)
rule_of-redirect id [] a = refl
rule_of-redirect id (rule ∷ rest) a =
    let same = ap (λ x. same_application x a) (redirect-application id rule) in
    elim (Bool-cases (same_application rule.application a)) [
      | inl t ↦ rw (same ∙ t, t) refl
      | inr t ↦ rw (same ∙ t, t) (rule_of-redirect id rest a)
    ]

-- Removing an input of a valid profile. No source has its identity any more, and every other source is
-- found as before. A look-up of an application that had a rule to the input now finds that it is sent
-- to System, the source 2; one that had a rule to another source finds that rule, and one that had no
-- rule finds none. The rules are for the same applications in the same order, and the outputs and the
-- next identity stay.
pub without_input_lem :
    (p q : MixerProfile) (id : ℕ)
    → IsProfile p
    → without_input p id ≡ ok q
    → (source_of q.sources id ≡ none)
      × ((k : ℕ) → id ≢ k → source_of q.sources k ≡ source_of p.sources k)
      × ((application : ApplicationId) (rule : ApplicationAssignment)
          → rule_of p.assignments application ≡ some rule
          → rule.source ≡ id
          → Option.map (λ rule. rule.source) (rule_of q.assignments application) ≡ some 2)
      × ((application : ApplicationId) (rule : ApplicationAssignment)
          → rule_of p.assignments application ≡ some rule
          → rule.source ≢ id
          → rule_of q.assignments application ≡ some rule)
      × ((application : ApplicationId)
          → rule_of p.assignments application ≡ none
          → rule_of q.assignments application ≡ none)
      × (map application_of q.assignments ≡ map application_of p.assignments)
      × (q.outputs ≡ p.outputs)
      × (q.next_source_id ≡ p.next_source_id)
without_input_lem p q id v e =
    let step = advance_generation-Steps (removed p id) q (without_input-removed p q id v e).2 in
    let same = ap (λ (q : MixerProfile). q.sources) step in
    let rules = ap (λ (q : MixerProfile). q.assignments) step in
    let test = λ (s : MixerSourceSnapshot). not (is_source id s) in
    let looked : (a : ApplicationId)
        → rule_of q.assignments a ≡ Option.map (redirect id) (rule_of p.assignments a) =
      λ a. ap (λ l. rule_of l a) rules ∙ rule_of-redirect id p.assignments a in
    (
      ap (find (is_source id)) same
          ∙ find-retain-none (is_source id) test p.sources (λ s t. ground arith),
      λ k n.
          ap (find (is_source k)) same
          ∙ find-retain (is_source k) test p.sources
              (λ s t. ap not (other_source k id s (λ q. n (sym q)) ((is_source_iff k s).0 t))),
      λ a rule found to.
          ap (Option.map (λ rule. rule.source)) (looked a ∙ ap (Option.map (redirect id)) found)
          ∙ ap some (redirected id rule to),
      λ a rule found to.
          looked a ∙ ap (Option.map (redirect id)) found ∙ ap some (undirected id rule to),
      λ a found. looked a ∙ ap (Option.map (redirect id)) found,
      ap (map application_of) rules ∙ map-redirect id p.assignments,
      ap (λ (q : MixerProfile). q.outputs) step,
      ap (λ (q : MixerProfile). q.next_source_id) step,
    )
