-- ===== src/Core/Mixer/Lookup.antt =====
-- What the edits of crates/librewave-core/src/mixer.rs change and what they leave, as seen by looking
-- a source or a rule up.
use mathlib.Core.Option
use libre_wave.Common.{
  ℕ, ◌+◌, ◌≡◌, ◌≢◌, inl, inr, refl, ap, sym, ◌∙◌, List, false, not, Option, none, some, arith, find,
  Bool-cases, ok, >>-eq-ok,
}
use libre_wave.Common.Search.Found.{
  find-retain, find-retain-none, find-append_none, find-append_other, find-update_self,
  find-update_ne,
}
use libre_wave.Core.Applications.{ApplicationId, ApplicationAssignment, same_application}
use libre_wave.Core.Mixer.{
  MixTarget, monitor, stream, MixRoute, source_route, MixerSourceSnapshot, MixerProfile, source_id,
  is_source, source_of, validate,
}
use libre_wave.Core.Mixer.Edits.{with_sources, set_route, with_route, new_rule, with_rule, assigned}
use libre_wave.Core.Mixer.Profile.{is_source_iff, same_application_iff}
use libre_wave.Core.Mixer.Kept.{advance_generation-Steps, updated_first, set_route-id}

-- The test for one source fails on another.
pub other_source :
    (id k : ℕ) (s : MixerSourceSnapshot) → id ≢ k → source_id s ≡ id → is_source k s ≡ false
other_source id k s n e = elim (Bool-cases (is_source k s)) [
  | inl t ↦ absurd (n (sym e ∙ (is_source_iff k s).0 t))
  | inr t ↦ t
]

set_route-route :
    (target : MixTarget) (route : MixRoute) (s : MixerSourceSnapshot)
    → (source_route (set_route target route s).controls target ≡ route)
      × ((other : MixTarget)
          → target ≢ other
          → source_route (set_route target route s).controls other ≡ source_route s.controls other)
set_route-route monitor route s = (refl, other_route)
  where
    other_route :
        (other : MixTarget)
        → monitor ≢ other
        → source_route (set_route monitor route s).controls other ≡ source_route s.controls other
    other_route monitor n = absurd (n refl)
    other_route stream n = refl
set_route-route stream route s = (refl, other_route)
  where
    other_route :
        (other : MixTarget)
        → stream ≢ other
        → source_route (set_route stream route s).controls other ≡ source_route s.controls other
    other_route monitor n = refl
    other_route stream n = absurd (n refl)

-- Setting a route succeeds only on a source that is there. The source then has that route to the
-- target and its old route to the other one, with its role and name; all other sources, the rules and
-- the outputs are as before.
pub with_route_lem :
    (p q : MixerProfile) (id : ℕ) (target : MixTarget) (route : MixRoute)
    → with_route p id target route ≡ ok q
    → (s : MixerSourceSnapshot) × (t : MixerSourceSnapshot) × (source_of p.sources id ≡ some s)
      × (source_of q.sources id ≡ some t)
      × (source_route t.controls target ≡ route)
      × ((other : MixTarget)
          → target ≢ other
          → source_route t.controls other ≡ source_route s.controls other)
      × (t.role ≡ s.role)
      × (t.name ≡ s.name)
      × ((k : ℕ) → id ≢ k → source_of q.sources k ≡ source_of p.sources k)
      × (q.assignments ≡ p.assignments)
      × (q.outputs ≡ p.outputs)
unfolding with_route
with_route_lem p q id target route e =
    let (sources, found, done) = updated_first p q (is_source id) (set_route target route) _ e in
    let step = advance_generation-Steps (with_sources p sources) q done in
    let same : q.sources ≡ sources = ap (λ (q : MixerProfile). q.sources) step in
    let (s, before, after) =
      find-update_self (is_source id) (set_route target route) p.sources
        (λ x t.
          (is_source_iff id (set_route target route x)).1
            (set_route-id target route x ∙ (is_source_iff id x).0 t))
        found in
    let (set_, kept) = set_route-route target route s in
    (
      s,
      set_route target route s,
      before,
      ap (find (is_source id)) same ∙ after,
      set_,
      kept,
      refl,
      refl,
      λ k n.
          ap (find (is_source k)) same
          ∙ find-update_ne (is_source k) (is_source id) (set_route target route) p.sources
              (λ x t. other_source id k x n ((is_source_iff id x).0 t))
              (λ x t.
                other_source id k (set_route target route x) n
                  (set_route-id target route x ∙ (is_source_iff id x).0 t))
              found,
      ap (λ (q : MixerProfile). q.assignments) step,
      ap (λ (q : MixerProfile). q.outputs) step,
    )

abbrev pub rule_of : List ApplicationAssignment → ApplicationId → Option ApplicationAssignment
rule_of rules application = find (λ rule. same_application rule.application application) rules

other_application : (a b c : ApplicationId) → a ≢ b → c ≡ a → same_application c b ≡ false
other_application a b c n e = elim (Bool-cases (same_application c b)) [
  | inl t ↦ absurd (n (sym e ∙ (same_application_iff c b).0 t))
  | inr t ↦ t
]

assigned-Steps :
    (p q : MixerProfile) (application : ApplicationId) (source : Option ℕ)
    → assigned p application source ≡ ok q
    → q ≡ record (with_rule p application source) { generation = p.generation + 1 }
unfolding assigned
assigned-Steps p q application source e =
    let (allowed, later) = >>-eq-ok _ _ e in
    let (valid, done) = >>-eq-ok (validate (with_rule p application source)) _ later in
    advance_generation-Steps (with_rule p application source) q done

rule_of-with_rule_ne :
    (p : MixerProfile) (a b : ApplicationId) (source : Option ℕ)
    → a ≢ b
    → rule_of (with_rule p a source).assignments b ≡ rule_of p.assignments b
rule_of-with_rule_ne p a b source n =
    find-append_other (λ rule. same_application rule.application b) _ (new_rule a source)
      (unmatched source)
    ∙ find-retain (λ rule. same_application rule.application b) _ p.assignments
        (λ rule t. ap not (
          other_application b a rule.application (λ q. n (sym q))
            ((same_application_iff rule.application b).0 t)))
  where
    unmatched : (source : Option ℕ) → rule_of (new_rule a source) b ≡ none
    unmatched none = refl
    unmatched (some id) = rw (other_application a b a n refl) refl

rule_of-with_rule_self :
    (p : MixerProfile) (a : ApplicationId) (source : Option ℕ)
    → Option.map (λ rule. rule.source) (rule_of (with_rule p a source).assignments a) ≡ source
rule_of-with_rule_self p a source =
    ap (Option.map (λ rule. rule.source)) (
      find-append_none (λ rule. same_application rule.application a) _ (new_rule a source)
        (find-retain-none (λ rule. same_application rule.application a) _ p.assignments
          (λ rule t. ground arith)))
    ∙ found source
  where
    found :
        (source : Option ℕ)
        → Option.map (λ rule. rule.source) (rule_of (new_rule a source) a) ≡ source
    found none = refl
    found (some id) = rw ((same_application_iff a a).1 refl) refl

-- Saving a rule: a look-up of the application finds it, and finds none if the rule was removed; the
-- rules of all other applications are found as before; the sources and the outputs stay.
pub assigned_lem :
    (p q : MixerProfile) (application : ApplicationId) (source : Option ℕ)
    → assigned p application source ≡ ok q
    → (Option.map (λ rule. rule.source) (rule_of q.assignments application) ≡ source)
      × ((other : ApplicationId)
          → application ≢ other
          → rule_of q.assignments other ≡ rule_of p.assignments other)
      × (q.sources ≡ p.sources)
      × (q.outputs ≡ p.outputs)
assigned_lem p q application source e =
    let step = assigned-Steps p q application source e in
    let same = ap (λ (q : MixerProfile). q.assignments) step in
    (
      ap (λ l. Option.map (λ rule. rule.source) (rule_of l application)) same
          ∙ rule_of-with_rule_self p application source,
      λ other n. ap (λ l. rule_of l other) same ∙ rule_of-with_rule_ne p application other source n,
      ap (λ (q : MixerProfile). q.sources) step,
      ap (λ (q : MixerProfile). q.outputs) step,
    )
