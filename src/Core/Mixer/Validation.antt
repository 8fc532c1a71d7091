-- ===== src/Core/Mixer/Validation.antt =====
-- `validate` of crates/librewave-core/src/mixer.rs against the invariant.
use libre_wave.Common.{
  ℕ, ◌≤◌, ◌≡◌, ◌≢◌, ◌↔◌, inl, inr, refl, sym, subst, ◌∙◌, List, [], ◌∷◌, map, Bool, true, false,
  not, ◌&&◌, ◌||◌, some, ◌==◌, ==_iff, ltb, leb, arith, holds_iff, length, length-map, All, Unique,
  Has, Option-cases, Result, ok, ◌>>◌, ensure, ℕ_discrete,
}
use libre_wave.Common.Search.Edits.{find-Has, Has-find, All-find, All-mono, All-zip, Has-two}
use libre_wave.Common.Search.Priors.{Apart-nil, find_only}
use libre_wave.Core.InputName.{Text-discrete}
use libre_wave.Core.Applications.{ApplicationAssignment}
use libre_wave.Core.Mixer.{
  SourceRole, microphone, system, SourceRole-discrete, MixerSourceSnapshot, MixerProfile,
  bad_microphone_source, source_count, source_id_exhausted, invalid_assignment, product_sources,
  ProductSource, microphone_name, system_name, source_id, is_source, source_of, validate_source,
  validate_product, validate_sources, no_destination, any_bad_rule, validate,
}
use libre_wave.Core.Mixer.Profile.{
  IsSource, IsFine, IsProfile, ids, application_of, is_source_iff, validate_sources_iff,
  no_destination_iff, any_bad_rule_iff,
}

abbrev IsProduct : List MixerSourceSnapshot → ProductSource → Type 0
IsProduct sources e =
    (s : MixerSourceSnapshot) × (source_of sources e.id ≡ some s)
    × (s.role ≡ e.role)
    × (s.name ≡ e.name)

validate_source_iff :
    (s : MixerSourceSnapshot) (e : ProductSource)
    → source_id s ≡ e.id
    → (validate_source s e ≡ ok tt) ↔ ((s.role ≡ e.role) × (s.name ≡ e.name))
unfolding validate_source
validate_source_iff s e id =
    let role = holds_iff (SourceRole-discrete s.role e.role) in
    let name = holds_iff (Text-discrete s.name e.name) in
    let same = (==_iff (source_id s) e.id).1 id in
    (
      λ h. (role.0 (ground arith), name.0 (ground arith)),
      λ h. let r = role.1 h.0 in let n = name.1 h.1 in ground arith,
    )

validate_product_iff :
    (sources : List MixerSourceSnapshot) (es : List ProductSource)
    → (validate_product sources es ≡ ok tt) ↔ All (IsProduct sources) es
unfolding validate_product
validate_product_iff sources [] = (λ h. tt, λ h. refl)
validate_product_iff sources (e ∷ es) = elim (Option-cases (source_of sources e.id)) [
  | inl n ↦ (λ h. absurd (ground arith), λ h. absurd (ground (arith, h.0.1)))
  | inr (s, found) ↦
      let id : source_id s ≡ e.id = (is_source_iff e.id s).0 (found_passes s found) in
      let one = validate_source_iff s e id in
      let rest = validate_product_iff sources es in
      (
        λ h. let (r, n) = one.0 (ground arith) in ((s, found, r, n), rest.0 (ground arith)),
        λ ((s', found', r, n), later).
            let same : s' ≡ s = ground arith in
            let here = one.1 (
              subst (λ (s : MixerSourceSnapshot). (s.role ≡ e.role) × (s.name ≡ e.name)) same
                (r, n)) in
            let after = rest.1 later in ground arith,
      )
]
  where
    everything : (xs : List MixerSourceSnapshot) → All (λ x. Unit {0}) xs
    everything [] = tt
    everything (x ∷ xs) = (tt, everything xs)

    found_passes :
        (s : MixerSourceSnapshot) → source_of sources e.id ≡ some s → is_source e.id s ≡ true
    found_passes s found =
        (All-find (λ x. Unit {0}) (is_source e.id) sources (everything sources) found).0

abbrev Looks : SourceRole → List ℕ → MixerSourceSnapshot → Type 0
Looks role name s = (s.role ≡ role) × (s.name ≡ name)

-- The microphone and the System source are the only sources with their identities.
sources_sound :
    (next : ℕ) (sources : List MixerSourceSnapshot)
    → Unique (map source_id sources)
    → All (IsProduct sources) product_sources
    → All (IsFine next) sources
    → All (IsSource next) sources
sources_sound next sources unique ((m, m_found, m_role, m_name), ((s, s_found, s_role, s_name), _))
      fine =
    All-mono sources sound (
      All-zip _ _ sources fine (
        All-zip _ _ sources
          (find_only source_id (is_source 1) 1 sources (is_source_iff 1) unique m_found)
          (find_only source_id (is_source 2) 2 sources (is_source_iff 2) unique s_found)))
  where
    sound :
        (x : MixerSourceSnapshot)
        → IsFine next x × ((source_id x ≡ 1 → x ≡ m) × (source_id x ≡ 2 → x ≡ s))
        → IsSource next x
    sound x (f, (is_m, is_s)) = record {
      nonzero = f.nonzero;
      issued = f.issued;
      microphone_is = λ q. subst (Looks microphone microphone_name) (sym (is_m q)) (m_role, m_name);
      system_is = λ q. subst (Looks system system_name) (sym (is_s q)) (s_role, s_name);
      software_is = f.software_is;
    }

-- A source is the microphone exactly when it has its identity.
pub not_microphone :
    (next : ℕ) (s : MixerSourceSnapshot)
    → IsSource next s
    → (s.role ≢ microphone) ↔ (source_id s ≢ 1)
not_microphone next s sound = (
  λ n q. n (sound.microphone_is q).0,
  λ n q. elim (ℕ_discrete (source_id s) 2) [
    | yes p ↦ ground (arith, (sound.system_is p).0)
    | no m ↦
        let big : 3 ≤ source_id s = ground (arith, sound.nonzero) in
        ground (arith, (sound.software_is big).0)
  ],
)

destinations_sound :
    (next : ℕ) (sources : List MixerSourceSnapshot) (rules : List ApplicationAssignment)
    → All (IsSource next) sources
    → All (λ rule. no_destination (source_of sources rule.source) ≡ false) rules
    → All (λ rule. Has rule.source (map source_id sources) × (rule.source ≢ 1)) rules
destinations_sound next sources rules sound = All-mono rules (λ rule h.
    let (s, found, role) = (no_destination_iff sources rule.source).0 h in
    let (passes, ok_) = All-find (IsSource next) (is_source rule.source) sources sound found in
    let id = (is_source_iff rule.source s).0 passes in
    (
      Has-find source_id (is_source rule.source) rule.source sources s (is_source_iff rule.source)
          found,
      λ q. (not_microphone next s ok_).0 role (id ∙ q),
    ))

destinations_found :
    (next : ℕ) (sources : List MixerSourceSnapshot) (rules : List ApplicationAssignment)
    → All (IsSource next) sources
    → All (λ rule. Has rule.source (map source_id sources) × (rule.source ≢ 1)) rules
    → All (λ rule. no_destination (source_of sources rule.source) ≡ false) rules
destinations_found next sources rules sound = All-mono rules (λ rule (has, other).
    let (s, found) =
      find-Has source_id (is_source rule.source) rule.source sources (is_source_iff rule.source)
        has in
    let (passes, ok_) = All-find (IsSource next) (is_source rule.source) sources sound found in
    let id = (is_source_iff rule.source s).0 passes in
    (no_destination_iff sources rule.source).1
      (s, found, (not_microphone next s ok_).1 (λ q. other (sym id ∙ q))))

IsProduct-found :
    (next : ℕ) (sources : List MixerSourceSnapshot) (e : ProductSource)
    → All (IsSource next) sources
    → ((s : MixerSourceSnapshot) → IsSource next s → source_id s ≡ e.id → Looks e.role e.name s)
    → Has e.id (map source_id sources)
    → IsProduct sources e
IsProduct-found next sources e sound looks has =
    let (s, found) = find-Has source_id (is_source e.id) e.id sources (is_source_iff e.id) has in
    let (passes, ok_) = All-find (IsSource next) (is_source e.id) sources sound found in
    let (role, name) = looks s ok_ ((is_source_iff e.id s).0 passes) in (s, found, role, name)

-- The checks of `validate`, one by one.
abbrev Checks : (p : MixerProfile) → Type 0
Checks p =
    (p.microphone_source ≡ 1)
    × (2 ≤ length p.sources)
    × (length p.sources ≤ 12)
    × (validate_product p.sources product_sources ≡ ok tt)
    × (3 ≤ p.next_source_id)
    × (validate_sources p.next_source_id [] p.sources ≡ ok tt)
    × (length p.assignments ≤ 128)
    × (any_bad_rule p.sources [] p.assignments ≡ false)

checks_iff :
    {E : Type 0} (m l n k : ℕ) (bad : Bool) (r s : Result E (Unit {0})) (e f g h : E)
    → ((ensure (m == 1) e
          >> (ensure (leb 2 l && leb l 12) f
              >> (r >> (ensure (not (ltb n 3)) g >> (s >> ensure (not (ltb 128 k || bad)) h)))))
        ≡ ok tt)
      ↔ ((m ≡ 1)
          × (2 ≤ l)
          × (l ≤ 12)
          × (r ≡ ok tt)
          × (3 ≤ n)
          × (s ≡ ok tt)
          × (k ≤ 128)
          × (bad ≡ false))
checks_iff m l n k bad r s e f g h = ground arith

validate-Checks : (p : MixerProfile) → (validate p ≡ ok tt) ↔ Checks p
unfolding validate
validate-Checks p =
    checks_iff p.microphone_source (length p.sources) p.next_source_id (length p.assignments)
      (any_bad_rule p.sources [] p.assignments) (validate_product p.sources product_sources)
      (validate_sources p.next_source_id [] p.sources) bad_microphone_source
      (source_count (length p.sources)) source_id_exhausted invalid_assignment

Checks-IsProfile : (p : MixerProfile) → Checks p → IsProfile p
Checks-IsProfile p (m, two, few, pr, n, so, rules, ru) =
    let product = (validate_product_iff p.sources product_sources).0 pr in
    let (fine, unique, apart) = (validate_sources_iff p.next_source_id [] p.sources).0 so in
    let (destined, single, apart2) = (any_bad_rule_iff p.sources [] p.assignments).0 ru in
    let sound = sources_sound p.next_source_id p.sources unique product fine in
    record {
      microphone_id = m;
      few_sources = few;
      next_id = n;
      unique_ids = unique;
      has_microphone =
          Has-find source_id (is_source 1) 1 p.sources product.0.0 (is_source_iff 1) product.0.1;
      has_system =
          Has-find source_id (is_source 2) 2 p.sources product.1.0.0 (is_source_iff 2)
            product.1.0.1;
      sources = sound;
      few_rules = rules;
      destinations = destinations_sound p.next_source_id p.sources p.assignments sound destined;
      unique_rules = single;
    }

IsProfile-Checks : (p : MixerProfile) → IsProfile p → Checks p
IsProfile-Checks p v = (
  v.microphone_id,
  subst (λ n. 2 ≤ n) (length-map p.sources source_id)
      (Has-two 1 2 (ids p) (λ q. absurd (ground arith)) v.has_microphone v.has_system),
  v.few_sources,
  (validate_product_iff p.sources product_sources).1 (
    IsProduct-found p.next_source_id p.sources _ v.sources (λ s k q. k.microphone_is q)
        v.has_microphone,
    (
      IsProduct-found p.next_source_id p.sources _ v.sources (λ s k q. k.system_is q) v.has_system,
      tt,
    ),
  ),
  v.next_id,
  (validate_sources_iff p.next_source_id [] p.sources).1 (
    All-mono p.sources
        (λ x k. record { nonzero = k.nonzero; issued = k.issued; software_is = k.software_is })
        v.sources,
    v.unique_ids,
    Apart-nil source_id p.sources,
  ),
  v.few_rules,
  (any_bad_rule_iff p.sources [] p.assignments).1 (
    destinations_found p.next_source_id p.sources p.assignments v.sources v.destinations,
    v.unique_rules,
    Apart-nil application_of p.assignments,
  ),
)

-- `validate` accepts a profile exactly when: the microphone is source 1; there are at most 12 sources
-- and 128 rules; source identities are distinct, positive and below the next one to be issued, and 1
-- and 2 are among them; source 1 is the microphone and source 2 is System, by role and name, and all
-- others are software inputs with a valid name; and the rules are for distinct applications, each to a
-- source that is there and is not the microphone.
pub validate_iff : (p : MixerProfile) → (validate p ≡ ok tt) ↔ IsProfile p
validate_iff p =
    let checks = validate-Checks p in
    (λ h. Checks-IsProfile p (checks.0 h), λ v. checks.1 (IsProfile-Checks p v))
