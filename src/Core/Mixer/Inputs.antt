-- ===== src/Core/Mixer/Inputs.antt =====
-- The edits of a mixer profile of crates/librewave-core/src/mixer.rs that add and remove inputs, and
-- the invariant.
use libre_wave.Common.{
  ℕ, ◌+◌, ◌<◌, ◌≤◌, ◌≡◌, ◌≢◌, inl, inr, refl, ap, sym, subst, ◌∙◌, List, [], ◌∷◌, ◌++◌, map, Bool,
  true, not, ◌==◌, ==_iff, arith, holds_iff, length, length-map, length-append, retain, Unique, Has,
  Bool-cases, Option-cases, ok,
}
use libre_wave.Common.Search.Edits.{
  All-append, All-retain, All-mono, All-find, All-map_of, map-append_one, Unique-append_one,
  Has-append, Unique-retain, Has-retain,
}
use libre_wave.Core.InputName.{Text, InputName, is_input_name}
use libre_wave.Core.Applications.{ApplicationAssignment}
use libre_wave.Core.Mixer.{
  software, SourceRole-discrete, MixerSourceSnapshot, MixerProfile, source_id, is_source, source_of,
}
use libre_wave.Core.Mixer.Edits.{
  advance_generation, software_source, with_input, redirect, without_input,
}
use libre_wave.Core.Mixer.Profile.{IsSource, IsProfile, ids, application_of, is_source_iff}
use libre_wave.Core.Mixer.Kept.{advance_generation-IsProfile}

pub IsSource-mono : (m n : ℕ) (s : MixerSourceSnapshot) → m ≤ n → IsSource m s → IsSource n s
IsSource-mono m n s h v = record {
  nonzero = v.nonzero;
  issued = ground (arith, v.issued);
  microphone_is = v.microphone_is;
  system_is = v.system_is;
  software_is = v.software_is;
}

pub software_source-IsSource :
    (n id : ℕ) (name : Text)
    → 3 ≤ id
    → id < n
    → is_input_name name ≡ true
    → IsSource n (software_source id name)
software_source-IsSource n id name big small valid = record {
  nonzero = λ q. absurd (omega arith);
  issued = small;
  microphone_is = λ q. absurd (omega arith);
  system_is = λ q. absurd (omega arith);
  software_is = λ q. (refl, valid);
}

-- The profile before its generation is advanced.
abbrev pub added : MixerProfile → ℕ → InputName → MixerProfile
added p next_id name = record p {
  next_source_id = next_id;
  sources = p.sources ++ (software_source p.next_source_id name.text ∷ []);
}

added-IsProfile :
    (p : MixerProfile) (name : InputName)
    → is_input_name name.text ≡ true
    → length p.sources ≢ 12
    → IsProfile p
    → IsProfile (added p (p.next_source_id + 1) name)
added-IsProfile p name valid room v =
    let new = software_source p.next_source_id name.text in
    let same = map-append_one source_id p.sources new in
    let has = λ (k : ℕ) (h : Has k (ids p)). subst (Has k) (sym same) (Has-append k (ids p) _ h) in
    record {
      microphone_id = v.microphone_id;
      few_sources = omega (arith, length-append p.sources (new ∷ []), v.few_sources, room);
      next_id = omega (arith, v.next_id);
      unique_ids = subst Unique (sym same) (
          Unique-append_one (ids p) p.next_source_id
            (All-map_of (λ k. k ≢ p.next_source_id) source_id p.sources
              (All-mono p.sources (λ s k q. absurd (ground (arith, k.issued))) v.sources))
            v.unique_ids);
      has_microphone = has 1 v.has_microphone;
      has_system = has 2 v.has_system;
      sources =
          All-append (IsSource (p.next_source_id + 1)) p.sources (new ∷ [])
            (All-mono p.sources
              (λ s. IsSource-mono p.next_source_id (p.next_source_id + 1) s (omega arith))
              v.sources)
            (
              software_source-IsSource (p.next_source_id + 1) p.next_source_id name.text v.next_id
                  (omega arith) valid,
              tt,
            );
      few_rules = v.few_rules;
      destinations = All-mono p.assignments (λ rule (h, n). (has rule.source h, n)) v.destinations;
      unique_rules = v.unique_rules;
    }

pub with_input-added :
    (p q : MixerProfile) (name : InputName)
    → with_input p name ≡ ok q
    → (length p.sources ≢ 12)
      × (p.next_source_id + 1 < 65536)
      × (advance_generation (added p (p.next_source_id + 1) name) ≡ ok q)
unfolding with_input
with_input-added p q name e = (ground arith, ground arith, ground arith)

pub with_input-IsProfile :
    (p q : MixerProfile) (name : InputName)
    → is_input_name name.text ≡ true
    → with_input p name ≡ ok q
    → IsProfile p
    → IsProfile q
with_input-IsProfile p q name valid e v =
    let (room, fits, done) = with_input-added p q name e in
    advance_generation-IsProfile (added p (p.next_source_id + 1) name) q done
      (added-IsProfile p name valid room v)

abbrev pub removed : MixerProfile → ℕ → MixerProfile
removed p id = record p {
  sources = retain (λ s. not (is_source id s)) p.sources;
  assignments = map (redirect id) p.assignments;
}

keeps_other : (id : ℕ) (s : MixerSourceSnapshot) → source_id s ≢ id → not (is_source id s) ≡ true
keeps_other id s n = elim (Bool-cases (is_source id s)) [
  | inl t ↦ absurd (n ((is_source_iff id s).0 t))
  | inr t ↦ rw t refl
]

length-retain : {A : Type 0} (test : A → Bool) (xs : List A) → length (retain test xs) ≤ length xs
length-retain test [] = omega arith
length-retain test (x ∷ xs) = elim (Bool-cases (test x)) [
  | inl e ↦ rw e (omega (arith, length-retain test xs))
  | inr e ↦ rw e (omega (arith, length-retain test xs))
]

pub map-redirect :
    (id : ℕ) (rules : List ApplicationAssignment)
    → map application_of (map (redirect id) rules) ≡ map application_of rules
map-redirect id [] = refl
map-redirect id (rule ∷ rules) = elim (Bool-cases (rule.source == id)) [
  | inl e ↦ rw e (ap (λ l. rule.application ∷ l) (map-redirect id rules))
  | inr e ↦ rw e (ap (λ l. rule.application ∷ l) (map-redirect id rules))
]

removed-IsProfile :
    (p : MixerProfile) (id : ℕ) → id ≢ 1 → id ≢ 2 → IsProfile p → IsProfile (removed p id)
removed-IsProfile p id not_one not_two v =
    let test = λ (s : MixerSourceSnapshot). not (is_source id s) in
    let has = λ (k : ℕ) (n : k ≢ id) (h : Has k (ids p)).
      Has-retain source_id test k p.sources (λ s q. keeps_other id s (λ r. n (sym q ∙ r))) h in
    record {
      microphone_id = v.microphone_id;
      few_sources = omega (arith, length-retain test p.sources, v.few_sources);
      next_id = v.next_id;
      unique_ids = Unique-retain source_id test p.sources v.unique_ids;
      has_microphone = has 1 (λ q. not_one (sym q)) v.has_microphone;
      has_system = has 2 (λ q. not_two (sym q)) v.has_system;
      sources = All-retain (IsSource p.next_source_id) test p.sources v.sources;
      few_rules = subst (λ n. n ≤ 128) (sym (length-map p.assignments (redirect id))) v.few_rules;
      destinations =
          All-map_of (λ rule. Has rule.source (ids (removed p id)) × (rule.source ≢ 1))
            (redirect id) p.assignments
            (All-mono p.assignments
              (λ rule (h, n). elim (Bool-cases (rule.source == id)) [
                | inl e ↦
                    rw e (has 2 (λ q. not_two (sym q)) v.has_system, λ q. absurd (ground arith))
                | inr e ↦ rw e (
                  has rule.source (λ q. absurd (ground (arith, (==_iff rule.source id).1 q))) h,
                  n,
                )
              ])
              v.destinations);
      unique_rules = subst Unique (sym (map-redirect id p.assignments)) v.unique_rules;
    }

-- Only a software source can be removed, and it is none of the product sources.
pub without_input-removed :
    (p q : MixerProfile) (id : ℕ)
    → IsProfile p
    → without_input p id ≡ ok q
    → (id ≢ 1) × (id ≢ 2) × (advance_generation (removed p id) ≡ ok q)
unfolding without_input
without_input-removed p q id v e = elim (Option-cases (source_of p.sources id)) [
  | inl none_ ↦ absurd (ground arith)
  | inr (s, found) ↦
      let (passes, sound) =
        All-find (IsSource p.next_source_id) (is_source id) p.sources v.sources found in
      let same = (is_source_iff id s).0 passes in
      let role = (holds_iff (SourceRole-discrete s.role software)).0 (ground arith) in
      (
        λ q. absurd (ground (arith, (sound.microphone_is (same ∙ q)).0)),
        λ q. absurd (ground (arith, (sound.system_is (same ∙ q)).0)),
        ground arith,
      )
]

pub without_input-IsProfile :
    (p q : MixerProfile) (id : ℕ) → without_input p id ≡ ok q → IsProfile p → IsProfile q
without_input-IsProfile p q id e v =
    let (not_one, not_two, done) = without_input-removed p q id v e in
    advance_generation-IsProfile (removed p id) q done (removed-IsProfile p id not_one not_two v)
