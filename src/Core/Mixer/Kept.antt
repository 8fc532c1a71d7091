-- ===== src/Core/Mixer/Kept.antt =====
-- The edits of a mixer profile of crates/librewave-core/src/mixer.rs that change sources or outputs
-- in place, and the invariant.
use libre_wave.Common.{
  ℕ, ◌+◌, ◌≤◌, ◌≡◌, ◌≢◌, inl, inr, refl, ap, sym, subst, ◌∙◌, List, map, Bool, true, ◌&&◌, some,
  arith, holds_iff, length, length-map, All, update, Unique, Has, Option-cases, ok, ◌>>=◌, ok_or,
}
use libre_wave.Common.Search.Edits.{All-update, map-update}
use libre_wave.Core.InputName.{InputName, is_input_name}
use libre_wave.Core.Mixer.{
  FaderGain, MixTarget, monitor, stream, MixRoute, software, same_role, SourceRole-discrete,
  MixerSourceSnapshot, MixerProfile, MixerProfileError, source_id, is_source,
}
use libre_wave.Core.Mixer.Edits.{
  advance_generation, with_sources, set_faders, with_faders, with_output, set_route, with_route,
  renamed,
}
use libre_wave.Core.Mixer.Profile.{IsSource, IsProfile, ids, is_source_iff}

-- The invariant does not speak of the generation or the outputs.
pub IsProfile-same :
    (p q : MixerProfile)
    → q.next_source_id ≡ p.next_source_id
    → q.assignments ≡ p.assignments
    → q.microphone_source ≡ p.microphone_source
    → q.sources ≡ p.sources
    → IsProfile p
    → IsProfile q
IsProfile-same p q n a m s v = record {
  microphone_id = m ∙ v.microphone_id;
  few_sources = subst (λ l. length l ≤ 12) (sym s) v.few_sources;
  next_id = subst (λ k. 3 ≤ k) (sym n) v.next_id;
  unique_ids = subst (λ l. Unique (map source_id l)) (sym s) v.unique_ids;
  has_microphone = subst (λ l. Has 1 (map source_id l)) (sym s) v.has_microphone;
  has_system = subst (λ l. Has 2 (map source_id l)) (sym s) v.has_system;
  sources =
      subst (λ k. All (IsSource k) q.sources) (sym n)
        (subst (All (IsSource p.next_source_id)) (sym s) v.sources);
  few_rules = subst (λ l. length l ≤ 128) (sym a) v.few_rules;
  destinations =
      subst (λ l. All (λ rule. Has rule.source (ids q) × (rule.source ≢ 1)) l) (sym a)
        (subst
          (λ l. All (λ rule. Has rule.source (map source_id l) × (rule.source ≢ 1)) p.assignments)
          (sym s) v.destinations);
  unique_rules = subst (λ l. Unique (map (λ rule. rule.application) l)) (sym a) v.unique_rules;
}

-- A step of the generation, by exactly one.
abbrev pub Steps : MixerProfile → MixerProfile → Type 0
Steps p q = (q ≡ record p { generation = p.generation + 1 })

pub advance_generation-Steps : (p q : MixerProfile) → advance_generation p ≡ ok q → Steps p q
unfolding advance_generation
advance_generation-Steps p q e = ground arith

pub advance_generation-IsProfile :
    (p q : MixerProfile) → advance_generation p ≡ ok q → IsProfile p → IsProfile q
unfolding advance_generation
advance_generation-IsProfile p q e v =
    let s = advance_generation-Steps p q e in
    subst IsProfile (sym s) (IsProfile-same p _ refl refl refl refl v)

pub IsSource-same :
    (next : ℕ) (s t : MixerSourceSnapshot)
    → source_id t ≡ source_id s
    → t.role ≡ s.role
    → t.name ≡ s.name
    → IsSource next s
    → IsSource next t
IsSource-same next s t id role name v = record {
  nonzero = λ q. v.nonzero (sym id ∙ q);
  issued = ground (arith, v.issued);
  microphone_is = λ q. let (a, b) = v.microphone_is (sym id ∙ q) in (role ∙ a, name ∙ b);
  system_is = λ q. let (a, b) = v.system_is (sym id ∙ q) in (role ∙ a, name ∙ b);
  software_is = λ q.
      let (a, b) = v.software_is (subst (λ k. 3 ≤ k) id q) in (role ∙ a, ap is_input_name name ∙ b);
}

-- New sources with the identities of the old ones.
pub with_sources-IsProfile :
    (p : MixerProfile) (sources : List MixerSourceSnapshot)
    → map source_id sources ≡ ids p
    → All (IsSource p.next_source_id) sources
    → IsProfile p
    → IsProfile (with_sources p sources)
with_sources-IsProfile p sources same sound v = record {
  microphone_id = v.microphone_id;
  few_sources =
      subst (λ n. n ≤ 12)
        (sym (length-map p.sources source_id) ∙ sym (ap length same) ∙ length-map sources source_id)
        v.few_sources;
  next_id = v.next_id;
  unique_ids = subst Unique (sym same) v.unique_ids;
  has_microphone = subst (Has 1) (sym same) v.has_microphone;
  has_system = subst (Has 2) (sym same) v.has_system;
  sources = sound;
  few_rules = v.few_rules;
  destinations =
      subst (λ l. All (λ rule. Has rule.source l × (rule.source ≢ 1)) p.assignments) (sym same)
        v.destinations;
  unique_rules = v.unique_rules;
}

pub updated_first :
    (p q : MixerProfile) (test : MixerSourceSnapshot → Bool)
    (f : MixerSourceSnapshot → MixerSourceSnapshot) (error : MixerProfileError)
    → (ok_or (update test f p.sources) error >>= λ l. advance_generation (with_sources p l)) ≡ ok q
    → (sources : List MixerSourceSnapshot) × (update test f p.sources ≡ some sources)
      × (advance_generation (with_sources p sources) ≡ ok q)
updated_first p q test f error e = elim (Option-cases (update test f p.sources)) [
  | inl none_ ↦ absurd (ground arith)
  | inr (sources, some_) ↦ (sources, some_, ground arith)
]

-- An update in place of a source that keeps its identity.
pub update-IsProfile :
    (p q : MixerProfile) (test : MixerSourceSnapshot → Bool)
    (f : MixerSourceSnapshot → MixerSourceSnapshot)
    → ((s : MixerSourceSnapshot) → test s ≡ true → source_id (f s) ≡ source_id s)
    → ((s : MixerSourceSnapshot)
        → test s ≡ true
        → IsSource p.next_source_id s
        → IsSource p.next_source_id (f s))
    → IsProfile p
    → (sources : List MixerSourceSnapshot) → update test f p.sources ≡ some sources
    → advance_generation (with_sources p sources) ≡ ok q
    → IsProfile q
update-IsProfile p q test f id sound v sources e a =
    advance_generation-IsProfile (with_sources p sources) q a (
      with_sources-IsProfile p sources (map-update source_id test f p.sources id e)
        (All-update (IsSource p.next_source_id) test f p.sources sound v.sources e) v)

pub with_faders-IsProfile :
    (p q : MixerProfile) (id : ℕ) (m s : FaderGain)
    → with_faders p id m s ≡ ok q
    → IsProfile p
    → IsProfile q
unfolding with_faders
with_faders-IsProfile p q id m s e v =
    let (sources, found, done) = updated_first p q (is_source id) (set_faders id m s) _ e in
    update-IsProfile p q (is_source id) (set_faders id m s) (λ x t. sym ((is_source_iff id x).0 t))
      (λ x t k.
        IsSource-same p.next_source_id x (set_faders id m s x) (sym ((is_source_iff id x).0 t)) refl
          refl k)
      v sources found done

pub set_route-id :
    (target : MixTarget) (route : MixRoute) (x : MixerSourceSnapshot)
    → source_id (set_route target route x) ≡ source_id x
set_route-id monitor route x = refl
set_route-id stream route x = refl

pub with_route-IsProfile :
    (p q : MixerProfile) (id : ℕ) (target : MixTarget) (route : MixRoute)
    → with_route p id target route ≡ ok q
    → IsProfile p
    → IsProfile q
unfolding with_route
with_route-IsProfile p q id target route e v =
    let (sources, found, done) = updated_first p q (is_source id) (set_route target route) _ e in
    update-IsProfile p q (is_source id) (set_route target route)
      (λ x t. set_route-id target route x)
      (λ x t k.
        IsSource-same p.next_source_id x (set_route target route x) (set_route-id target route x)
          refl refl k)
      v sources found done

pub renamed-IsProfile :
    (p q : MixerProfile) (id : ℕ) (name : InputName)
    → is_input_name name.text ≡ true
    → renamed p id name ≡ ok q
    → IsProfile p
    → IsProfile q
unfolding renamed
renamed-IsProfile p q id name valid e v =
    let (sources, found, done) = updated_first p q test change _ e in
    update-IsProfile p q test change (λ x t. refl) sound v sources found done
  where
    test : MixerSourceSnapshot → Bool
    test s = is_source id s && same_role s.role software

    change : MixerSourceSnapshot → MixerSourceSnapshot
    change s = record s { name = name.text }

    sound :
        (x : MixerSourceSnapshot)
        → test x ≡ true
        → IsSource p.next_source_id x
        → IsSource p.next_source_id (change x)
    sound x t k =
        let role = (holds_iff (SourceRole-discrete x.role software)).0 (ground arith) in
        record {
          nonzero = k.nonzero;
          issued = k.issued;
          microphone_is = λ q. absurd (ground (arith, (k.microphone_is q).0));
          system_is = λ q. absurd (ground (arith, (k.system_is q).0));
          software_is = λ q. (role, valid);
        }

pub with_output-IsProfile :
    (p q : MixerProfile) (target : MixTarget) (route : MixRoute)
    → with_output p target route ≡ ok q
    → IsProfile p
    → IsProfile q
unfolding with_output
with_output-IsProfile p q target route e v =
    advance_generation-IsProfile _ q e (IsProfile-same p _ refl refl refl refl v)
