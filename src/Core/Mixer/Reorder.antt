-- ===== src/Core/Mixer/Reorder.antt =====
-- `moved` and `assigned` of crates/librewave-core/src/mixer.rs: the order of the inputs, and the
-- saved rules.
use mathlib.Core.List.{Permᴰ}
use libre_wave.Common.{
  ℕ, ◌+◌, ◌≤◌, ◌≡◌, inl, inr, ap, sym, subst, ◌∙◌, List, Option, some, arith, length, get_elem?,
  position, remove, insert, Option-cases, ok, >>-eq-ok,
}
use libre_wave.Common.Search.Order.{
  insert-Permᴰ, remove-Permᴰ, remove-total, position_lem, get_elem?-insert, length-Permᴰ, All-Permᴰ,
  Unique-Permᴰ, Has-Permᴰ, map-Permᴰ,
}
use libre_wave.Common.Search.Edits.{All-mono}
use libre_wave.Core.Applications.{ApplicationId}
use libre_wave.Core.Mixer.{MixerSourceSnapshot, MixerProfile, source_id, is_source, validate}
use libre_wave.Core.Mixer.Edits.{
  advance_generation, with_sources, reinserted, moved, with_rule, assigned,
}
use libre_wave.Core.Mixer.Profile.{IsSource, IsProfile, is_source_iff}
use libre_wave.Core.Mixer.Validation.{validate_iff}
use libre_wave.Core.Mixer.Kept.{advance_generation-Steps, advance_generation-IsProfile}

permuted-IsProfile :
    (p : MixerProfile) (sources : List MixerSourceSnapshot)
    → Permᴰ p.sources sources
    → IsProfile p
    → IsProfile (with_sources p sources)
permuted-IsProfile p sources perm v =
    let keys = map-Permᴰ source_id perm in
    record {
      microphone_id = v.microphone_id;
      few_sources = subst (λ n. n ≤ 12) (length-Permᴰ perm) v.few_sources;
      next_id = v.next_id;
      unique_ids = Unique-Permᴰ keys v.unique_ids;
      has_microphone = Has-Permᴰ 1 keys v.has_microphone;
      has_system = Has-Permᴰ 2 keys v.has_system;
      sources = All-Permᴰ (IsSource p.next_source_id) perm v.sources;
      few_rules = v.few_rules;
      destinations =
          All-mono p.assignments (λ rule (h, n). (Has-Permᴰ rule.source keys h, n)) v.destinations;
      unique_rules = v.unique_rules;
    }

pub moved-reinserted :
    (p q : MixerProfile) (id to : ℕ)
    → moved p id to ≡ ok q
    → (i : ℕ) × (s : MixerSourceSnapshot) × (rest : List MixerSourceSnapshot) × (remove p.sources i
        ≡ some (s, rest))
      × (source_id s ≡ id)
      × (to ≤ length rest)
      × (advance_generation (with_sources p (insert rest to s)) ≡ ok q)
unfolding moved reinserted
moved-reinserted p q id to e = elim (Option-cases (position (is_source id) p.sources)) [
  | inl none_ ↦ absurd (ground arith)
  | inr (i, found) ↦
      let (s, at, passes, small) = position_lem (is_source id) p.sources found in
      let (a, rest, took, at', long) = remove-total p.sources i small in
      let same : s ≡ a = ground arith in
      (
        i,
        a,
        rest,
        took,
        ap source_id (sym same) ∙ (is_source_iff id s).0 passes,
        ground arith,
        ground arith,
      )
]

-- A successful move: the source with that identity now stands at the position asked for, the sources
-- are the same but for their order, and nothing else changes but the generation, by one.
pub moved_lem :
    (p q : MixerProfile) (id to : ℕ)
    → moved p id to ≡ ok q
    → (s : MixerSourceSnapshot) × (source_id s ≡ id)
      × (get_elem? q.sources to ≡ some s)
      × Permᴰ p.sources q.sources
      × (q ≡ record p { sources = q.sources; generation = p.generation + 1 })
moved_lem p q id to e =
    let (i, s, rest, took, key, small, done) = moved-reinserted p q id to e in
    let step = advance_generation-Steps (with_sources p (insert rest to s)) q done in
    let there : q.sources ≡ insert rest to s = ap (λ (q : MixerProfile). q.sources) step in
    (
      s,
      key,
      ap (λ l. get_elem? l to) there ∙ get_elem?-insert rest to s small,
      subst (Permᴰ p.sources) (sym there)
          (Permᴰ.trans (remove-Permᴰ p.sources i took) (insert-Permᴰ rest to s)),
      subst (λ l. q ≡ record p { sources = l; generation = p.generation + 1 }) (sym there) step,
    )

pub moved-IsProfile :
    (p q : MixerProfile) (id to : ℕ) → moved p id to ≡ ok q → IsProfile p → IsProfile q
moved-IsProfile p q id to e v =
    let (i, s, rest, took, key, small, done) = moved-reinserted p q id to e in
    advance_generation-IsProfile (with_sources p (insert rest to s)) q done (
      permuted-IsProfile p (insert rest to s)
        (Permᴰ.trans (remove-Permᴰ p.sources i took) (insert-Permᴰ rest to s)) v)

-- `assigned` validates its result, so the invariant holds of it whatever the profile was.
pub assigned-IsProfile :
    (p q : MixerProfile) (application : ApplicationId) (source : Option ℕ)
    → assigned p application source ≡ ok q
    → IsProfile q
unfolding assigned
assigned-IsProfile p q application source e =
    let (allowed, later) = >>-eq-ok _ _ e in
    let (valid, done) = >>-eq-ok (validate (with_rule p application source)) _ later in
    advance_generation-IsProfile (with_rule p application source) q done
      ((validate_iff (with_rule p application source)).0 valid)
