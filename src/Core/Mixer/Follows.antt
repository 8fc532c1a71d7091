-- ===== src/Core/Mixer/Follows.antt =====
-- What every edit of a mixer profile of crates/librewave-core/src/mixer.rs does to its generation and
-- to the identities of its sources.
use mathlib.Core.List.{Permᴰ}
use mathlib.Core.List.Permᴰ
use libre_wave.Common.{
  ℕ, ◌+◌, ◌≤◌, ◌≡◌, ◌⊎◌, inl, inr, refl, ap, sym, subst, List, [], ◌∷◌, ◌++◌, map, Bool, true,
  false, not, Option, arith, insert, retain, update, Has, Bool-cases, ok, ◌>>=◌, >>-eq-ok, ok_or,
}
use libre_wave.Common.Search.Edits.{map-update, map-append_one}
use libre_wave.Common.Search.Order.{insert-Permᴰ, remove-Permᴰ, Has-Permᴰ, map-Permᴰ}
use libre_wave.Core.InputName.{InputName}
use libre_wave.Core.Applications.{ApplicationId}
use libre_wave.Core.Mixer.{
  MixerSourceSnapshot, MixerProfile, MixerProfileError, source_id, is_source, validate,
}
use libre_wave.Core.Mixer.Edits.{
  advance_generation, with_sources, with_input, without_input, moved, with_rule, assigned,
}
use libre_wave.Core.Mixer.Defaults.{DefaultInput, defaults, reset}
use libre_wave.Core.Mixer.Profile.{IsProfile, ids}
use libre_wave.Core.Mixer.Kept.{advance_generation-Steps, updated_first}
use libre_wave.Core.Mixer.Inputs.{added, with_input-added, removed, without_input-removed}
use libre_wave.Core.Mixer.Reorder.{moved-reinserted}
use libre_wave.Core.Mixer.FirstRun.{own_ids, ids-defaults, reset-defaults}

-- `q` follows `p`: the generation has advanced by one, and a source of `q` is one of `p` or has an
-- identity that was not issued before.
pub record Follows (p q : MixerProfile) : Type 0 where
  pub generation : q.generation ≡ p.generation + 1
  pub issued : p.next_source_id ≤ q.next_source_id
  pub from : (k : ℕ) → Has k (ids q) → Has k (ids p) ⊎ (p.next_source_id ≤ k)

pub advance_generation-Follows :
    (p n q : MixerProfile)
    → advance_generation n ≡ ok q
    → n.generation ≡ p.generation
    → p.next_source_id ≤ n.next_source_id
    → ((k : ℕ) → Has k (ids n) → Has k (ids p) ⊎ (p.next_source_id ≤ k))
    → Follows p q
advance_generation-Follows p n q e same more from =
    subst (Follows p) (sym (advance_generation-Steps n q e))
      (record { generation = ap (λ g. g + 1) same; issued = more; from = from })

pub update-Follows :
    (p q : MixerProfile) (test : MixerSourceSnapshot → Bool)
    (f : MixerSourceSnapshot → MixerSourceSnapshot) (error : MixerProfileError)
    → ((s : MixerSourceSnapshot) → test s ≡ true → source_id (f s) ≡ source_id s)
    → (ok_or (update test f p.sources) error >>= λ l. advance_generation (with_sources p l)) ≡ ok q
    → Follows p q
update-Follows p q test f error id e =
    let (sources, found, done) = updated_first p q test f error e in
    advance_generation-Follows p (with_sources p sources) q done refl (omega arith)
      (λ k h. inl (subst (Has k) (map-update source_id test f p.sources id found) h))

Has-retained :
    (test : MixerSourceSnapshot → Bool) (k : ℕ) (xs : List MixerSourceSnapshot)
    → Has k (map source_id (retain test xs))
    → Has k (map source_id xs)
Has-retained test k [] h = h
Has-retained test k (x ∷ xs) h = elim (Bool-cases (test x)) [
  | inl e ↦ elim (subst (Has k) (ap (map source_id) (kept e)) h) [
    | inl q ↦ inl q
    | inr r ↦ inr (Has-retained test k xs r)
  ]
  | inr e ↦ inr (Has-retained test k xs (subst (Has k) (ap (map source_id) (dropped e)) h))
]
  where
    kept : test x ≡ true → retain test (x ∷ xs) ≡ x ∷ retain test xs
    kept e = rw e refl

    dropped : test x ≡ false → retain test (x ∷ xs) ≡ retain test xs
    dropped e = rw e refl

Has-append_cases : (k : ℕ) (xs : List ℕ) (x : ℕ) → Has k (xs ++ (x ∷ [])) → Has k xs ⊎ (x ≡ k)
Has-append_cases k [] x (inl e) = inr e
Has-append_cases k [] x (inr h) = absurd h
Has-append_cases k (y ∷ ys) x (inl e) = inl (inl e)
Has-append_cases k (y ∷ ys) x (inr h) = elim (Has-append_cases k ys x h) [
  | inl r ↦ inl (inr r)
  | inr e ↦ inr e
]

pub with_input-Follows :
    (p q : MixerProfile) (name : InputName) → with_input p name ≡ ok q → Follows p q
with_input-Follows p q name e =
    let (room, fits, done) = with_input-added p q name e in
    advance_generation-Follows p (added p (p.next_source_id + 1) name) q done refl (omega arith)
      (λ k h.
        elim (Has-append_cases k (ids p) p.next_source_id
          (subst (Has k) (map-append_one source_id p.sources _) h)) [
            | inl old ↦ inl old
            | inr new ↦ inr (omega (arith, new))
          ])

pub without_input-Follows :
    (p q : MixerProfile) (id : ℕ) → IsProfile p → without_input p id ≡ ok q → Follows p q
without_input-Follows p q id v e =
    advance_generation-Follows p (removed p id) q (without_input-removed p q id v e).2 refl
      (omega arith) (λ k h. inl (Has-retained (λ s. not (is_source id s)) k p.sources h))

pub moved-Follows : (p q : MixerProfile) (id to : ℕ) → moved p id to ≡ ok q → Follows p q
moved-Follows p q id to e =
    let (i, s, rest, took, key, small, done) = moved-reinserted p q id to e in
    let perm = Permᴰ.trans (remove-Permᴰ p.sources i took) (insert-Permᴰ rest to s) in
    advance_generation-Follows p (with_sources p (insert rest to s)) q done refl (omega arith)
      (λ k h. inl (Has-Permᴰ k (Permᴰ.symm (map-Permᴰ source_id perm)) h))

pub assigned-Follows :
    (p q : MixerProfile) (application : ApplicationId) (source : Option ℕ)
    → assigned p application source ≡ ok q
    → Follows p q
unfolding assigned
assigned-Follows p q application source e =
    let (allowed, later) = >>-eq-ok _ _ e in
    let (valid, done) = >>-eq-ok (validate (with_rule p application source)) _ later in
    advance_generation-Follows p (with_rule p application source) q done refl (omega arith)
      (λ k h. inl h)

Has-own_ids : (k first_id : ℕ) → Has k (own_ids first_id) → ((1 ≡ k) ⊎ (2 ≡ k)) ⊎ (first_id ≤ k)
Has-own_ids k f (inl e) = inl (inl e)
Has-own_ids k f (inr (inl e)) = inl (inr e)
Has-own_ids k f (inr (inr h)) = inr (omega (arith, h))

next-defaults :
    (first_id : ℕ) (applications : List (ApplicationId × DefaultInput))
    → first_id ≤ (defaults first_id applications).next_source_id
unfolding defaults
next-defaults first_id applications = omega arith

pub reset-Follows :
    (p q : MixerProfile) (applications : List (ApplicationId × DefaultInput))
    → IsProfile p
    → reset p applications ≡ ok q
    → Follows p q
reset-Follows p q applications v e =
    advance_generation-Follows p _ q (reset-defaults p q applications e).1 refl
      (next-defaults p.next_source_id applications)
      (λ k h.
        elim (Has-own_ids k p.next_source_id
          (subst (Has k) (ids-defaults p.next_source_id applications) h)) [
            | inl (inl one) ↦ inl (subst (λ j. Has j (ids p)) one v.has_microphone)
            | inl (inr two) ↦ inl (subst (λ j. Has j (ids p)) two v.has_system)
            | inr new ↦ inr new
          ])
