-- ===== src/Core/Mixer/History.antt =====
-- Sequences of edits of a mixer profile of crates/librewave-core/src/mixer.rs: the invariant, the
-- generation, and the identities of sources over time.
use libre_wave.Common.{
  ℕ, ◌<◌, ◌≤◌, ◌≡◌, inl, inr, refl, sym, List, true, ◌&&◌, Option, arith, Has, Result, ok,
}
use libre_wave.Core.InputName.{InputName, is_input_name}
use libre_wave.Core.Applications.{ApplicationId}
use libre_wave.Core.Mixer.{
  FaderGain, MixTarget, MixRoute, MixerProfile, MixerProfileError, is_source, same_role, software,
}
use libre_wave.Core.Mixer.Edits.{
  set_faders, set_route, with_faders, with_output, with_route, with_input, without_input, renamed,
  moved, assigned,
}
use libre_wave.Core.Mixer.Defaults.{DefaultInput, reset}
use libre_wave.Core.Mixer.Profile.{IsProfile, ids, is_source_iff}
use libre_wave.Core.Mixer.Kept.{
  set_route-id, with_faders-IsProfile, with_output-IsProfile, with_route-IsProfile,
  renamed-IsProfile,
}
use libre_wave.Core.Mixer.Inputs.{with_input-IsProfile, without_input-IsProfile}
use libre_wave.Core.Mixer.Reorder.{moved-IsProfile, assigned-IsProfile}
use libre_wave.Core.Mixer.Follows.{
  Follows, update-Follows, advance_generation-Follows, with_input-Follows, without_input-Follows,
  moved-Follows, assigned-Follows, reset-Follows,
}
use libre_wave.Core.Mixer.FirstRun.{reset-IsProfile}

-- The public edits of a profile.
pub data Edit : Type 0 where
  faders : (source : ℕ) (monitor stream : FaderGain) → Edit
  output : MixTarget → MixRoute → Edit
  route_to : (source : ℕ) → MixTarget → MixRoute → Edit
  add_input : InputName → Edit
  remove_input : (id : ℕ) → Edit
  rename : (id : ℕ) → InputName → Edit
  move : (id position : ℕ) → Edit
  assign : ApplicationId → Option ℕ → Edit
  reset_to : List (ApplicationId × DefaultInput) → Edit

abbrev pub edit : MixerProfile → Edit → Result MixerProfileError MixerProfile
edit p (faders source monitor stream) = with_faders p source monitor stream
edit p (output target r) = with_output p target r
edit p (route_to source target r) = with_route p source target r
edit p (add_input name) = with_input p name
edit p (remove_input id) = without_input p id
edit p (rename id name) = renamed p id name
edit p (move id position) = moved p id position
edit p (assign application source) = assigned p application source
edit p (reset_to applications) = reset p applications

-- The names in an edit are admitted ones, as the type `InputName` guarantees.
abbrev pub IsNamed : Edit → Type 0
IsNamed (add_input name) = is_input_name name.text ≡ true
IsNamed (rename id name) = is_input_name name.text ≡ true
IsNamed _ = Unit {0}

pub edit-IsProfile :
    (p q : MixerProfile) (e : Edit) → IsNamed e → edit p e ≡ ok q → IsProfile p → IsProfile q
edit-IsProfile p q (faders source m s) named done v = with_faders-IsProfile p q source m s done v
edit-IsProfile p q (output target r) named done v = with_output-IsProfile p q target r done v
edit-IsProfile p q (route_to source target r) named done v =
    with_route-IsProfile p q source target r done v
edit-IsProfile p q (add_input name) named done v = with_input-IsProfile p q name named done v
edit-IsProfile p q (remove_input id) named done v = without_input-IsProfile p q id done v
edit-IsProfile p q (rename id name) named done v = renamed-IsProfile p q id name named done v
edit-IsProfile p q (move id to) named done v = moved-IsProfile p q id to done v
edit-IsProfile p q (assign application source) named done v =
    assigned-IsProfile p q application source done
edit-IsProfile p q (reset_to applications) named done v = reset-IsProfile p q applications done v

edit-Follows : (p q : MixerProfile) (e : Edit) → IsProfile p → edit p e ≡ ok q → Follows p q
unfolding with_faders with_output with_route renamed
edit-Follows p q (faders source m s) v done =
    update-Follows p q (is_source source) (set_faders source m s) _
      (λ x t. sym ((is_source_iff source x).0 t)) done
edit-Follows p q (output target r) v done =
    advance_generation-Follows p _ q done refl (omega arith) (λ k h. inl h)
edit-Follows p q (route_to source target r) v done =
    update-Follows p q (is_source source) (set_route target r) _ (λ x t. set_route-id target r x)
      done
edit-Follows p q (add_input name) v done = with_input-Follows p q name done
edit-Follows p q (remove_input id) v done = without_input-Follows p q id v done
edit-Follows p q (rename id name) v done =
    update-Follows p q (λ s. is_source id s && same_role s.role software)
      (λ s. record s { name = name.text }) _ (λ x t. refl) done
edit-Follows p q (move id to) v done = moved-Follows p q id to done
edit-Follows p q (assign application source) v done = assigned-Follows p q application source done
edit-Follows p q (reset_to applications) v done = reset-Follows p q applications v done

-- Every successful edit of a valid profile gives a valid profile. Its generation is the next one; no
-- identity that was issued is issued again; and each of its sources was there before or has a new
-- identity.
pub edit_lem :
    (p q : MixerProfile) (e : Edit)
    → IsProfile p
    → IsNamed e
    → edit p e ≡ ok q
    → IsProfile q × Follows p q
edit_lem p q e v named done = (edit-IsProfile p q e named done v, edit-Follows p q e v done)

-- The profiles that a profile can become.
pub data Reach (p : MixerProfile) : MixerProfile → Type 0 where
  start : Reach p p
  step : {q r : MixerProfile} (e : Edit) → Reach p q → IsNamed e → edit q e ≡ ok r → Reach p r

pub Reach-IsProfile :
    {p q : MixerProfile}
    → IsProfile p
    → Reach p q
    → IsProfile q × (p.generation ≤ q.generation) × (p.next_source_id ≤ q.next_source_id)
Reach-IsProfile v start = (v, omega arith, omega arith)
Reach-IsProfile v (step {q} {r} e past named done) =
    let (w, older, fewer) = Reach-IsProfile v past in
    let (u, f) = edit_lem q r e w named done in
    (u, omega (arith, f.generation), omega (arith, f.issued))

-- The identity of a source that is gone is never given to another: if it was issued before and is
-- absent from a valid profile, it is absent from every profile that edits make of it, resets included.
pub Reach-absent :
    {p q : MixerProfile} (k : ℕ)
    → IsProfile p
    → Reach p q
    → k < p.next_source_id
    → ¬ Has k (ids p)
    → ¬ Has k (ids q)
Reach-absent k v start old gone h = gone h
Reach-absent k v (step {q} {r} e past named done) old gone h =
    let (w, older, fewer) = Reach-IsProfile v past in
    let (u, f) = edit_lem q r e w named done in
    elim (f.from k h) [
      | inl there ↦ Reach-absent k v past old gone there
      | inr new ↦ absurd (omega arith)
    ]
