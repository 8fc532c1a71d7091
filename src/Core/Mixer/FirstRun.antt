-- ===== src/Core/Mixer/FirstRun.antt =====
-- The first-run profile and the reset of crates/librewave-core/src/mixer.rs, and the invariant.
use libre_wave.Common.{
  ℕ, ◌+◌, ◌<◌, ◌≤◌, ◌≡◌, ◌≢◌, inl, inr, refl, sym, subst, List, [], ◌∷◌, ◌++◌, map, true, Option,
  none, some, ◌==◌, ==_iff, arith, length, length-append, All, any, find, Unique, Has, Bool-cases,
  ok, >>-eq-ok,
}
use libre_wave.Common.Search.Edits.{
  append_nil, All-append, All-find, All-map_of, map-append_one, Unique-append_one,
}
use libre_wave.Common.Search.Priors.{any-false_iff}
use libre_wave.Core.InputName.{is_input_name, Text-discrete}
use libre_wave.Core.Applications.{ApplicationId, ApplicationAssignment, same_application}
use libre_wave.Core.Mixer.{MixerProfile}
use libre_wave.Core.Mixer.Edits.{advance_generation, software_source}
use libre_wave.Core.Mixer.Defaults.{
  DefaultInput, DefaultInput-discrete, music, browser, voice_chat, game, all_default_inputs,
  default_name, default_profile, numbered, is_candidate, default_rule, default_rules, defaults,
  first_run, reset,
}
use libre_wave.Core.Mixer.Profile.{IsSource, IsProfile, ids, application_of, same_application_iff}
use libre_wave.Core.Mixer.Kept.{IsProfile-same, advance_generation-IsProfile}
use libre_wave.Core.Mixer.Inputs.{software_source-IsSource}

default_name-valid : (input : DefaultInput) → is_input_name (default_name input) ≡ true
unfolding is_input_name Text-discrete
default_name-valid music = refl
default_name-valid browser = refl
default_name-valid voice_chat = refl
default_name-valid game = refl

abbrev Rules : (ℕ → Type 0) → List ApplicationAssignment → Type 0
Rules Dest rules =
    (length rules ≤ 128) × All (λ rule. Dest rule.source) rules × Unique (map application_of rules)

module _ (Dest : ℕ → Type 0) where
  add_rule :
      (rules : List ApplicationAssignment) (application : ApplicationId)
      (found : Option (DefaultInput × ℕ))
      → ((a : DefaultInput × ℕ) → found ≡ some a → Dest a.1)
      → length rules ≢ 128
      → All (λ rule. rule.application ≢ application) rules
      → Rules Dest rules
      → Rules Dest (rules ++ default_rule application found)
  add_rule rules application none dest room new (few, to, unique) = (
    omega (arith, length-append rules [], few),
    All-append _ rules [] to tt,
    subst (λ l. Unique (map application_of l)) (sym (append_nil rules)) unique,
  )
  add_rule rules application (some (input, id)) dest room new (few, to, unique) =
      let rule : ApplicationAssignment = record { application = application; source = id } in
      (
        omega (arith, length-append rules (rule ∷ []), few, room),
        All-append _ rules (rule ∷ []) to (dest (input, id) refl, tt),
        subst Unique (sym (map-append_one application_of rules rule)) (
            Unique-append_one (map application_of rules) application
              (All-map_of (λ a. a ≢ application) application_of rules new) unique),
      )

  default_rules-Rules :
      (inputs : List (DefaultInput × ℕ)) (applications : List (ApplicationId × DefaultInput))
      (rules : List ApplicationAssignment)
      → All (λ a. Dest a.1) inputs
      → Rules Dest rules
      → Rules Dest (default_rules inputs applications rules)
  unfolding default_rules DefaultInput-discrete
  default_rules-Rules inputs [] rules dest h = h
  default_rules-Rules inputs ((application, input) ∷ rest) rules dest h =
      elim (Bool-cases (length rules == 128)) [
        | inl full ↦ rw full h
        | inr room ↦
            elim (Bool-cases (any (λ rule. same_application rule.application application) rules)) [
              | inl there ↦ rw (room, there) (default_rules-Rules inputs rest rules dest h)
              | inr new ↦
                  rw (room, new)
                    (default_rules-Rules inputs rest _ dest (
                      add_rule rules application (find (is_candidate input) inputs)
                        (λ a e.
                          (All-find (λ (a : DefaultInput × ℕ). Dest a.1) (is_candidate input) inputs
                            dest e).1)
                        (λ q. absurd (ground (arith, (==_iff (length rules) 128).1 q)))
                        ((any-false_iff (λ rule. same_application rule.application application)
                            (λ rule. rule.application ≡ application) rules
                            (λ rule. same_application_iff rule.application application)).0
                          new)
                        h))
            ]
      ]

abbrev pub own_ids : ℕ → List ℕ
own_ids first_id =
    1 ∷ 2 ∷ first_id ∷ (first_id + 1) ∷ (first_id + 1 + 1) ∷ (first_id + 1 + 1 + 1) ∷ []

pub ids-defaults :
    (first_id : ℕ) (applications : List (ApplicationId × DefaultInput))
    → ids (defaults first_id applications) ≡ own_ids first_id
unfolding defaults numbered default_profile
ids-defaults first_id applications = refl

own_ids-Unique : (first_id : ℕ) → 3 ≤ first_id → Unique (own_ids first_id)
own_ids-Unique f h = ground arith

sources-defaults :
    (first_id : ℕ) (applications : List (ApplicationId × DefaultInput))
    → 3 ≤ first_id
    → All (IsSource (first_id + 4)) (defaults first_id applications).sources
unfolding defaults numbered default_profile
sources-defaults f applications h = (
  record {
    nonzero = λ q. absurd (ground arith);
    issued = omega arith;
    microphone_is = λ q. (refl, refl);
    system_is = λ q. absurd (ground arith);
    software_is = λ q. absurd (omega arith);
  },
  (
    record {
      nonzero = λ q. absurd (ground arith);
      issued = omega arith;
      microphone_is = λ q. absurd (ground arith);
      system_is = λ q. (refl, refl);
      software_is = λ q. absurd (omega arith);
    },
    (
      software f music (omega arith) (omega arith),
      (
        software (f + 1) browser (omega arith) (omega arith),
        (
          software (f + 1 + 1) voice_chat (omega arith) (omega arith),
          (software (f + 1 + 1 + 1) game (omega arith) (omega arith), tt),
        ),
      ),
    ),
  ),
)
  where
    software :
        (id : ℕ) (input : DefaultInput)
        → 3 ≤ id
        → id < f + 4
        → IsSource (f + 4) (software_source id (default_name input))
    software id input big small =
        software_source-IsSource (f + 4) id (default_name input) big small
          (default_name-valid input)

Rules-defaults :
    (first_id : ℕ) (applications : List (ApplicationId × DefaultInput))
    → 3 ≤ first_id
    → Rules
        (λ id. Has id (own_ids first_id) × (id ≢ 1))
        (defaults first_id applications).assignments
unfolding defaults numbered default_profile
Rules-defaults f applications h =
    default_rules-Rules (λ id. Has id (own_ids f) × (id ≢ 1)) (numbered f all_default_inputs)
      applications []
      (
        (inr (inr (inl refl)), λ q. absurd (omega arith)),
        (
          (inr (inr (inr (inl refl))), λ q. absurd (omega arith)),
          (
            (inr (inr (inr (inr (inl refl)))), λ q. absurd (omega arith)),
            ((inr (inr (inr (inr (inr (inl refl))))), λ q. absurd (omega arith)), tt),
          ),
        ),
      )
      (omega arith, tt, tt)

pub defaults-IsProfile :
    (first_id : ℕ) (applications : List (ApplicationId × DefaultInput))
    → 3 ≤ first_id
    → IsProfile (defaults first_id applications)
unfolding defaults numbered default_profile
defaults-IsProfile f applications h =
    let (few, to, unique) = Rules-defaults f applications h in
    record {
      microphone_id = refl;
      few_sources = omega arith;
      next_id = omega (arith, h);
      unique_ids = own_ids-Unique f h;
      has_microphone = inl refl;
      has_system = inr (inl refl);
      sources = sources-defaults f applications h;
      few_rules = few;
      destinations = to;
      unique_rules = unique;
    }

-- The first-run profile is valid, whatever applications were detected.
pub first_run-IsProfile :
    (applications : List (ApplicationId × DefaultInput)) → IsProfile (first_run applications)
unfolding first_run
first_run-IsProfile applications = defaults-IsProfile 3 applications (omega arith)

pub reset-defaults :
    (p q : MixerProfile) (applications : List (ApplicationId × DefaultInput))
    → reset p applications ≡ ok q
    → (p.next_source_id + 4 < 65536)
      × (advance_generation
            (record (defaults p.next_source_id applications) { generation = p.generation })
          ≡ ok q)
unfolding reset
reset-defaults p q applications e = let (room, done) = >>-eq-ok _ _ e in (ground arith, done)

pub reset-IsProfile :
    (p q : MixerProfile) (applications : List (ApplicationId × DefaultInput))
    → reset p applications ≡ ok q
    → IsProfile p
    → IsProfile q
reset-IsProfile p q applications e v =
    advance_generation-IsProfile _ q (reset-defaults p q applications e).1 (
      IsProfile-same (defaults p.next_source_id applications) _ refl refl refl refl
        (defaults-IsProfile p.next_source_id applications v.next_id))
