-- ===== src/Core/InputName/Admitted.antt =====
-- Which names crates/librewave-core/src/input_name.rs admits.
use libre_wave.Common.{
  ℕ, suc, ◌≤◌, ◌≡◌, ◌≢◌, ◌↔◌, inl, inr, refl, ap, sym, ◌∙◌, [], ◌∷◌, Bool, true, false, not, ◌||◌,
  arith, length, All, any, ltb, holds, holds_iff, Bool-cases, ok, ◌>>◌, ensure,
}
use libre_wave.Common.Search.Priors.{any-false_iff}
use libre_wave.Core.InputName.{
  Text, Text-discrete, byte_length, is_whitespace, is_control, is_empty, trim_start, keep_or_drop,
  trim_end, trim, is_input_name, InputName, InputNameError, input_name_error, try_new,
}

abbrev last : ℕ → Text → ℕ
last c [] = c
last c (d ∷ ds) = last d ds

-- Neither the first nor the last scalar is white space.
abbrev pub IsTrimmed : Text → Type 0
IsTrimmed [] = Unit
IsTrimmed (c ∷ cs) = (is_whitespace c ≡ false) × (is_whitespace (last c cs) ≡ false)

length-trim_start : (text : Text) → length (trim_start text) ≤ length text
unfolding trim_start
length-trim_start [] = omega arith
length-trim_start (c ∷ cs) = elim (Bool-cases (is_whitespace c)) [
  | inl e ↦ rw e (omega (arith, length-trim_start cs))
  | inr e ↦ rw e (omega arith)
]

length-keep_or_drop : (c : ℕ) (rest : Text) → length (keep_or_drop c rest) ≤ suc (length rest)
unfolding keep_or_drop
length-keep_or_drop c [] = elim (Bool-cases (is_whitespace c)) [
  | inl e ↦ rw e (omega arith)
  | inr e ↦ rw e (omega arith)
]
length-keep_or_drop c (d ∷ ds) = omega arith

length-trim_end : (text : Text) → length (trim_end text) ≤ length text
unfolding trim_end
length-trim_end [] = omega arith
length-trim_end (c ∷ cs) = omega (arith, length-keep_or_drop c (trim_end cs), length-trim_end cs)

keep_or_drop_iff : (c d : ℕ) (ds rest : Text) → (keep_or_drop c rest ≡ c ∷ d ∷ ds) ↔ (rest ≡ d ∷ ds)
unfolding keep_or_drop
keep_or_drop_iff c d ds [] =
    (λ h. absurd (omega (arith, ap length h, length-keep_or_drop c [])), λ h. absurd (ground arith))
keep_or_drop_iff c d ds (e ∷ es) = (λ h. ground arith, λ h. ap (λ l. c ∷ l) h)

dropped : (c : ℕ) → is_whitespace c ≡ true → trim_end (c ∷ []) ≡ []
unfolding trim_end keep_or_drop
dropped c e = rw e refl

kept : (c : ℕ) → is_whitespace c ≡ false → trim_end (c ∷ []) ≡ c ∷ []
unfolding trim_end keep_or_drop
kept c e = rw e refl

trim_end_iff :
    (c : ℕ) (cs : Text) → (trim_end (c ∷ cs) ≡ c ∷ cs) ↔ (is_whitespace (last c cs) ≡ false)
unfolding trim_end keep_or_drop
trim_end_iff c [] = elim (Bool-cases (is_whitespace c)) [
  | inl e ↦
      (λ h. absurd (omega (arith, ap length (sym (dropped c e) ∙ h))), λ h. absurd (ground arith))
  | inr e ↦ (λ h. e, λ h. kept c e)
]
trim_end_iff c (d ∷ ds) =
    let tail = trim_end_iff d ds in
    let step = keep_or_drop_iff c d ds (trim_end (d ∷ ds)) in
    (λ h. tail.0 (step.0 h), λ h. step.1 (tail.1 h))

trim_start_drops :
    (c : ℕ) (cs : Text) → is_whitespace c ≡ true → trim_start (c ∷ cs) ≡ trim_start cs
unfolding trim_start
trim_start_drops c cs e = rw e refl

trim_start_keeps : (c : ℕ) (cs : Text) → is_whitespace c ≡ false → trim_start (c ∷ cs) ≡ c ∷ cs
unfolding trim_start
trim_start_keeps c cs e = rw e refl

trim_nil : trim [] ≡ []
unfolding trim trim_start trim_end
trim_nil = refl

trim_iff : (text : Text) → (trim text ≡ text) ↔ IsTrimmed text
unfolding trim
trim_iff [] = (λ h. tt, λ h. trim_nil)
trim_iff (c ∷ cs) = elim (Bool-cases (is_whitespace c)) [
  | inl e ↦
      let shorter = length-trim_end (trim_start cs) in
      (
        λ h. absurd (
            omega (
              arith,
              ap length (sym (ap trim_end (trim_start_drops c cs e)) ∙ h),
              shorter,
              length-trim_start cs,
            )),
        λ h. absurd (ground arith),
      )
  | inr e ↦ (
    λ h. (e, (trim_end_iff c cs).0 (sym (ap trim_end (trim_start_keeps c cs e)) ∙ h)),
    λ h. ap trim_end (trim_start_keeps c cs e) ∙ (trim_end_iff c cs).1 h.1,
  )
]

length-is_empty : (text : Text) → (is_empty text ≡ false) ↔ (1 ≤ length text)
length-is_empty [] = ground arith
length-is_empty (c ∷ cs) = ground arith

checks_iff :
    (a : Bool) (n : ℕ) (b c : Bool) (e : InputNameError) (f g : InputName)
    → ((ensure (not (a || ltb 64 n || not b || c)) e >> ok f) ≡ ok g)
      ↔ ((a ≡ false) × (n ≤ 64) × (b ≡ true) × (c ≡ false) × (f ≡ g))
checks_iff a n b c e f g = ground arith

-- A name is admitted, and keeps its text, exactly when it is not empty, takes at most 64 bytes of
-- UTF-8, neither begins nor ends with white space, and has no control character.
pub try_new_iff :
    (text : Text) (name : InputName)
    → (try_new text ≡ ok name) ↔ (
        (1 ≤ length text)
        × (byte_length text ≤ 64)
        × IsTrimmed text
        × All (λ c. is_control c ≢ true) text
        × (record { text = text } ≡ name))
unfolding try_new is_input_name
try_new_iff text name =
    let checks =
      checks_iff (is_empty text) (byte_length text) (holds (Text-discrete (trim text) text))
        (any is_control text) input_name_error (record { text = text }) name in
    let trimmed = holds_iff (Text-discrete (trim text) text) in
    let controls =
      any-false_iff is_control (λ c. is_control c ≡ true) text (λ c. (λ h. h, λ h. h)) in
    (
      λ h.
          let (some_, short, trim_, control, same) = checks.0 h in
          (
            (length-is_empty text).0 some_,
            short,
            (trim_iff text).0 (trimmed.0 trim_),
            controls.0 control,
            same,
          ),
      λ (some_, short, trim_, control, same). checks.1 (
        (length-is_empty text).1 some_,
        short,
        trimmed.1 ((trim_iff text).1 trim_),
        controls.1 control,
        same,
      ),
    )
