-- ===== src/Core/DeviceGeneration/Canonical.antt =====
-- The texts that crates/librewave-core/src/device_generation.rs reads as a device generation.
use libre_wave.Common.{
  ℕ, zero, suc, ◌+◌, ◌-◌, ◌*◌, ◌/◌, ◌%◌, ◌^◌, ◌<◌, ◌≤◌, ◌≡◌, ◌↔◌, inl, inr, refl, ap, ap₂, sym,
  subst, ◌∙◌, List, [], ◌∷◌, ◌++◌, Bool, true, false, not, ◌&&◌, ◌||◌, Option, none, some, ◌==◌,
  ltb, arith, length, Bool-cases, Option-cases, ok, ◌>>=◌, ◌>>◌, >>=-eq-ok, >>-eq-ok, ensure, ok_or,
}
use libre_wave.Common.Bytes.{IsBytes}
use libre_wave.Common.Search.Edits.{append_nil}
use libre_wave.Core.DeviceGeneration.{
  DeviceGeneration, hex_digit, print_epoch, decimal, to_string, split_once, all, is_ascii_digit,
  is_hex_digit, starts_with_zero, hex_value, parse_epoch, parse_u64, no_text, from_str,
  device_generation_error,
}
use libre_wave.Core.DeviceGeneration.Token.{IsGeneration, bound, from_str-to_string}

split_once_sound :
    (text : List ℕ) {a b : List ℕ} → split_once text ≡ some (a, b) → text ≡ a ++ (58 ∷ b)
split_once_sound [] h = absurd (ground arith)
split_once_sound (c ∷ cs) {a} {b} h = elim (Bool-cases (c == 58)) [
  | inl e ↦
      let nil : [] ≡ a = ground arith in
      let rest : cs ≡ b = ground arith in
      ap₂ (λ x xs. x ∷ xs) (ground arith) rest ∙ ap (λ l. l ++ (58 ∷ b)) nil
  | inr e ↦ elim (Option-cases (split_once cs)) [
    | inl none_ ↦ absurd (ground arith)
    | inr ((before, after), some_) ↦
        let front : c ∷ before ≡ a = ground arith in
        let rest : after ≡ b = ground arith in
        ap (λ l. c ∷ l) (split_once_sound cs some_) ∙ ap₂ (λ x y. x ++ (58 ∷ y)) front rest
  ]
]

hex_digit-hex_value :
    (c : ℕ) → is_hex_digit c ≡ true → (hex_value c < 16) × (hex_digit (hex_value c) ≡ c)
hex_digit-hex_value c h = elim (Bool-cases (ltb c 58)) [
  | inl e ↦ (ground arith, ground arith)
  | inr e ↦ (ground arith, ground arith)
]

print_epoch-parse_epoch :
    (n : ℕ) (text : List ℕ)
    → length text ≡ 2 * n
    → all is_hex_digit text ≡ true
    → (print_epoch (parse_epoch text) ≡ text)
      × (length (parse_epoch text) ≡ n)
      × IsBytes (parse_epoch text)
print_epoch-parse_epoch n [] l h = (refl, omega arith, tt)
print_epoch-parse_epoch n (c ∷ []) l h = absurd (omega arith)
print_epoch-parse_epoch zero (c ∷ d ∷ cs) l h = absurd (omega arith)
print_epoch-parse_epoch (suc n) (c ∷ d ∷ cs) l h =
    let (small_c, same_c) = hex_digit-hex_value c (ground arith) in
    let (small_d, same_d) = hex_digit-hex_value d (ground arith) in
    let (text, count, bytes) = print_epoch-parse_epoch n cs (omega arith) (ground arith) in
    let high : (16 * hex_value c + hex_value d) / 16 ≡ hex_value c = omega arith in
    let low : (16 * hex_value c + hex_value d) % 16 ≡ hex_value d = omega arith in
    (
      ap₂ (λ x xs. x ∷ xs) (ap hex_digit high ∙ same_c)
          (ap₂ (λ x xs. x ∷ xs) (ap hex_digit low ∙ same_d) text),
      omega (arith, count),
      (omega arith, bytes),
    )

decimal-fuel : (a b n : ℕ) → n < bound a → n < bound b → decimal a n ≡ decimal b n
unfolding bound
decimal-fuel zero zero n h k = refl
decimal-fuel zero (suc b) n h k = ground arith
decimal-fuel (suc a) zero n h k = ground arith
decimal-fuel (suc a) (suc b) n h k = elim (Bool-cases (ltb n 10)) [
  | inl e ↦ rw e refl
  | inr e ↦
      rw e (
        ap (λ l. l ++ ((48 + n % 10) ∷ [])) (decimal-fuel a b (n / 10) (omega arith) (omega arith)))
]

append_one_more : (xs cs : List ℕ) (c : ℕ) → (xs ++ (c ∷ [])) ++ cs ≡ xs ++ (c ∷ cs)
append_one_more [] cs c = refl
append_one_more (x ∷ xs) cs c = ap (λ l. x ∷ l) (append_one_more xs cs c)

decimal_next :
    (fuel m c : ℕ)
    → 1 ≤ m
    → 48 ≤ c
    → c ≤ 57
    → decimal (suc fuel) (m * 10 + (c - 48)) ≡ decimal fuel m ++ (c ∷ [])
decimal_next fuel m c pos_ low high =
    let big : ltb (m * 10 + (c - 48)) 10 ≡ false = ground arith in
    let front : (m * 10 + (c - 48)) / 10 ≡ m = omega arith in
    let digit : 48 + (m * 10 + (c - 48)) % 10 ≡ c = omega arith in
    rw big (ap₂ (λ x d. decimal fuel x ++ (d ∷ [])) front digit)

-- Reading on from a number that has digits gives a number whose digits are those and what was read.
decimal-parse_u64 :
    (fuel m : ℕ) (cs : List ℕ) {n : ℕ}
    → 1 ≤ m
    → m < bound fuel
    → m < 2 ^ 64
    → all is_ascii_digit cs ≡ true
    → parse_u64 m cs ≡ some n
    → (k : ℕ) × (n < bound k) × (decimal k n ≡ decimal fuel m ++ cs) × (n < 2 ^ 64)
unfolding bound
decimal-parse_u64 fuel m [] {n} pos_ small fits digits h =
    let same : m ≡ n = ground arith in
    (
      fuel,
      omega (arith, same),
      ap (decimal fuel) (sym same) ∙ sym (append_nil (decimal fuel m)),
      omega (arith, same),
    )
decimal-parse_u64 fuel m (c ∷ cs) {n} pos_ small fits digits h =
    elim (Bool-cases (ltb (m * 10 + (c - 48)) (2 ^ 64))) [
      | inl e ↦
          let low : 48 ≤ c = ground arith in
          let high : c ≤ 57 = ground arith in
          let (k, fit, same, bounded) =
            decimal-parse_u64 (suc fuel) (m * 10 + (c - 48)) cs (omega arith) (omega arith)
              (ground arith) (ground arith) (ground arith) in
          (
            k,
            fit,
            same
                ∙ ap (λ l. l ++ cs) (decimal_next fuel m c pos_ low high)
                ∙ append_one_more (decimal fuel m) cs c,
            bounded,
          )
      | inr e ↦ absurd (ground arith)
    ]

decimal-number :
    (text : List ℕ) {n : ℕ}
    → no_text text ≡ false
    → all is_ascii_digit text ≡ true
    → (ltb 1 (length text) && starts_with_zero text) ≡ false
    → parse_u64 0 text ≡ some n
    → (decimal 19 n ≡ text) × (n < 2 ^ 64)
unfolding bound
decimal-number [] some_ digits plain h = absurd (ground arith)
decimal-number (c ∷ []) {n} some_ digits plain h =
    let same : c - 48 ≡ n = ground arith in
    let high : c ≤ 57 = ground arith in
    let one_digit : n < 10 = omega (arith, same, high) in
    (
      decimal-fuel 19 0 n (omega (arith, one_digit)) one_digit ∙ ap (λ x. x ∷ []) (ground arith),
      ground arith,
    )
decimal-number (c ∷ d ∷ ds) {n} some_ digits plain h =
    let low : 49 ≤ c = ground arith in
    let high : c ≤ 57 = ground arith in
    let (k, fit, same, bounded) =
      decimal-parse_u64 0 (c - 48) (d ∷ ds) (omega arith) (omega arith) (omega arith) (ground arith)
        (ground arith) in
    (decimal-fuel 19 k n (omega arith) fit ∙ same ∙ ap (λ x. x ∷ d ∷ ds) (omega arith), bounded)

ok_or-eq-ok : {A E : Type 0} (o : Option A) (e : E) {a : A} → ok_or o e ≡ ok a → o ≡ some a
ok_or-eq-ok none e h = absurd (ground arith)
ok_or-eq-ok (some x) e h = ground arith

token_checks :
    {E : Type 0} (l k : ℕ) (hex none_ digits zero_ : Bool) (o : Option ℕ) (f : ℕ → DeviceGeneration)
    (e : E) (g : DeviceGeneration)
    → (ensure (not (not (l == 32) || not hex || none_ || not digits || (ltb 1 k && zero_))) e
        >> (ok_or o e >>= λ n. ok (f n)))
      ≡ ok g
    → (l ≡ 32)
      × (hex ≡ true)
      × (none_ ≡ false)
      × (digits ≡ true)
      × ((ltb 1 k && zero_) ≡ false)
      × ((n : ℕ) × (o ≡ some n) × (f n ≡ g))
token_checks l k hex none_ digits zero_ o f e g h =
    let (checked, later) =
      >>-eq-ok
        (ensure (not (not (l == 32) || not hex || none_ || not digits || (ltb 1 k && zero_))) e)
        (ok_or o e >>= λ n. ok (f n)) h in
    let (n, read, made) = >>=-eq-ok (ok_or o e) (λ n. ok (f n)) later in
    (
      ground (arith, checked),
      ground (arith, checked),
      ground (arith, checked),
      ground (arith, checked),
      ground (arith, checked),
      (n, ok_or-eq-ok o e read, ground arith),
    )

from_str_sound :
    (text : List ℕ) (g : DeviceGeneration)
    → from_str text ≡ ok g
    → IsGeneration g × (to_string g ≡ text)
unfolding from_str to_string
from_str_sound text g h =
    let ((a, b), split, later) = >>=-eq-ok (ok_or (split_once text) device_generation_error) _ h in
    let (long, hex, some_, digits, plain, (n, number, read)) =
      token_checks (length a) (length b) (all is_hex_digit a) (no_text b) (all is_ascii_digit b)
        (starts_with_zero b) (parse_u64 0 b) (λ n. record { epoch = parse_epoch a; revision = n })
        device_generation_error g later in
    let (epoch, count, bytes) = print_epoch-parse_epoch 16 a long hex in
    let (revision, small) = decimal-number b some_ digits plain number in
    subst (λ (g : DeviceGeneration). IsGeneration g × (to_string g ≡ text)) read
      (
        record { sixteen = count; bytes = bytes; small = small },
        ap₂ (λ x y. x ++ (58 ∷ y)) epoch revision
            ∙ sym (
                split_once_sound text
                  (ok_or-eq-ok (split_once text) device_generation_error split)),
      )

-- A text is read as a device generation exactly when it is the token of that generation, whose epoch
-- has 16 bytes and whose revision is below 2 ^ 64.
pub from_str_iff :
    (text : List ℕ) (g : DeviceGeneration)
    → (from_str text ≡ ok g) ↔ (IsGeneration g × (to_string g ≡ text))
from_str_iff text g =
    (from_str_sound text g, λ (v, e). subst (λ t. from_str t ≡ ok g) e (from_str-to_string g v))
