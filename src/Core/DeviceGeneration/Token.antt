-- ===== src/Core/DeviceGeneration/Token.antt =====
-- The token of crates/librewave-core/src/device_generation.rs, printed and read back.
use libre_wave.Common.{
  ℕ, zero, suc, ◌+◌, ◌-◌, ◌*◌, ◌/◌, ◌%◌, ◌^◌, ◌<◌, ◌≡◌, ◌≢◌, inl, inr, refl, ap, ap₂, ◌∙◌, List, [],
  ◌∷◌, ◌++◌, Bool, true, false, ◌&&◌, some, ◌==◌, ltb, arith, length, Bool-cases, ok,
}
use libre_wave.Common.Bytes.{IsBytes}
use libre_wave.Core.DeviceGeneration.{
  DeviceGeneration, hex_digit, print_epoch, decimal, to_string, split_once, all, is_ascii_digit,
  is_hex_digit, starts_with_zero, hex_value, parse_epoch, parse_u64, no_text, from_str,
}

pub record IsGeneration (g : DeviceGeneration) : Type 0 where
  pub sixteen : length g.epoch ≡ 16
  pub bytes : IsBytes g.epoch
  pub small : g.revision < 2 ^ 64

hex_value-hex_digit :
    (n : ℕ) → n < 16 → (hex_value (hex_digit n) ≡ n) × (is_hex_digit (hex_digit n) ≡ true)
hex_value-hex_digit n h = elim (Bool-cases (ltb n 10)) [
  | inl e ↦ (ground arith, ground arith)
  | inr e ↦ (ground arith, ground arith)
]

hex_digit_is_no_colon : (n : ℕ) → n < 16 → (hex_digit n == 58) ≡ false
hex_digit_is_no_colon n h = ground arith

parse_epoch-print_epoch : (bs : List ℕ) → IsBytes bs → parse_epoch (print_epoch bs) ≡ bs
parse_epoch-print_epoch [] h = refl
parse_epoch-print_epoch (b ∷ bs) h =
    let (hi, _) = hex_value-hex_digit (b / 16) (omega (arith, h)) in
    let (lo, _) = hex_value-hex_digit (b % 16) (omega arith) in
    ap₂ (λ x xs. x ∷ xs) (omega (arith, hi, lo)) (parse_epoch-print_epoch bs h.1)

all-print_epoch : (bs : List ℕ) → IsBytes bs → all is_hex_digit (print_epoch bs) ≡ true
all-print_epoch [] h = refl
all-print_epoch (b ∷ bs) h =
    let (_, hi) = hex_value-hex_digit (b / 16) (omega (arith, h)) in
    let (_, lo) = hex_value-hex_digit (b % 16) (omega arith) in rw (hi, lo) (all-print_epoch bs h.1)

length-print_epoch : (bs : List ℕ) → length (print_epoch bs) ≡ 2 * length bs
length-print_epoch [] = refl
length-print_epoch (b ∷ bs) = omega (arith, length-print_epoch bs)

split_once-print_epoch :
    (bs rest : List ℕ)
    → IsBytes bs
    → split_once (print_epoch bs ++ (58 ∷ rest)) ≡ some (print_epoch bs, rest)
split_once-print_epoch [] rest h = refl
split_once-print_epoch (b ∷ bs) rest h =
    rw
      (
        hex_digit_is_no_colon (b / 16) (omega (arith, h)),
        hex_digit_is_no_colon (b % 16) (omega arith),
        split_once-print_epoch bs rest h.1,
      )
      refl

-- `fuel + 1` digits are enough below this.
unfoldable pub bound : ℕ → ℕ
bound zero = 10
bound (suc fuel) = 10 * bound fuel

all-append :
    (test : ℕ → Bool) (xs ys : List ℕ)
    → all test xs ≡ true
    → all test ys ≡ true
    → all test (xs ++ ys) ≡ true
all-append test [] ys h k = k
all-append test (x ∷ xs) ys h k = ground (arith, all-append test xs ys)

-- What the printed digits of a number are: digits, at least one, with no leading zero but in `0`.
record IsDecimal (n : ℕ) (text : List ℕ) : Type 0 where
  digits : all is_ascii_digit text ≡ true
  some_text : no_text text ≡ false
  plain : n ≢ 0 → starts_with_zero text ≡ false
  alone : n ≡ 0 → length text ≡ 1

starts-append :
    (xs ys : List ℕ) → no_text xs ≡ false → starts_with_zero (xs ++ ys) ≡ starts_with_zero xs
starts-append [] ys h = absurd (ground arith)
starts-append (x ∷ xs) ys h = refl

no_text-append : (xs ys : List ℕ) → no_text xs ≡ false → no_text (xs ++ ys) ≡ false
no_text-append [] ys h = absurd (ground arith)
no_text-append (x ∷ xs) ys h = refl

decimal-IsDecimal : (fuel n : ℕ) → n < bound fuel → IsDecimal n (decimal fuel n)
unfolding bound
decimal-IsDecimal zero n h = record {
  digits = ground arith;
  some_text = refl;
  plain = λ q. ground arith;
  alone = λ q. refl;
}
decimal-IsDecimal (suc fuel) n h = elim (Bool-cases (ltb n 10)) [
  | inl e ↦ rw e (record {
    digits = ground arith;
    some_text = refl;
    plain = λ q. ground arith;
    alone = λ q. refl;
  })
  | inr e ↦
      let front = decimal-IsDecimal fuel (n / 10) (omega arith) in
      rw e (record {
        digits = all-append is_ascii_digit (decimal fuel (n / 10)) _ front.digits (ground arith);
        some_text = no_text-append (decimal fuel (n / 10)) _ front.some_text;
        plain = λ q.
            starts-append (decimal fuel (n / 10)) _ front.some_text
            ∙ front.plain (λ r. absurd (ground arith));
        alone = λ q. absurd (ground arith);
      })
]

-- One more digit after what has been read.
parse_u64-append_one :
    (n m d : ℕ) (xs : List ℕ)
    → d < 10
    → m * 10 + d < 2 ^ 64
    → parse_u64 n xs ≡ some m
    → parse_u64 n (xs ++ ((48 + d) ∷ [])) ≡ some (m * 10 + d)
parse_u64-append_one n m d [] small fits h = ground arith
parse_u64-append_one n m d (x ∷ xs) small fits h =
    elim (Bool-cases (ltb (n * 10 + (x - 48)) (2 ^ 64))) [
      | inl e ↦ rw e (parse_u64-append_one (n * 10 + (x - 48)) m d xs small fits (ground arith))
      | inr e ↦ absurd (ground arith)
    ]

parse_u64-decimal :
    (fuel n : ℕ) → n < bound fuel → n < 2 ^ 64 → parse_u64 0 (decimal fuel n) ≡ some n
unfolding bound
parse_u64-decimal zero n h small = ground arith
parse_u64-decimal (suc fuel) n h small = elim (Bool-cases (ltb n 10)) [
  | inl e ↦ rw e (ground arith)
  | inr e ↦
      let front = parse_u64-decimal fuel (n / 10) (omega arith) (omega arith) in
      rw e (
        parse_u64-append_one 0 (n / 10) (n % 10) (decimal fuel (n / 10)) (omega arith) (omega arith)
          front
        ∙ ap some (omega arith))
]

no_leading_zero :
    (n : ℕ) (text : List ℕ)
    → IsDecimal n text
    → (ltb 1 (length text) && starts_with_zero text) ≡ false
no_leading_zero zero text d = ground (arith, d.alone refl)
no_leading_zero (suc n) text d = ground (arith, d.plain (λ q. absurd (omega arith)))

-- The token of a generation, whose epoch has 16 bytes, reads back as that generation.
pub from_str-to_string : (g : DeviceGeneration) → IsGeneration g → from_str (to_string g) ≡ ok g
unfolding from_str to_string bound
from_str-to_string g v =
    let revision = decimal-IsDecimal 19 g.revision (omega (arith, v.small)) in
    let split = split_once-print_epoch g.epoch (decimal 19 g.revision) v.bytes in
    let bytes = parse_epoch-print_epoch g.epoch v.bytes in
    let number = parse_u64-decimal 19 g.revision (omega (arith, v.small)) v.small in
    let hex = all-print_epoch g.epoch v.bytes in
    let size : length (print_epoch g.epoch) ≡ 32 =
      omega (arith, length-print_epoch g.epoch, v.sixteen) in
    let zeros = no_leading_zero g.revision (decimal 19 g.revision) revision in
    rw (split, size, hex, revision.some_text, revision.digits, zeros, number, bytes) refl
