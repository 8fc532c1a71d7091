-- ===== src/Core/DeviceGeneration.antt =====
-- crates/librewave-core/src/device_generation.rs: the token of a device generation. A string is the
-- list of its UTF-8 bytes here.
pub mod Token
pub mod Canonical
use libre_wave.Common.{
  ℕ, zero, suc, ◌+◌, ◌-◌, ◌*◌, ◌/◌, ◌%◌, ◌^◌, List, [], ◌∷◌, ◌++◌, Bool, true, false, not, ◌&&◌,
  ◌||◌, Option, none, some, ◌==◌, ltb, leb, if◌then◌else◌, length, Result, ok, err, ◌>>=◌, ◌>>◌,
  ensure, ok_or,
}

pub record DeviceGeneration : Type 0 where
  pub epoch : List ℕ
  pub revision : ℕ

pub data DeviceGenerationError : Type 0 where
  device_generation_error : DeviceGenerationError

abbrev pub hex_digit : ℕ → ℕ
hex_digit n = if ltb n 10 then 48 + n else 87 + n

-- `{byte:02x}` for each byte.
abbrev pub print_epoch : List ℕ → List ℕ
print_epoch [] = []
print_epoch (b ∷ bs) = hex_digit (b / 16) ∷ hex_digit (b % 16) ∷ print_epoch bs

-- The decimal digits of a number, the last of at most `fuel + 1`.
abbrev pub decimal : (fuel : ℕ) → ℕ → List ℕ
decimal zero n = (48 + n) ∷ []
decimal (suc fuel) n =
    let front = decimal fuel (n / 10) in
    if ltb n 10 then (48 + n) ∷ [] else front ++ ((48 + n % 10) ∷ [])

-- `Display`. A `u64` has at most 20 digits.
unfoldable pub to_string : DeviceGeneration → List ℕ
to_string g = print_epoch g.epoch ++ (58 ∷ decimal 19 g.revision)

abbrev pub beside_first : ℕ → Option (List ℕ × List ℕ) → Option (List ℕ × List ℕ)
beside_first c none = none
beside_first c (some (before, after)) = some (c ∷ before, after)

-- `split_once(':')`
abbrev pub split_once : List ℕ → Option (List ℕ × List ℕ)
split_once [] = none
split_once (c ∷ cs) =
    let rest = split_once cs in if c == 58 then some ([], cs) else beside_first c rest

abbrev pub all : (ℕ → Bool) → List ℕ → Bool
all test [] = true
all test (c ∷ cs) = test c && all test cs

abbrev pub is_ascii_digit : ℕ → Bool
is_ascii_digit c = leb 48 c && leb c 57

abbrev pub is_hex_digit : ℕ → Bool
is_hex_digit c = is_ascii_digit c || (leb 97 c && leb c 102)

abbrev pub starts_with_zero : List ℕ → Bool
starts_with_zero [] = false
starts_with_zero (c ∷ cs) = c == 48

abbrev pub hex_value : ℕ → ℕ
hex_value c = if ltb c 58 then c - 48 else c - 87

-- `u8::from_str_radix` of each pair; the checks before have made sure that all are digits.
abbrev pub parse_epoch : List ℕ → List ℕ
parse_epoch [] = []
parse_epoch (c ∷ []) = []
parse_epoch (c ∷ d ∷ cs) = (16 * hex_value c + hex_value d) ∷ parse_epoch cs

-- `str::parse::<u64>` of digits, which fails on overflow.
abbrev pub parse_u64 : ℕ → List ℕ → Option ℕ
parse_u64 n [] = some n
parse_u64 n (c ∷ cs) =
    let next = n * 10 + (c - 48) in
    let rest = parse_u64 next cs in if ltb next (2 ^ 64) then rest else none

abbrev pub no_text : List ℕ → Bool
no_text [] = true
no_text (c ∷ cs) = false

unfoldable pub from_str : List ℕ → Result DeviceGenerationError DeviceGeneration
from_str value = do
  (epoch, revision) ← ok_or (split_once value) device_generation_error
  ensure
      (not (
        not (length epoch == 32)
        || not (all is_hex_digit epoch)
        || no_text revision
        || not (all is_ascii_digit revision)
        || (ltb 1 (length revision) && starts_with_zero revision)))
      device_generation_error
  number ← ok_or (parse_u64 0 revision) device_generation_error
  ok (record { epoch = parse_epoch epoch; revision = number })
