-- ===== src/Common/Bytes.antt =====
-- Bytes as numbers below 256, and the little-endian encodings of Rust's standard library.
use Prim.Native.Nat.{ℕ, ◌+◌, ◌-◌, ◌*◌, ◌/◌, ◌%◌, ◌<◌, ◌^◌}
use mathlib.Core.Path.{◌≡◌, ap, ◌∙◌}
use mathlib.Core.List.{List}
use mathlib.Core.Option.{Option, none, some}
use native.Mathlib.Omega.{arith}
use libre_wave.Common.Tests.{ltb, if◌then◌else◌}
use libre_wave.Common.Lists.{All}
use libre_wave.Common.Int.{ℤ, pos, negsuc, ◌≤ℤ◌}

abbrev pub IsByte : ℕ → Type 0
IsByte b = b < 256

abbrev pub IsBytes : List ℕ → Type 0
IsBytes = All IsByte

-- `u16::to_le_bytes` and `u16::from_le_bytes`
unfoldable pub low_byte : ℕ → ℕ
low_byte n = n % 256

unfoldable pub high_byte : ℕ → ℕ
high_byte n = n / 256 % 256

unfoldable pub from_le : ℕ → ℕ → ℕ
from_le b0 b1 = b0 + 256 * b1

-- The 16-bit pattern of an integer, and the integer of a pattern (`as u16`, `as i16`).
unfoldable pub pattern16 : ℤ → ℕ
pattern16 (pos n) = n % 65536
pattern16 (negsuc n) = 65535 - n % 65536

unfoldable pub signed16 : ℕ → ℤ
signed16 w = if ltb w 32768 then pos w else negsuc (65535 - w)

abbrev pub FitsI16 : ℤ → Type 0
FitsI16 z = (negsuc 32767 ≤ℤ z) × (z ≤ℤ pos 32767)

pub signed16-pattern16 : (z : ℤ) → FitsI16 z → signed16 (pattern16 z) ≡ z
unfolding signed16 pattern16
signed16-pattern16 (pos n) h = ground arith
signed16-pattern16 (negsuc n) h = ground arith

pub from_le-bytes : (n : ℕ) → n < 65536 → from_le (low_byte n) (high_byte n) ≡ n
unfolding from_le low_byte high_byte
from_le-bytes n h = omega arith

pub low_byte-IsByte : (n : ℕ) → IsByte (low_byte n)
unfolding low_byte
low_byte-IsByte n = omega arith

pub high_byte-IsByte : (n : ℕ) → IsByte (high_byte n)
unfolding high_byte
high_byte-IsByte n = omega arith

pub pattern16-lt : (z : ℤ) → pattern16 z < 65536
unfolding pattern16
pattern16-lt (pos n) = omega arith
pattern16-lt (negsuc n) = omega arith

-- `usize::checked_add` on a 64-bit target
abbrev pub usize_mod : ℕ
usize_mod = 2 ^ 64

abbrev pub checked_add : ℕ → ℕ → Option ℕ
checked_add a b = if ltb (a + b) usize_mod then some (a + b) else none

pub signed16-bytes :
    (z : ℤ) → FitsI16 z → signed16 (from_le (low_byte (pattern16 z)) (high_byte (pattern16 z))) ≡ z
signed16-bytes z h =
    ap signed16 (from_le-bytes (pattern16 z) (pattern16-lt z)) ∙ signed16-pattern16 z h
