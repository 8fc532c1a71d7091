-- ===== src/Core/InputName.antt =====
-- crates/librewave-core/src/input_name.rs. A string is the list of its Unicode scalar values, and
-- an `InputName` holds the text that was admitted, for its `[u8; 64]` and length.
pub mod Admitted
use libre_wave.Common.{
  ℕ, ◌+◌, List, [], ◌∷◌, Bool, true, false, not, ◌&&◌, ◌||◌, ◌==◌, ltb, leb, if◌then◌else◌, holds,
  any, Result, ok, ◌>>◌, ensure, ℕ_discrete,
}

abbrev pub Text : Type 0
Text = List ℕ

unfoldable pub Text-discrete : Discrete Text
unfolding ℕ_discrete
Text-discrete = hlevel ℕ_discrete

-- The bytes that a scalar takes in UTF-8.
abbrev utf8_length : ℕ → ℕ
utf8_length c = if ltb c 0x80 then 1 else if ltb c 0x800 then 2 else if ltb c 0x10000 then 3 else 4

-- `str::len`
abbrev pub byte_length : Text → ℕ
byte_length [] = 0
byte_length (c ∷ cs) = utf8_length c + byte_length cs

-- `char::is_whitespace`, the Unicode property White_Space.
abbrev is_whitespace : ℕ → Bool
is_whitespace c =
    (leb 9 c && leb c 13)
    || c == 0x20
    || c == 0x85
    || c == 0xa0
    || c == 0x1680
    || (leb 0x2000 c && leb c 0x200a)
    || c == 0x2028
    || c == 0x2029
    || c == 0x202f
    || c == 0x205f
    || c == 0x3000

-- `char::is_control`, the Unicode category Cc.
abbrev pub is_control : ℕ → Bool
is_control c = ltb c 0x20 || (leb 0x7f c && leb c 0x9f)

trim_start : Text → Text
trim_start [] = []
trim_start (c ∷ cs) = let rest = trim_start cs in if is_whitespace c then rest else c ∷ cs

-- A trailing run of white space is dropped.
keep_or_drop : ℕ → Text → Text
keep_or_drop c [] = if is_whitespace c then [] else c ∷ []
keep_or_drop c (d ∷ ds) = c ∷ d ∷ ds

trim_end : Text → Text
unfolding keep_or_drop
trim_end [] = []
trim_end (c ∷ cs) = keep_or_drop c (trim_end cs)

trim : Text → Text
unfolding trim_start trim_end
trim text = trim_end (trim_start text)

abbrev is_empty : Text → Bool
is_empty [] = true
is_empty (c ∷ cs) = false

unfoldable pub is_input_name : Text → Bool
unfolding trim Text-discrete
is_input_name text = not (
    is_empty text
    || ltb 64 (byte_length text)
    || not (holds (Text-discrete (trim text) text))
    || any is_control text)

pub data InputNameError : Type 0 where
  input_name_error : InputNameError

pub record InputName : Type 0 where
  pub text : Text

-- `InputName::try_new`
unfoldable pub try_new : Text → Result InputNameError InputName
unfolding is_input_name
try_new text = do ensure (is_input_name text) input_name_error; ok (record { text = text })
