-- ===== src/Protocol/Fields.antt =====
-- crates/librewave-protocol/src/schema.rs and wave3.rs: field specifications, and the reviewed field
-- table of the 16-byte configuration message.
pub mod Layout
use libre_wave.Common.{
  ℕ, List, [], ◌∷◌, Bool, true, false, Option, none, some, ◌==◌, if◌then◌else◌, holds, ℕ_discrete,
}
use libre_wave.Common.Int.{ℤ, pos, negsuc}

pub record Access : Type 0 where
  pub readable : Bool
  pub writable : Bool

abbrev pub read_only : Access
read_only = record { readable = true; writable = false }

abbrev pub read_write : Access
read_write = record { readable = true; writable = true }

pub data FieldCodec : Type 0 where
  boolean : FieldCodec
  signed_fixed : (fractional_bits : ℕ) (minimum_raw maximum_raw step_raw : ℤ) → FieldCodec
  volume_select : FieldCodec

pub data Wave3ConfigField : Type 0 where
  input_gain input_mute clipguard_enable lowcut_enable : Wave3ConfigField
  headphone_volume headphone_mute direct_monitor : Wave3ConfigField
  volume_select all_leds_off leds_flip gain_lock : Wave3ConfigField

pub record FieldSpec : Type 0 where
  pub field : Wave3ConfigField
  pub offset : ℕ
  pub codec : FieldCodec
  pub access : Access

-- The number of bytes of a field (`field_slice` of codec.rs).
abbrev pub width : FieldCodec → ℕ
width boolean = 1
width (signed_fixed bits minimum maximum step) = 2
width FieldCodec.volume_select = 1

-- The derived `==`.
unfoldable pub Wave3ConfigField-discrete : Discrete Wave3ConfigField
Wave3ConfigField-discrete = hlevel

unfoldable pub FieldSpec-discrete : Discrete FieldSpec
unfolding ℕ_discrete
FieldSpec-discrete = hlevel ℕ_discrete

abbrev pub boolean_spec : Wave3ConfigField → ℕ → Access → FieldSpec
boolean_spec field offset access = record {
  field = field;
  offset = offset;
  codec = boolean;
  access = access;
}

abbrev pub signed_fixed_spec : Wave3ConfigField → ℕ → ℕ → ℤ → ℤ → ℤ → Access → FieldSpec
signed_fixed_spec field offset fractional_bits minimum_raw maximum_raw step_raw access = record {
  field = field;
  offset = offset;
  codec = signed_fixed fractional_bits minimum_raw maximum_raw step_raw;
  access = access;
}

abbrev pub volume_select_spec : Wave3ConfigField → ℕ → Access → FieldSpec
volume_select_spec field offset access = record {
  field = field;
  offset = offset;
  codec = FieldCodec.volume_select;
  access = access;
}

abbrev pub q8_8_fractional_bits : ℕ
q8_8_fractional_bits = 8

unfoldable pub config_fields : List FieldSpec
config_fields =
    signed_fixed_spec input_gain 0 q8_8_fractional_bits (pos 0) (pos 10240) (pos 128) read_write
    ∷ boolean_spec input_mute 4 read_write
    ∷ boolean_spec clipguard_enable 5 read_write
    ∷ boolean_spec lowcut_enable 6 read_write
    ∷ signed_fixed_spec headphone_volume 7 q8_8_fractional_bits (negsuc 15359) (pos 0) (pos 128)
        read_write
    ∷ boolean_spec headphone_mute 9 read_write
    ∷ signed_fixed_spec direct_monitor 10 q8_8_fractional_bits (pos 0) (pos 25600) (pos 1280)
        read_write
    ∷ volume_select_spec Wave3ConfigField.volume_select 12 read_write
    ∷ boolean_spec all_leds_off 13 read_write
    ∷ boolean_spec leds_flip 14 read_write
    ∷ boolean_spec gain_lock 15 read_write
    ∷ []

-- `.iter().find(|spec| spec.field() == field)`
unfoldable pub find_spec : Wave3ConfigField → List FieldSpec → Option FieldSpec
find_spec field [] = none
find_spec field (spec ∷ specs) =
    if holds (Wave3ConfigField-discrete spec.field field) then some spec else find_spec field specs

-- `.contains(&spec)`
unfoldable pub contains : List FieldSpec → FieldSpec → Bool
contains [] spec = false
contains (s ∷ specs) spec = if holds (FieldSpec-discrete s spec) then true else contains specs spec

-- The search never fails (`Fields.Layout`), so the fallback stands for no case.
unfoldable pub field_spec : Wave3ConfigField → FieldSpec
unfolding find_spec config_fields
field_spec field = elim (find_spec field config_fields) [
  | some spec ↦ spec
  | none ↦ boolean_spec field 0 read_only
]
