-- ===== src/Protocol/Fields/Layout.antt =====
-- The layout of the reviewed field table (crates/librewave-protocol/src/wave3.rs).
use libre_wave.Common.{◌+◌, ◌≤◌, ◌≡◌, ◌≢◌, ◌⊎◌, refl, Bool, true, ◌||◌, some, arith, leb, holds}
use libre_wave.Protocol.Fields.{
  FieldSpec, width, Wave3ConfigField, Wave3ConfigField-discrete, FieldSpec-discrete, find_spec,
  contains, config_fields, field_spec, input_gain, input_mute, clipguard_enable, lowcut_enable,
  headphone_volume, headphone_mute, direct_monitor, all_leds_off, leds_flip, gain_lock,
}

pub contains-field_spec : (f : Wave3ConfigField) → contains config_fields (field_spec f) ≡ true
unfolding field_spec contains Wave3ConfigField-discrete FieldSpec-discrete
contains-field_spec input_gain = refl
contains-field_spec _ = refl

pub find_spec-field_spec : (f : Wave3ConfigField) → find_spec f config_fields ≡ some (field_spec f)
unfolding field_spec find_spec config_fields Wave3ConfigField-discrete
find_spec-field_spec input_gain = refl
find_spec-field_spec _ = refl

pub field-field_spec : (f : Wave3ConfigField) → (field_spec f).field ≡ f
unfolding field_spec Wave3ConfigField-discrete
field-field_spec input_gain = refl
field-field_spec _ = refl

pub field_spec_end :
    (f : Wave3ConfigField) → (field_spec f).offset + width (field_spec f).codec ≤ 16
unfolding field_spec Wave3ConfigField-discrete
field_spec_end input_gain = omega arith
field_spec_end _ = omega arith

abbrev apart : FieldSpec → FieldSpec → Bool
apart s t = leb (s.offset + width s.codec) t.offset || leb (t.offset + width t.codec) s.offset

abbrev pub Apart : FieldSpec → FieldSpec → Type 0
Apart s t = (s.offset + width s.codec ≤ t.offset) ⊎ (t.offset + width t.codec ≤ s.offset)

-- One evaluation for each pair of fields.
apart_table :
    (f g : Wave3ConfigField)
    → (holds (Wave3ConfigField-discrete f g) || apart (field_spec f) (field_spec g)) ≡ true
unfolding field_spec Wave3ConfigField-discrete
apart_table input_gain input_gain = refl
apart_table input_mute input_gain = refl
apart_table clipguard_enable input_gain = refl
apart_table lowcut_enable input_gain = refl
apart_table headphone_volume input_gain = refl
apart_table headphone_mute input_gain = refl
apart_table direct_monitor input_gain = refl
apart_table Wave3ConfigField.volume_select input_gain = refl
apart_table all_leds_off input_gain = refl
apart_table leds_flip input_gain = refl
apart_table gain_lock input_gain = refl
apart_table _ _ = refl

pub field_spec-Apart : (f g : Wave3ConfigField) → f ≢ g → Apart (field_spec f) (field_spec g)
field_spec-Apart f g h = ground (arith, apart_table f g)
