-- ===== src/Protocol/Wave3.antt =====
-- crates/librewave-protocol/src/wave3.rs: the typed controls of the Wave:3 and its complete
-- configuration payload. `set` and `apply_control` return the new configuration beside their result.
pub mod Edit
pub mod Controls
pub mod Ranges
use libre_wave.Common.{
  ℕ, List, Bool, ◌==◌, if◌then◌else◌, length, Result, ok, err, ◌>>=◌, ◌>>◌, ensure, ok_or,
}
use libre_wave.Common.Int.{ℤ}
use libre_wave.Protocol.Fields.{
  Wave3ConfigField, input_gain, input_mute, clipguard_enable, lowcut_enable, field_spec,
  q8_8_fractional_bits,
}
use libre_wave.Protocol.Schema.{SchemaRef, deref, is_config_schema}
use libre_wave.Protocol.Codec.{
  SemanticValue, boolean, fixed_point, enum, ValueError, wrong_type, fractional_bits, unknown_enum,
  CodecError, value, schema_mismatch, payload_length, PatchResult, VolumeSelect, to_wire, from_wire,
  validate, decode_field, patch_field,
}

unfoldable pub validate_fixed : Wave3ConfigField → ℤ → Result ValueError (Unit {0})
unfolding validate
validate_fixed field raw = validate (field_spec field).codec (fixed_point raw q8_8_fractional_bits)

pub record Wave3GainDb : Type 0 where
  pub raw_q8_8 : ℤ

pub record Wave3HeadphoneDb : Type 0 where
  pub raw_q8_8 : ℤ

pub record Wave3MonitorPercent : Type 0 where
  pub raw_q8_8 : ℤ

-- The three `from_raw_q8_8`.
unfoldable pub gain_from_raw : ℤ → Result ValueError Wave3GainDb
gain_from_raw raw = do validate_fixed input_gain raw; ok (record { raw_q8_8 = raw })

pub headphone_from_raw : ℤ → Result ValueError Wave3HeadphoneDb
headphone_from_raw raw = do
  validate_fixed Wave3ConfigField.headphone_volume raw
  ok (record { raw_q8_8 = raw })

pub monitor_from_raw : ℤ → Result ValueError Wave3MonitorPercent
monitor_from_raw raw = do
  validate_fixed Wave3ConfigField.direct_monitor raw
  ok (record { raw_q8_8 = raw })

pub record Wave3ControlState : Type 0 where
  pub microphone_gain : Wave3GainDb
  pub microphone_mute : Bool
  pub clipguard_enabled : Bool
  pub lowcut_enabled : Bool
  pub headphone_volume : Wave3HeadphoneDb
  pub headphone_mute : Bool
  pub direct_monitor : Wave3MonitorPercent
  pub volume_select : VolumeSelect
  pub gain_lock : Bool

pub data Wave3ControlChange : Type 0 where
  microphone_gain : Wave3GainDb → Wave3ControlChange
  microphone_mute : Bool → Wave3ControlChange
  clipguard : Bool → Wave3ControlChange
  lowcut : Bool → Wave3ControlChange
  headphone_volume : Wave3HeadphoneDb → Wave3ControlChange
  headphone_mute : Bool → Wave3ControlChange
  direct_monitor : Wave3MonitorPercent → Wave3ControlChange
  volume_select : VolumeSelect → Wave3ControlChange
  all_leds_off : Bool → Wave3ControlChange
  leds_flip : Bool → Wave3ControlChange
  gain_lock : Bool → Wave3ControlChange

unfoldable pub change_field : Wave3ControlChange → Wave3ConfigField
change_field (microphone_gain v) = input_gain
change_field (microphone_mute v) = input_mute
change_field (clipguard v) = clipguard_enable
change_field (lowcut v) = lowcut_enable
change_field (Wave3ControlChange.headphone_volume v) = Wave3ConfigField.headphone_volume
change_field (Wave3ControlChange.headphone_mute v) = Wave3ConfigField.headphone_mute
change_field (Wave3ControlChange.direct_monitor v) = Wave3ConfigField.direct_monitor
change_field (Wave3ControlChange.volume_select v) = Wave3ConfigField.volume_select
change_field (Wave3ControlChange.all_leds_off v) = Wave3ConfigField.all_leds_off
change_field (Wave3ControlChange.leds_flip v) = Wave3ConfigField.leds_flip
change_field (Wave3ControlChange.gain_lock v) = Wave3ConfigField.gain_lock

abbrev q8_8 : ℤ → SemanticValue
q8_8 raw = fixed_point raw q8_8_fractional_bits

unfoldable pub change_value : Wave3ControlChange → SemanticValue
unfolding to_wire
change_value (microphone_gain v) = q8_8 v.raw_q8_8
change_value (microphone_mute v) = boolean v
change_value (clipguard v) = boolean v
change_value (lowcut v) = boolean v
change_value (Wave3ControlChange.headphone_volume v) = q8_8 v.raw_q8_8
change_value (Wave3ControlChange.headphone_mute v) = boolean v
change_value (Wave3ControlChange.direct_monitor v) = q8_8 v.raw_q8_8
change_value (Wave3ControlChange.volume_select v) = enum (to_wire v)
change_value (Wave3ControlChange.all_leds_off v) = boolean v
change_value (Wave3ControlChange.leds_flip v) = boolean v
change_value (Wave3ControlChange.gain_lock v) = boolean v

pub record Wave3Config : Type 0 where
  pub bytes : List ℕ
  pub schema : SchemaRef

unfoldable pub from_schema : SchemaRef → List ℕ → Result CodecError Wave3Config
unfolding is_config_schema
from_schema schema payload = do
  ensure (is_config_schema schema) schema_mismatch
  let expected = (deref schema).identity.payload_size
  ensure (length payload == expected) (payload_length expected (length payload))
  ok (record { bytes = payload; schema = schema })

unfoldable pub get : Wave3Config → Wave3ConfigField → Result CodecError SemanticValue
get config field = decode_field (deref config.schema) (field_spec field) config.bytes

-- The closures of `controls`.
expect_fixed : Wave3ConfigField → SemanticValue → Result CodecError ℤ
expect_fixed field (fixed_point raw bits) =
    if bits == q8_8_fractional_bits
    then ok raw
    else err (value field (fractional_bits q8_8_fractional_bits bits))
expect_fixed field _ = err (value field wrong_type)

expect_boolean : Wave3ConfigField → SemanticValue → Result CodecError Bool
expect_boolean field (boolean b) = ok b
expect_boolean field _ = err (value field wrong_type)

expect_select : SemanticValue → Result CodecError VolumeSelect
unfolding from_wire
expect_select (enum w) = ok_or (from_wire w) (value Wave3ConfigField.volume_select (unknown_enum w))
expect_select _ = err (value Wave3ConfigField.volume_select wrong_type)

fixed : Wave3Config → Wave3ConfigField → Result CodecError ℤ
unfolding expect_fixed
fixed config field = do v ← get config field; expect_fixed field v

flag : Wave3Config → Wave3ConfigField → Result CodecError Bool
unfolding expect_boolean
flag config field = do v ← get config field; expect_boolean field v

unfoldable pub controls : Wave3Config → Result CodecError Wave3ControlState
unfolding expect_select fixed flag
controls config = do
  select ← get config Wave3ConfigField.volume_select
  selection ← expect_select select
  gain_raw ← fixed config input_gain
  headphone_raw ← fixed config Wave3ConfigField.headphone_volume
  monitor_raw ← fixed config Wave3ConfigField.direct_monitor
  mute ← flag config input_mute
  guarded ← flag config clipguard_enable
  cut ← flag config lowcut_enable
  muted ← flag config Wave3ConfigField.headphone_mute
  locked ← flag config Wave3ConfigField.gain_lock
  ok (record {
    microphone_gain = record { raw_q8_8 = gain_raw };
    microphone_mute = mute;
    clipguard_enabled = guarded;
    lowcut_enabled = cut;
    headphone_volume = record { raw_q8_8 = headphone_raw };
    headphone_mute = muted;
    direct_monitor = record { raw_q8_8 = monitor_raw };
    volume_select = selection;
    gain_lock = locked;
  })

unfoldable pub set :
    Wave3Config → Wave3ConfigField → SemanticValue → Result CodecError (PatchResult × Wave3Config)
set config field v = do
  (patch, bytes) ← patch_field (deref config.schema) (field_spec field) config.bytes v
  ok (patch, record config { bytes = bytes })

unfoldable pub apply_control :
    Wave3Config → Wave3ControlChange → Result CodecError (PatchResult × Wave3Config)
unfolding set change_field change_value
apply_control config change = set config (change_field change) (change_value change)
