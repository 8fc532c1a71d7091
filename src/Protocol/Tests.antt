-- ===== src/Protocol/Tests.antt =====
-- The properties of crates/librewave-protocol at concrete inputs.
use libre_wave.Common.{
  ℕ, ◌≡◌, ◌↔◌, ◌<◌, refl, List, [], ◌∷◌, true, false, arith, ok, ◌⊎◌, ◌≤◌, ◌≢◌, get_or, ◌+◌, some,
  err,
}
use libre_wave.Common.Int.{pos}
use libre_wave.Common.Bytes.{from_le, signed16, low_byte, high_byte}
use libre_wave.Protocol.Identity.{out}
use libre_wave.Protocol.Fields.{
  Wave3ConfigField, input_mute, input_gain, clipguard_enable, lowcut_enable, headphone_volume,
  headphone_mute, direct_monitor, volume_select, all_leds_off, leds_flip, gain_lock, config_fields,
  field_spec, contains, FieldSpec-discrete, Wave3ConfigField-discrete, width,
}
use libre_wave.Protocol.Schema.{
  deref, config_schema_5_4, version_schema_5_3, is_config_schema, admit,
}
use libre_wave.Protocol.Schema.Admission.{IsStatic, admit_iff}
use libre_wave.Protocol.Codec.{
  boolean, PatchResult, changed, unchanged, decode_field, decode_bytes, patch_field, write_value,
  validate, Bytes-discrete, from_wire, mic,
}
use libre_wave.Protocol.Wave3.{
  Wave3GainDb, gain_from_raw, validate_fixed, microphone_gain, Wave3Config, microphone_mute,
  change_field, change_value, Wave3ControlState, get, apply_control, controls,
}
use libre_wave.Protocol.Wave3.Edit.{IsConfig, set_lem, apply_control_total}
use libre_wave.Protocol.Wave3.Controls.{
  updated, controls-apply_control, controls_total, IsDecodable,
}
use libre_wave.Protocol.Setup.{
  SetupPacket, message_not_writable, payload_too_large, to_bytes, message_transfer, version_probe,
  interface_index,
}
use libre_wave.Protocol.Setup.Wire.{read_setup, to_bytes_iff}
use libre_wave.Protocol.Setup.Packets.{
  IsPacket, IsTransfer, Permits, message_transfer_iff, out_transfer_iff,
}

abbrev pub zeros : List ℕ
zeros = 0 ∷ 0 ∷ 7 ∷ 9 ∷ 0 ∷ 0 ∷ 0 ∷ 0 ∷ 0 ∷ 0 ∷ 0 ∷ 0 ∷ 1 ∷ 0 ∷ 0 ∷ 0 ∷ []

abbrev pub sample : Wave3Config
sample = record { bytes = zeros; schema = config_schema_5_4 }

abbrev pub muted : Wave3Config
muted = record {
  bytes = 0 ∷ 0 ∷ 7 ∷ 9 ∷ 1 ∷ 0 ∷ 0 ∷ 0 ∷ 0 ∷ 0 ∷ 0 ∷ 0 ∷ 1 ∷ 0 ∷ 0 ∷ 0 ∷ [];
  schema = config_schema_5_4;
}

pub sample-IsConfig : IsConfig sample
unfolding is_config_schema
sample-IsConfig = record { admitted = refl; complete = refl; bytes = omega arith }

sample_mute : apply_control sample (microphone_mute true) ≡ ok (changed, muted)
unfolding apply_control patch_field deref config_fields contains field_spec FieldSpec-discrete
    Wave3ConfigField-discrete validate write_value Bytes-discrete
sample_mute = refl

set_lem_example :
    (get muted input_mute ≡ ok (boolean true))
    × ((other : Wave3ConfigField) → input_mute ≢ other → get muted other ≡ get sample other)
    × ((i : ℕ)
        → (i < (field_spec input_mute).offset)
          ⊎ ((field_spec input_mute).offset + width (field_spec input_mute).codec ≤ i)
        → get_or muted.bytes i 0 ≡ get_or sample.bytes i 0)
    × IsConfig muted
    × (muted.schema ≡ sample.schema)
    × ((changed ≡ unchanged) ↔ (sample ≡ muted))
unfolding apply_control change_field change_value
set_lem_example = set_lem sample input_mute (boolean true) changed muted sample_mute sample-IsConfig

-- One decibel, in units of 1/256
abbrev one_decibel : Wave3GainDb
one_decibel = record { raw_q8_8 = pos 256 }

one_decibel_made : gain_from_raw (pos 256) ≡ ok one_decibel
unfolding gain_from_raw validate_fixed validate field_spec config_fields FieldSpec-discrete
    Wave3ConfigField-discrete
one_decibel_made = refl

apply_control_total_example :
    (r : PatchResult) × (config' : Wave3Config) × (apply_control sample
        (microphone_gain one_decibel)
      ≡ ok (r, config'))
apply_control_total_example =
    apply_control_total sample (microphone_gain one_decibel) sample-IsConfig one_decibel_made

abbrev shown : Wave3ControlState
shown = record {
  microphone_gain = record { raw_q8_8 = pos 0 };
  microphone_mute = false;
  clipguard_enabled = false;
  lowcut_enabled = false;
  headphone_volume = record { raw_q8_8 = pos 0 };
  headphone_mute = false;
  direct_monitor = record { raw_q8_8 = pos 0 };
  volume_select = mic;
  gain_lock = false;
}

pub sample-IsDecodable : IsDecodable sample
unfolding get deref decode_field decode_bytes config_fields contains field_spec FieldSpec-discrete
    Wave3ConfigField-discrete validate from_wire from_le signed16
sample-IsDecodable input_gain = (_, refl)
sample-IsDecodable input_mute = (_, refl)
sample-IsDecodable clipguard_enable = (_, refl)
sample-IsDecodable lowcut_enable = (_, refl)
sample-IsDecodable headphone_volume = (_, refl)
sample-IsDecodable headphone_mute = (_, refl)
sample-IsDecodable direct_monitor = (_, refl)
sample-IsDecodable volume_select = (_, refl)
sample-IsDecodable all_leds_off = (_, refl)
sample-IsDecodable leds_flip = (_, refl)
sample-IsDecodable gain_lock = (_, refl)

sample-controls : controls sample ≡ ok shown
unfolding controls get deref decode_field decode_bytes config_fields contains field_spec
    FieldSpec-discrete Wave3ConfigField-discrete validate from_wire from_le signed16
sample-controls = refl

controls-apply_control_example : controls muted ≡ ok (record shown { microphone_mute = true })
unfolding updated
controls-apply_control_example =
    controls-apply_control sample muted shown (microphone_mute true) changed sample-controls
      sample_mute

controls_total_example : (s : Wave3ControlState) × (controls sample ≡ ok s)
controls_total_example = controls_total sample sample-IsDecodable

admit_iff_example : (admit (deref config_schema_5_4).identity ≡ ok config_schema_5_4) ↔ (
    IsStatic config_schema_5_4
    × ((deref config_schema_5_4).identity ≡ (deref config_schema_5_4).identity))
admit_iff_example = admit_iff (deref config_schema_5_4).identity config_schema_5_4

-- The version probe of interface 3, and its bytes
abbrev probe : SetupPacket
probe = record { request_type = 0xa1; request = 0x85; value = 0x000a; index = 0x3303; length = 2 }

probe_made : version_probe 3 ≡ probe
unfolding version_probe interface_index
probe_made = refl

abbrev probe_bytes : List ℕ
probe_bytes = 0xa1 ∷ 0x85 ∷ 0x0a ∷ 0 ∷ 0x03 ∷ 0x33 ∷ 2 ∷ 0 ∷ []

probe-IsPacket : IsPacket probe
probe-IsPacket = record {
  value_word = omega arith;
  index_word = omega arith;
  length_word = omega arith;
}

to_bytes_iff_example : (to_bytes probe ≡ probe_bytes) ↔ (read_setup probe_bytes ≡ some probe)
to_bytes_iff_example = to_bytes_iff probe probe_bytes probe-IsPacket (omega arith)

probe_on_wire : to_bytes (version_probe 3) ≡ probe_bytes
unfolding to_bytes version_probe interface_index low_byte high_byte
probe_on_wire = refl

message_transfer_iff_example :
    ((p : SetupPacket)
      → (message_transfer 3 out (deref config_schema_5_4) ≡ ok p)
        ↔ IsTransfer 3 out (deref config_schema_5_4) p)
    × ((message_transfer 3 out (deref config_schema_5_4) ≡ err message_not_writable)
        ↔ ¬ Permits out (deref config_schema_5_4))
    × ((message_transfer 3 out (deref config_schema_5_4) ≡ err payload_too_large) ↔ (
        Permits out (deref config_schema_5_4)
        × (65536 ≤ (deref config_schema_5_4).identity.payload_size)))
message_transfer_iff_example = message_transfer_iff 3 out (deref config_schema_5_4) (omega arith)

out_transfer_iff_example :
    ((p : SetupPacket) × (message_transfer 3 out (deref version_schema_5_3) ≡ ok p))
    ↔ (is_config_schema version_schema_5_3 ≡ true)
out_transfer_iff_example = out_transfer_iff 3 version_schema_5_3 tt
