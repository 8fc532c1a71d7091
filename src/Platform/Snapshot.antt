-- ===== src/Platform/Snapshot.antt =====
-- crates/librewave-platform-linux/src/usb.rs: a complete configuration as the portable view.
use libre_wave.Common.{Bool, Result, ok, err, ◌>>=◌, map_err}
use libre_wave.Common.Int.{ℤ}
use libre_wave.Protocol.Fields.{Wave3ConfigField, all_leds_off, leds_flip, q8_8_fractional_bits}
use libre_wave.Protocol.Codec.{SemanticValue, VolumeSelect, mic, headphone, mix}
use libre_wave.Protocol.Wave3.{Wave3Config, get, controls}
use libre_wave.Core.Controls.{FixedPointValue, VolumeSelection, microphone, Wave3ConfigSnapshot}

pub data Wave3SnapshotError : Type 0 where
  wave3_snapshot_error : Wave3SnapshotError

abbrev pub selection : VolumeSelect → VolumeSelection
selection mic = microphone
selection headphone = VolumeSelection.headphone
selection mix = VolumeSelection.mix

abbrev pub q8_8 : ℤ → FixedPointValue
q8_8 raw = record { raw = raw; fractional_bits = q8_8_fractional_bits }

abbrev pub as_boolean : SemanticValue → Result Wave3SnapshotError Bool
as_boolean (SemanticValue.boolean value) = ok value
as_boolean _ = err wave3_snapshot_error

unfoldable pub boolean : Wave3Config → Wave3ConfigField → Result Wave3SnapshotError Bool
boolean config field = do
  value ← map_err (λ _. wave3_snapshot_error) (get config field)
  as_boolean value

unfoldable pub wave3_config_snapshot : Wave3Config → Result Wave3SnapshotError Wave3ConfigSnapshot
unfolding boolean
wave3_config_snapshot config = do
  state ← map_err (λ _. wave3_snapshot_error) (controls config)
  leds ← boolean config all_leds_off
  flip ← boolean config leds_flip
  ok (record {
    input_gain = q8_8 state.microphone_gain.raw_q8_8;
    input_mute = state.microphone_mute;
    clipguard_enable = state.clipguard_enabled;
    lowcut_enable = state.lowcut_enabled;
    headphone_volume = q8_8 state.headphone_volume.raw_q8_8;
    headphone_mute = state.headphone_mute;
    direct_monitor = q8_8 state.direct_monitor.raw_q8_8;
    volume_select = selection state.volume_select;
    all_leds_off = leds;
    leds_flip = flip;
    gain_lock = state.gain_lock;
  })
