-- ===== src/Core/Controls.antt =====
-- crates/librewave-core/src/lib.rs: the portable view of a configuration, and a change of one control.
use libre_wave.Common.{ℕ, Bool}
use libre_wave.Common.Int.{ℤ}

pub record FixedPointValue : Type 0 where
  pub raw : ℤ
  pub fractional_bits : ℕ

pub data VolumeSelection : Type 0 where
  microphone headphone mix : VolumeSelection

pub record Wave3ConfigSnapshot : Type 0 where
  pub input_gain : FixedPointValue
  pub input_mute : Bool
  pub clipguard_enable : Bool
  pub lowcut_enable : Bool
  pub headphone_volume : FixedPointValue
  pub headphone_mute : Bool
  pub direct_monitor : FixedPointValue
  pub volume_select : VolumeSelection
  pub all_leds_off : Bool
  pub leds_flip : Bool
  pub gain_lock : Bool

pub data Wave3Control : Type 0 where
  input_gain : FixedPointValue → Wave3Control
  microphone_mute clipguard low_cut : Bool → Wave3Control
  headphone_level : FixedPointValue → Wave3Control
  headphone_mute : Bool → Wave3Control
  monitor_mix : FixedPointValue → Wave3Control
  knob_target : VolumeSelection → Wave3Control
  all_leds_off leds_flip gain_lock : Bool → Wave3Control
