-- ===== src/Protocol/Wave3/Ranges.antt =====
-- The values that the typed constructors of crates/librewave-protocol/src/wave3.rs accept.
use libre_wave.Common.{ℕ, ◌*◌, ◌/◌, ◌-◌, ◌≤◌, ◌≡◌, ◌↔◌, arith, ok}
use libre_wave.Common.Int.{ℤ, pos, negsuc, sub_ℕ}
use libre_wave.Protocol.Fields.{Wave3ConfigField, Wave3ConfigField-discrete, field_spec, input_gain}
use libre_wave.Protocol.Wave3.{
  Wave3GainDb, Wave3HeadphoneDb, Wave3MonitorPercent, validate_fixed, gain_from_raw,
  headphone_from_raw, monitor_from_raw,
}

gain_valid :
    (raw : ℤ) → validate_fixed input_gain raw ≡ ok tt → (k : ℕ) × (k ≤ 80) × (raw ≡ pos (128 * k))
unfolding validate_fixed field_spec Wave3ConfigField-discrete
gain_valid (pos n) h = (n / 128, ground arith, ground arith)
gain_valid (negsuc n) h = absurd (ground arith)

gain_accepts : (k : ℕ) → k ≤ 80 → validate_fixed input_gain (pos (128 * k)) ≡ ok tt
unfolding validate_fixed field_spec Wave3ConfigField-discrete
gain_accepts k h = ground arith

-- A microphone gain is one of the 81 values 0.0, 0.5, …, 40.0 dB, in Q8.8.
pub gain_from_raw_iff :
    (raw : ℤ) (gain : Wave3GainDb)
    → (gain_from_raw raw ≡ ok gain)
      ↔ ((gain.raw_q8_8 ≡ raw) × ((k : ℕ) × (k ≤ 80) × (raw ≡ pos (128 * k))))
unfolding gain_from_raw
gain_from_raw_iff raw gain = (
  λ h. (ground arith, gain_valid raw (ground arith)),
  λ h. ground (arith, gain_accepts h.1.0 h.1.1),
)

headphone_valid :
    (raw : ℤ)
    → validate_fixed Wave3ConfigField.headphone_volume raw ≡ ok tt
    → (k : ℕ) × (k ≤ 120) × (raw ≡ sub_ℕ (128 * k) 15360)
unfolding validate_fixed field_spec Wave3ConfigField-discrete
headphone_valid (pos n) h = (120, ground arith, ground arith)
headphone_valid (negsuc n) h = ((15359 - n) / 128, ground arith, ground arith)

headphone_accepts :
    (k : ℕ)
    → k ≤ 120
    → validate_fixed Wave3ConfigField.headphone_volume (sub_ℕ (128 * k) 15360) ≡ ok tt
unfolding validate_fixed field_spec Wave3ConfigField-discrete
headphone_accepts k h = ground arith

-- A headphone level is one of the 121 values -60.0, -59.5, …, 0.0 dB, in Q8.8.
pub headphone_from_raw_iff :
    (raw : ℤ) (level : Wave3HeadphoneDb)
    → (headphone_from_raw raw ≡ ok level)
      ↔ ((level.raw_q8_8 ≡ raw) × ((k : ℕ) × (k ≤ 120) × (raw ≡ sub_ℕ (128 * k) 15360)))
unfolding headphone_from_raw
headphone_from_raw_iff raw level = (
  λ h. (ground arith, headphone_valid raw (ground arith)),
  λ h. ground (arith, headphone_accepts h.1.0 h.1.1),
)

monitor_valid :
    (raw : ℤ)
    → validate_fixed Wave3ConfigField.direct_monitor raw ≡ ok tt
    → (k : ℕ) × (k ≤ 20) × (raw ≡ pos (1280 * k))
unfolding validate_fixed field_spec Wave3ConfigField-discrete
monitor_valid (pos n) h = (n / 1280, ground arith, ground arith)
monitor_valid (negsuc n) h = absurd (ground arith)

monitor_accepts :
    (k : ℕ) → k ≤ 20 → validate_fixed Wave3ConfigField.direct_monitor (pos (1280 * k)) ≡ ok tt
unfolding validate_fixed field_spec Wave3ConfigField-discrete
monitor_accepts k h = ground arith

-- A direct-monitor balance is one of the 21 values 0, 5, …, 100 percent, in Q8.8.
pub monitor_from_raw_iff :
    (raw : ℤ) (balance : Wave3MonitorPercent)
    → (monitor_from_raw raw ≡ ok balance)
      ↔ ((balance.raw_q8_8 ≡ raw) × ((k : ℕ) × (k ≤ 20) × (raw ≡ pos (1280 * k))))
unfolding monitor_from_raw
monitor_from_raw_iff raw balance = (
  λ h. (ground arith, monitor_valid raw (ground arith)),
  λ h. ground (arith, monitor_accepts h.1.0 h.1.1),
)
