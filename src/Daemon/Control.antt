-- ===== src/Daemon/Control.antt =====
-- crates/librewaved/src/control.rs: a change of one control on a managed connection, and what the
-- daemon makes of its outcome. A message is what its text is about.
pub mod Truth
use libre_wave.Common.{
  ℕ, Bool, true, false, not, ◌&&◌, ◌||◌, ◌==◌, if◌then◌else◌, holds, Option, none, some, Result, ok,
  err, ◌>>=◌, map_err,
}
use libre_wave.Common.Int.{ℤ}
use libre_wave.Protocol.Codec.{ValueError, CodecError, VolumeSelect, mic}
use libre_wave.Protocol.Wave3.{
  Wave3Config, Wave3ControlChange, gain_from_raw, headphone_from_raw, monitor_from_raw,
}
use libre_wave.Core.Controls.{
  FixedPointValue, VolumeSelection, microphone, headphone, mix, Wave3ConfigSnapshot, Wave3Control,
  input_gain, microphone_mute, clipguard, low_cut, headphone_level, headphone_mute, monitor_mix,
  knob_target, all_leds_off, leds_flip, gain_lock,
}
use libre_wave.Platform.Snapshot.{Wave3SnapshotError, wave3_config_snapshot}
use libre_wave.Device.Transport.{Transport, TransportError, not_found}
use libre_wave.Device.Session.{Wave3Session, Wave3WriteState}
use libre_wave.Device.Outcomes.{
  TransactionError, invalid_change, transport, RestorationOutcome, TransactionOutcome, rejected,
}
use libre_wave.Device.Transaction.{Wave3WriteState-discrete, transact_control}

pub data Message : Type 0 where
  fractional_bits : ℕ → Message
  value : ValueError → Message
  codec : CodecError → Message
  transaction : TransactionError → Message
  stale_not_decoded readback_not_decoded : Message

pub data ConnectionOutcome : Type 0 where
  applied unchanged stale_baseline : Wave3ConfigSnapshot → ConnectionOutcome
  invalid : Message → ConnectionOutcome
  disconnected : ConnectionOutcome
  failed :
      (observed : Option Wave3ConfigSnapshot) (restoration_unverified : Bool) (message : Message)
      → ConnectionOutcome

unfoldable pub fixed : {A : Type 0} → FixedPointValue → (ℤ → Result ValueError A) → Result Message A
fixed v construct =
    if not (v.fractional_bits == 8)
    then err (fractional_bits v.fractional_bits)
    else map_err value (construct v.raw)

abbrev pub knob : VolumeSelection → VolumeSelect
knob microphone = mic
knob headphone = VolumeSelect.headphone
knob mix = VolumeSelect.mix

unfoldable pub protocol_change : Wave3Control → Result Message Wave3ControlChange
unfolding fixed
protocol_change (input_gain v) =
    fixed v gain_from_raw >>= λ gain. ok (Wave3ControlChange.microphone_gain gain)
protocol_change (microphone_mute v) = ok (Wave3ControlChange.microphone_mute v)
protocol_change (clipguard v) = ok (Wave3ControlChange.clipguard v)
protocol_change (low_cut v) = ok (Wave3ControlChange.lowcut v)
protocol_change (headphone_level v) =
    fixed v headphone_from_raw >>= λ level. ok (Wave3ControlChange.headphone_volume level)
protocol_change (headphone_mute v) = ok (Wave3ControlChange.headphone_mute v)
protocol_change (monitor_mix v) =
    fixed v monitor_from_raw >>= λ balance. ok (Wave3ControlChange.direct_monitor balance)
protocol_change (knob_target v) = ok (Wave3ControlChange.volume_select (knob v))
protocol_change (all_leds_off v) = ok (Wave3ControlChange.all_leds_off v)
protocol_change (leds_flip v) = ok (Wave3ControlChange.leds_flip v)
protocol_change (gain_lock v) = ok (Wave3ControlChange.gain_lock v)

abbrev pub is_absence : TransportError → Bool
is_absence TransportError.disconnected = true
is_absence not_found = true
is_absence _ = false

-- `disconnected`
abbrev pub is_disconnected : TransactionError → Bool
is_disconnected (transport phase error) = is_absence error
is_disconnected _ = false

-- `.ok()`
abbrev pub ok_of : {E A : Type 0} → Result E A → Option A
ok_of (ok a) = some a
ok_of (err e) = none

abbrev pub is_none : {A : Type 0} → Option A → Bool
is_none none = true
is_none (some a) = false

abbrev pub needs_reprobe : Wave3WriteState → Bool
needs_reprobe state = holds (Wave3WriteState-discrete state Wave3WriteState.needs_reprobe)

-- The `match` of `snapshot_outcome`
abbrev pub decoded : Bool → Result Wave3SnapshotError Wave3ConfigSnapshot → ConnectionOutcome
decoded was_applied (ok snapshot) = if was_applied then applied snapshot else unchanged snapshot
decoded was_applied (err e) = failed none true readback_not_decoded

unfoldable pub snapshot_outcome : Wave3Config → Bool → ConnectionOutcome
snapshot_outcome config was_applied = decoded was_applied (wave3_config_snapshot config)

abbrev pub decoded_stale : Result Wave3SnapshotError Wave3ConfigSnapshot → ConnectionOutcome
decoded_stale (ok snapshot) = ConnectionOutcome.stale_baseline snapshot
decoded_stale (err e) = failed none true stale_not_decoded

unfoldable pub stale_outcome : Wave3Config → ConnectionOutcome
stale_outcome actual = decoded_stale (wave3_config_snapshot actual)

unfoldable pub refused :
    TransactionError → Option Wave3ConfigSnapshot → Wave3WriteState → ConnectionOutcome
unfolding stale_outcome
refused (TransactionError.stale_baseline expected actual) baseline state = stale_outcome actual
refused (invalid_change error) baseline state = invalid (codec error)
refused error baseline state =
    if is_disconnected error
    then ConnectionOutcome.disconnected
    else failed (if needs_reprobe state then none else baseline) (needs_reprobe state)
        (transaction error)

abbrev pub verification_absent : Result TransactionError Wave3Config → Bool
verification_absent (ok config) = false
verification_absent (err error) = is_disconnected error

abbrev pub restored : Result TransactionError Wave3Config → Option Wave3ConfigSnapshot
restored (ok config) = ok_of (wave3_config_snapshot config)
restored (err error) = none

abbrev pub is_err : Result TransactionError Wave3Config → Bool
is_err (ok config) = false
is_err (err error) = true

unfoldable pub transaction_outcome :
    TransactionOutcome → Option Wave3ConfigSnapshot → Wave3WriteState → ConnectionOutcome
unfolding snapshot_outcome refused
transaction_outcome (TransactionOutcome.applied config) baseline state =
    snapshot_outcome config true
transaction_outcome (TransactionOutcome.unchanged config) baseline state =
    snapshot_outcome config false
transaction_outcome (rejected error) baseline state = refused error baseline state
transaction_outcome (TransactionOutcome.failed primary restoration) baseline state =
    if is_disconnected primary && verification_absent restoration.verification
    then ConnectionOutcome.disconnected
    else failed (restored restoration.verification)
        (is_err restoration.verification || is_none (restored restoration.verification))
        (transaction primary)

module _ {T : Type 0} (port : Transport T) where
  abbrev after_transaction :
      TransactionOutcome × Wave3Session × T → ConnectionOutcome × Wave3Session × T
  after_transaction (outcome, session, t) = (
    transaction_outcome outcome (ok_of (wave3_config_snapshot session.config)) session.write_state,
    session,
    t,
  )

  abbrev pub changed :
      Wave3Session → T → Result Message Wave3ControlChange → ConnectionOutcome × Wave3Session × T
  changed session t (err message) = (invalid message, session, t)
  changed session t (ok change) =
      after_transaction (transact_control port session session.config change t)

  -- `ManagedWave3Connection::apply` of a USB connection
  unfoldable pub apply : Wave3Session → Wave3Control → T → ConnectionOutcome × Wave3Session × T
  unfolding protocol_change transaction_outcome
  apply session control t = changed session t (protocol_change control)
