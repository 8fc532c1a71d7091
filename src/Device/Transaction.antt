-- ===== src/Device/Transaction.antt =====
-- crates/librewave-device/src/transaction.rs: one reviewed control change, written after a fresh read
-- of the baseline, read back, and undone after a failure.
pub mod Traffic
pub mod Stored
pub mod Fair
pub mod Ends
use libre_wave.Common.{
  ℕ, List, Bool, true, false, not, ◌==◌, ltb, if◌then◌else◌, holds, length, replicate, Result, ok,
  err, ◌>>=◌, map_err,
}
use libre_wave.Protocol.Identity.{ApiVersion}
use libre_wave.Protocol.Schema.{config_schema}
use libre_wave.Protocol.Codec.{CodecError, PatchResult}
use libre_wave.Protocol.Wave3.{Wave3Config, Wave3ControlChange, apply_control}
use libre_wave.Protocol.Setup.{SetupPacket}
use libre_wave.Device.Transport.{Transport, TransportError, control_transfer_timeout}
use libre_wave.Device.Configs.{same_config, checked_config}
use libre_wave.Device.Session.{
  SessionSchemaError, protocol, transfer_shape, Wave3Session, Wave3WriteState, ready,
}
use libre_wave.Device.Outcomes.{
  TransactionPhase, preflight_read, write, readback, restoration_write, restoration_readback,
  TransactionError, needs_reprobe, stale_baseline, invalid_change, schema, transport,
  short_transfer, long_transfer, invalid_configuration, readback_mismatch, RestorationOutcome,
  TransactionOutcome, applied, unchanged, rejected, failed, transaction_setup,
}

unfoldable pub Wave3WriteState-discrete : Discrete Wave3WriteState
Wave3WriteState-discrete = hlevel

check_length : {A : Type 0} → TransactionPhase → ℕ → ℕ → A → Result TransactionError A
check_length phase expected actual a =
    if ltb actual expected
    then err (short_transfer phase expected actual)
    else if ltb expected actual
    then err (long_transfer phase expected actual)
    else ok a

-- `.map_err(..)?` and then `check_length`.
completed :
    {A : Type 0} → TransactionPhase → ℕ → A → Result TransportError ℕ → Result TransactionError A
unfolding check_length
completed phase expected a (ok actual) = check_length phase expected actual a
completed phase expected a (err e) = err (transport phase e)

-- What follows the transfer in `read_config`.
parsed : ApiVersion → TransactionPhase → List ℕ → Result TransactionError Wave3Config
parsed api phase payload = do
  reference ← map_err (λ e. schema (protocol e)) (config_schema api)
  map_err (invalid_configuration phase) (checked_config reference payload)

-- The readback must equal the configuration that was sent.
confirmed :
    TransactionPhase
    → Wave3Config
    → Result TransactionError Wave3Config
    → Result TransactionError Wave3Config
confirmed phase expected (ok found) =
    if same_config found expected then ok found else err (readback_mismatch phase expected found)
confirmed phase expected (err e) = err e

module _ {T : Type 0} (port : Transport T) where
  -- The read of `read_config` into a fresh buffer of 16 bytes, which it returns.
  read_payload : SetupPacket → TransactionPhase → T → Result TransactionError (List ℕ) × T
  unfolding completed
  read_payload packet phase t =
      if 16 == packet.length
      then (let (r, payload, t') =
            port.read_control packet (replicate 16 0) control_transfer_timeout t in
          (completed phase packet.length payload r, t'))
      else (err (schema (transfer_shape packet.length 16)), t)

  unfoldable pub read_config :
      SetupPacket → ApiVersion → TransactionPhase → T → Result TransactionError Wave3Config × T
  unfolding read_payload parsed
  read_config packet api phase t =
      let (r, t') = read_payload packet phase t in (r >>= parsed api phase, t')

  unfoldable pub write_exact :
      SetupPacket → List ℕ → TransactionPhase → T → Result TransactionError (Unit {0}) × T
  unfolding completed
  write_exact packet payload phase t =
      if length payload == packet.length
      then (let (r, t') = port.write_control packet payload control_transfer_timeout t in
          (completed phase packet.length tt r, t'))
      else (err (schema (transfer_shape packet.length (length payload))), t)

  unfoldable pub restore :
      SetupPacket → SetupPacket → ApiVersion → Wave3Config → T → RestorationOutcome × T
  unfolding confirmed
  restore read_setup write_setup api original t =
      let (w, t1) = write_exact write_setup original.bytes restoration_write t in
      let (r, t2) = read_config read_setup api restoration_readback t1 in
      (record { write = w; verification = confirmed restoration_readback original r }, t2)

  after_write :
      SetupPacket
      → ApiVersion
      → Wave3Config
      → Result TransactionError (Unit {0})
      → T
      → Result TransactionError Wave3Config × T
  unfolding confirmed
  after_write read_setup api requested (ok _) t =
      let (r, t') = read_config read_setup api readback t in (confirmed readback requested r, t')
  after_write read_setup api requested (err e) t = (err e, t)

  -- The write and its readback: the configuration read back, or the primary error.
  write_verified :
      SetupPacket
      → SetupPacket
      → ApiVersion
      → Wave3Config
      → T
      → Result TransactionError Wave3Config × T
  unfolding after_write
  write_verified read_setup write_setup api requested t =
      let (w, t') = write_exact write_setup requested.bytes write t in
      after_write read_setup api requested w t'

  abbrev pub Step : Type 0
  Step = TransactionOutcome × Wave3Session × T

  -- After a failed write or readback: the session keeps what the restoration has verified, or is
  -- locked.
  after_restore :
      Wave3Session
      → TransactionError
      → RestorationOutcome
      → Result TransactionError Wave3Config
      → T
      → Step
  after_restore session primary restoration (ok config) t =
      (failed primary restoration, record session { config = config }, t)
  after_restore session primary restoration (err e) t = (
    failed primary restoration,
    record session { write_state = Wave3WriteState.needs_reprobe },
    t,
  )

  settle :
      Wave3Session
      → SetupPacket
      → SetupPacket
      → Wave3Config
      → Result TransactionError Wave3Config
      → T
      → Step
  unfolding after_restore
  settle session read_setup write_setup baseline (ok found) t =
      (applied found, record session { config = found }, t)
  settle session read_setup write_setup baseline (err primary) t =
      let (restoration, t') = restore read_setup write_setup session.api baseline t in
      after_restore session primary restoration restoration.verification t'

  -- From the write on.
  write_phase : Wave3Session → SetupPacket → SetupPacket → Wave3Config → Wave3Config → T → Step
  unfolding write_verified settle
  write_phase session read_setup write_setup baseline requested t =
      let (r, t') = write_verified read_setup write_setup session.api requested t in
      settle session read_setup write_setup baseline r t'

  write_if_changed :
      Wave3Session
      → SetupPacket
      → SetupPacket
      → Wave3Config
      → PatchResult
      → Wave3Config
      → Wave3Config
      → T
      → Step
  unfolding write_phase
  write_if_changed session read_setup write_setup baseline PatchResult.unchanged requested current
        t =
      (unchanged current, session, t)
  write_if_changed session read_setup write_setup baseline PatchResult.changed requested current t =
      write_phase session read_setup write_setup baseline requested t

  -- After the preflight read.
  after_preflight :
      Wave3Session
      → SetupPacket
      → SetupPacket
      → Wave3Config
      → PatchResult
      → Wave3Config
      → Result TransactionError Wave3Config
      → T
      → Step
  unfolding write_if_changed
  after_preflight session read_setup write_setup baseline patch requested (ok current) t =
      if same_config current baseline
      then write_if_changed session read_setup write_setup baseline patch requested current t
      else (rejected (stale_baseline baseline current), record session { config = current }, t)
  after_preflight session read_setup write_setup baseline patch requested (err e) t =
      (rejected e, session, t)

  -- After the checks that need no transfer.
  transfer_phase :
      Wave3Session
      → Wave3Config
      → PatchResult
      → Wave3Config
      → Result TransactionError (SetupPacket × SetupPacket)
      → T
      → Step
  unfolding after_preflight
  transfer_phase session baseline patch requested (ok (read_setup, write_setup)) t =
      let (r, t') = read_config read_setup session.api preflight_read t in
      after_preflight session read_setup write_setup baseline patch requested r t'
  transfer_phase session baseline patch requested (err e) t = (rejected e, session, t)

  after_patch :
      Wave3Session → Wave3Config → Result CodecError (PatchResult × Wave3Config) → T → Step
  unfolding transfer_phase
  after_patch session baseline (ok (patch, requested)) t =
      transfer_phase session baseline patch requested (transaction_setup session) t
  after_patch session baseline (err e) t = (rejected (invalid_change e), session, t)

  unfoldable pub transact_control : Wave3Session → Wave3Config → Wave3ControlChange → T → Step
  unfolding after_patch
  transact_control session baseline change t =
      if not (holds (Wave3WriteState-discrete session.write_state ready))
      then (rejected needs_reprobe, session, t)
      else if not (same_config baseline session.config)
      then (rejected (stale_baseline baseline session.config), session, t)
      else after_patch session baseline (apply_control baseline change) t
