-- ===== src/Device/Outcomes.antt =====
-- crates/librewave-device/src/transaction.rs: what a control transaction can end in, and the setup
-- packets that it uses.
use libre_wave.Common.{ℕ, Result, ok, ◌>>=◌, map_err}
use libre_wave.Protocol.Identity.{in_, out}
use libre_wave.Protocol.Schema.{deref, config_schema}
use libre_wave.Protocol.Codec.{CodecError}
use libre_wave.Protocol.Wave3.{Wave3Config}
use libre_wave.Protocol.Setup.{SetupPacket, message_transfer}
use libre_wave.Device.Transport.{TransportError}
use libre_wave.Device.Session.{SessionSchemaError, protocol, setup, Wave3Session}

pub data TransactionPhase : Type 0 where
  preflight_read write readback restoration_write restoration_readback : TransactionPhase

pub data TransactionError : Type 0 where
  needs_reprobe : TransactionError
  stale_baseline : (expected actual : Wave3Config) → TransactionError
  invalid_change : CodecError → TransactionError
  schema : SessionSchemaError → TransactionError
  transport : TransactionPhase → TransportError → TransactionError
  short_transfer : TransactionPhase → (expected actual : ℕ) → TransactionError
  long_transfer : TransactionPhase → (expected actual : ℕ) → TransactionError
  invalid_configuration : TransactionPhase → CodecError → TransactionError
  readback_mismatch : TransactionPhase → (expected actual : Wave3Config) → TransactionError

pub record RestorationOutcome : Type 0 where
  pub write : Result TransactionError (Unit {0})
  pub verification : Result TransactionError Wave3Config

pub data TransactionOutcome : Type 0 where
  applied : Wave3Config → TransactionOutcome
  unchanged : Wave3Config → TransactionOutcome
  rejected : TransactionError → TransactionOutcome
  failed : (primary : TransactionError) (restoration : RestorationOutcome) → TransactionOutcome

unfoldable pub transaction_setup :
    Wave3Session → Result TransactionError (SetupPacket × SetupPacket)
transaction_setup session = do
  reference ← map_err (λ e. schema (protocol e)) (config_schema session.api)
  receive ←
      map_err (λ e. schema (setup e))
        (message_transfer session.control_interface in_ (deref reference))
  send ←
      map_err (λ e. schema (setup e))
        (message_transfer session.control_interface out (deref reference))
  ok (receive, send)
