-- ===== src/Device/Session.antt =====
-- crates/librewave-device/src/session.rs and lib.rs: the admission probe and the refresh of a Wave:3
-- session.
pub mod Valid
use libre_wave.Common.{
  ℕ, List, [], ◌∷◌, Bool, true, false, not, ◌==◌, ltb, if◌then◌else◌, holds, length, get_or,
  replicate, Result, ok, err, ◌>>=◌, map_err,
}
use libre_wave.Protocol.Identity.{ApiVersion, DeviceModel, wave3, Direction, in_}
use libre_wave.Protocol.Fields.{config_fields}
use libre_wave.Protocol.Schema.{SchemaError, SchemaRef, deref, config_schema}
use libre_wave.Protocol.Codec.{CodecError}
use libre_wave.Protocol.Wave3.{Wave3Config}
use libre_wave.Protocol.Setup.{
  SetupPacket, SetupError, version_probe, decode_version_response, message_transfer,
}
use libre_wave.Device.Transport.{Transport, TransportError, control_transfer_timeout}
use libre_wave.Device.Configs.{same_config, checked_config}

pub record UsbIdentity : Type 0 where
  pub vendor_id : ℕ
  pub product_id : ℕ

pub record DeviceIdentity : Type 0 where
  pub usb : UsbIdentity
  pub model : DeviceModel

unfoldable pub wave3_identity : DeviceIdentity
wave3_identity = record { usb = record { vendor_id = 0x0fd9; product_id = 0x0070 }; model = wave3 }

pub data SessionSchemaError : Type 0 where
  protocol : SchemaError → SessionSchemaError
  setup : SetupError → SessionSchemaError
  configuration : CodecError → SessionSchemaError
  transfer_shape : (setup_length buffer_length : ℕ) → SessionSchemaError

pub data SessionError : Type 0 where
  transport : TransportError → SessionError
  short_transfer : (expected actual : ℕ) → SessionError
  long_transfer : (expected actual : ℕ) → SessionError
  unsupported_api : ApiVersion → SessionError
  schema : SessionSchemaError → SessionError

pub data Wave3WriteState : Type 0 where
  ready needs_reprobe : Wave3WriteState

pub record Wave3Session : Type 0 where
  pub identity : DeviceIdentity
  pub api : ApiVersion
  pub control_interface : ℕ
  pub config : Wave3Config
  pub write_state : Wave3WriteState

pub data Wave3RefreshOutcome : Type 0 where
  unchanged : Wave3Config → Wave3RefreshOutcome
  changed : Wave3Config → Wave3RefreshOutcome

schema_failure : ApiVersion → SchemaError → SessionError
schema_failure api (SchemaError.unsupported_api _) = unsupported_api api
schema_failure api error = schema (protocol error)

checked_length : ℕ → List ℕ → ℕ → Result SessionError (List ℕ)
checked_length expected response actual =
    if ltb actual expected
    then err (short_transfer expected actual)
    else if ltb expected actual
    then err (long_transfer expected actual)
    else ok response

-- The schema and the setup packet of the configuration read.
read_request : ℕ → ApiVersion → Result SessionError (SchemaRef × SetupPacket)
unfolding schema_failure
read_request interface api = do
  reference ← map_err (schema_failure api) (config_schema api)
  packet ← map_err (λ e. schema (setup e)) (message_transfer interface in_ (deref reference))
  ok (reference, packet)

-- What follows the transfer in `read_config`.
parsed : SchemaRef → List ℕ → Result SessionError Wave3Config
parsed reference payload =
    map_err (λ e. schema (configuration e)) (checked_config reference payload)

admitted : ℕ → ApiVersion → Wave3Config → Wave3Session
admitted interface api config = record {
  identity = wave3_identity;
  api = api;
  control_interface = interface;
  config = config;
  write_state = ready;
}

module _ {T : Type 0} (port : Transport T) where
  -- The response buffer is returned.
  read_exact : SetupPacket → List ℕ → T → Result SessionError (List ℕ) × T
  unfolding checked_length
  read_exact packet response t =
      if length response == packet.length
      then (let (r, response', t') = port.read_control packet response control_transfer_timeout t in
          (map_err transport r >>= checked_length packet.length response', t'))
      else (err (schema (transfer_shape packet.length (length response))), t)

  after_request :
      Result SessionError (SchemaRef × SetupPacket) → T → Result SessionError Wave3Config × T
  unfolding read_exact parsed
  after_request (ok (reference, packet)) t =
      let (r, t') = read_exact packet (replicate 16 0) t in (r >>= parsed reference, t')
  after_request (err e) t = (err e, t)

  unfoldable pub read_config : ℕ → ApiVersion → T → Result SessionError Wave3Config × T
  unfolding after_request read_request
  read_config interface api t = after_request (read_request interface api) t

  after_version : ℕ → Result SessionError (List ℕ) → T → Result SessionError Wave3Session × T
  unfolding admitted
  after_version interface (ok version) t =
      let api = decode_version_response (get_or version 0 0) (get_or version 1 0) in
      let (r, t') = read_config interface api t in
      (r >>= λ config. ok (admitted interface api config), t')
  after_version interface (err e) t = (err e, t)

  unfoldable pub probe_wave3 : ℕ → T → Result SessionError Wave3Session × T
  unfolding read_exact after_version
  probe_wave3 interface t =
      let (r, t') = read_exact (version_probe interface) (replicate 2 0) t in
      after_version interface r t'

  after_refresh :
      Wave3Session
      → Result SessionError Wave3Config
      → T
      → Result SessionError Wave3RefreshOutcome × Wave3Session × T
  after_refresh session (ok refreshed) t =
      if same_config refreshed session.config
      then (ok (unchanged refreshed), session, t)
      else (ok (changed refreshed), record session { config = refreshed }, t)
  after_refresh session (err e) t = (err e, record session { write_state = needs_reprobe }, t)

  unfoldable pub refresh_config :
      Wave3Session → T → Result SessionError Wave3RefreshOutcome × Wave3Session × T
  unfolding after_refresh
  refresh_config session t =
      let (r, t') = read_config session.control_interface session.api t in
      after_refresh session r t'
