-- ===== src/Device/Tests.antt =====
-- The properties of crates/librewave-device at concrete inputs.
use libre_wave.Common.{
  ℕ, ◌≡◌, refl, List, [], ◌∷◌, ◌++◌, true, arith, if◌then◌else◌, ◌==◌, length, Bool-cases, inl, inr,
  ==_iff, ok,
}
use libre_wave.Common.Bytes.{IsBytes, from_le, signed16}
use libre_wave.Protocol.Identity.{api_version, ApiVersion-discrete, DeviceModel-discrete}
use libre_wave.Protocol.Fields.{
  config_fields, contains, field_spec, FieldSpec-discrete, Wave3ConfigField-discrete,
}
use libre_wave.Protocol.Schema.{config_schema, is_config_schema, deref}
use libre_wave.Protocol.Codec.{PatchResult, decode_field, decode_bytes, validate, from_wire}
use libre_wave.Protocol.Setup.{
  version_probe, decode_version_response, interface_index, message_transfer,
}
use libre_wave.Protocol.Wave3.{
  Wave3Config, Wave3ControlState, microphone_mute, controls, apply_control, get, from_schema,
}
use libre_wave.Protocol.Tests.{zeros, sample, sample-IsConfig, sample-IsDecodable}
use libre_wave.Device.Transport.{Transport, KeepsBuffer, recording}
use libre_wave.Device.Transport.Ideal.{ideal, ideal-Stores}
use libre_wave.Device.Session.{
  Wave3Session, ready, wave3_identity, probe_wave3, refresh_config, read_config,
}
use libre_wave.Device.Session.Valid.{
  IsSession, Refreshed, probe_wave3-IsSession, refresh_config-IsSession,
}
use libre_wave.Device.Configs.{check_fields, checked_config}
use libre_wave.Device.Transaction.{transact_control}
use libre_wave.Device.Transaction.Ends.{Ends, transact_control-Ends}
use libre_wave.Device.Transaction.Traffic.{requested_bytes, sent, transact_control-recording}
use libre_wave.Device.Transaction.Stored.{Done, transact_control_stored}

abbrev pub session : Wave3Session
session = record {
  identity = wave3_identity;
  api = api_version 5 4;
  control_interface = 3;
  config = sample;
  write_state = ready;
}

session-IsSession : IsSession session
unfolding config_schema ApiVersion-discrete DeviceModel-discrete
session-IsSession = record {
  admitted = refl;
  whole = sample-IsConfig;
  decodes = sample-IsDecodable;
}

transact_control_stored_example :
    (patch : PatchResult) × (requested : Wave3Config) × (apply_control sample (microphone_mute true)
      ≡ ok (patch, requested))
    × Done ideal
        (λ m. m)
        ideal-Stores
        session
        patch
        requested
        (transact_control ideal session sample (microphone_mute true) zeros)
transact_control_stored_example =
    transact_control_stored ideal (λ m. m) ideal-Stores session (microphone_mute true) zeros
      session-IsSession refl tt refl

transact_control-Ends_example :
    (let (outcome, session', t') =
        transact_control ideal session sample (microphone_mute true) zeros in
      Ends session sample (microphone_mute true) outcome session')
unfolding is_config_schema
transact_control-Ends_example =
    transact_control-Ends ideal session sample (microphone_mute true) zeros refl

transact_control-recording_example :
    transact_control (recording ideal) session sample (microphone_mute true) (zeros, []) ≡ (
      let (o, s', t') = transact_control ideal session sample (microphone_mute true) zeros in
      (o, s', (t', sent sample.bytes (requested_bytes sample (microphone_mute true)) o ++ [])))
transact_control-recording_example =
    transact_control-recording ideal session sample sample-IsConfig (microphone_mute true) zeros []

-- A device of API version 5.4 that holds `sample`.
abbrev answer : List ℕ → List ℕ
answer buffer =
    if length buffer == 2 then 5 ∷ 4 ∷ [] else if length buffer == 16 then zeros else buffer

abbrev port : Transport (Unit {0})
port = record {
  read_control = λ packet buffer timeout t. (ok (length buffer), answer buffer, t);
  write_control = λ packet payload timeout t. (ok (length payload), t);
}

answer_lem :
    (buffer : List ℕ)
    → (length (answer buffer) ≡ length buffer) × (IsBytes buffer → IsBytes (answer buffer))
answer_lem buffer = elim (Bool-cases (length buffer == 2)) [
  | inl a ↦ rw a ((ground (arith, (==_iff (length buffer) 2).0 a)), λ h. omega arith)
  | inr a ↦ elim (Bool-cases (length buffer == 16)) [
    | inl b ↦ rw (a, b) ((ground (arith, (==_iff (length buffer) 16).0 b)), λ h. omega arith)
    | inr b ↦ rw (a, b) (refl, λ h. h)
  ]
]

port-KeepsBuffer : KeepsBuffer port
port-KeepsBuffer = record {
  same_length = λ packet buffer timeout t. (answer_lem buffer).0;
  still_bytes = λ packet buffer timeout t. (answer_lem buffer).1;
}

probed : (probe_wave3 port 3 tt).0 ≡ ok session
unfolding probe_wave3 version_probe decode_version_response interface_index wave3_identity
    read_config config_schema ApiVersion-discrete DeviceModel-discrete message_transfer deref
    checked_config from_schema is_config_schema check_fields get decode_field decode_bytes
    config_fields contains field_spec FieldSpec-discrete Wave3ConfigField-discrete validate
    from_wire from_le signed16
probed = refl

probe_wave3-IsSession_example :
    IsSession session
    × (session.write_state ≡ ready)
    × (session.control_interface ≡ 3)
    × ((view : Wave3ControlState) × (controls session.config ≡ ok view))
probe_wave3-IsSession_example = probe_wave3-IsSession port port-KeepsBuffer 3 tt session probed

refresh_config-IsSession_example :
    (let (r, s', t') = refresh_config port session tt in IsSession s' × Refreshed session r s')
refresh_config-IsSession_example =
    refresh_config-IsSession port port-KeepsBuffer session tt session-IsSession
