-- ===== src/Protocol/Identity.antt =====
-- crates/librewave-protocol/src/identity.rs. A `u8` and a `usize` are the numbers that they hold.
use libre_wave.Common.{ℕ, ℕ_discrete}

pub record ApiVersion : Type 0 where
  pub major : ℕ
  pub minor : ℕ

pub data DeviceModel : Type 0 where
  wave3 unknown : DeviceModel

pub data MessageKind : Type 0 where
  config status version unknown : MessageKind

pub record MessageIdentity : Type 0 where
  pub kind : MessageKind
  pub id : ℕ

pub record SchemaIdentity : Type 0 where
  pub model : DeviceModel
  pub api : ApiVersion
  pub message : MessageIdentity
  pub payload_size : ℕ

pub data Direction : Type 0 where
  in_ out : Direction

abbrev pub api_version : ℕ → ℕ → ApiVersion
api_version major minor = record { major = major; minor = minor }

abbrev pub message_identity : MessageKind → ℕ → MessageIdentity
message_identity kind id = record { kind = kind; id = id }

abbrev pub schema_identity : DeviceModel → ApiVersion → MessageIdentity → ℕ → SchemaIdentity
schema_identity model api message payload_size = record {
  model = model;
  api = api;
  message = message;
  payload_size = payload_size;
}

-- The derived `==`.
unfoldable pub DeviceModel-discrete : Discrete DeviceModel
DeviceModel-discrete = hlevel

unfoldable pub ApiVersion-discrete : Discrete ApiVersion
unfolding ℕ_discrete
ApiVersion-discrete = hlevel ℕ_discrete

unfoldable pub SchemaIdentity-discrete : Discrete SchemaIdentity
unfolding ℕ_discrete
SchemaIdentity-discrete = hlevel ℕ_discrete
