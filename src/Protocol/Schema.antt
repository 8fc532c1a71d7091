-- ===== src/Protocol/Schema.antt =====
-- crates/librewave-protocol/src/schema.rs, and the configuration schemas of wave3.rs: the message
-- schemas that the crate admits. The code passes `&'static MessageSchema` and compares such
-- references by address (`core::ptr::eq`), so a reference is a name of the static that it points
-- to, or points elsewhere, to a copy.
pub mod Admission
use libre_wave.Common.{
  ℕ, List, [], Bool, true, false, Option, none, some, ◌||◌, ◌==◌, if◌then◌else◌, not, holds,
  ℕ_discrete, Result, ok, err, ◌>>=◌, ◌>>◌, ensure, ok_or,
}
use libre_wave.Protocol.Identity.{
  ApiVersion, DeviceModel, wave3, MessageKind, config, status, version, MessageIdentity,
  SchemaIdentity, api_version, message_identity, schema_identity, DeviceModel-discrete,
  ApiVersion-discrete,
}
use libre_wave.Protocol.Fields.{Access, FieldSpec, read_only, read_write, config_fields}

pub record MessageSchema : Type 0 where
  pub identity : SchemaIdentity
  pub access : Access
  pub fields : List FieldSpec

pub data SchemaError : Type 0 where
  unsupported_model : DeviceModel → SchemaError
  unsupported_api : ApiVersion → SchemaError
  unsupported_message : MessageIdentity → SchemaError
  message_id_mismatch : (expected actual : ℕ) → SchemaError
  payload_size_mismatch : (expected actual : ℕ) → SchemaError

abbrev pub wave3_api_5_3 : ApiVersion
wave3_api_5_3 = api_version 5 3

abbrev pub wave3_api_5_4 : ApiVersion
wave3_api_5_4 = api_version 5 4

abbrev pub status_message : MessageIdentity
status_message = message_identity status 1

abbrev pub version_message : MessageIdentity
version_message = message_identity version 10

abbrev read_only_schema : ApiVersion → MessageIdentity → ℕ → MessageSchema
read_only_schema api message size = record {
  identity = schema_identity wave3 api message size;
  access = read_only;
  fields = [];
}

-- `CONFIG_SCHEMA_5_3` and `CONFIG_SCHEMA_5_4`
unfoldable pub config_message_schema : ApiVersion → MessageSchema
config_message_schema api = record {
  identity = schema_identity wave3 api (message_identity config 0) 16;
  access = read_write;
  fields = config_fields;
}

pub data SchemaRef : Type 0 where
  config_schema_5_3 config_schema_5_4 : SchemaRef
  status_schema_5_3 status_schema_5_4 : SchemaRef
  version_schema_5_3 version_schema_5_4 : SchemaRef
  copy : MessageSchema → SchemaRef

unfoldable pub deref : SchemaRef → MessageSchema
unfolding config_message_schema
deref config_schema_5_3 = config_message_schema wave3_api_5_3
deref config_schema_5_4 = config_message_schema wave3_api_5_4
deref status_schema_5_3 = read_only_schema wave3_api_5_3 status_message 8
deref status_schema_5_4 = read_only_schema wave3_api_5_4 status_message 8
deref version_schema_5_3 = read_only_schema wave3_api_5_3 version_message 52
deref version_schema_5_4 = read_only_schema wave3_api_5_4 version_message 54
deref (copy schema) = schema

unfoldable pub supported_api : ApiVersion → Bool
supported_api api =
    holds (ApiVersion-discrete api wave3_api_5_3) || holds (ApiVersion-discrete api wave3_api_5_4)

schema_5_3 : MessageKind → Option SchemaRef
schema_5_3 config = some config_schema_5_3
schema_5_3 status = some status_schema_5_3
schema_5_3 version = some version_schema_5_3
schema_5_3 MessageKind.unknown = none

schema_5_4 : MessageKind → Option SchemaRef
schema_5_4 config = some config_schema_5_4
schema_5_4 status = some status_schema_5_4
schema_5_4 version = some version_schema_5_4
schema_5_4 MessageKind.unknown = none

unfoldable pub schema_for : ApiVersion → MessageIdentity → Option SchemaRef
unfolding schema_5_3 schema_5_4
schema_for api message =
    if holds (ApiVersion-discrete api wave3_api_5_3)
    then schema_5_3 message.kind
    else if holds (ApiVersion-discrete api wave3_api_5_4)
    then schema_5_4 message.kind
    else none

unfoldable pub admit : SchemaIdentity → Result SchemaError SchemaRef
unfolding supported_api schema_for deref
admit identity = do
  ensure (holds (DeviceModel-discrete identity.model wave3)) (unsupported_model identity.model)
  ensure (supported_api identity.api) (unsupported_api identity.api)
  expected ← ok_or (schema_for identity.api identity.message) (unsupported_message identity.message)
  let known = (deref expected).identity
  ensure (known.message.id == identity.message.id)
      (message_id_mismatch known.message.id identity.message.id)
  ensure (known.payload_size == identity.payload_size)
      (payload_size_mismatch known.payload_size identity.payload_size)
  ok expected

unfoldable pub config_schema : ApiVersion → Result SchemaError SchemaRef
unfolding admit
config_schema api = admit (schema_identity wave3 api (message_identity config 0) 16)

-- `is_config_schema` of wave3.rs, by address.
unfoldable pub is_config_schema : SchemaRef → Bool
is_config_schema config_schema_5_3 = true
is_config_schema config_schema_5_4 = true
is_config_schema _ = false
