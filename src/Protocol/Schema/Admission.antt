-- ===== src/Protocol/Schema/Admission.antt =====
-- What `admit` and `config_schema` of crates/librewave-protocol/src/schema.rs accept.
use libre_wave.Common.{◌≡◌, ◌⊎◌, ◌↔◌, inl, inr, refl, true, false, arith, ok, err}
use libre_wave.Protocol.Identity.{
  ApiVersion, SchemaIdentity, ApiVersion-discrete, DeviceModel-discrete,
}
use libre_wave.Protocol.Schema.{
  SchemaRef, deref, supported_api, admit, config_schema, is_config_schema, config_message_schema,
  config_schema_5_3, config_schema_5_4, status_schema_5_3, status_schema_5_4, version_schema_5_3,
  version_schema_5_4, copy, unsupported_api, wave3_api_5_3, wave3_api_5_4,
}

-- A reference to one of the six statics.
abbrev pub IsStatic : SchemaRef → Type 0
IsStatic (copy schema) = ⊥
IsStatic _ = Unit {0}

admit_sound :
    (id : SchemaIdentity) (r : SchemaRef) → admit id ≡ ok r → IsStatic r × ((deref r).identity ≡ id)
unfolding admit
admit_sound id r h = ground arith

admit_complete : (r : SchemaRef) → IsStatic r → admit (deref r).identity ≡ ok r
unfolding admit ApiVersion-discrete DeviceModel-discrete
admit_complete config_schema_5_3 s = refl
admit_complete config_schema_5_4 s = refl
admit_complete status_schema_5_3 s = refl
admit_complete status_schema_5_4 s = refl
admit_complete version_schema_5_3 s = refl
admit_complete version_schema_5_4 s = refl
admit_complete (copy schema) s = absurd s

-- `admit` accepts exactly the identities of the six static schemas, every part equal, and returns
-- the schema with that identity.
pub admit_iff :
    (id : SchemaIdentity) (r : SchemaRef)
    → (admit id ≡ ok r) ↔ (IsStatic r × ((deref r).identity ≡ id))
admit_iff id r = (admit_sound id r, λ s. rw (← s.1) (admit_complete r s.0))

-- `config_schema` returns a writable configuration schema of the API version asked for, if that
-- version is supported, and otherwise fails with `UnsupportedApi`.
pub config_schema_cases :
    (api : ApiVersion)
    → ((r : SchemaRef) × (config_schema api ≡ ok r)
        × (supported_api api ≡ true)
        × (is_config_schema r ≡ true)
        × (deref r ≡ config_message_schema api))
      ⊎ ((config_schema api ≡ err (unsupported_api api)) × (supported_api api ≡ false))
unfolding config_schema is_config_schema DeviceModel-discrete
config_schema_cases api = elim (ApiVersion-discrete api wave3_api_5_3) [
  | yes p ↦ inl (config_schema_5_3, ground arith, ground arith, refl, ground arith)
  | no n ↦ elim (ApiVersion-discrete api wave3_api_5_4) [
    | yes q ↦ inl (config_schema_5_4, ground arith, ground arith, refl, ground arith)
    | no m ↦ inr (ground arith, ground arith)
  ]
]
