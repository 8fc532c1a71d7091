-- ===== src/Device/Configs.antt =====
-- Comparing complete configurations (the derived `==` of `Wave3Config`, which reads through the
-- schema reference), and checking that every field of one decodes.
use libre_wave.Common.{
  ℕ, ◌≡◌, ◌↔◌, inl, inr, some, Result-cases, refl, sym, subst, List, [], ◌∷◌, Bool, true, ◌&&◌,
  holds, arith, ℕ_discrete, Result, ok, ◌>>=◌, ◌>>◌,
}
use libre_wave.Common.Bytes.{IsBytes}
use libre_wave.Protocol.Fields.{
  FieldSpec, config_fields, find_spec, Wave3ConfigField, Wave3ConfigField-discrete, field_spec,
}
use libre_wave.Protocol.Fields.Layout.{find_spec-field_spec}
use libre_wave.Protocol.Schema.{
  MessageSchema, SchemaRef, deref, is_config_schema, config_schema_5_3, config_schema_5_4,
}
use libre_wave.Protocol.Codec.{CodecError, SemanticValue, Bytes-discrete}
use libre_wave.Protocol.Wave3.{Wave3Config, get, from_schema}
use libre_wave.Protocol.Wave3.Edit.{IsConfig, from_schema_iff}
use libre_wave.Protocol.Wave3.Controls.{IsDecodable}

unfoldable pub MessageSchema-discrete : Discrete MessageSchema
unfolding ℕ_discrete
MessageSchema-discrete = hlevel ℕ_discrete

unfoldable pub same_config : Wave3Config → Wave3Config → Bool
same_config a b =
    holds (Bytes-discrete a.bytes b.bytes)
    && holds (MessageSchema-discrete (deref a.schema) (deref b.schema))

-- `for field in config_fields() { config.get(field.field())?; }`
unfoldable pub check_fields : Wave3Config → List FieldSpec → Result CodecError (Unit {0})
check_fields config [] = ok tt
check_fields config (spec ∷ specs) = do get config spec.field; check_fields config specs

-- `Wave3Config::from_schema` and then the check, as both `read_config` do; each wraps the error.
unfoldable pub checked_config : SchemaRef → List ℕ → Result CodecError Wave3Config
checked_config reference payload = do
  config ← from_schema reference payload
  check_fields config config_fields
  ok config

deref-injective :
    (r s : SchemaRef)
    → is_config_schema r ≡ true
    → is_config_schema s ≡ true
    → deref r ≡ deref s
    → r ≡ s
unfolding deref is_config_schema
deref-injective config_schema_5_3 config_schema_5_3 hr hs e = refl
deref-injective config_schema_5_4 config_schema_5_4 hr hs e = refl
deref-injective r s hr hs e = ground arith

-- Between configurations of admitted schemas the comparison is equality.
pub same_config_iff :
    (a b : Wave3Config)
    → is_config_schema a.schema ≡ true
    → is_config_schema b.schema ≡ true
    → (same_config a b ≡ true) ↔ (a ≡ b)
unfolding same_config
same_config_iff a b ha hb = ground (arith, deref-injective a.schema b.schema ha hb)

check_fields-get :
    (config : Wave3Config) (specs : List FieldSpec) (f : Wave3ConfigField) (spec : FieldSpec)
    → find_spec f specs ≡ some spec
    → check_fields config specs ≡ ok tt
    → (v : SemanticValue) × (get config f ≡ ok v)
unfolding check_fields find_spec
check_fields-get config [] f spec e h = absurd (ground arith)
check_fields-get config (s ∷ specs) f spec e h = elim (Result-cases (get config s.field)) [
  | inl (v, g) ↦ elim (Wave3ConfigField-discrete s.field f) [
    | yes p ↦ (v, rw (← p) g)
    | no n ↦ check_fields-get config specs f spec (ground arith) (ground arith)
  ]
  | inr (x, g) ↦ absurd (ground arith)
]

check_fields_passes :
    (config : Wave3Config) (specs : List FieldSpec)
    → IsDecodable config
    → check_fields config specs ≡ ok tt
unfolding check_fields
check_fields_passes config [] h = refl
check_fields_passes config (s ∷ specs) h = rw (h s.field).1 (check_fields_passes config specs h)

-- A configuration passes the check exactly when every field of it decodes.
pub check_fields_iff :
    (config : Wave3Config) → (check_fields config config_fields ≡ ok tt) ↔ IsDecodable config
check_fields_iff config = (
  λ h f. check_fields-get config config_fields f (field_spec f) (find_spec-field_spec f) h,
  check_fields_passes config config_fields,
)

pub checked_config-eq-ok :
    (reference : SchemaRef) (payload : List ℕ) (config : Wave3Config)
    → checked_config reference payload ≡ ok config
    → (from_schema reference payload ≡ ok config) × (check_fields config config_fields ≡ ok tt)
unfolding checked_config
checked_config-eq-ok reference payload config h = ground arith

-- What has been read and checked is a complete configuration of the schema, all of it decodable, and
-- holds the bytes that were read.
pub checked_config-IsConfig :
    (reference : SchemaRef) (payload : List ℕ) (config : Wave3Config)
    → checked_config reference payload ≡ ok config
    → IsBytes payload
    → IsConfig config
      × IsDecodable config
      × (config ≡ record { bytes = payload; schema = reference })
checked_config-IsConfig reference payload config h bytes =
    let (admitted, complete, shape) =
      (from_schema_iff reference payload config).0
        (checked_config-eq-ok reference payload config h).0 in
    let config-eq : record { bytes = payload; schema = reference } ≡ config = sym shape in
    (
      subst IsConfig config-eq (record { admitted = admitted; complete = complete; bytes = bytes }),
      (check_fields_iff config).0 (checked_config-eq-ok reference payload config h).1,
      shape,
    )

-- A complete configuration whose fields all decode is read from its own bytes.
pub checked_config-bytes :
    (config : Wave3Config)
    → IsConfig config
    → IsDecodable config
    → checked_config config.schema config.bytes ≡ ok config
unfolding checked_config
checked_config-bytes config valid decodes = rw (
  (from_schema_iff config.schema config.bytes config).1 (valid.admitted, valid.complete, refl),
  (check_fields_iff config).1 decodes,
)
