-- ===== src/Protocol/Wave3/Edit.antt =====
-- Changing one control of a complete configuration (crates/librewave-protocol/src/wave3.rs: `set`,
-- `apply_control`).
use libre_wave.Common.{
  ℕ, ◌+◌, ◌<◌, ◌≤◌, ◌≡◌, ◌≢◌, ◌⊎◌, ◌↔◌, refl, sym, ◌∙◌, List, Bool, true, arith, length, get_or, ok,
}
use libre_wave.Common.Bytes.{IsBytes}
use libre_wave.Protocol.Fields.{
  Wave3ConfigField, field_spec, width, config_fields, input_gain, input_mute, clipguard_enable,
  lowcut_enable, FieldCodec, Wave3ConfigField-discrete,
}
use libre_wave.Protocol.Fields.Layout.{contains-field_spec, field_spec-Apart, field_spec_end}
use libre_wave.Protocol.Schema.{
  SchemaRef, deref, is_config_schema, config_schema_5_3, config_schema_5_4,
}
use libre_wave.Protocol.Codec.{
  SemanticValue, PatchResult, unchanged, validate, patch_field, boolean, enum, VolumeSelect, mic,
  to_wire,
}
use libre_wave.Protocol.Codec.Patch.{
  patch_field_total, length-patch_field, decode_field-patch_field, get_or-patch_field,
  unchanged_iff,
}
use libre_wave.Protocol.Codec.Frame.{decode_field-patch_field-Apart, patch_field-IsBytes}
use libre_wave.Protocol.Wave3.{
  validate_fixed, Wave3Config, get, set, Wave3ControlChange, apply_control, microphone_gain,
  microphone_mute, clipguard, lowcut, headphone_mute, volume_select, all_leds_off, leds_flip,
  gain_lock, headphone_volume, direct_monitor, gain_from_raw, headphone_from_raw, monitor_from_raw,
  change_field, change_value, from_schema,
}

-- What `from_schema` makes of a payload of bytes.
pub record IsConfig (config : Wave3Config) : Type 0 where
  pub admitted : is_config_schema config.schema ≡ true
  pub complete : length config.bytes ≡ 16
  pub bytes : IsBytes config.bytes

pub size_of_config :
    (r : SchemaRef) → is_config_schema r ≡ true → (deref r).identity.payload_size ≡ 16
unfolding deref is_config_schema
size_of_config config_schema_5_3 h = refl
size_of_config config_schema_5_4 h = refl
size_of_config _ h = cc

-- A payload becomes a configuration exactly when the schema is a configuration schema and the
-- payload has 16 bytes; it is then kept as it is, reserved bytes included.
pub from_schema_iff :
    (r : SchemaRef) (payload : List ℕ) (config : Wave3Config)
    → (from_schema r payload ≡ ok config) ↔ (
        (is_config_schema r ≡ true)
        × (length payload ≡ 16)
        × (config ≡ record { bytes = payload; schema = r }))
unfolding from_schema
from_schema_iff r payload config =
    (λ h. ground (arith, size_of_config r), λ h. ground (arith, size_of_config r))

module _ (config : Wave3Config) (field : Wave3ConfigField) (v : SemanticValue) (r : PatchResult)
    (config' : Wave3Config) (done : set config field v ≡ ok (r, config')) where
  patch :
      (patch_field (deref config.schema) (field_spec field) config.bytes v ≡ ok (r, config'.bytes))
      × (config'.schema ≡ config.schema)
  unfolding set
  patch = ground arith

  pub get-set_self : get config' field ≡ ok v
  unfolding get
  get-set_self = rw patch.1 (decode_field-patch_field _ _ _ _ _ _ patch.0)

  pub get-set_ne : (other : Wave3ConfigField) → field ≢ other → get config' other ≡ get config other
  unfolding get
  get-set_ne other ne =
      rw patch.1
        (decode_field-patch_field-Apart _ _ _ _ _ _ _ patch.0 (field_spec-Apart field other ne))

  pub set-IsConfig : IsConfig config → IsConfig config'
  set-IsConfig valid = record {
    admitted = rw patch.1 valid.admitted;
    complete = length-patch_field _ _ _ _ _ _ patch.0 ∙ valid.complete;
    bytes = patch_field-IsBytes _ _ _ _ _ _ patch.0 valid.bytes;
  }

  set-unchanged : (r ≡ unchanged) ↔ (config ≡ config')
  set-unchanged = ground (arith, patch, unchanged_iff _ _ _ _ _ _ patch.0)

  get_or-set :
      (i : ℕ)
      → (i < (field_spec field).offset)
        ⊎ ((field_spec field).offset + width (field_spec field).codec ≤ i)
      → get_or config'.bytes i 0 ≡ get_or config.bytes i 0
  get_or-set = get_or-patch_field _ _ _ _ _ _ patch.0

  -- After a successful `set` the field reads back as the value, every other field reads as before,
  -- every byte outside the field is kept, the result is again a complete configuration of the same
  -- schema, and `Unchanged` is reported exactly when nothing changed.
  pub set_lem :
      IsConfig config
      → (get config' field ≡ ok v)
        × ((other : Wave3ConfigField) → field ≢ other → get config' other ≡ get config other)
        × ((i : ℕ)
            → (i < (field_spec field).offset)
              ⊎ ((field_spec field).offset + width (field_spec field).codec ≤ i)
            → get_or config'.bytes i 0 ≡ get_or config.bytes i 0)
        × IsConfig config'
        × (config'.schema ≡ config.schema)
        × ((r ≡ unchanged) ↔ (config ≡ config'))
  set_lem valid = (get-set_self, get-set_ne, get_or-set, set-IsConfig valid, patch.1, set-unchanged)

-- What the constructors of the typed values have checked.
abbrev pub IsReviewed : Wave3ControlChange → Type 0
IsReviewed (microphone_gain gain) = gain_from_raw gain.raw_q8_8 ≡ ok gain
IsReviewed (headphone_volume level) = headphone_from_raw level.raw_q8_8 ≡ ok level
IsReviewed (direct_monitor balance) = monitor_from_raw balance.raw_q8_8 ≡ ok balance
IsReviewed _ = Unit {0}

fields_of_config :
    (r : SchemaRef)
    → is_config_schema r ≡ true
    → ((deref r).fields ≡ config_fields) × ((deref r).access.writable ≡ true)
unfolding deref is_config_schema
fields_of_config config_schema_5_3 h = (refl, refl)
fields_of_config config_schema_5_4 h = (refl, refl)
fields_of_config _ h = cc

writable-field_spec : (f : Wave3ConfigField) → (field_spec f).access.writable ≡ true
unfolding field_spec Wave3ConfigField-discrete
writable-field_spec input_gain = refl
writable-field_spec _ = refl

validate-flag :
    (f : Wave3ConfigField) (b : Bool)
    → (field_spec f).codec ≡ FieldCodec.boolean
    → validate (field_spec f).codec (boolean b) ≡ ok tt
unfolding validate
validate-flag f b h = rw h

validate-select :
    (s : VolumeSelect)
    → validate (field_spec Wave3ConfigField.volume_select).codec (enum (to_wire s)) ≡ ok tt
unfolding validate to_wire field_spec Wave3ConfigField-discrete
validate-select mic = refl
validate-select _ = refl

pub validate-IsReviewed :
    (change : Wave3ControlChange)
    → IsReviewed change
    → validate (field_spec (change_field change)).codec (change_value change) ≡ ok tt
unfolding change_field change_value gain_from_raw headphone_from_raw monitor_from_raw validate_fixed
validate-IsReviewed (microphone_gain gain) h = ground arith
validate-IsReviewed (headphone_volume level) h = ground arith
validate-IsReviewed (direct_monitor balance) h = ground arith
validate-IsReviewed (volume_select s) h = validate-select s
validate-IsReviewed (microphone_mute b) h =
    unfold field_spec Wave3ConfigField-discrete in validate-flag input_mute b refl
validate-IsReviewed (clipguard b) h =
    unfold field_spec Wave3ConfigField-discrete in validate-flag clipguard_enable b refl
validate-IsReviewed (lowcut b) h =
    unfold field_spec Wave3ConfigField-discrete in validate-flag lowcut_enable b refl
validate-IsReviewed (headphone_mute b) h =
    unfold field_spec Wave3ConfigField-discrete in
    validate-flag Wave3ConfigField.headphone_mute b refl
validate-IsReviewed (all_leds_off b) h =
    unfold field_spec Wave3ConfigField-discrete in
    validate-flag Wave3ConfigField.all_leds_off b refl
validate-IsReviewed (leds_flip b) h =
    unfold field_spec Wave3ConfigField-discrete in validate-flag Wave3ConfigField.leds_flip b refl
validate-IsReviewed (gain_lock b) h =
    unfold field_spec Wave3ConfigField-discrete in validate-flag Wave3ConfigField.gain_lock b refl

-- A value that is valid for its field is always set.
set_total :
    (config : Wave3Config) (field : Wave3ConfigField) (v : SemanticValue)
    → IsConfig config
    → validate (field_spec field).codec v ≡ ok tt
    → (r : PatchResult) × (config' : Wave3Config) × (set config field v ≡ ok (r, config'))
unfolding set
set_total config field v valid h =
    let (table, writable) = fields_of_config config.schema valid.admitted in
    let (r, p', e) =
      patch_field_total (deref config.schema) (field_spec field) config.bytes v
        (valid.complete ∙ sym (size_of_config config.schema valid.admitted))
        (writable, writable-field_spec field) (rw table (contains-field_spec field)) h
        (omega (arith, valid.complete, field_spec_end field))
        (omega (arith, field_spec_end field)) in
    (r, record config { bytes = p' }, rw e)

-- A typed change whose value a constructor has made is applied to every complete configuration.
pub apply_control_total :
    (config : Wave3Config) (change : Wave3ControlChange)
    → IsConfig config
    → IsReviewed change
    → (r : PatchResult) × (config' : Wave3Config) × (apply_control config change ≡ ok (r, config'))
unfolding apply_control
apply_control_total config change valid reviewed =
    set_total config (change_field change) (change_value change) valid
      (validate-IsReviewed change reviewed)

pub apply_control-IsConfig :
    (config : Wave3Config) (change : Wave3ControlChange) (r : PatchResult) (config' : Wave3Config)
    → apply_control config change ≡ ok (r, config')
    → IsConfig config
    → IsConfig config'
unfolding apply_control
apply_control-IsConfig config change r config' done =
    set-IsConfig config (change_field change) (change_value change) r config' done

pub schema-apply_control :
    (config : Wave3Config) (change : Wave3ControlChange) (r : PatchResult) (config' : Wave3Config)
    → apply_control config change ≡ ok (r, config')
    → config'.schema ≡ config.schema
unfolding apply_control
schema-apply_control config change r config' done =
    (patch config (change_field change) (change_value change) r config' done).1

pub apply_control_unchanged :
    (config : Wave3Config) (change : Wave3ControlChange) (config' : Wave3Config)
    → apply_control config change ≡ ok (unchanged, config')
    → config ≡ config'
unfolding apply_control
apply_control_unchanged config change config' done =
    (set-unchanged config (change_field change) (change_value change) unchanged config' done).0 refl
