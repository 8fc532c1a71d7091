-- ===== src/Protocol/Wave3/Controls.antt =====
-- The typed control view of a configuration (crates/librewave-protocol/src/wave3.rs: `controls`), and
-- what a typed change does to it.
use libre_wave.Common.{ℕ, ◌≡◌, ◌≢◌, ◌↔◌, refl, ◌∙◌, Bool, some, arith, ok, ap, subst}
use libre_wave.Protocol.Fields.{
  Wave3ConfigField, Wave3ConfigField-discrete, FieldCodec, field_spec, input_gain, input_mute,
  clipguard_enable, lowcut_enable,
}
use libre_wave.Protocol.Codec.{
  SemanticValue, boolean, enum, VolumeSelect, mic, to_wire, from_wire, PatchResult,
}
use libre_wave.Protocol.Codec.Shape.{Shape, decode_field-Shape}
use libre_wave.Protocol.Schema.{deref}
use libre_wave.Protocol.Wave3.Edit.{get-set_self, get-set_ne}
use libre_wave.Protocol.Wave3.{
  Wave3Config, Wave3ControlState, Wave3ControlChange, microphone_gain, microphone_mute, clipguard,
  lowcut, headphone_mute, volume_select, all_leds_off, leds_flip, gain_lock, headphone_volume,
  direct_monitor, change_field, change_value, get, controls, apply_control, q8_8, fixed, flag,
  expect_select, expect_fixed, expect_boolean,
}

from_wire_iff : (w : ℕ) (s : VolumeSelect) → (from_wire w ≡ some s) ↔ (w ≡ to_wire s)
unfolding from_wire to_wire
from_wire_iff w mic = (λ h. ground arith, λ h. ground arith)
from_wire_iff w _ = (λ h. ground arith, λ h. ground arith)

-- The state holds what the nine fields read.
record Reads (config : Wave3Config) (s : Wave3ControlState) : Type 0 where
  knob : get config Wave3ConfigField.volume_select ≡ ok (enum (to_wire s.volume_select))
  gain : get config input_gain ≡ ok (q8_8 s.microphone_gain.raw_q8_8)
  level : get config Wave3ConfigField.headphone_volume ≡ ok (q8_8 s.headphone_volume.raw_q8_8)
  balance : get config Wave3ConfigField.direct_monitor ≡ ok (q8_8 s.direct_monitor.raw_q8_8)
  mute : get config input_mute ≡ ok (boolean s.microphone_mute)
  guarded : get config clipguard_enable ≡ ok (boolean s.clipguard_enabled)
  cut : get config lowcut_enable ≡ ok (boolean s.lowcut_enabled)
  muted : get config Wave3ConfigField.headphone_mute ≡ ok (boolean s.headphone_mute)
  locked : get config Wave3ConfigField.gain_lock ≡ ok (boolean s.gain_lock)

controls-Reads :
    (config : Wave3Config) (s : Wave3ControlState) → controls config ≡ ok s → Reads config s
unfolding controls expect_select fixed flag expect_boolean expect_fixed to_wire
controls-Reads config s h = ground arith

Reads-controls :
    (config : Wave3Config) (s : Wave3ControlState) → Reads config s → controls config ≡ ok s
unfolding controls expect_select fixed flag expect_boolean expect_fixed
Reads-controls config s h =
    ground (arith, (from_wire_iff (to_wire s.volume_select) s.volume_select).1 refl)

-- The state after a change, field by field.
unfoldable pub updated : Wave3ControlState → Wave3ControlChange → Wave3ControlState
updated s (microphone_gain v) = record s { microphone_gain = v }
updated s (microphone_mute v) = record s { microphone_mute = v }
updated s (clipguard v) = record s { clipguard_enabled = v }
updated s (lowcut v) = record s { lowcut_enabled = v }
updated s (headphone_volume v) = record s { headphone_volume = v }
updated s (headphone_mute v) = record s { headphone_mute = v }
updated s (direct_monitor v) = record s { direct_monitor = v }
updated s (volume_select v) = record s { volume_select = v }
updated s (all_leds_off v) = s
updated s (leds_flip v) = s
updated s (gain_lock v) = record s { gain_lock = v }

module _ (config config' : Wave3Config) where
  abbrev Changed : Wave3ConfigField → SemanticValue → Type 0
  Changed f v =
      (get config' f ≡ ok v) × ((g : Wave3ConfigField) → f ≢ g → get config' g ≡ get config g)

  Reads-updated :
      (s : Wave3ControlState) (change : Wave3ControlChange)
      → Changed (change_field change) (change_value change)
      → Reads config s
      → Reads config' (updated s change)
  unfolding change_field change_value updated
  Reads-updated s (microphone_mute v) h reads = ground (
    arith,
    h.1 Wave3ConfigField.volume_select,
    h.1 input_gain,
    h.1 Wave3ConfigField.headphone_volume,
    h.1 Wave3ConfigField.direct_monitor,
    h.1 input_mute,
    h.1 clipguard_enable,
    h.1 lowcut_enable,
    h.1 Wave3ConfigField.headphone_mute,
    h.1 Wave3ConfigField.gain_lock,
  )
  Reads-updated s _ h reads = ground (
    arith,
    h.1 Wave3ConfigField.volume_select,
    h.1 input_gain,
    h.1 Wave3ConfigField.headphone_volume,
    h.1 Wave3ConfigField.direct_monitor,
    h.1 input_mute,
    h.1 clipguard_enable,
    h.1 lowcut_enable,
    h.1 Wave3ConfigField.headphone_mute,
    h.1 Wave3ConfigField.gain_lock,
  )

-- Applying a change to a configuration that shows the controls `s` gives one that shows `s` with
-- just that control changed.
pub controls-apply_control :
    (config config' : Wave3Config) (s : Wave3ControlState) (change : Wave3ControlChange)
    (r : PatchResult)
    → controls config ≡ ok s
    → apply_control config change ≡ ok (r, config')
    → controls config' ≡ ok (updated s change)
unfolding apply_control
controls-apply_control config config' s change r shown done =
    Reads-controls config' (updated s change) (
      Reads-updated config config' s change
        (get-set_self config f v r config' done, get-set_ne config f v r config' done)
        (controls-Reads config s shown))
  where
    f : Wave3ConfigField
    f = change_field change

    v : SemanticValue
    v = change_value change

-- Every field of the configuration holds a value that its codec admits.
abbrev pub IsDecodable : Wave3Config → Type 0
IsDecodable config = (f : Wave3ConfigField) → (v : SemanticValue) × (get config f ≡ ok v)

module _ (config : Wave3Config) (decodes : IsDecodable config) where
  shape : (f : Wave3ConfigField) → Shape (field_spec f).codec (decodes f).0
  unfolding get
  shape f = decode_field-Shape (deref config.schema) (field_spec f) config.bytes _ (decodes f).1

  flag_of :
      (f : Wave3ConfigField)
      → (field_spec f).codec ≡ FieldCodec.boolean
      → (b : Bool) × (get config f ≡ ok (boolean b))
  flag_of f e =
      let (b, v) = subst (λ c. Shape c (decodes f).0) e (shape f) in (b, (decodes f).1 ∙ ap ok v)

  -- If every field of the configuration holds a value that its codec admits, then the control view of
  -- the configuration exists.
  pub controls_total : (s : Wave3ControlState) × (controls config ≡ ok s)
  unfolding field_spec Wave3ConfigField-discrete
  controls_total =
      let (w, knob, wire, k) = shape Wave3ConfigField.volume_select in
      let (gain, g) = shape input_gain in
      let (level, l) = shape Wave3ConfigField.headphone_volume in
      let (balance, b) = shape Wave3ConfigField.direct_monitor in
      let (mute, m) = flag_of input_mute refl in
      let (guarded, gu) = flag_of clipguard_enable refl in
      let (cut, c) = flag_of lowcut_enable refl in
      let (muted, mu) = flag_of Wave3ConfigField.headphone_mute refl in
      let (locked, lo) = flag_of Wave3ConfigField.gain_lock refl in
      (
        _,
        Reads-controls config
            (record {
              microphone_gain = record { raw_q8_8 = gain };
              microphone_mute = mute;
              clipguard_enabled = guarded;
              lowcut_enabled = cut;
              headphone_volume = record { raw_q8_8 = level };
              headphone_mute = muted;
              direct_monitor = record { raw_q8_8 = balance };
              volume_select = knob;
              gain_lock = locked;
            })
            (record {
              knob =
                  (decodes Wave3ConfigField.volume_select).1
                  ∙ ap ok (k ∙ ap enum ((from_wire_iff w knob).0 wire));
              gain = (decodes input_gain).1 ∙ ap ok g;
              level = (decodes Wave3ConfigField.headphone_volume).1 ∙ ap ok l;
              balance = (decodes Wave3ConfigField.direct_monitor).1 ∙ ap ok b;
              mute = m;
              guarded = gu;
              cut = c;
              muted = mu;
              locked = lo;
            }),
      )

-- A change keeps every field decodable.
pub apply_control-IsDecodable :
    (config : Wave3Config) (change : Wave3ControlChange) (r : PatchResult) (config' : Wave3Config)
    → apply_control config change ≡ ok (r, config')
    → IsDecodable config
    → IsDecodable config'
unfolding apply_control
apply_control-IsDecodable config change r config' done decodes f =
    elim (Wave3ConfigField-discrete (change_field change) f) [
      | yes e ↦ (
        change_value change,
        rw e at (get-set_self config (change_field change) (change_value change) r config' done),
      )
      | no n ↦ (
        (decodes f).0,
        get-set_ne config (change_field change) (change_value change) r config' done f n
            ∙ (decodes f).1,
      )
    ]
