-- ===== src/Protocol/Codec/Patch.antt =====
-- What one successful `patch_field` of crates/librewave-protocol/src/codec.rs has checked and done.
use libre_wave.Common.{
  ℕ, ◌+◌, ◌<◌, ◌≤◌, ◌≡◌, ◌⊎◌, ◌↔◌, refl, ap, ◌∙◌, List, true, arith, length, get_or, length-set,
  get_or-set_self, get_or-set_ne, get_or-slice, ok, holds, if◌then◌else◌, take, drop, set,
}
use libre_wave.Common.Int.{ℤ}
use libre_wave.Common.Bytes.{
  usize_mod, low_byte, high_byte, from_le, pattern16, signed16, signed16-bytes, FitsI16,
}
use libre_wave.Protocol.Fields.{
  FieldSpec, FieldCodec, Wave3ConfigField, contains, width, signed_fixed,
}
use libre_wave.Protocol.Schema.{MessageSchema}
use libre_wave.Protocol.Codec.{
  SemanticValue, boolean, fixed_point, enum, PatchResult, changed, unchanged, validate, write_value,
  patch_field, decode_field, decode_bytes, Bytes-discrete, decode_fixed, byte_of_bool,
}

pub record Patched (schema : MessageSchema) (spec : FieldSpec) (p : List ℕ) (v : SemanticValue)
    (r : PatchResult) (p' : List ℕ) : Type 0 where
  pub whole : length p ≡ schema.identity.payload_size
  pub listed : contains schema.fields spec ≡ true
  pub valid : validate spec.codec v ≡ ok tt
  pub inside : spec.offset + width spec.codec ≤ length p
  pub addressed : spec.offset + width spec.codec < usize_mod
  pub written : write_value spec.field spec.codec v spec.offset p ≡ ok p'
  pub told : r ≡ (if holds (Bytes-discrete p p') then unchanged else changed)

pub patch_field-Patched :
    (schema : MessageSchema) (spec : FieldSpec) (p : List ℕ) (v : SemanticValue) (r : PatchResult)
    (p' : List ℕ)
    → patch_field schema spec p v ≡ ok (r, p')
    → Patched schema spec p v r p'
unfolding patch_field
patch_field-Patched schema spec p v r p' h = ground arith

-- Writing keeps the length, and every byte outside the field.
module _ (field : Wave3ConfigField) (start : ℕ) (p p' : List ℕ) where
  length-write_value :
      (codec : FieldCodec) (v : SemanticValue)
      → write_value field codec v start p ≡ ok p'
      → length p' ≡ length p
  unfolding write_value
  length-write_value FieldCodec.boolean (boolean b) h =
      ground (arith, length-set p start (byte_of_bool b))
  length-write_value (signed_fixed bits lo hi step) (fixed_point raw actual) h = ground (
    arith,
    length-set p start (low_byte (pattern16 raw)),
    length-set (set p start (low_byte (pattern16 raw))) (start + 1) (high_byte (pattern16 raw)),
  )
  length-write_value FieldCodec.volume_select (enum w) h = ground (arith, length-set p start w)
  length-write_value _ _ h = ground arith

  get_or-write_value :
      (codec : FieldCodec) (v : SemanticValue) (i : ℕ)
      → (i < start) ⊎ (start + width codec ≤ i)
      → write_value field codec v start p ≡ ok p'
      → get_or p' i 0 ≡ get_or p i 0
  unfolding write_value
  get_or-write_value FieldCodec.boolean (boolean b) i o h =
      ground (arith, get_or-set_ne p start i (byte_of_bool b) 0)
  get_or-write_value (signed_fixed bits lo hi step) (fixed_point raw actual) i o h = ground (
    arith,
    get_or-set_ne p start i (low_byte (pattern16 raw)) 0,
    get_or-set_ne (set p start (low_byte (pattern16 raw))) (start + 1) i (high_byte (pattern16 raw))
        0,
  )
  get_or-write_value FieldCodec.volume_select (enum w) i o h =
      ground (arith, get_or-set_ne p start i w 0)
  get_or-write_value _ _ i o h = ground arith

  -- What was written is decoded.
  first_byte : (w : ℕ) → 0 < w → get_or (take w (drop start p')) 0 0 ≡ get_or p' start 0
  first_byte w h = get_or-slice start w 0 p' 0 h ∙ ap (λ i. get_or p' i 0) (omega arith)

  written_word :
      (a b : ℕ)
      → start + 2 ≤ length p
      → set (set p start a) (start + 1) b ≡ p'
      → (get_or p' start 0 ≡ a) × (get_or p' (start + 1) 0 ≡ b)
  written_word a b inside h = ground (
    arith,
    get_or-set_self p start a 0,
    get_or-set_ne (set p start a) (start + 1) start b 0,
    get_or-set_self (set p start a) (start + 1) b 0,
    length-set p start a,
  )

  decode_fixed_lem :
      (bits : ℕ) (lo hi step raw : ℤ) (actual : ℕ)
      → validate (signed_fixed bits lo hi step) (fixed_point raw actual) ≡ ok tt
      → decode_fixed field (signed_fixed bits lo hi step) bits lo hi raw
        ≡ ok (fixed_point raw actual)
  unfolding validate decode_fixed
  decode_fixed_lem bits lo hi step raw actual valid = ground arith

  wrote_word :
      (bits : ℕ) (lo hi step raw : ℤ) (actual : ℕ)
      → write_value field (signed_fixed bits lo hi step) (fixed_point raw actual) start p ≡ ok p'
      → FitsI16 raw
        × (set (set p start (low_byte (pattern16 raw))) (start + 1) (high_byte (pattern16 raw))
            ≡ p')
  unfolding write_value
  wrote_word bits lo hi step raw actual h = ground arith

  decode_word :
      (bits : ℕ) (lo hi step raw : ℤ) (actual : ℕ)
      → start + 2 ≤ length p
      → write_value field (signed_fixed bits lo hi step) (fixed_point raw actual) start p ≡ ok p'
      → signed16
          (from_le (get_or (take 2 (drop start p')) 0 0) (get_or (take 2 (drop start p')) 1 0))
        ≡ raw
  decode_word bits lo hi step raw actual inside h =
      let (fits, e) = wrote_word bits lo hi step raw actual h in
      let (low, high) = written_word _ _ inside e in
      rw (
        first_byte 2 (omega arith),
        get_or-slice start 2 1 p' 0 (omega arith),
        low,
        high,
        signed16-bytes raw fits,
      )

  decode_bytes-write_value :
      (codec : FieldCodec) (v : SemanticValue)
      → validate codec v ≡ ok tt
      → start + width codec ≤ length p
      → write_value field codec v start p ≡ ok p'
      → decode_bytes field codec (take (width codec) (drop start p')) ≡ ok v
  unfolding write_value validate decode_bytes
  decode_bytes-write_value FieldCodec.boolean (boolean b) valid inside h =
      ground (arith, first_byte 1, get_or-set_self p start (byte_of_bool b) 0)
  decode_bytes-write_value (signed_fixed bits lo hi step) (fixed_point raw actual) valid inside h =
      rw (decode_word bits lo hi step raw actual inside h)
        (decode_fixed_lem bits lo hi step raw actual valid)
  decode_bytes-write_value FieldCodec.volume_select (enum w) valid inside h =
      ground (arith, first_byte 1, get_or-set_self p start w 0)
  decode_bytes-write_value _ _ valid inside h = ground arith

pub decode_field_lem :
    (schema : MessageSchema) (spec : FieldSpec) (p : List ℕ)
    → length p ≡ schema.identity.payload_size
    → contains schema.fields spec ≡ true
    → spec.offset + width spec.codec ≤ length p
    → spec.offset + width spec.codec < usize_mod
    → decode_field schema spec p
      ≡ decode_bytes spec.field spec.codec (take (width spec.codec) (drop spec.offset p))
unfolding decode_field
decode_field_lem schema spec p whole listed inside addressed = ground arith

module _ (schema : MessageSchema) (spec : FieldSpec) (p : List ℕ) (v : SemanticValue)
    (r : PatchResult) (p' : List ℕ) (patched : patch_field schema spec p v ≡ ok (r, p')) where
  facts : Patched schema spec p v r p'
  facts = patch_field-Patched schema spec p v r p' patched

  pub length-patch_field : length p' ≡ length p
  length-patch_field = length-write_value spec.field spec.offset p p' spec.codec v facts.written

  -- The value that was patched in is read back, with the same schema and field.
  pub decode_field-patch_field : decode_field schema spec p' ≡ ok v
  decode_field-patch_field =
      decode_field_lem schema spec p' (length-patch_field ∙ facts.whole) facts.listed
        (omega (arith, facts.inside, length-patch_field)) facts.addressed
      ∙ decode_bytes-write_value spec.field spec.offset p p' spec.codec v facts.valid facts.inside
          facts.written

  -- No byte outside the field changes.
  pub get_or-patch_field :
      (i : ℕ)
      → (i < spec.offset) ⊎ (spec.offset + width spec.codec ≤ i)
      → get_or p' i 0 ≡ get_or p i 0
  get_or-patch_field i o =
      get_or-write_value spec.field spec.offset p p' spec.codec v i o facts.written

  -- `Unchanged` is returned exactly when the payload stays as it was.
  pub unchanged_iff : (r ≡ unchanged) ↔ (p ≡ p')
  unchanged_iff = ground (arith, facts)

write_value_total :
    (field : Wave3ConfigField) (codec : FieldCodec) (v : SemanticValue) (start : ℕ) (p : List ℕ)
    → validate codec v ≡ ok tt
    → (p' : List ℕ) × (write_value field codec v start p ≡ ok p')
unfolding write_value validate
write_value_total field FieldCodec.boolean (boolean b) start p h = (_, refl)
write_value_total field (signed_fixed bits lo hi step) (fixed_point raw actual) start p h = (
  set (set p start (low_byte (pattern16 raw))) (start + 1) (high_byte (pattern16 raw)),
  ground arith,
)
write_value_total field FieldCodec.volume_select (enum w) start p h = (_, refl)
write_value_total field _ _ start p h = (p, ground arith)

patch_field_steps :
    (schema : MessageSchema) (spec : FieldSpec) (p : List ℕ) (v : SemanticValue) (p' : List ℕ)
    → length p ≡ schema.identity.payload_size
    → (schema.access.writable ≡ true) × (spec.access.writable ≡ true)
    → contains schema.fields spec ≡ true
    → validate spec.codec v ≡ ok tt
    → spec.offset + width spec.codec ≤ length p
    → spec.offset + width spec.codec < usize_mod
    → write_value spec.field spec.codec v spec.offset p ≡ ok p'
    → patch_field schema spec p v
      ≡ ok (if holds (Bytes-discrete p p') then unchanged else changed, p')
unfolding patch_field
patch_field_steps schema spec p v p' whole access listed valid inside addressed written =
    ground arith

-- A valid value for a listed, writable field inside the payload is always patched in.
pub patch_field_total :
    (schema : MessageSchema) (spec : FieldSpec) (p : List ℕ) (v : SemanticValue)
    → length p ≡ schema.identity.payload_size
    → (schema.access.writable ≡ true) × (spec.access.writable ≡ true)
    → contains schema.fields spec ≡ true
    → validate spec.codec v ≡ ok tt
    → spec.offset + width spec.codec ≤ length p
    → spec.offset + width spec.codec < usize_mod
    → (r : PatchResult) × (p' : List ℕ) × (patch_field schema spec p v ≡ ok (r, p'))
patch_field_total schema spec p v whole access listed valid inside addressed =
    let (p', written) = write_value_total spec.field spec.codec v spec.offset p valid in
    (_, p', patch_field_steps schema spec p v p' whole access listed valid inside addressed written)
