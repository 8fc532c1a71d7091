-- ===== src/Protocol/Codec/Shape.antt =====
-- The kind of value that each codec of crates/librewave-protocol/src/codec.rs decodes.
use libre_wave.Common.{
  ℕ, ◌≡◌, inl, inr, List, Bool, some, arith, ok, Option-cases, get_or, take, drop,
}
use libre_wave.Common.Int.{ℤ}
use libre_wave.Common.Bytes.{from_le, signed16}
use libre_wave.Protocol.Fields.{FieldSpec, FieldCodec, Wave3ConfigField, signed_fixed, width}
use libre_wave.Protocol.Schema.{MessageSchema}
use libre_wave.Protocol.Codec.{
  SemanticValue, boolean, fixed_point, enum, VolumeSelect, from_wire, decode_field, decode_bytes,
  decode_boolean, decode_fixed, decode_select,
}

abbrev pub Shape : FieldCodec → SemanticValue → Type 0
Shape FieldCodec.boolean v = (b : Bool) × (v ≡ boolean b)
Shape (signed_fixed bits minimum maximum step) v = (raw : ℤ) × (v ≡ fixed_point raw bits)
Shape FieldCodec.volume_select v =
    (w : ℕ) × (s : VolumeSelect) × (from_wire w ≡ some s) × (v ≡ enum w)

decode_boolean-Shape :
    (field : Wave3ConfigField) (byte : ℕ) (v : SemanticValue)
    → decode_boolean field byte ≡ ok v
    → (b : Bool) × (v ≡ boolean b)
unfolding decode_boolean
decode_boolean-Shape field byte v h = ground arith

decode_fixed-Shape :
    (field : Wave3ConfigField) (codec : FieldCodec) (bits : ℕ) (lo hi raw : ℤ) (v : SemanticValue)
    → decode_fixed field codec bits lo hi raw ≡ ok v
    → v ≡ fixed_point raw bits
unfolding decode_fixed
decode_fixed-Shape field codec bits lo hi raw v h = ground arith

decode_select-Shape :
    (field : Wave3ConfigField) (byte : ℕ) (v : SemanticValue)
    → decode_select field byte ≡ ok v
    → (w : ℕ) × (s : VolumeSelect) × (from_wire w ≡ some s) × (v ≡ enum w)
unfolding decode_select
decode_select-Shape field byte v h = elim (Option-cases (from_wire byte)) [
  | inl e ↦ absurd (ground arith)
  | inr (s, e) ↦ (byte, s, e, ground arith)
]

decode_bytes-Shape :
    (field : Wave3ConfigField) (codec : FieldCodec) (bytes : List ℕ) (v : SemanticValue)
    → decode_bytes field codec bytes ≡ ok v
    → Shape codec v
unfolding decode_bytes
decode_bytes-Shape field FieldCodec.boolean bytes v h =
    decode_boolean-Shape field (get_or bytes 0 0) v h
decode_bytes-Shape field (signed_fixed bits lo hi step) bytes v h = (
  _,
  decode_fixed-Shape field (signed_fixed bits lo hi step) bits lo hi
      (signed16 (from_le (get_or bytes 0 0) (get_or bytes 1 0))) v h,
)
decode_bytes-Shape field FieldCodec.volume_select bytes v h =
    decode_select-Shape field (get_or bytes 0 0) v h

pub decode_field-Shape :
    (schema : MessageSchema) (spec : FieldSpec) (p : List ℕ) (v : SemanticValue)
    → decode_field schema spec p ≡ ok v
    → Shape spec.codec v
unfolding decode_field
decode_field-Shape schema spec p v h =
    decode_bytes-Shape spec.field spec.codec (take (width spec.codec) (drop spec.offset p)) v
      (ground arith)
