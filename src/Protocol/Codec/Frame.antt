-- ===== src/Protocol/Codec/Frame.antt =====
-- A patch of one field (crates/librewave-protocol/src/codec.rs) beside the fields apart from it.
use libre_wave.Common.{
  ℕ, ◌+◌, ◌≡◌, List, arith, length, All-set, take, drop, set, slice-congr, ok, true, false,
}
use libre_wave.Common.Bytes.{
  IsBytes, IsByte, low_byte, high_byte, pattern16, low_byte-IsByte, high_byte-IsByte,
}
use libre_wave.Protocol.Fields.{FieldSpec, FieldCodec, Wave3ConfigField, signed_fixed, width}
use libre_wave.Protocol.Fields.Layout.{Apart}
use libre_wave.Protocol.Schema.{MessageSchema}
use libre_wave.Protocol.Codec.{
  SemanticValue, boolean, fixed_point, enum, PatchResult, patch_field, decode_field, validate,
  write_value,
}
use libre_wave.Protocol.Codec.Patch.{length-patch_field, get_or-patch_field, patch_field-Patched}

decode_field-congr :
    (schema : MessageSchema) (spec : FieldSpec) (p q : List ℕ)
    → length p ≡ length q
    → take (width spec.codec) (drop spec.offset p) ≡ take (width spec.codec) (drop spec.offset q)
    → decode_field schema spec p ≡ decode_field schema spec q
unfolding decode_field
decode_field-congr schema spec p q l s = ground arith

pub decode_field-patch_field-Apart :
    (schema : MessageSchema) (spec other : FieldSpec) (p : List ℕ) (v : SemanticValue)
    (r : PatchResult) (p' : List ℕ)
    → patch_field schema spec p v ≡ ok (r, p')
    → Apart spec other
    → decode_field schema other p' ≡ decode_field schema other p
decode_field-patch_field-Apart schema spec other p v r p' h apart =
    decode_field-congr schema other p' p len (
      slice-congr other.offset (width other.codec) p' p 0 len
        (λ i lo hi. get_or-patch_field schema spec p v r p' h i (omega arith)))
  where
    len : length p' ≡ length p
    len = length-patch_field schema spec p v r p' h

write_value-IsBytes :
    (field : Wave3ConfigField) (codec : FieldCodec) (v : SemanticValue) (start : ℕ) (p p' : List ℕ)
    → validate codec v ≡ ok tt
    → write_value field codec v start p ≡ ok p'
    → IsBytes p
    → IsBytes p'
unfolding write_value validate
write_value-IsBytes field FieldCodec.boolean (boolean true) start p p' valid h bytes =
    ground (arith, All-set IsByte p start 1 (omega arith) bytes)
write_value-IsBytes field FieldCodec.boolean (boolean false) start p p' valid h bytes =
    ground (arith, All-set IsByte p start 0 (omega arith) bytes)
write_value-IsBytes field (signed_fixed bits lo hi step) (fixed_point raw actual) start p p' valid h
      bytes =
    ground (
      arith,
      All-set IsByte (set p start (low_byte (pattern16 raw))) (start + 1)
          (high_byte (pattern16 raw)) (high_byte-IsByte (pattern16 raw))
          (All-set IsByte p start (low_byte (pattern16 raw)) (low_byte-IsByte (pattern16 raw))
            bytes),
    )
write_value-IsBytes field FieldCodec.volume_select (enum w) start p p' valid h bytes =
    ground (arith, All-set IsByte p start w (ground arith) bytes)
write_value-IsBytes field _ _ start p p' valid h bytes = ground arith

pub patch_field-IsBytes :
    (schema : MessageSchema) (spec : FieldSpec) (p : List ℕ) (v : SemanticValue) (r : PatchResult)
    (p' : List ℕ)
    → patch_field schema spec p v ≡ ok (r, p')
    → IsBytes p
    → IsBytes p'
patch_field-IsBytes schema spec p v r p' h =
    let facts = patch_field-Patched schema spec p v r p' h in
    write_value-IsBytes spec.field spec.codec v spec.offset p p' facts.valid facts.written
