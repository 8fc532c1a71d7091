-- ===== src/Protocol/Codec.antt =====
-- crates/librewave-protocol/src/codec.rs: the exact codecs of single fields over a payload of bytes.
-- A function that writes through `&mut [u8]` returns the new payload beside its result; each does its
-- checks before it writes, so an error leaves the payload as it was.
pub mod Patch
pub mod Shape
pub mod Frame
use libre_wave.Common.{
  ℕ, ◌+◌, ◌%◌, List, Bool, true, false, Option, none, some, ◌||◌, not, ◌==◌, leb, if◌then◌else◌,
  holds, length, get_or, set, take, drop, Result, ok, err, ◌>>=◌, ◌>>◌, ensure, ok_or, map_err,
  ℕ_discrete,
}
use libre_wave.Common.Int.{ℤ, pos, negsuc, pos_part, neg_part, ltb_ℤ, ◌-ℤ◌}
use libre_wave.Common.Bytes.{checked_add, low_byte, high_byte, from_le, pattern16, signed16}
use libre_wave.Protocol.Fields.{
  FieldCodec, signed_fixed, Wave3ConfigField, input_gain, Wave3ConfigField-discrete, FieldSpec,
  contains, width,
}
use libre_wave.Protocol.Schema.{MessageSchema}

pub data SemanticValue : Type 0 where
  boolean : Bool → SemanticValue
  fixed_point : (raw : ℤ) (fractional_bits : ℕ) → SemanticValue
  unsigned : ℕ → SemanticValue
  enum : ℕ → SemanticValue

pub data ValueError : Type 0 where
  wrong_type : ValueError
  invalid_boolean : ℕ → ValueError
  unknown_enum : ℕ → ValueError
  fractional_bits : (expected actual : ℕ) → ValueError
  outside_range : (minimum maximum actual : ℤ) → ValueError
  wrong_step : (step actual : ℤ) → ValueError
  wire_range : ValueError

pub data CodecError : Type 0 where
  payload_length : (expected actual : ℕ) → CodecError
  field_out_of_bounds : (offset length : ℕ) → CodecError
  schema_mismatch : CodecError
  field_not_writable : Wave3ConfigField → CodecError
  field_not_in_schema : Wave3ConfigField → CodecError
  value : Wave3ConfigField → ValueError → CodecError

pub data PatchResult : Type 0 where
  changed unchanged : PatchResult

-- `VolumeSelect` of wave3.rs, with its discriminants.
pub data VolumeSelect : Type 0 where
  mic headphone mix : VolumeSelect

unfoldable pub to_wire : VolumeSelect → ℕ
to_wire mic = 1
to_wire headphone = 2
to_wire mix = 3

unfoldable pub from_wire : ℕ → Option VolumeSelect
from_wire w =
    if w == 1
    then some mic
    else if w == 2
    then some headphone
    else if w == 3
    then some mix
    else none

abbrev pub is_some {ℓ} : {A : Type ℓ} → Option A → Bool
is_some none = false
is_some (some a) = true

check_payload : List ℕ → ℕ → Result CodecError (Unit {0})
check_payload payload expected =
    ensure (length payload == expected) (payload_length expected (length payload))

-- `i32::checked_sub`
abbrev fits_i32 : ℤ → Bool
fits_i32 z = not (ltb_ℤ z (negsuc 2147483647) || ltb_ℤ (pos 2147483647) z)

abbrev checked_sub : ℤ → ℤ → Option ℤ
checked_sub a b = let d = a -ℤ b in if fits_i32 d then some d else none

-- `i16::try_from`
abbrev fits_i16 : ℤ → Bool
fits_i16 z = not (ltb_ℤ z (negsuc 32767) || ltb_ℤ (pos 32767) z)

abbrev magnitude : ℤ → ℕ
magnitude z = pos_part z + neg_part z

-- `a % b == 0`. The code panics at `b == 0`; the steps of the field table are positive.
abbrev divides : ℤ → ℤ → Bool
divides b a = magnitude a % magnitude b == 0

validate_fixed_point :
    (bits : ℕ) (minimum maximum step raw : ℤ) (actual : ℕ) → Result ValueError (Unit {0})
validate_fixed_point bits minimum maximum step raw actual = do
  ensure (actual == bits) (fractional_bits bits actual)
  ensure (not (ltb_ℤ raw minimum || ltb_ℤ maximum raw)) (outside_range minimum maximum raw)
  delta ← ok_or (checked_sub raw minimum) wire_range
  ensure (divides step delta) (wrong_step step raw)
  ensure (fits_i16 raw) wire_range
  ok tt

unfoldable pub validate : FieldCodec → SemanticValue → Result ValueError (Unit {0})
unfolding validate_fixed_point from_wire
validate FieldCodec.boolean (boolean b) = ok tt
validate FieldCodec.boolean _ = err wrong_type
validate (signed_fixed bits minimum maximum step) (fixed_point raw actual) =
    validate_fixed_point bits minimum maximum step raw actual
validate (signed_fixed bits minimum maximum step) _ = err wrong_type
validate FieldCodec.volume_select (enum w) = ensure (is_some (from_wire w)) (unknown_enum w)
validate FieldCodec.volume_select _ = err wrong_type

-- The bounds check of `field_slice` and `field_slice_mut`: the slice begins at the offset returned.
slice_start : FieldSpec → List ℕ → Result CodecError ℕ
slice_start spec payload = do
  end ←
      ok_or (checked_add spec.offset (width spec.codec))
        (field_out_of_bounds spec.offset (width spec.codec))
  ensure (leb end (length payload)) (field_out_of_bounds spec.offset (width spec.codec))
  ok spec.offset

field_slice : FieldSpec → List ℕ → Result CodecError (List ℕ)
unfolding slice_start
field_slice spec payload = do
  start ← slice_start spec payload
  ok (take (width spec.codec) (drop start payload))

decode_boolean : Wave3ConfigField → ℕ → Result CodecError SemanticValue
decode_boolean field byte =
    if byte == 0
    then ok (boolean false)
    else if byte == 1
    then ok (boolean true)
    else err (value field (invalid_boolean byte))

-- The physical gain knob reports values between the steps: only the range is checked there.
decode_fixed :
    Wave3ConfigField
    → FieldCodec
    → (bits : ℕ) (minimum maximum raw : ℤ) → Result CodecError SemanticValue
unfolding validate
decode_fixed field codec bits minimum maximum raw =
    if holds (Wave3ConfigField-discrete field input_gain)
    then (if ltb_ℤ raw minimum || ltb_ℤ maximum raw
        then err (value field (outside_range minimum maximum raw))
        else ok (fixed_point raw bits))
    else do map_err (value field) (validate codec (fixed_point raw bits)); ok (fixed_point raw bits)

decode_select : Wave3ConfigField → ℕ → Result CodecError SemanticValue
unfolding from_wire
decode_select field byte =
    if is_some (from_wire byte) then ok (enum byte) else err (value field (unknown_enum byte))

unfoldable pub decode_bytes :
    Wave3ConfigField → FieldCodec → List ℕ → Result CodecError SemanticValue
unfolding decode_boolean decode_fixed decode_select from_le signed16
decode_bytes field FieldCodec.boolean bytes = decode_boolean field (get_or bytes 0 0)
decode_bytes field (signed_fixed bits minimum maximum step) bytes =
    decode_fixed field (signed_fixed bits minimum maximum step) bits minimum maximum
      (signed16 (from_le (get_or bytes 0 0) (get_or bytes 1 0)))
decode_bytes field FieldCodec.volume_select bytes = decode_select field (get_or bytes 0 0)

unfoldable pub decode_field : MessageSchema → FieldSpec → List ℕ → Result CodecError SemanticValue
unfolding check_payload field_slice
decode_field schema spec payload = do
  check_payload payload schema.identity.payload_size
  ensure (contains schema.fields spec) (field_not_in_schema spec.field)
  bytes ← field_slice spec payload
  decode_bytes spec.field spec.codec bytes

abbrev pub byte_of_bool : Bool → ℕ
byte_of_bool true = 1
byte_of_bool false = 0

-- The write of `patch_field`. A validated value matches its codec, so the last clause, where the
-- code says `unreachable!`, stands for no case.
unfoldable pub write_value :
    Wave3ConfigField → FieldCodec → SemanticValue → ℕ → List ℕ → Result CodecError (List ℕ)
unfolding low_byte high_byte pattern16
write_value field FieldCodec.boolean (boolean b) start payload =
    ok (set payload start (byte_of_bool b))
write_value field (signed_fixed bits minimum maximum step) (fixed_point raw actual) start payload =
    if fits_i16 raw
    then ok
        (set (set payload start (low_byte (pattern16 raw))) (start + 1) (high_byte (pattern16 raw)))
    else err (value field wire_range)
write_value field FieldCodec.volume_select (enum w) start payload = ok (set payload start w)
write_value field _ _ start payload = ok payload

unfoldable pub Bytes-discrete : Discrete (List ℕ)
unfolding ℕ_discrete
Bytes-discrete = hlevel ℕ_discrete

unfoldable pub patch_field :
    MessageSchema → FieldSpec → List ℕ → SemanticValue → Result CodecError (PatchResult × List ℕ)
unfolding check_payload slice_start
patch_field schema spec payload v = do
  check_payload payload schema.identity.payload_size
  ensure (not (not schema.access.writable || not spec.access.writable))
      (field_not_writable spec.field)
  ensure (contains schema.fields spec) (field_not_in_schema spec.field)
  map_err (value spec.field) (validate spec.codec v)
  start ← slice_start spec payload
  after ← write_value spec.field spec.codec v start payload
  ok (if holds (Bytes-discrete payload after) then unchanged else changed, after)
