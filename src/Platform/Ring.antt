-- ===== src/Platform/Ring.antt =====
-- crates/librewave-platform-linux/src/audio_host/clock_bridge/spsc.rs: the bounded ring of audio frames
-- between one producer and one consumer. A sample has any type `S`; the test for a finite sample and
-- whether the allocation succeeds are parameters.
pub mod Blocks
pub mod Slots
pub mod Window
pub mod Chunks
pub mod Spec
pub mod Admission
pub mod System
pub mod Refine
pub mod Accepts
use libre_wave.Common.{
  ℕ, zero, suc, ◌+◌, ◌-◌, ◌/◌, ◌%◌, ◌^◌, List, [], ◌∷◌, ◌++◌, Bool, true, false, not, ◌==◌, ltb,
  leb, if◌then◌else◌, Option, none, some, Result, ok, err, ◌>>=◌, ◌>>◌, ensure, ok_or, map_err,
  length, get_or, set, take, drop, replicate, position,
}
use libre_wave.Common.Bytes.{usize_mod, checked_add}

pub data RingBuildError : Type 0 where
  zero_capacity capacity_overflow allocation : RingBuildError

pub data RingSequenceError : Type 0 where
  overflow invalid_order capacity_exceeded conversion : RingSequenceError

pub data RingPushError : Type 0 where
  partial_frame : (samples channels : ℕ) → RingPushError
  non_finite : (sample_index : ℕ) → RingPushError
  overflow : (requested remaining capacity : ℕ) → RingPushError
  sequence : RingSequenceError → RingPushError

pub data RingPeekError : Type 0 where
  partial_frame : (samples channels : ℕ) → RingPeekError
  shortage : (required available : ℕ) → RingPeekError
  sequence : RingSequenceError → RingPeekError

-- What the producer and the consumer share.
pub record Ring (S : Type 0) : Type 0 where
  pub frames : List (List S)
  pub capacity_sequence : ℕ
  pub published_write_sequence : ℕ
  pub published_read_sequence : ℕ

-- `try_from` between `usize` and `u64`
abbrev pub try_from : {E : Type 0} → E → ℕ → Result E ℕ
try_from e n = if ltb n usize_mod then ok n else err e

abbrev pub checked_sub : ℕ → ℕ → Option ℕ
checked_sub a b = if leb b a then some (a - b) else none

-- `len().is_multiple_of(channels)`
abbrev pub is_multiple_of : ℕ → ℕ → Bool
is_multiple_of n channels = n % channels == 0

-- `chunks_exact`, given the number of chunks
abbrev pub chunks : {S : Type 0} → ℕ → ℕ → List S → List (List S)
chunks channels zero samples = []
chunks channels (suc n) samples = take channels samples ∷ chunks channels n (drop channels samples)

abbrev pub concat : {S : Type 0} → List (List S) → List S
concat [] = []
concat (f ∷ fs) = f ++ concat fs

pub advance_slot : ℕ → ℕ → ℕ
advance_slot capacity index = if index + 1 == capacity then 0 else index + 1

module _ {S : Type 0} where
  unfoldable pub channel : S → (ℕ → Bool) → ℕ → ℕ → Result RingBuildError (Ring S)
  channel silence allocates channels capacity_frames = do
    _ ← ensure (not (capacity_frames == 0)) zero_capacity
    capacity_sequence ← try_from capacity_overflow capacity_frames
    _ ← ensure (allocates capacity_frames) allocation
    ok (record {
      frames = replicate capacity_frames (replicate channels silence);
      capacity_sequence = capacity_sequence;
      published_write_sequence = 0;
      published_read_sequence = 0;
    })

  abbrev pub capacity_frames : Ring S → ℕ
  capacity_frames ring = length ring.frames

  pub slot : Ring S → ℕ → Result RingSequenceError ℕ
  slot ring position = try_from conversion (position % ring.capacity_sequence)

  pub fill_frames : Ring S → ℕ → ℕ → Result RingSequenceError ℕ
  fill_frames ring write_sequence read_sequence = do
    fill ← ok_or (checked_sub write_sequence read_sequence) invalid_order
    if ltb ring.capacity_sequence fill then err capacity_exceeded else try_from conversion fill

  -- The producer owns `write_sequence`, the consumer `read_sequence`.
  pub free_frames : Ring S → ℕ → Result RingSequenceError ℕ
  unfolding fill_frames
  free_frames ring write_sequence = do
    fill ← fill_frames ring write_sequence ring.published_read_sequence
    ok (capacity_frames ring - fill)

  pub available_frames : Ring S → ℕ → Result RingSequenceError ℕ
  unfolding fill_frames
  available_frames ring read_sequence = fill_frames ring ring.published_write_sequence read_sequence

  pub stable_fill_frames : Ring S → Result RingSequenceError ℕ
  unfolding fill_frames
  stable_fill_frames ring =
      fill_frames ring ring.published_write_sequence ring.published_read_sequence
