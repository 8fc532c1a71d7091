-- ===== src/Platform/Ring/Blocks.antt =====
-- crates/librewave-platform-linux/src/audio_host/clock_bridge/spsc.rs: `prepare_push` and `peek_exact`
-- copy a block, and their `commit` publishes the cursor.
use libre_wave.Common.{
  ℕ, zero, suc, ◌/◌, List, [], ◌∷◌, Bool, not, leb, Option, none, some, Result, ok, err, ◌>>=◌,
  ensure, ok_or, map_err, length, get_or, set, position,
}
use libre_wave.Common.Bytes.{checked_add}
use libre_wave.Platform.Ring.{
  RingSequenceError, RingPushError, RingPeekError, Ring, try_from, checked_sub, is_multiple_of,
  chunks, concat, capacity_frames, advance_slot, slot, free_frames, available_frames,
}

pub record PreparedPush : Type 0 where
  pub next_write_sequence : ℕ
  pub fill_after_commit : ℕ

pub record PreparedRead : Type 0 where
  pub next_read_sequence : ℕ

-- The shared ring with the cursors of its two owners.
pub record Link (S : Type 0) : Type 0 where
  pub ring : Ring S
  pub write_sequence : ℕ
  pub read_sequence : ℕ

-- What `prepare_push` has settled before it copies.
pub record Admitted : Type 0 where
  pub remaining : ℕ
  pub next_write_sequence : ℕ
  pub slot : ℕ

module _ {S : Type 0} where
  -- The copy loop over `chunks_exact`.
  unfoldable pub copy_in : List (List S) → ℕ → List (List S) → List (List S)
  unfolding advance_slot
  copy_in frames at [] = frames
  copy_in frames at (frame ∷ rest) =
      copy_in (set frames at frame) (advance_slot (length frames) at) rest

  -- The copy loop of `peek_exact` over so many frames.
  unfoldable pub copy_out : List (List S) → ℕ → ℕ → List (List S)
  unfolding advance_slot
  copy_out frames at zero = []
  copy_out frames at (suc n) =
      get_or frames at [] ∷ copy_out frames (advance_slot (length frames) at) n

  unfoldable pub commit_push : PreparedPush → Link S → Link S
  commit_push prepared link = record link {
    write_sequence = prepared.next_write_sequence;
    ring = record link.ring { published_write_sequence = prepared.next_write_sequence };
  }

  unfoldable pub next_read : Link S → ℕ → Result RingPeekError PreparedRead
  next_read link frames = do
    frame_count ← map_err RingPeekError.sequence (try_from RingSequenceError.conversion frames)
    next_read_sequence ←
        ok_or (checked_add link.read_sequence frame_count)
          (RingPeekError.sequence RingSequenceError.overflow)
    ok (record { next_read_sequence = next_read_sequence })

  unfoldable pub commit_read : PreparedRead → Link S → Link S
  commit_read prepared link = record link {
    read_sequence = prepared.next_read_sequence;
    ring = record link.ring { published_read_sequence = prepared.next_read_sequence };
  }

module _ {S : Type 0} (channels : ℕ) where
  -- What follows the copy.
  unfoldable pub finish_push : Ring S → List S → Admitted → Result RingPushError PreparedPush
  finish_push ring samples admitted = do
    fill ←
        ok_or (checked_sub (capacity_frames ring) admitted.remaining)
          (RingPushError.sequence RingSequenceError.overflow)
    fill_after_commit ←
        ok_or (checked_add fill (length samples / channels))
          (RingPushError.sequence RingSequenceError.overflow)
    ok (record {
      next_write_sequence = admitted.next_write_sequence;
      fill_after_commit = fill_after_commit;
    })

  -- The slot where the copy begins.
  unfoldable pub admit_peek : Link S → ℕ → Result RingPeekError ℕ
  unfolding available_frames slot
  admit_peek link wanted = do
    _ ← ensure (is_multiple_of wanted channels) (RingPeekError.partial_frame wanted channels)
    available ← map_err RingPeekError.sequence (available_frames link.ring link.read_sequence)
    _ ←
        ensure (leb (wanted / channels) available)
          (RingPeekError.shortage (wanted / channels) available)
    map_err RingPeekError.sequence (slot link.ring link.read_sequence)

  unfoldable pub after_peek :
      Link S → List S → Result RingPeekError ℕ → Result RingPeekError PreparedRead × List S
  unfolding copy_out next_read
  after_peek link output (err e) = (err e, output)
  after_peek link output (ok first) = (
    next_read link (length output / channels),
    concat (copy_out link.ring.frames first (length output / channels)),
  )

  -- The buffer `output` is returned as the call leaves it.
  unfoldable pub peek_exact : Link S → List S → Result RingPeekError PreparedRead × List S
  unfolding admit_peek after_peek
  peek_exact link output = after_peek link output (admit_peek link (length output))

module _ {S : Type 0} (is_finite : S → Bool) (channels : ℕ) where
  -- `iter().position(..)` of a sample that is not finite
  abbrev pub check_finite : List S → Result RingPushError (Unit {0})
  check_finite samples = finite_of (position (λ sample. not (is_finite sample)) samples)
    where
      finite_of : Option ℕ → Result RingPushError (Unit {0})
      finite_of none = ok tt
      finite_of (some sample_index) = err (RingPushError.non_finite sample_index)

  unfoldable pub admit_push : Link S → List S → Result RingPushError Admitted
  unfolding free_frames slot
  admit_push link samples = do
    _ ←
        ensure (is_multiple_of (length samples) channels)
          (RingPushError.partial_frame (length samples) channels)
    _ ← check_finite samples
    remaining ← map_err RingPushError.sequence (free_frames link.ring link.write_sequence)
    _ ←
        ensure (leb (length samples / channels) remaining)
          (RingPushError.overflow (length samples / channels) remaining (capacity_frames link.ring))
    frame_count ←
        map_err RingPushError.sequence
          (try_from RingSequenceError.conversion (length samples / channels))
    next_write_sequence ←
        ok_or (checked_add link.write_sequence frame_count)
          (RingPushError.sequence RingSequenceError.overflow)
    first ← map_err RingPushError.sequence (slot link.ring link.write_sequence)
    ok (record { remaining = remaining; next_write_sequence = next_write_sequence; slot = first })

  unfoldable pub after_admission :
      Link S → List S → Result RingPushError Admitted → Result RingPushError PreparedPush × Link S
  unfolding copy_in finish_push
  after_admission link samples (err e) = (err e, link)
  after_admission link samples (ok admitted) = (
    finish_push channels link.ring samples admitted,
    record link {
      ring = record link.ring {
        frames =
            copy_in link.ring.frames admitted.slot
              (chunks channels (length samples / channels) samples);
      };
    },
  )

  unfoldable pub prepare_push : Link S → List S → Result RingPushError PreparedPush × Link S
  unfolding admit_push after_admission
  prepare_push link samples = after_admission link samples (admit_push link samples)
