-- ===== src/Platform/Ring/Accepts.antt =====
-- When the producer's block is accepted, and when the consumer's buffer is filled.
use libre_wave.Common.{
  ℕ, ◌+◌, ◌-◌, ◌/◌, ◌%◌, ◌≤◌, ◌<◌, ◌≡◌, ◌∙◌, refl, ap, Bool, true, not, List, none, Result, ok, err,
  length, position, arith,
}
use libre_wave.Common.Bytes.{usize_mod}
use libre_wave.Platform.Ring.{RingPushError, is_multiple_of}
use libre_wave.Platform.Ring.Blocks.{
  Link, Admitted, PreparedPush, prepare_push, after_admission, admit_push,
}
use libre_wave.Platform.Ring.Admission.{IsLink, finish_push_lem, free_frames_lem, slot_lem}

module _ {S : Type 0} {capacity fill : ℕ} {link : Link S} (is_link : IsLink capacity fill link)
    (is_finite : S → Bool) (channels : ℕ) (samples : List S) where
  -- Whole frames of finite samples, room for them, and a cursor that stays a `u64`.
  pub record IsAcceptable : Type 0 where
    pub whole : is_multiple_of (length samples) channels ≡ true
    pub finite : position (λ sample. not (is_finite sample)) samples ≡ none
    pub enough : fill + length samples / channels ≤ capacity
    pub below : link.write_sequence + length samples / channels < usize_mod

  admit_push_accepts :
      IsAcceptable
      → admit_push is_finite channels link samples
        ≡ ok (record {
          remaining = capacity - fill;
          next_write_sequence = link.write_sequence + length samples / channels;
          slot = link.write_sequence % capacity;
        })
  unfolding admit_push
  admit_push_accepts is = ground (
    arith,
    is.whole,
    is.finite,
    is.enough,
    is.below,
    is_link.fits,
    free_frames_lem is_link,
    slot_lem is_link link.write_sequence,
  )

  admit_push-IsAcceptable :
      (admitted : Admitted)
      → admit_push is_finite channels link samples ≡ ok admitted
      → IsAcceptable
  unfolding admit_push
  admit_push-IsAcceptable admitted chain =
      ground (arith, free_frames_lem is_link, slot_lem is_link link.write_sequence)

  after_admission-ok :
      (r : Result RingPushError Admitted) (p : PreparedPush)
      → (after_admission is_finite channels link samples r).0 ≡ ok p
      → (admitted : Admitted) × (r ≡ ok admitted)
  unfolding after_admission
  after_admission-ok (err e) p h = cc
  after_admission-ok (ok admitted) p h = (admitted, refl)

  -- The producer's block is accepted exactly if it is of whole frames and finite samples, there is room for
  -- it beside what the ring holds, and the cursor does not leave the `u64`; the prepared value then carries
  -- the cursor and the fill after its commit.
  pub prepare_push_lem :
      (IsAcceptable
        → (prepare_push is_finite channels link samples).0
          ≡ ok (record {
            next_write_sequence = link.write_sequence + length samples / channels;
            fill_after_commit = fill + length samples / channels;
          }))
      × ((p : PreparedPush)
          → (prepare_push is_finite channels link samples).0 ≡ ok p
          → IsAcceptable)
  unfolding prepare_push after_admission
  prepare_push_lem = (
    λ is.
        ap (λ r. (after_admission is_finite channels link samples r).0) (admit_push_accepts is)
        ∙ finish_push_lem is_link channels samples _
            (record { free = refl; enough = is.enough; next = refl; first = refl }),
    λ p h.
        let (admitted, chain) =
          after_admission-ok (admit_push is_finite channels link samples) p h in
        admit_push-IsAcceptable admitted chain,
  )
