-- ===== src/Platform/Ring/System.antt =====
-- The ring with its two owners, one step of either at a time, and which queue of Ring/Spec it stands for.
pub mod Push
pub mod Read
use libre_wave.Common.{
  take-append, drop-append, Bool, subst, ap₂, ℕ, ◌+◌, ◌-◌, ◌/◌, ◌%◌, ◌≤◌, ◌<◌, ◌≡◌, ◌∙◌, refl, sym,
  ap, List, ◌++◌, Option, none, some, Result, ok, err, length, take, drop, arith, inl, inr,
  Result-cases,
}
use libre_wave.Common.Bytes.{usize_mod}
use libre_wave.Platform.Ring.{RingPushError, RingPeekError, Ring, chunks, concat}
use libre_wave.Platform.Ring.Blocks.{
  Link, Admitted, PreparedPush, PreparedRead, prepare_push, after_admission, admit_push,
  commit_push, peek_exact, after_peek, admit_peek, copy_in, commit_read, finish_push, next_read,
}
use libre_wave.Platform.Ring.Window.{
  window, length-window, window-append, window-copy_in, copy_in_lem, length-copy_in, copy_out_lem,
}
use libre_wave.Platform.Ring.Chunks.{length-chunks, concat-chunks, is_multiple_of_lem}
use libre_wave.Platform.Ring.Admission.{
  IsLink, Granted, admit_push_lem, finish_push_lem, admit_peek_lem, next_read_lem,
}
use libre_wave.Platform.Ring.Spec.{
  Buffer, Label, offers, refuses, publishes, withdraws, peeks, lacks, consumes, keeps, Move, offer,
  refuse, publish, withdraw, peek, lack, consume, keep,
}

-- The ring and what each owner has prepared.
pub record System (S : Type 0) : Type 0 where
  pub link : Link S
  pub pushing : Option PreparedPush
  pub reading : Option PreparedRead

-- A prepared value borrows its owner, so an owner prepares one block at a time; dropping the value does
-- nothing.
pub data Step {S : Type 0} (is_finite : S → Bool) (channels : ℕ) (s : System S)
    : Label S → System S → Type 0 where
  prepared :
      (samples : List S) (p : PreparedPush) (link : Link S)
      → s.pushing ≡ none
      → prepare_push is_finite channels s.link samples ≡ (ok p, link)
      → Step is_finite channels s (offers samples) (record s { link = link; pushing = some p })
  refused :
      (samples : List S) (e : RingPushError) (link : Link S)
      → s.pushing ≡ none
      → prepare_push is_finite channels s.link samples ≡ (err e, link)
      → Step is_finite channels s (refuses e) (record s { link = link })
  committed :
      (p : PreparedPush)
      → s.pushing ≡ some p
      → Step is_finite channels s publishes
          (record s { link = commit_push p s.link; pushing = none })
  push_dropped : Step is_finite channels s withdraws (record s { pushing = none })
  peeked :
      (buffer output : List S) (p : PreparedRead)
      → s.reading ≡ none
      → peek_exact channels s.link buffer ≡ (ok p, output)
      → Step is_finite channels s (peeks output) (record s { reading = some p })
  lacking :
      (buffer output : List S) (e : RingPeekError)
      → s.reading ≡ none
      → peek_exact channels s.link buffer ≡ (err e, output)
      → Step is_finite channels s (lacks e) s
  consumed :
      (p : PreparedRead)
      → s.reading ≡ some p
      → Step is_finite channels s consumes
          (record s { link = commit_read p s.link; reading = none })
  read_dropped : Step is_finite channels s keeps (record s { reading = none })

module _ {S : Type 0} (capacity : ℕ) where
  -- The copied block lies behind the frames of the queue.
  abbrev pub IsOffered : ℕ → Link S → Option PreparedPush → Option (List (List S)) → Type 0
  IsOffered fill link none none = Unit
  IsOffered fill link (some p) (some block) =
      (p.next_write_sequence ≡ link.write_sequence + length block)
      × (fill + length block ≤ capacity)
      × (window capacity link.ring.frames link.write_sequence (length block) ≡ block)
  IsOffered fill link _ _ = ⊥

  abbrev pub IsHeld : ℕ → Link S → Option PreparedRead → Option ℕ → Type 0
  IsHeld fill link none none = Unit
  IsHeld fill link (some p) (some n) = (p.next_read_sequence ≡ link.read_sequence + n) × (n ≤ fill)
  IsHeld fill link _ _ = ⊥

  pub record Implements (s : System S) (b : Buffer S) : Type 0 where
    pub fill : ℕ
    pub is_link : IsLink capacity fill s.link
    pub queued : b.queue ≡ window capacity s.link.ring.frames s.link.read_sequence fill
    pub offered : IsOffered fill s.link s.pushing b.offered
    pub held : IsHeld fill s.link s.reading b.held

  module _ {fill : ℕ} {link : Link S} (is_link : IsLink capacity fill link) (blocks : List (List S))
      (fits : fill + length blocks ≤ capacity) where
    open is_link use {room, full, filled}

    -- The frames after the copy of a block.
    abbrev pub copied : List (List S)
    copied = copy_in link.ring.frames (link.write_sequence % capacity) blocks

    abbrev pub copied_link : Link S
    copied_link = record link { ring = record link.ring { frames = copied } }

    pub copied-IsLink : IsLink capacity fill copied_link
    copied-IsLink = record {
      room = room;
      fits = is_link.fits;
      full =
          length-copy_in capacity room link.ring.frames blocks (link.write_sequence % capacity)
          ∙ full;
      sized = is_link.sized;
      published_write = is_link.published_write;
      published_read = is_link.published_read;
      filled = filled;
      bounded = is_link.bounded;
    }

    pub copied-queue :
        window capacity copied link.read_sequence fill
        ≡ window capacity link.ring.frames link.read_sequence fill
    copied-queue =
        window-copy_in capacity room link.ring.frames blocks link.read_sequence fill
          link.write_sequence full (omega (arith, filled)) (omega (arith, filled))

    pub copied-block : window capacity copied link.write_sequence (length blocks) ≡ blocks
    copied-block =
        copy_in_lem capacity room link.ring.frames blocks link.write_sequence full (omega arith)
