-- ===== src/Platform/Ring/System/Read.antt =====
-- The steps of the consumer against the moves of the queue.
use libre_wave.Common.{
  take-append, drop-append, ℕ, ◌+◌, ◌-◌, ◌/◌, ◌≤◌, ◌≡◌, ◌∙◌, refl, sym, ap, ap₂, subst, List, ◌++◌,
  Option, none, some, Result, ok, err, length, take, drop, arith,
}
use libre_wave.Platform.Ring.{RingPeekError, concat}
use libre_wave.Platform.Ring.Blocks.{
  PreparedPush, PreparedRead, peek_exact, after_peek, admit_peek, commit_read, next_read, copy_out,
}
use libre_wave.Platform.Ring.Window.{window, length-window, window-append, copy_out_lem}
use libre_wave.Platform.Ring.Admission.{admit_peek_lem, next_read_lem}
use libre_wave.Platform.Ring.Spec.{
  Buffer, peeks, lacks, consumes, keeps, Move, peek, lack, consume, keep,
}
use libre_wave.Platform.Ring.System.{System, IsOffered, IsHeld, Implements}
use libre_wave.Platform.Ring.System.Push.{Simulated}

module _ {S : Type 0} {capacity : ℕ} {s : System S} {b : Buffer S}
    (implements : Implements capacity s b) where
  open implements use {fill, is_link, queued, offered, held}

  not_held : s.reading ≡ none → b.held ≡ none
  not_held idle = ground (arith, held)

  -- The first frames of the queue, and the others.
  split :
      (n : ℕ)
      → n ≤ fill
      → b.queue
        ≡ window capacity s.link.ring.frames s.link.read_sequence n
          ++ window capacity s.link.ring.frames (s.link.read_sequence + n) (fill - n)
  split n fits =
      queued
      ∙ ap (window capacity s.link.ring.frames s.link.read_sequence) (omega arith)
      ∙ window-append capacity s.link.ring.frames s.link.read_sequence n (fill - n)

  first_frames :
      (n : ℕ)
      → n ≤ fill
      → take n b.queue ≡ window capacity s.link.ring.frames s.link.read_sequence n
  first_frames n fits =
      ap₂ take (sym (length-window capacity s.link.ring.frames s.link.read_sequence n))
        (split n fits)
      ∙ take-append (window capacity s.link.ring.frames s.link.read_sequence n) _

  other_frames :
      (n : ℕ)
      → n ≤ fill
      → drop n b.queue ≡ window capacity s.link.ring.frames (s.link.read_sequence + n) (fill - n)
  other_frames n fits =
      ap₂ drop (sym (length-window capacity s.link.ring.frames s.link.read_sequence n))
        (split n fits)
      ∙ drop-append (window capacity s.link.ring.frames s.link.read_sequence n) _

  module _ (channels : ℕ) (buffer : List S) (idle : s.reading ≡ none) where
    abbrev wanted : ℕ
    wanted = length buffer / channels

    after_peek-peeked :
        (r : Result RingPeekError ℕ) (p : PreparedRead) (output : List S)
        → admit_peek channels s.link (length buffer) ≡ r
        → after_peek channels s.link buffer r ≡ (ok p, output)
        → Simulated capacity b (peeks output) (record s { reading = some p })
    unfolding after_peek
    after_peek-peeked (err e) p output admission h = cc
    after_peek-peeked (ok first) p output admission h =
        let (whole, fits, at) = admit_peek_lem is_link channels (length buffer) first admission in
        let read : next_read s.link wanted ≡ ok p = ap (λ o. o.0) h in
        let copied : concat (take wanted b.queue) ≡ output =
          ap concat (
            first_frames wanted fits
            ∙ sym (
                copy_out_lem capacity is_link.room s.link.ring.frames s.link.read_sequence wanted
                  is_link.full)
            ∙ ap (λ a. copy_out s.link.ring.frames a wanted) (sym at))
          ∙ ap (λ o. o.1) h in
        (
          record b { held = some wanted },
          subst (λ o. Move capacity b (peeks o) (record b { held = some wanted })) copied
              (peek wanted (not_held idle) (
                omega (
                  arith,
                  fits,
                  ap length queued,
                  length-window capacity s.link.ring.frames s.link.read_sequence fill,
                ))),
          record {
            fill = fill;
            is_link = is_link;
            queued = queued;
            offered = offered;
            held = (next_read_lem is_link wanted p read, fits);
          },
        )

    pub peeked-Simulated :
        (p : PreparedRead) (output : List S)
        → peek_exact channels s.link buffer ≡ (ok p, output)
        → Simulated capacity b (peeks output) (record s { reading = some p })
    unfolding peek_exact
    peeked-Simulated p output h =
        after_peek-peeked (admit_peek channels s.link (length buffer)) p output refl h

  pub lacking-Simulated : (e : RingPeekError) → Simulated capacity b (lacks e) s
  lacking-Simulated e = (b, lack e, implements)

  held_frames :
      (reading : Option PreparedRead) (k : Option ℕ) (p : PreparedRead)
      → IsHeld capacity fill s.link reading k
      → reading ≡ some p
      → (n : ℕ) × (k ≡ some n) × (p.next_read_sequence ≡ s.link.read_sequence + n) × (n ≤ fill)
  held_frames none k p is e = cc
  held_frames (some q) none p is e = absurd is
  held_frames (some q) (some n) p is e = let same : q ≡ p = cc in (n, refl, rw (← same) is.0, is.1)

  IsOffered-still :
      (n : ℕ) (read : ℕ) (pushing : Option PreparedPush) (o : Option (List (List S)))
      → IsOffered capacity fill s.link pushing o
      → IsOffered capacity
          (fill - n)
          (commit_read (record { next_read_sequence = read }) s.link)
          pushing
          o
  unfolding commit_read
  IsOffered-still n read none none is = tt
  IsOffered-still n read none (some block) is = is
  IsOffered-still n read (some q) none is = is
  IsOffered-still n read (some q) (some block) is = (is.0, omega (arith, is.1), is.2)

  pub consumed-Simulated :
      (p : PreparedRead)
      → s.reading ≡ some p
      → Simulated capacity b consumes (record s { link = commit_read p s.link; reading = none })
  unfolding commit_read
  consumed-Simulated p busy =
      let (n, is_held, next, fits) = held_frames s.reading b.held p held busy in
      (
        record b { queue = drop n b.queue; held = none },
        consume n is_held,
        record {
          fill = fill - n;
          is_link = record {
            room = is_link.room;
            fits = is_link.fits;
            full = is_link.full;
            sized = is_link.sized;
            published_write = is_link.published_write;
            published_read = refl;
            filled = omega (arith, next, fits, is_link.filled);
            bounded = omega (arith, is_link.bounded);
          };
          queued =
              other_frames n fits
              ∙ ap (λ r. window capacity s.link.ring.frames r (fill - n)) (sym next);
          offered = IsOffered-still n p.next_read_sequence s.pushing b.offered offered;
          held = tt;
        },
      )

  pub read_dropped-Simulated : Simulated capacity b keeps (record s { reading = none })
  read_dropped-Simulated = (
    record b { held = none },
    keep,
    record { fill = fill; is_link = is_link; queued = queued; offered = offered; held = tt },
  )
