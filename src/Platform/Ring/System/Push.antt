-- ===== src/Platform/Ring/System/Push.antt =====
-- The steps of the producer against the moves of the queue.
use libre_wave.Common.{
  ℕ, ◌+◌, ◌/◌, ◌≤◌, ◌≡◌, ◌∙◌, refl, sym, ap, ap₂, subst, Bool, List, ◌++◌, Option, none, some,
  Result, ok, err, length, arith,
}
use libre_wave.Platform.Ring.{RingPushError, chunks, concat}
use libre_wave.Platform.Ring.Blocks.{
  Link, Admitted, PreparedPush, PreparedRead, prepare_push, after_admission, admit_push,
  commit_push, finish_push, copy_in,
}
use libre_wave.Platform.Ring.Window.{window, length-window, window-append}
use libre_wave.Platform.Ring.Chunks.{length-chunks, concat-chunks, is_multiple_of_lem}
use libre_wave.Platform.Ring.Admission.{Granted, admit_push_lem, finish_push_lem}
use libre_wave.Platform.Ring.Spec.{
  Buffer, Label, offers, refuses, publishes, withdraws, Move, offer, refuse, publish, withdraw,
}
use libre_wave.Platform.Ring.System.{
  System, IsOffered, IsHeld, Implements, copied_link, copied-IsLink, copied-queue, copied-block,
}

-- What a step `label` of the ring amounts to.
abbrev pub Simulated : {S : Type 0} → ℕ → Buffer S → Label S → System S → Type 0
Simulated {S} capacity b label s' =
    (b' : Buffer S) × Move capacity b label b' × Implements capacity s' b'

module _ {S : Type 0} {capacity : ℕ} {s : System S} {b : Buffer S}
    (implements : Implements capacity s b) where
  open implements use {fill, is_link, queued, offered, held}

  not_offered : s.pushing ≡ none → b.offered ≡ none
  not_offered idle = ground (arith, offered)

  module _ (is_finite : S → Bool) (channels : ℕ) (samples : List S) (idle : s.pushing ≡ none) where
    abbrev frames : ℕ
    frames = length samples / channels

    abbrev block : List (List S)
    block = chunks channels frames samples

    module _ (admitted : Admitted)
        (admission : admit_push is_finite channels s.link samples ≡ ok admitted) where
      granted : Granted is_link frames admitted
      granted = (admit_push_lem is_link is_finite channels samples admitted admission).1

      whole : concat block ≡ samples
      whole = concat-chunks channels frames samples (
          is_multiple_of_lem channels (length samples)
            (admit_push_lem is_link is_finite channels samples admitted admission).0)

      fits : fill + length block ≤ capacity
      fits = omega (arith, granted.enough, length-chunks channels frames samples)

      finished :
          finish_push channels s.link.ring samples admitted
          ≡ ok (record {
            next_write_sequence = s.link.write_sequence + frames;
            fill_after_commit = fill + frames;
          })
      finished = finish_push_lem is_link channels samples admitted granted

      same_link :
          record s.link {
            ring = record s.link.ring { frames = copy_in s.link.ring.frames admitted.slot block };
          }
          ≡ copied_link capacity is_link block fits
      same_link =
          ap
            (λ at. record s.link {
              ring = record s.link.ring { frames = copy_in s.link.ring.frames at block };
            })
            granted.first

      offered-Implements :
          Implements capacity
            (record {
              link = copied_link capacity is_link block fits;
              pushing = some (record {
                next_write_sequence = s.link.write_sequence + frames;
                fill_after_commit = fill + frames;
              });
              reading = s.reading;
            })
            (record b { offered = some block })
      offered-Implements = record {
        fill = fill;
        is_link = copied-IsLink capacity is_link block fits;
        queued = queued ∙ sym (copied-queue capacity is_link block fits);
        offered = (
          ap (λ n. s.link.write_sequence + n) (sym (length-chunks channels frames samples)),
          fits,
          copied-block capacity is_link block fits,
        );
        held = held;
      }

      -- The block is offered as the samples that were given.
      offer-Simulated :
          (p : PreparedPush) (link : Link S)
          → record {
            next_write_sequence = s.link.write_sequence + frames;
            fill_after_commit = fill + frames;
          }
            ≡ p
          → copied_link capacity is_link block fits ≡ link
          → Simulated capacity b (offers samples) (record s { link = link; pushing = some p })
      offer-Simulated p link same_push same = (
        record b { offered = some block },
        subst (λ l. Move capacity b (offers l) (record b { offered = some block })) whole
            (offer block (not_offered idle) (
              omega (
                arith,
                fits,
                ap length queued,
                length-window capacity s.link.ring.frames s.link.read_sequence fill,
              ))),
        rw (← same_push, ← same) offered-Implements,
      )

    after_admission-prepared :
        (r : Result RingPushError Admitted) (p : PreparedPush) (link : Link S)
        → admit_push is_finite channels s.link samples ≡ r
        → after_admission is_finite channels s.link samples r ≡ (ok p, link)
        → Simulated capacity b (offers samples) (record s { link = link; pushing = some p })
    unfolding after_admission
    after_admission-prepared (err e) p link admission h = cc
    after_admission-prepared (ok admitted) p link admission h =
        let outcome = sym (finished admitted admission) ∙ ap (λ o. o.0) h in
        let same_push : record {
          next_write_sequence = s.link.write_sequence + frames;
          fill_after_commit = fill + frames;
        }
            ≡ p =
          cc in
        offer-Simulated admitted admission p link same_push
          (sym (same_link admitted admission) ∙ ap (λ o. o.1) h)

    after_admission-refused :
        (r : Result RingPushError Admitted) (e : RingPushError) (link : Link S)
        → admit_push is_finite channels s.link samples ≡ r
        → after_admission is_finite channels s.link samples r ≡ (err e, link)
        → Simulated capacity b (refuses e) (record s { link = link })
    unfolding after_admission
    after_admission-refused (err e) e' link admission h = (
      b,
      refuse e',
      rw (← ap (λ o. o.1) h) (record {
        fill = fill;
        is_link = is_link;
        queued = queued;
        offered = offered;
        held = held;
      }),
    )
    after_admission-refused (ok admitted) e' link admission h =
        let gone : ok _ ≡ err e' = sym (finished admitted admission) ∙ ap (λ o. o.0) h in
        absurd (cc)

  offered_block :
      (pushing : Option PreparedPush) (o : Option (List (List S))) (p : PreparedPush)
      → IsOffered capacity fill s.link pushing o
      → pushing ≡ some p
      → (block : List (List S)) × (o ≡ some block)
        × (p.next_write_sequence ≡ s.link.write_sequence + length block)
        × (fill + length block ≤ capacity)
        × (window capacity s.link.ring.frames s.link.write_sequence (length block) ≡ block)
  offered_block none o p is e = cc
  offered_block (some q) none p is e = absurd is
  offered_block (some q) (some block) p is e =
      let same : q ≡ p = cc in (block, refl, rw (← same) is.0, is.1, is.2)

  IsHeld-longer :
      (n : ℕ) (link : Link S) (reading : Option PreparedRead) (k : Option ℕ)
      → link.read_sequence ≡ s.link.read_sequence
      → IsHeld capacity fill s.link reading k
      → IsHeld capacity (fill + n) link reading k
  IsHeld-longer n link none none e is = tt
  IsHeld-longer n link none (some k) e is = is
  IsHeld-longer n link (some r) none e is = is
  IsHeld-longer n link (some r) (some k) e is = (omega (arith, is.0, e), omega (arith, is.1))

  pub committed-Simulated :
      (p : PreparedPush)
      → s.pushing ≡ some p
      → Simulated capacity b publishes (record s { link = commit_push p s.link; pushing = none })
  unfolding commit_push
  committed-Simulated p busy =
      let (block, is_offered, next, fits, written) =
        offered_block s.pushing b.offered p offered busy in
      (
        record b { queue = b.queue ++ block; offered = none },
        publish block is_offered,
        record {
          fill = fill + length block;
          is_link = record {
            room = is_link.room;
            fits = is_link.fits;
            full = is_link.full;
            sized = is_link.sized;
            published_write = refl;
            published_read = is_link.published_read;
            filled = omega (arith, next, is_link.filled);
            bounded = fits;
          };
          queued =
              ap₂ ◌++◌ queued (
                sym written
                ∙ ap (λ w. window capacity s.link.ring.frames w (length block)) is_link.filled)
              ∙ sym (
                  window-append capacity s.link.ring.frames s.link.read_sequence fill
                    (length block));
          offered = tt;
          held = IsHeld-longer (length block) (commit_push p s.link) s.reading b.held refl held;
        },
      )

  pub push_dropped-Simulated : Simulated capacity b withdraws (record s { pushing = none })
  push_dropped-Simulated = (
    record b { offered = none },
    withdraw,
    record { fill = fill; is_link = is_link; queued = queued; offered = tt; held = held },
  )

  module _ (is_finite : S → Bool) (channels : ℕ) (samples : List S) (idle : s.pushing ≡ none) where
    pub prepared-Simulated :
        (p : PreparedPush) (link : Link S)
        → prepare_push is_finite channels s.link samples ≡ (ok p, link)
        → Simulated capacity b (offers samples) (record s { link = link; pushing = some p })
    unfolding prepare_push
    prepared-Simulated p link h =
        after_admission-prepared is_finite channels samples idle
          (admit_push is_finite channels s.link samples) p link refl h

    pub refused-Simulated :
        (e : RingPushError) (link : Link S)
        → prepare_push is_finite channels s.link samples ≡ (err e, link)
        → Simulated capacity b (refuses e) (record s { link = link })
    unfolding prepare_push
    refused-Simulated e link h =
        after_admission-refused is_finite channels samples idle
          (admit_push is_finite channels s.link samples) e link refl h
