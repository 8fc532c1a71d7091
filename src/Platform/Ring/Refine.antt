-- ===== src/Platform/Ring/Refine.antt =====
-- The ring refines the bounded queue of Ring/Spec, over any interleaving of its two owners.
use libre_wave.Common.{
  ap, ℕ, zero, suc, ◌<◌, ◌≡◌, refl, Bool, List, [], ◌∷◌, none, ok, length, replicate, arith,
}
use libre_wave.Common.Bytes.{usize_mod}
use libre_wave.Platform.Ring.{Ring, channel}
use libre_wave.Platform.Ring.Spec.{Buffer, Label, Move}
use libre_wave.Platform.Ring.System.{
  System, Step, prepared, refused, committed, push_dropped, peeked, lacking, consumed, read_dropped,
  Implements,
}
use libre_wave.Platform.Ring.System.Push.{
  prepared-Simulated, refused-Simulated, committed-Simulated, push_dropped-Simulated,
}
use libre_wave.Platform.Ring.System.Read.{
  peeked-Simulated, lacking-Simulated, consumed-Simulated, read_dropped-Simulated,
}

module _ {S : Type 0} (is_finite : S → Bool) (channels : ℕ) where
  -- Whatever the producer or the consumer does next, the ring goes on standing for a queue, and the queue
  -- makes a move with the same label: a block that is prepared is offered whole, a commit appends it to
  -- the queue, a peek shows the first frames of the queue in order, and its commit removes them.
  pub Step-Simulated :
      {capacity : ℕ} {s s' : System S} {b : Buffer S} {label : Label S}
      → Implements capacity s b
      → Step is_finite channels s label s'
      → (b' : Buffer S) × Move capacity b label b' × Implements capacity s' b'
  Step-Simulated i (prepared samples p link idle h) =
      prepared-Simulated i is_finite channels samples idle p link h
  Step-Simulated i (refused samples e link idle h) =
      refused-Simulated i is_finite channels samples idle e link h
  Step-Simulated i (committed p busy) = committed-Simulated i p busy
  Step-Simulated i push_dropped = push_dropped-Simulated i
  Step-Simulated i (peeked buffer output p idle h) =
      peeked-Simulated i channels buffer idle p output h
  Step-Simulated i (lacking buffer output e idle h) = lacking-Simulated i e
  Step-Simulated i (consumed p busy) = consumed-Simulated i p busy
  Step-Simulated i read_dropped = read_dropped-Simulated i

  -- Steps in any order, with what they show.
  pub data Run (s : System S) : List (Label S) → System S → Type 0 where
    start : Run s [] s
    later :
        {labels : List (Label S)} {t u : System S} {label : Label S}
        → Run s labels t
        → Step is_finite channels t label u
        → Run s (label ∷ labels) u

module _ {S : Type 0} (capacity : ℕ) where
  pub data Moves (b : Buffer S) : List (Label S) → Buffer S → Type 0 where
    stay : Moves b [] b
    move :
        {labels : List (Label S)} {c d : Buffer S} {label : Label S}
        → Moves b labels c
        → Move capacity c label d
        → Moves b (label ∷ labels) d

length-replicate : {A : Type 0} (n : ℕ) (a : A) → length (replicate n a) ≡ n
length-replicate zero a = refl
length-replicate (suc n) a = ap suc (length-replicate n a)

module _ {S : Type 0} where
  -- The ring of a new channel, with the cursors of its owners.
  abbrev pub fresh : Ring S → System S
  fresh ring = record {
    link = record { ring = ring; write_sequence = 0; read_sequence = 0 };
    pushing = none;
    reading = none;
  }

  abbrev pub empty : Buffer S
  empty = record { queue = []; offered = none; held = none }

  channel_lem :
      (silence : S) (allocates : ℕ → Bool) (channels capacity : ℕ) (ring : Ring S)
      → channel silence allocates channels capacity ≡ ok ring
      → (0 < capacity)
        × (capacity < usize_mod)
        × (ring ≡ record {
          frames = replicate capacity (replicate channels silence);
          capacity_sequence = capacity;
          published_write_sequence = 0;
          published_read_sequence = 0;
        })
  unfolding channel
  channel_lem silence allocates channels capacity ring h = ground arith

  channel-Implements :
      (silence : S) (allocates : ℕ → Bool) (channels capacity : ℕ) (ring : Ring S)
      → channel silence allocates channels capacity ≡ ok ring
      → Implements capacity (fresh ring) empty
  channel-Implements silence allocates channels capacity ring h =
      let (room, fits, same) = channel_lem silence allocates channels capacity ring h in
      rw same (record {
        fill = 0;
        is_link = record {
          room = room;
          fits = fits;
          full = length-replicate capacity (replicate channels silence);
          sized = refl;
          published_write = refl;
          published_read = refl;
          filled = omega arith;
          bounded = omega arith;
        };
        queued = refl;
        offered = tt;
        held = tt;
      })

  -- A new ring, used by its producer and its consumer in any order, behaves as a queue of the capacity
  -- that was asked for: the queue, empty at first, makes moves with the same labels, and at the end the
  -- ring stands for it. So what the consumer reads is what the producer committed, in order and once.
  pub Run-Moves :
      (silence : S) (allocates : ℕ → Bool) (is_finite : S → Bool) (channels capacity : ℕ)
      (ring : Ring S) {labels : List (Label S)} {s : System S}
      → channel silence allocates channels capacity ≡ ok ring
      → Run is_finite channels (fresh ring) labels s
      → (b : Buffer S) × Moves capacity empty labels b × Implements capacity s b
  Run-Moves silence allocates is_finite channels capacity ring made start =
      (empty, stay, channel-Implements silence allocates channels capacity ring made)
  Run-Moves silence allocates is_finite channels capacity ring made (later run step) =
      let (b, moves, i) = Run-Moves silence allocates is_finite channels capacity ring made run in
      let (c, next, j) = Step-Simulated is_finite channels i step in (c, move moves next, j)
