-- ===== src/Platform/Ring/Spec.antt =====
-- What the ring is for: a queue of frames of bounded length. The producer offers a block and then
-- publishes or withdraws it; the consumer looks at the first frames and then consumes or keeps them.
use libre_wave.Common.{ℕ, ◌+◌, ◌≤◌, ◌≡◌, List, ◌++◌, Option, none, some, length, take, drop}
use libre_wave.Platform.Ring.{RingPushError, RingPeekError, concat}

pub record Buffer (S : Type 0) : Type 0 where
  pub queue : List (List S)
  pub offered : Option (List (List S))
  pub held : Option ℕ

-- What a step shows to the two owners.
pub data Label (S : Type 0) : Type 0 where
  offers : (samples : List S) → Label S
  refuses : RingPushError → Label S
  publishes withdraws : Label S
  peeks : (output : List S) → Label S
  lacks : RingPeekError → Label S
  consumes keeps : Label S

pub data Move {S : Type 0} (capacity : ℕ) (b : Buffer S) : Label S → Buffer S → Type 0 where
  offer :
      (block : List (List S))
      → b.offered ≡ none
      → length b.queue + length block ≤ capacity
      → Move capacity b (offers (concat block)) (record b { offered = some block })
  refuse : (e : RingPushError) → Move capacity b (refuses e) b
  publish :
      (block : List (List S))
      → b.offered ≡ some block
      → Move capacity b publishes (record b { queue = b.queue ++ block; offered = none })
  withdraw : Move capacity b withdraws (record b { offered = none })
  peek :
      (n : ℕ)
      → b.held ≡ none
      → n ≤ length b.queue
      → Move capacity b (peeks (concat (take n b.queue))) (record b { held = some n })
  lack : (e : RingPeekError) → Move capacity b (lacks e) b
  consume :
      (n : ℕ)
      → b.held ≡ some n
      → Move capacity b consumes (record b { queue = drop n b.queue; held = none })
  keep : Move capacity b keeps (record b { held = none })
