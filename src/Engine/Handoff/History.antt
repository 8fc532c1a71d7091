-- ===== src/Engine/Handoff/History.antt =====
-- What holds of the slot after any actions of its two sides.
use mathlib.Core.List.{append-nil}
use libre_wave.Common.{arith, ◌≡◌, refl, List, [], ◌∷◌, ◌++◌}
use libre_wave.Engine.Handoff.{
  SlotState, empty, writing, full, Producer, reserved, prepared, Consumer, copied, Slot, Action,
  release, new, reserve_slot, write_slot, commit_slot, cancel_slot, load_slot, copy_slot,
  release_slot, act, run,
}

module _ {V : Type 0} where
  -- The published value that the consumer has not handed on.
  abbrev pub pending : SlotState → Consumer V → V → List V
  pending full (copied v) value = v ∷ []
  pending full _ value = value ∷ []
  pending _ _ value = []

  -- Which positions of the two sides go together: only one of them is at the value.
  abbrev pub Allowed : SlotState → Producer V → Consumer V → V → Type 0
  Allowed empty Producer.idle Consumer.idle value = Unit
  Allowed writing (reserved v) Consumer.idle value = Unit
  Allowed writing (prepared v) Consumer.idle value = value ≡ v
  Allowed full Producer.idle consumer value = Unit
  Allowed _ _ _ value = ⊥

  pub record IsCoherent (s : Slot V) : Type 0 where
    pub allowed : Allowed s.state s.producer s.consumer s.value
    pub history : s.committed ≡ s.taken ++ pending s.state s.consumer s.value

  -- What a consumer has in its hand.
  abbrev in_hand : Consumer V → V → V
  in_hand (copied v) value = v
  in_hand _ value = value

  act-IsCoherent :
      (leave : V → V) (a : Action V) (s : Slot V) → IsCoherent s → IsCoherent (act leave a s)
  unfolding act reserve_slot write_slot commit_slot cancel_slot load_slot copy_slot release_slot
  act-IsCoherent leave release s c = ground (arith, released s.consumer)
    where
      released :
          (k : Consumer V)
          → (s.taken ++ (in_hand k s.value ∷ [])) ++ [] ≡ s.taken ++ (in_hand k s.value ∷ [])
      released k = append-nil (s.taken ++ (in_hand k s.value ∷ []))
  act-IsCoherent leave a s c = ground (arith, append-nil s.taken)

  run-IsCoherent_from :
      (leave : V → V) (actions : List (Action V)) (s : Slot V)
      → IsCoherent s
      → IsCoherent (run leave actions s)
  unfolding run
  run-IsCoherent_from leave [] s c = c
  run-IsCoherent_from leave (a ∷ rest) s c =
      run-IsCoherent_from leave rest (act leave a s) (act-IsCoherent leave a s c)

  new-IsCoherent : (value : V) → IsCoherent (new value)
  unfolding new
  new-IsCoherent value = record { allowed = tt; history = refl }

  -- After any interleaving of the accesses of the two sides, at most one of them is at the value: the
  -- producer while the state is `writing`, the consumer while it is `full`. And the values that were
  -- committed are those that the consumer has handed on, in the same order, and then at most one that is
  -- published and still waits: none is lost, repeated, overwritten or torn.
  pub run-IsCoherent :
      (leave : V → V) (actions : List (Action V)) (value : V)
      → IsCoherent (run leave actions (new value))
  run-IsCoherent leave actions value =
      run-IsCoherent_from leave actions (new value) (new-IsCoherent value)
