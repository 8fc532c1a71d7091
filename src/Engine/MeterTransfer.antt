-- ===== src/Engine/MeterTransfer.antt =====
-- crates/librewave-engine/src/meter_transfer.rs: the slot of Engine/Handoff with meters in it, from the
-- audio thread to a reader. Each call is taken alone here.
use libre_wave.Common.{[], ◌∷◌, Bool, true, false, Option, none, some}
use libre_wave.Engine.Handoff.{
  SlotState, empty, Consumer, copied, Slot, reserve, write, commit, load, copy, release, new, run,
}

abbrev is_free : SlotState → Bool
is_free empty = true
is_free _ = false

module _ {M : Type 0} where
  -- The reader's `take()` leaves nothing behind.
  abbrev pub leave_nothing : Option M → Option M
  leave_nothing value = none

  unfoldable pub meter_channel : Slot (Option M)
  unfolding new
  meter_channel = new none

  abbrev handed : Consumer (Option M) → Option M
  handed (copied value) = value
  handed _ = none

  unfoldable pub try_publish : M → Slot (Option M) → Bool × Slot (Option M)
  unfolding run
  try_publish meters slot =
      (is_free slot.state, run leave_nothing (reserve (some meters) ∷ write ∷ commit ∷ []) slot)

  unfoldable pub try_take : Slot (Option M) → Option M × Slot (Option M)
  unfolding run
  try_take slot = (
    handed (run leave_nothing (load ∷ copy ∷ []) slot).consumer,
    run leave_nothing (load ∷ copy ∷ release ∷ []) slot,
  )
