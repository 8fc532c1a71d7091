-- ===== src/Engine/Staging.antt =====
-- crates/librewave-engine/src/transfer.rs: the calls of the control side and of the audio thread, each
-- taken alone. The slot is that of Engine/Handoff, with compiled controls in it.
pub mod Served
use libre_wave.Common.{ℕ, List, [], ◌∷◌, Option, none, some, Result, ok, err}
use libre_wave.Core.Mixer.{FaderGain, SourceControls, OutputControls}
use libre_wave.Engine.Config.{MixerConfig}
use libre_wave.Engine.Controls.{
  ControlMappingError, StageError, controls, ControlSnapshot, empty_snapshot, compile_snapshot,
}
use libre_wave.Engine.Handoff.{
  SlotState, empty, Producer, Consumer, copied, Slot, reserve, write, load, copy, release, new,
  commit_slot, cancel_slot, run,
}

-- What a call of the control side returns, and the slot
abbrev pub Staged : Type 0 → Type 0
Staged R = Result StageError (Unit {0}) × Slot (ControlSnapshot R)

module _ {R : Type 0} where
  -- The consumer copies the value and leaves it in the slot.
  abbrev pub keep : ControlSnapshot R → ControlSnapshot R
  keep value = value

  -- The exchange of `try_prepare` and the write that follows if it succeeds.
  abbrev pub exchanged : ControlSnapshot R → SlotState → Slot (ControlSnapshot R) → Staged R
  exchanged snapshot empty s = (ok tt, run keep (reserve snapshot ∷ write ∷ []) s)
  exchanged snapshot _ s = (err StageError.full, run keep (reserve snapshot ∷ []) s)

  -- `try_prepare` from the compiled controls on
  abbrev pub reserved_for :
      Result ControlMappingError (ControlSnapshot R) → Slot (ControlSnapshot R) → Staged R
  reserved_for (err e) s = (err (controls e), s)
  reserved_for (ok snapshot) s = exchanged snapshot s.state s

  -- `try_prepare(..)?.commit()`
  abbrev pub published : Staged R → Staged R
  published (err e, s) = (err e, s)
  published (ok _, s) = (ok tt, commit_slot s.producer s)

  -- `Drop for PreparedControls` of a transaction that was not committed
  unfoldable pub cancelled : Slot (ControlSnapshot R) → Slot (ControlSnapshot R)
  unfolding cancel_slot
  cancelled s = cancel_slot s.producer s

  abbrev pub in_hand : Consumer (ControlSnapshot R) → Option (ControlSnapshot R)
  in_hand (copied snapshot) = some snapshot
  in_hand _ = none

  -- `ControlConsumer::take`
  unfoldable pub take_controls :
      Slot (ControlSnapshot R) → Option (ControlSnapshot R) × Slot (ControlSnapshot R)
  unfolding run
  take_controls s =
      (in_hand (run keep (load ∷ copy ∷ []) s).consumer, run keep (load ∷ copy ∷ release ∷ []) s)

module _ {R : Type 0} (silence : R) (power : FaderGain → R) where
  -- The slot that `ControlConsumer::channel` makes
  unfoldable pub control_channel : Slot (ControlSnapshot R)
  unfolding new
  control_channel = new (empty_snapshot silence power)

module _ {R : Type 0} (silence : R) (power : FaderGain → R) (config : MixerConfig) where
  unfoldable pub try_prepare :
      List SourceControls → OutputControls → Slot (ControlSnapshot R) → Staged R
  unfolding compile_snapshot run
  try_prepare list outputs s = reserved_for (compile_snapshot silence power config list outputs) s

  unfoldable pub try_stage :
      List SourceControls → OutputControls → Slot (ControlSnapshot R) → Staged R
  unfolding try_prepare commit_slot
  try_stage list outputs s = published (try_prepare list outputs s)
