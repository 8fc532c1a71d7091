-- ===== src/Engine/Staging/Served.antt =====
-- What the audio thread is served by the control side of crates/librewave-engine/src/transfer.rs.
use libre_wave.Common.{arith, ◌≡◌, ◌≢◌, ap, ◌∙◌, List, [], ◌∷◌, ◌++◌, none, some, Result, ok, err}
use libre_wave.Core.Mixer.{FaderGain, SourceControls, OutputControls}
use libre_wave.Engine.Config.{MixerConfig}
use libre_wave.Engine.Controls.{
  ControlMappingError, StageError, controls, ControlSnapshot, compile_snapshot,
}
use libre_wave.Engine.Handoff.{
  empty, full, Producer, Consumer, Slot, reserve_slot, write_slot, commit_slot, cancel_slot,
  load_slot, copy_slot, release_slot, act, run,
}
use libre_wave.Engine.Staging.{
  Staged, reserved_for, published, cancelled, take_controls, try_prepare, try_stage,
}

-- Neither side is in the middle of a call, and no transaction is open.
pub record IsAtRest {V : Type 0} (s : Slot V) : Type 0 where
  pub producer_idle : s.producer ≡ Producer.idle
  pub consumer_idle : s.consumer ≡ Consumer.idle

module _ {R : Type 0} where
  refused_full :
      (a : ControlSnapshot R) (s : Slot (ControlSnapshot R))
      → s.state ≢ empty
      → published (reserved_for (ok a) s) ≡ (err StageError.full, s)
  unfolding run act reserve_slot
  refused_full a s n = ground (arith, n)

  nothing_waits :
      (s : Slot (ControlSnapshot R)) → IsAtRest s → s.state ≡ empty → take_controls s ≡ (none, s)
  unfolding take_controls run act load_slot copy_slot release_slot
  nothing_waits s rest e = ground (arith, rest.producer_idle, rest.consumer_idle)

  -- The slot once `a` was staged in it
  abbrev holding : ControlSnapshot R → Slot (ControlSnapshot R) → Slot (ControlSnapshot R)
  holding a s = record s { state = full; value = a; committed = s.committed ++ (a ∷ []) }

  stages :
      (a : ControlSnapshot R) (s : Slot (ControlSnapshot R))
      → IsAtRest s
      → s.state ≡ empty
      → published (reserved_for (ok a) s) ≡ (ok tt, holding a s)
  unfolding run act reserve_slot write_slot commit_slot
  stages a s rest e = ground (arith, rest.producer_idle, rest.consumer_idle)

  takes :
      (a : ControlSnapshot R) (s : Slot (ControlSnapshot R))
      → IsAtRest s
      → take_controls (holding a s)
        ≡ (some a, record (holding a s) { state = empty; taken = s.taken ++ (a ∷ []) })
  unfolding take_controls run act load_slot copy_slot release_slot
  takes a s rest = ground (arith, rest.producer_idle, rest.consumer_idle)

  -- A prepared value is not served, and a cancelled one leaves the slot free.
  prepares :
      (a : ControlSnapshot R) (s : Slot (ControlSnapshot R))
      → IsAtRest s
      → s.state ≡ empty
      → ((reserved_for (ok a) s).0 ≡ ok tt)
        × (take_controls (reserved_for (ok a) s).1 ≡ (none, (reserved_for (ok a) s).1))
        × (cancelled (reserved_for (ok a) s).1 ≡ record s { value = a })
  unfolding take_controls run act reserve_slot write_slot commit_slot load_slot copy_slot
      release_slot cancelled cancel_slot
  prepares a s rest e = (
    ground (arith, rest.producer_idle, rest.consumer_idle),
    ground (arith, rest.producer_idle, rest.consumer_idle),
    ground (arith, rest.producer_idle, rest.consumer_idle),
  )

module _ {R : Type 0} (silence : R) (power : FaderGain → R) (config : MixerConfig) where
  abbrev compile :
      List SourceControls → OutputControls → Result ControlMappingError (ControlSnapshot R)
  compile = compile_snapshot silence power config

  abbrev stage : List SourceControls → OutputControls → Slot (ControlSnapshot R) → Staged R
  stage = try_stage silence power config

  staged_as :
      (list : List SourceControls) (outputs : OutputControls) (s : Slot (ControlSnapshot R))
      {r : Result ControlMappingError (ControlSnapshot R)}
      → compile list outputs ≡ r
      → stage list outputs s ≡ published (reserved_for r s)
  unfolding try_stage try_prepare
  staged_as list outputs s e = ap (λ r. published (reserved_for r s)) e

  -- Staging on a slot, with each call taken alone. Controls that do not compile are refused with the
  -- error of the mapping, and the slot stays. Controls that compile are refused as full while the slot
  -- is not empty, wherever its two sides stand, and the slot stays. On an empty slot at rest they are
  -- accepted: the audio thread then takes these compiled controls, which are the next after those it
  -- has taken before, and the slot is empty again; and until it does, any other controls that compile
  -- are refused as full and change nothing. From an empty slot at rest it takes nothing.
  pub try_stage_lem :
      (list : List SourceControls) (outputs : OutputControls) (s : Slot (ControlSnapshot R))
      → ((e : ControlMappingError)
          → compile list outputs ≡ err e
          → stage list outputs s ≡ (err (controls e), s))
        × ((a : ControlSnapshot R)
            → compile list outputs ≡ ok a
            → s.state ≢ empty
            → stage list outputs s ≡ (err StageError.full, s))
        × ((a : ControlSnapshot R)
            → compile list outputs ≡ ok a
            → IsAtRest s
            → s.state ≡ empty
            → ((stage list outputs s).0 ≡ ok tt)
              × ((take_controls (stage list outputs s).1).0 ≡ some a)
              × ((take_controls (stage list outputs s).1).1 ≡ record s {
                value = a;
                committed = s.committed ++ (a ∷ []);
                taken = s.taken ++ (a ∷ []);
              })
              × ((other : List SourceControls) (others : OutputControls) (b : ControlSnapshot R)
                  → compile other others ≡ ok b
                  → stage other others (stage list outputs s).1
                    ≡ (err StageError.full, (stage list outputs s).1)))
        × (IsAtRest s → s.state ≡ empty → take_controls s ≡ (none, s))
  try_stage_lem list outputs s = (
    λ e c. staged_as list outputs s c,
    λ a c n. staged_as list outputs s c ∙ refused_full a s n,
    λ a c rest e.
        let done : stage list outputs s ≡ (ok tt, holding a s) =
          staged_as list outputs s c ∙ stages a s rest e in
        let taken = ap (λ r. take_controls r.1) done ∙ takes a s rest in
        (
          ap (λ r. r.0) done,
          ap (λ r. r.0) taken,
          ap (λ r. r.1) taken ∙ ground arith,
          λ other others b d.
              staged_as other others (stage list outputs s).1 d
              ∙ refused_full b (stage list outputs s).1 (λ q. ground arith),
        ),
    nothing_waits s,
  )

  -- Preparing controls that compile on an empty slot at rest succeeds. The audio thread takes nothing
  -- while they are only prepared, and if they are dropped, the slot is empty and at rest again.
  pub try_prepare_lem :
      (list : List SourceControls) (outputs : OutputControls) (s : Slot (ControlSnapshot R))
      (a : ControlSnapshot R)
      → compile list outputs ≡ ok a
      → IsAtRest s
      → s.state ≡ empty
      → (let (r, prepared) = try_prepare silence power config list outputs s in
          (r ≡ ok tt)
          × (take_controls prepared ≡ (none, prepared))
          × (cancelled prepared ≡ record s { value = a }))
  unfolding try_prepare
  try_prepare_lem list outputs s a c rest e = rw c (prepares a s rest e)
