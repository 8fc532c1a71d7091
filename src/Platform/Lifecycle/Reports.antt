-- ===== src/Platform/Lifecycle/Reports.antt =====
-- What `start` and the operations that use it report, against the state that they leave. The host is any
-- host for which `IsClean` holds of every world that a successful teardown leaves.
use libre_wave.Common.{
  inl, inr, Bool-cases, ◌||◌, ◌==◌, ◌≡◌, refl, Bool, true, false, not, Option, none, some, Result,
  ok, err,
}
use libre_wave.Platform.Candidate.{UsbDeviceCandidate, deliberate_endpoints}
use libre_wave.Platform.Lifecycle.{
  AudioHost, Gate, DegradedState, teardown_failed, LifecycleState, ready, degraded,
  capture_start_failed, capture_not_confirmed, device_admission_failed, physical_nodes_exposed,
  playback_prepare_failed, endpoint_publication_failed, routing_restore_failed,
  hidden_physical_nodes, CaptureObservation, CaptureConsumption, unavailable, already_active, host,
  cleanup, AudioLifecycle, Outcome, and_then, host_failure, fail, run_host_step, after_step,
  teardown, after_teardown, after_host_failure, after_fail,
}
use libre_wave.Platform.Lifecycle.Start.{
  restore_routes, prepare, publish, after_observation, after_capture, after_admission, attempt,
  with_candidate, is_ready, start, is_empty,
}

-- The states in which resources of an attempt may be left.
abbrev pub is_busy : LifecycleState → Bool
is_busy ready = true
is_busy (degraded teardown_failed) = true
is_busy _ = false

-- The cleanup flag agrees with the state, and says the truth of the world.
pub record IsSafe {W : Type 0} (IsClean : W → Type 0) (l : AudioLifecycle) (w : W) : Type 0 where
  pub agrees : l.cleanup_complete ≡ not (is_busy l.state)
  pub clean : l.cleanup_complete ≡ true → IsClean w

-- A degraded state that was cleaned up.
abbrev pub Released : {W : Type 0} → (W → Type 0) → DegradedState → AudioLifecycle → W → Type 0
Released IsClean s l w =
    (l ≡ record { state = degraded s; cleanup_complete = true })
    × (is_busy (degraded s) ≡ false)
    × IsClean w

-- What the result of an operation that started as `before` in the world `w0` says of what it leaves.
abbrev pub Reports : {W E : Type 0} → (W → Type 0) → AudioLifecycle → W → Outcome W E → Type 0
Reports IsClean before w0 (ok _, l, w) = l ≡ record { state = ready; cleanup_complete = false }
Reports IsClean before w0 (err already_active, l, w) = (l ≡ before) × (w ≡ w0)
Reports IsClean before w0 (err (unavailable s), l, w) = Released IsClean s l w
Reports IsClean before w0 (err (host s _), l, w) = Released IsClean s l w
Reports IsClean before w0 (err (cleanup _ _ _), l, w) =
    l ≡ record { state = degraded teardown_failed; cleanup_complete = false }

abbrev pub in_state : LifecycleState → Bool → AudioLifecycle
in_state q done = record { state = q; cleanup_complete = done }

-- While an attempt runs.
abbrev opened : LifecycleState → AudioLifecycle
opened state = record { state = state; cleanup_complete = false }

module _ {W E : Type 0} (IsClean : W → Type 0) (h : AudioHost W E)
    (cleans : (w : W) → (h.teardown w).0 ≡ ok tt → IsClean (h.teardown w).1) where
  after_host_failure-Reports :
      (s : DegradedState) (source : E) (q : LifecycleState) (before : AudioLifecycle) (w0 : W)
      (r : Result E (Unit {0}) × W)
      → (r.0 ≡ ok tt → IsClean r.1)
      → is_busy (degraded s) ≡ false
      → Reports IsClean before w0 (after_host_failure s source (after_teardown (opened q) r))
  unfolding after_host_failure after_teardown
  after_host_failure-Reports s source q before w0 (ok _, w) c calm = (refl, calm, c refl)
  after_host_failure-Reports s source q before w0 (err e, w) c calm = refl

  host_failure-Reports :
      (s : DegradedState) (source : E) (q : LifecycleState) (before : AudioLifecycle) (w0 w : W)
      → is_busy (degraded s) ≡ false
      → Reports IsClean before w0 (host_failure h s source (opened q) w)
  unfolding host_failure teardown
  host_failure-Reports s source q before w0 w calm =
      after_host_failure-Reports s source (degraded s) before w0 (h.teardown w) (cleans w) calm

  after_fail-Reports :
      (s : DegradedState) (q : LifecycleState) (before : AudioLifecycle) (w0 : W)
      (r : Result E (Unit {0}) × W)
      → (r.0 ≡ ok tt → IsClean r.1)
      → is_busy (degraded s) ≡ false
      → Reports IsClean before w0 (after_fail s (after_teardown (opened q) r))
  unfolding after_fail after_teardown
  after_fail-Reports s q before w0 (ok _, w) c calm = (refl, calm, c refl)
  after_fail-Reports s q before w0 (err e, w) c calm = refl

  -- A failed host step ends the chain.
  after_host_failure-and_then :
      (s : DegradedState) (source : E) (q : LifecycleState) (r : Result E (Unit {0}) × W)
      (next : AudioLifecycle → W → Outcome W E)
      → and_then (after_host_failure s source (after_teardown (opened q) r)) next
        ≡ after_host_failure s source (after_teardown (opened q) r)
  unfolding after_host_failure after_teardown and_then
  after_host_failure-and_then s source q (ok _, w) next = refl
  after_host_failure-and_then s source q (err e, w) next = refl

  -- A host step, and what comes after it.
  after_step-Reports :
      (s : DegradedState) (q : LifecycleState) (before : AudioLifecycle) (w0 : W)
      (r : Result E (Unit {0}) × W) (next : AudioLifecycle → W → Outcome W E)
      → is_busy (degraded s) ≡ false
      → ((w : W) → Reports IsClean before w0 (next (opened q) w))
      → Reports IsClean before w0 (and_then (after_step h s (opened q) r) next)
  unfolding after_step and_then host_failure teardown
  after_step-Reports s q before w0 (ok _, w) next calm rest = rest w
  after_step-Reports s q before w0 (err e, w) next calm rest =
      rw (after_host_failure-and_then s e (degraded s) (h.teardown w) next)
        (after_host_failure-Reports s e (degraded s) before w0 (h.teardown w) (cleans w) calm)

  restore_routes-Reports :
      (candidate : UsbDeviceCandidate) (q : LifecycleState) (before : AudioLifecycle) (w0 w : W)
      → Reports IsClean before w0 (restore_routes h candidate (opened q) w)
  unfolding restore_routes run_host_step
  restore_routes-Reports candidate q before w0 w =
      after_step-Reports routing_restore_failed q before w0 (h.restore_software_routing candidate w)
        (λ l w. (ok tt, record l { state = ready }, w)) refl λ w. refl

  publish-Reports :
      (candidate : UsbDeviceCandidate) (q : LifecycleState) (before : AudioLifecycle) (w0 w : W)
      → Reports IsClean before w0 (publish h candidate (opened q) w)
  unfolding publish run_host_step
  publish-Reports candidate q before w0 w =
      after_step-Reports endpoint_publication_failed q before w0
        (h.publish_endpoints candidate deliberate_endpoints w) (restore_routes h candidate) refl
        (restore_routes-Reports candidate q before w0)

  prepare-Reports :
      (candidate : UsbDeviceCandidate) (q : LifecycleState) (before : AudioLifecycle) (w0 w : W)
      → Reports IsClean before w0 (prepare h candidate (opened q) w)
  unfolding prepare run_host_step
  prepare-Reports candidate q before w0 w =
      after_step-Reports playback_prepare_failed q before w0 (h.prepare_playback candidate w)
        (publish h candidate) refl (publish-Reports candidate q before w0)

  after_observation-Reports :
      (candidate : UsbDeviceCandidate) (q : LifecycleState) (before : AudioLifecycle) (w0 : W)
      (r : Result E CaptureObservation × W)
      → Reports IsClean before w0 (after_observation h candidate (opened q) r)
  unfolding after_observation fail teardown
  after_observation-Reports candidate q before w0 (err e, w) =
      host_failure-Reports capture_not_confirmed e q before w0 w refl
  after_observation-Reports candidate q before w0 (ok o, w) =
      elim (Bool-cases (not o.active || (o.frames_consumed == 0))) [
        | inl stuck ↦ rw stuck (
            after_fail-Reports capture_not_confirmed (degraded capture_not_confirmed) before w0
              (h.teardown w) (cleans w) refl)
        | inr flows ↦ rw flows (prepare-Reports candidate q before w0 w)
      ]

  after_capture-Reports :
      (candidate : UsbDeviceCandidate) (q : LifecycleState) (before : AudioLifecycle) (w0 : W)
      (r : Result E CaptureConsumption × W)
      → Reports IsClean before w0 (after_capture h candidate (opened q) r)
  unfolding after_capture
  after_capture-Reports candidate q before w0 (err e, w) =
      host_failure-Reports capture_start_failed e q before w0 w refl
  after_capture-Reports candidate q before w0 (ok handle, w) =
      after_observation-Reports candidate q before w0 (h.observe_capture candidate handle w)

  after_admission-Reports :
      (candidate : UsbDeviceCandidate) (q : LifecycleState) (before : AudioLifecycle) (w0 : W)
      (r : Result E (Unit {0}) × W)
      → Reports IsClean before w0 (after_admission h candidate (opened q) r)
  unfolding after_admission
  after_admission-Reports candidate q before w0 (err e, w) =
      host_failure-Reports device_admission_failed e q before w0 w refl
  after_admission-Reports candidate q before w0 (ok _, w) =
      after_capture-Reports candidate q before w0
        (h.start_capture (record { candidate = candidate }) w)

  attempt-Reports :
      (gate : Gate W E) (candidate : UsbDeviceCandidate) (q : LifecycleState)
      (before : AudioLifecycle) (w0 w : W)
      → Reports IsClean before w0 (attempt h gate candidate (opened q) w)
  unfolding attempt run_host_step
  attempt-Reports gate candidate q before w0 w =
      after_step-Reports physical_nodes_exposed q before w0
        (h.verify_physical_nodes_hidden candidate hidden_physical_nodes w)
        (λ l w. after_admission h candidate l (gate candidate w)) refl
        (λ w. after_admission-Reports candidate q before w0 (gate candidate w))

  pub with_candidate-Reports :
      (gate : Gate W E) (q : LifecycleState) (candidate : Option UsbDeviceCandidate)
      (before : AudioLifecycle) (w0 w : W)
      → IsClean w
      → Reports IsClean before w0 (with_candidate h gate (in_state q true) candidate w)
  unfolding with_candidate
  with_candidate-Reports gate q none before w0 w clean = (refl, refl, clean)
  with_candidate-Reports gate q (some candidate) before w0 w clean =
      elim (Bool-cases (is_empty candidate.alsa_cards)) [
        | inl bare ↦ rw bare (refl, refl, clean)
        | inr cards ↦ rw cards (attempt-Reports gate candidate q before w0 w)
      ]

  start-Reports_of :
      (gate : Gate W E) (q : LifecycleState) (done : Bool) (candidate : Option UsbDeviceCandidate)
      (w : W)
      → (done ≡ true → IsClean w)
      → Reports IsClean (in_state q done) w (start h gate (in_state q done) candidate w)
  unfolding start
  start-Reports_of gate q false candidate w clean = (refl, refl)
  start-Reports_of gate q true candidate w clean = elim (Bool-cases (is_ready q)) [
    | inl up ↦ rw up (refl, refl)
    | inr down ↦
        rw down (with_candidate-Reports gate q candidate (in_state q true) w w (clean refl))
  ]

  -- From a safe lifecycle, `start` reports the truth: success leaves it ready; a refusal because a graph is
  -- active leaves the lifecycle and the world as they were; unavailability and a host failure leave the
  -- reported degraded state, cleaned up, in a clean world; and a failed cleanup leaves `teardown_failed`
  -- with the cleanup still due.
  pub start-Reports :
      (gate : Gate W E) (l : AudioLifecycle) (candidate : Option UsbDeviceCandidate) (w : W)
      → IsSafe IsClean l w
      → Reports IsClean l w (start h gate l candidate w)
  start-Reports gate l candidate w safe =
      start-Reports_of gate l.state l.cleanup_complete candidate w safe.clean
