-- ===== src/Platform/Lifecycle/Willing.antt =====
-- Recovery over a host that serves every call.
use libre_wave.Common.{
  ◌<◌, ◌≡◌, refl, Bool, true, false, not, ◌||◌, ◌==◌, some, Result, ok, err, arith,
}
use libre_wave.Platform.Candidate.{UsbDeviceCandidate, deliberate_endpoints}
use libre_wave.Platform.Lifecycle.{
  AudioHost, Gate, DegradedState, LifecycleState, degraded, ready, host_restarted,
  hidden_physical_nodes, CaptureObservation, CaptureConsumption, capture_consumption,
  AudioLifecycle, Outcome, and_then, run_host_step, after_step, teardown, after_teardown,
}
use libre_wave.Platform.Lifecycle.Start.{
  restore_routes, prepare, publish, after_observation, after_capture, after_admission, attempt,
  with_candidate, is_ready, start, is_empty, torn_down, recover_after_host_restart,
}
use libre_wave.Platform.Lifecycle.Reports.{in_state}

-- A host and a gate that serve every call for the candidate `c`, with a capture that makes progress.
pub record IsWilling {W E : Type 0} (h : AudioHost W E) (gate : Gate W E) (c : UsbDeviceCandidate)
    : Type 0 where
  pub verifies : (w : W) → (h.verify_physical_nodes_hidden c hidden_physical_nodes w).0 ≡ ok tt
  pub admits : (w : W) → (gate c w).0 ≡ ok tt
  pub captures : (w : W) → (h.start_capture (record { candidate = c }) w).0 ≡ ok capture_consumption
  pub observes :
      (w : W)
      → (o : CaptureObservation) × ((h.observe_capture c capture_consumption w).0 ≡ ok o)
        × (o.active ≡ true)
        × (0 < o.frames_consumed)
  pub prepares : (w : W) → (h.prepare_playback c w).0 ≡ ok tt
  pub publishes : (w : W) → (h.publish_endpoints c deliberate_endpoints w).0 ≡ ok tt
  pub restores : (w : W) → (h.restore_software_routing c w).0 ≡ ok tt
  pub tears_down : (w : W) → (h.teardown w).0 ≡ ok tt

-- An operation has succeeded, and left the lifecycle ready.
abbrev pub IsReady : {W E : Type 0} → Outcome W E → Type 0
IsReady (r, l, w) = (r ≡ ok tt) × (l ≡ in_state ready false)

module _ {W E : Type 0} (h : AudioHost W E) (gate : Gate W E) (c : UsbDeviceCandidate)
    (willing : IsWilling h gate c) where
  open willing use {verifies, admits, captures, observes, prepares, publishes, restores, tears_down}

  after_step_ok :
      (s : DegradedState) (l : AudioLifecycle) (r : Result E (Unit {0}) × W)
      (next : AudioLifecycle → W → Outcome W E)
      → r.0 ≡ ok tt
      → ((w : W) → IsReady (next l w))
      → IsReady (and_then (after_step h s l r) next)
  unfolding after_step and_then
  after_step_ok s l (ok _, w) next e rest = rest w
  after_step_ok s l (err _, w) next e rest = cc

  module _ (q : LifecycleState) where
    restore_routes-IsReady : (w : W) → IsReady (restore_routes h c (in_state q false) w)
    unfolding restore_routes run_host_step
    restore_routes-IsReady w =
        after_step_ok _ (in_state q false) (h.restore_software_routing c w)
          (λ l w. (ok tt, record l { state = ready }, w)) (restores w) λ w. (refl, refl)

    publish-IsReady : (w : W) → IsReady (publish h c (in_state q false) w)
    unfolding publish run_host_step
    publish-IsReady w =
        after_step_ok _ (in_state q false) (h.publish_endpoints c deliberate_endpoints w)
          (restore_routes h c) (publishes w) restore_routes-IsReady

    prepare-IsReady : (w : W) → IsReady (prepare h c (in_state q false) w)
    unfolding prepare run_host_step
    prepare-IsReady w =
        after_step_ok _ (in_state q false) (h.prepare_playback c w) (publish h c) (prepares w)
          publish-IsReady

    after_observation-IsReady :
        (o : CaptureObservation) (r : Result E CaptureObservation × W)
        → r.0 ≡ ok o
        → o.active ≡ true
        → 0 < o.frames_consumed
        → IsReady (after_observation h c (in_state q false) r)
    unfolding after_observation
    after_observation-IsReady o (err _, w) e active frames = cc
    after_observation-IsReady o (ok seen, w) e active frames =
        let same : seen ≡ o = cc in
        let flows : (not seen.active || (seen.frames_consumed == 0)) ≡ false =
          rw (same, active) (ground arith) in
        rw flows (prepare-IsReady w)

    after_capture-IsReady :
        (r : Result E CaptureConsumption × W)
        → r.0 ≡ ok capture_consumption
        → IsReady (after_capture h c (in_state q false) r)
    unfolding after_capture
    after_capture-IsReady (err _, w) e = cc
    after_capture-IsReady (ok capture_consumption, w) e =
        let (o, seen, active, frames) = observes w in
        after_observation-IsReady o (h.observe_capture c capture_consumption w) seen active frames

    after_admission-IsReady :
        (r : Result E (Unit {0}) × W)
        → r.0 ≡ ok tt
        → IsReady (after_admission h c (in_state q false) r)
    unfolding after_admission
    after_admission-IsReady (err _, w) e = cc
    after_admission-IsReady (ok _, w) e =
        after_capture-IsReady (h.start_capture (record { candidate = c }) w) (captures w)

    attempt-IsReady : (w : W) → IsReady (attempt h gate c (in_state q false) w)
    unfolding attempt run_host_step
    attempt-IsReady w =
        after_step_ok _ (in_state q false)
          (h.verify_physical_nodes_hidden c hidden_physical_nodes w)
          (λ l w. after_admission h c l (gate c w)) (verifies w)
          (λ w. after_admission-IsReady (gate c w) (admits w))

  restart-IsReady :
      (w : W)
      → is_empty c.alsa_cards ≡ false
      → IsReady (start h gate (in_state (degraded host_restarted) true) (some c) w)
  unfolding start with_candidate is_ready
  restart-IsReady w cards = rw cards (attempt-IsReady (degraded host_restarted) w)

  after_teardown-IsReady :
      (q : LifecycleState) (r : Result E (Unit {0}) × W)
      → r.0 ≡ ok tt
      → is_empty c.alsa_cards ≡ false
      → IsReady (
          and_then
            (after_teardown (in_state q false) r)
            (λ l w. start h gate (record l { state = degraded host_restarted }) (some c) w))
  unfolding after_teardown and_then
  after_teardown-IsReady q (ok _, w) e cards = restart-IsReady w cards
  after_teardown-IsReady q (err _, w) e cards = cc

  recover-IsReady_of :
      (q : LifecycleState) (done : Bool) (w : W)
      → is_empty c.alsa_cards ≡ false
      → IsReady (recover_after_host_restart h gate (in_state q done) (some c) w)
  unfolding recover_after_host_restart torn_down and_then teardown
  recover-IsReady_of q true w cards = restart-IsReady w cards
  recover-IsReady_of q false w cards = after_teardown-IsReady q (h.teardown w) (tears_down w) cards

  -- If the host and the gate serve every call for a candidate with a card, and the capture makes progress,
  -- then recovery succeeds from every lifecycle whatever, a failed cleanup included, and leaves it ready.
  pub recover-IsReady :
      (l : AudioLifecycle) (w : W)
      → is_empty c.alsa_cards ≡ false
      → IsReady (recover_after_host_restart h gate l (some c) w)
  recover-IsReady l w cards = recover-IsReady_of l.state l.cleanup_complete w cards
