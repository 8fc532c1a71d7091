-- ===== src/Platform/Lifecycle/Start.antt =====
-- crates/librewave-platform-linux/src/audio_lifecycle.rs: `start`, and recovery and disconnection, which
-- use it.
use libre_wave.Common.{
  List, [], Bool, true, false, not, ◌||◌, ◌==◌, if◌then◌else◌, Option, none, some, Result, ok, err,
}
use libre_wave.Platform.Candidate.{UsbDeviceCandidate, AlsaCardInfo, deliberate_endpoints}
use libre_wave.Platform.Lifecycle.{
  CaptureConsumption, CaptureObservation, AudioHost, Gate, hidden_physical_nodes, LifecycleState,
  ready, degraded, no_admitted_device, device_admission_failed, physical_device_unavailable,
  physical_nodes_exposed, capture_start_failed, capture_not_confirmed, playback_prepare_failed,
  endpoint_publication_failed, routing_restore_failed, host_restarted, device_disconnected,
  unavailable, already_active, AudioLifecycle, Outcome, and_then, host_failure, fail, run_host_step,
  teardown,
}

unfoldable pub is_ready : LifecycleState → Bool
is_ready ready = true
is_ready _ = false

unfoldable pub is_empty : List AlsaCardInfo → Bool
is_empty [] = true
is_empty _ = false

module _ {W E : Type 0} where
  -- The last step of `start`.
  unfoldable pub restore_routes :
      AudioHost W E → UsbDeviceCandidate → AudioLifecycle → W → Outcome W E
  unfolding and_then run_host_step
  restore_routes h candidate l w =
      and_then (run_host_step h routing_restore_failed (h.restore_software_routing candidate) l w)
        (λ l w. (ok tt, record l { state = ready }, w))

  -- `start` from the publication of the endpoints on
  unfoldable pub publish : AudioHost W E → UsbDeviceCandidate → AudioLifecycle → W → Outcome W E
  unfolding and_then run_host_step restore_routes deliberate_endpoints
  publish h candidate l w =
      and_then
        (run_host_step h endpoint_publication_failed
          (h.publish_endpoints candidate deliberate_endpoints) l w)
        (restore_routes h candidate)

  -- `start` from the confirmed capture on
  unfoldable pub prepare : AudioHost W E → UsbDeviceCandidate → AudioLifecycle → W → Outcome W E
  unfolding and_then run_host_step publish
  prepare h candidate l w =
      and_then (run_host_step h playback_prepare_failed (h.prepare_playback candidate) l w)
        (publish h candidate)

  unfoldable pub after_observation :
      AudioHost W E
      → UsbDeviceCandidate
      → AudioLifecycle
      → Result E CaptureObservation × W
      → Outcome W E
  unfolding fail host_failure prepare
  after_observation h candidate l (err source, w) = host_failure h capture_not_confirmed source l w
  after_observation h candidate l (ok observation, w) =
      if not observation.active || (observation.frames_consumed == 0)
      then fail h capture_not_confirmed l w
      else prepare h candidate l w

  unfoldable pub after_capture :
      AudioHost W E
      → UsbDeviceCandidate
      → AudioLifecycle
      → Result E CaptureConsumption × W
      → Outcome W E
  unfolding host_failure after_observation
  after_capture h candidate l (err source, w) = host_failure h capture_start_failed source l w
  after_capture h candidate l (ok handle, w) =
      after_observation h candidate l (h.observe_capture candidate handle w)

  unfoldable pub after_admission :
      AudioHost W E → UsbDeviceCandidate → AudioLifecycle → Result E (Unit {0}) × W → Outcome W E
  unfolding host_failure after_capture
  after_admission h candidate l (err source, w) = host_failure h device_admission_failed source l w
  after_admission h candidate l (ok _, w) =
      after_capture h candidate l (h.start_capture (record { candidate = candidate }) w)

  -- `start` from the reset of `cleanup_complete` on
  unfoldable pub attempt :
      AudioHost W E → Gate W E → UsbDeviceCandidate → AudioLifecycle → W → Outcome W E
  unfolding and_then run_host_step after_admission hidden_physical_nodes
  attempt h gate candidate l w =
      and_then
        (run_host_step h physical_nodes_exposed
          (h.verify_physical_nodes_hidden candidate hidden_physical_nodes) l w)
        λ l w. after_admission h candidate l (gate candidate w)

  unfoldable pub with_candidate :
      AudioHost W E → Gate W E → AudioLifecycle → Option UsbDeviceCandidate → W → Outcome W E
  unfolding attempt is_empty
  with_candidate h gate l none w =
      (err (unavailable no_admitted_device), record l { state = degraded no_admitted_device }, w)
  with_candidate h gate l (some candidate) w =
      if is_empty candidate.alsa_cards
      then (
        err (unavailable physical_device_unavailable),
        record l { state = degraded physical_device_unavailable },
        w,
      )
      else attempt h gate candidate (record l { cleanup_complete = false }) w

  unfoldable pub start :
      AudioHost W E → Gate W E → AudioLifecycle → Option UsbDeviceCandidate → W → Outcome W E
  unfolding with_candidate is_ready
  start h gate l candidate w =
      if not l.cleanup_complete
      then (err already_active, l, w)
      else if is_ready l.state
      then (err already_active, l, w)
      else with_candidate h gate l candidate w

  -- `if !self.cleanup_complete { self.teardown(h)?; }`
  unfoldable pub torn_down : AudioHost W E → AudioLifecycle → W → Outcome W E
  unfolding teardown
  torn_down h l w = if not l.cleanup_complete then teardown h l w else (ok tt, l, w)

  unfoldable pub recover_after_host_restart :
      AudioHost W E → Gate W E → AudioLifecycle → Option UsbDeviceCandidate → W → Outcome W E
  unfolding and_then torn_down start
  recover_after_host_restart h gate l candidate w =
      and_then (torn_down h l w)
        λ l w. start h gate (record l { state = degraded host_restarted }) candidate w

  unfoldable pub handle_device_disconnect : AudioHost W E → AudioLifecycle → W → Outcome W E
  unfolding and_then torn_down
  handle_device_disconnect h l w =
      and_then (torn_down h l w)
        λ l w. (ok tt, record l { state = degraded device_disconnected }, w)
