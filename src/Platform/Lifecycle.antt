-- ===== src/Platform/Lifecycle.antt =====
-- crates/librewave-platform-linux/src/audio_lifecycle.rs: the coordinator that starts and stops the audio
-- graph. The host and the admission gate are parameters that act on one world `W`.
pub mod Start
pub mod Reports
pub mod Reach
pub mod Order
pub mod Willing
use libre_wave.Common.{ℕ, List, [], ◌∷◌, Bool, true, if◌then◌else◌, Result, ok, err}
use libre_wave.Platform.Candidate.{UsbDeviceCandidate, EndpointId}

pub data HiddenPhysicalNode : Type 0 where
  capture playback : HiddenPhysicalNode

unfoldable pub hidden_physical_nodes : List HiddenPhysicalNode
hidden_physical_nodes = capture ∷ playback ∷ []

-- The handle has no content.
pub data CaptureConsumption : Type 0 where
  capture_consumption : CaptureConsumption

pub record CaptureObservation : Type 0 where
  pub active : Bool
  pub frames_consumed : ℕ

pub record AudioAdmission : Type 0 where
  pub candidate : UsbDeviceCandidate

-- A host operation returns its result and the world that it leaves.
pub record AudioHost (W E : Type 0) : Type 0 where
  pub verify_physical_nodes_hidden :
      UsbDeviceCandidate → List HiddenPhysicalNode → W → Result E (Unit {0}) × W
  pub start_capture : AudioAdmission → W → Result E CaptureConsumption × W
  pub observe_capture :
      UsbDeviceCandidate → CaptureConsumption → W → Result E CaptureObservation × W
  pub prepare_playback : UsbDeviceCandidate → W → Result E (Unit {0}) × W
  pub publish_endpoints : UsbDeviceCandidate → List EndpointId → W → Result E (Unit {0}) × W
  pub restore_software_routing : UsbDeviceCandidate → W → Result E (Unit {0}) × W
  pub teardown : W → Result E (Unit {0}) × W

-- `admission: &mut dyn FnMut(&UsbDeviceCandidate) -> Result<(), H::Error>`
abbrev pub Gate : Type 0 → Type 0 → Type 0
Gate W E = UsbDeviceCandidate → W → Result E (Unit {0}) × W

pub data DegradedState : Type 0 where
  no_admitted_device device_admission_failed physical_device_unavailable physical_nodes_exposed :
      DegradedState
  capture_start_failed capture_not_confirmed playback_prepare_failed : DegradedState
  endpoint_publication_failed routing_restore_failed host_restarted device_disconnected :
      DegradedState
  teardown_failed : DegradedState

pub data LifecycleState : Type 0 where
  idle ready : LifecycleState
  degraded : DegradedState → LifecycleState

pub data CleanupPrimary (E : Type 0) : Type 0 where
  host_step : (state : DegradedState) (source : E) → CleanupPrimary E
  state_only : (state : DegradedState) → CleanupPrimary E

pub data LifecycleError (E : Type 0) : Type 0 where
  unavailable : DegradedState → LifecycleError E
  already_active : LifecycleError E
  host : (state : DegradedState) (source : E) → LifecycleError E
  cleanup : (after : DegradedState) (primary : CleanupPrimary E) (teardown : E) → LifecycleError E

pub record AudioLifecycle : Type 0 where
  pub state : LifecycleState
  pub cleanup_complete : Bool

unfoldable pub new : AudioLifecycle
new = record { state = idle; cleanup_complete = true }

-- What an operation of the lifecycle leaves.
abbrev pub Outcome : Type 0 → Type 0 → Type 0
Outcome W E = Result (LifecycleError E) (Unit {0}) × AudioLifecycle × W

module _ {W E : Type 0} where
  -- `?` on an operation of the lifecycle
  pub and_then : Outcome W E → (AudioLifecycle → W → Outcome W E) → Outcome W E
  and_then (ok _, l, w) next = next l w
  and_then (err e, l, w) next = (err e, l, w)

  pub after_teardown : AudioLifecycle → Result E (Unit {0}) × W → Outcome W E
  after_teardown l (ok _, w) = (ok tt, record { state = idle; cleanup_complete = true }, w)
  after_teardown l (err source, w) = (
    err (cleanup teardown_failed (state_only teardown_failed) source),
    record l { state = degraded teardown_failed },
    w,
  )

  unfoldable pub teardown : AudioHost W E → AudioLifecycle → W → Outcome W E
  unfolding after_teardown
  teardown h l w =
      if l.cleanup_complete
      then (ok tt, record l { state = idle }, w)
      else after_teardown l (h.teardown w)

  -- What `host_failure` makes of its teardown. The code has `unreachable!` for the last clause.
  pub after_host_failure : DegradedState → E → Outcome W E → Outcome W E
  after_host_failure s source (ok _, l, w) =
      (err (host s source), record l { state = degraded s }, w)
  after_host_failure s source (err (cleanup _ _ failure), l, w) =
      (err (cleanup s (host_step s source) failure), l, w)
  after_host_failure s source (err e, l, w) = (err e, l, w)

  pub host_failure : AudioHost W E → DegradedState → E → AudioLifecycle → W → Outcome W E
  unfolding after_host_failure teardown
  host_failure h s source l w =
      after_host_failure s source (teardown h (record l { state = degraded s }) w)

  -- What `fail` makes of its teardown, with the same `unreachable!`.
  pub after_fail : DegradedState → Outcome W E → Outcome W E
  after_fail s (ok _, l, w) = (err (unavailable s), record l { state = degraded s }, w)
  after_fail s (err (cleanup _ _ failure), l, w) = (err (cleanup s (state_only s) failure), l, w)
  after_fail s (err e, l, w) = (err e, l, w)

  pub fail : AudioHost W E → DegradedState → AudioLifecycle → W → Outcome W E
  unfolding after_fail teardown
  fail h s l w = after_fail s (teardown h (record l { state = degraded s }) w)

  pub after_step :
      AudioHost W E → DegradedState → AudioLifecycle → Result E (Unit {0}) × W → Outcome W E
  unfolding host_failure
  after_step h s l (ok _, w) = (ok tt, l, w)
  after_step h s l (err source, w) = host_failure h s source l w

  pub run_host_step :
      AudioHost W E
      → DegradedState
      → (W → Result E (Unit {0}) × W)
      → AudioLifecycle
      → W
      → Outcome W E
  unfolding after_step
  run_host_step h s operation l w = after_step h s l (operation w)
