-- ===== src/Platform/Lifecycle/Order.antt =====
-- The order in which `start` calls the host, seen by a host that keeps a list of its calls.
use libre_wave.Common.{
  ℕ, ◌<◌, ◌≤◌, ◌≡◌, refl, ap, List, [], ◌∷◌, ◌++◌, Bool, true, false, not, ◌||◌, ◌==◌, ◌⊎◌, inl,
  inr, Option, none, some, Result, ok, err, Bool-cases, take, arith,
}
use libre_wave.Platform.Candidate.{UsbDeviceCandidate, deliberate_endpoints}
use libre_wave.Platform.Lifecycle.{
  AudioHost, Gate, DegradedState, LifecycleState, degraded, ready, capture_start_failed,
  capture_not_confirmed, device_admission_failed, physical_nodes_exposed, playback_prepare_failed,
  endpoint_publication_failed, routing_restore_failed, hidden_physical_nodes, CaptureObservation,
  CaptureConsumption, AudioLifecycle, Outcome, and_then, host_failure, fail, run_host_step,
  after_step, teardown, after_teardown, after_host_failure, after_fail,
}
use libre_wave.Platform.Lifecycle.Start.{
  restore_routes, prepare, publish, after_observation, after_capture, after_admission, attempt,
  with_candidate, is_ready, start, is_empty,
}
use libre_wave.Platform.Lifecycle.Reports.{in_state}

pub data Call : Type 0 where
  verified admitted captured observed prepared published restored torn_down : Call

-- The calls of a start that succeeds.
unfoldable pub startup : List Call
startup = verified ∷ admitted ∷ captured ∷ observed ∷ prepared ∷ published ∷ restored ∷ []

abbrev Begun : ℕ → List Call → Type 0
Begun k calls = (0 < k) × (k ≤ 7) × (calls ≡ take k startup)

module _ {W E : Type 0} where
  -- An operation that notes its call.
  abbrev noted {ℓ} :
      {A : Type ℓ} → Call → (W → Result E A × W) → W × List Call → Result E A × (W × List Call)
  noted call operation v = ((operation v.0).0, ((operation v.0).1, v.1 ++ (call ∷ [])))

  abbrev pub recording : AudioHost W E → AudioHost (W × List Call) E
  recording h = record {
    verify_physical_nodes_hidden =
        λ c nodes. noted verified (h.verify_physical_nodes_hidden c nodes);
    start_capture = λ a. noted captured (h.start_capture a);
    observe_capture = λ c handle. noted observed (h.observe_capture c handle);
    prepare_playback = λ c. noted prepared (h.prepare_playback c);
    publish_endpoints = λ c endpoints. noted published (h.publish_endpoints c endpoints);
    restore_software_routing = λ c. noted restored (h.restore_software_routing c);
    teardown = noted torn_down h.teardown;
  }

  abbrev pub recording_gate : Gate W E → Gate (W × List Call) E
  recording_gate gate c = noted admitted (gate c)

  -- The calls are a start that went through, none at all, or the beginning of a start and one teardown.
  abbrev pub IsOrdered : Outcome (W × List Call) E → Type 0
  IsOrdered (ok _, l, (w, calls)) = calls ≡ startup
  IsOrdered (err _, l, (w, calls)) =
      (calls ≡ []) ⊎ ((k : ℕ) × (0 < k) × (k ≤ 7) × (calls ≡ take k startup ++ (torn_down ∷ [])))

  after_host_failure-IsOrdered :
      (s : DegradedState) (e : E) (q : LifecycleState) (k : ℕ) (r : Result E (Unit {0}) × W)
      (calls : List Call)
      → Begun k calls
      → IsOrdered (
          after_host_failure s e
            (after_teardown (in_state q false) (r.0, (r.1, calls ++ (torn_down ∷ [])))))
  unfolding after_host_failure after_teardown
  after_host_failure-IsOrdered s e q k (ok _, w) calls b =
      inr (k, b.0, b.1, ap (λ c. c ++ (torn_down ∷ [])) b.2)
  after_host_failure-IsOrdered s e q k (err _, w) calls b =
      inr (k, b.0, b.1, ap (λ c. c ++ (torn_down ∷ [])) b.2)

  after_fail-IsOrdered :
      (s : DegradedState) (q : LifecycleState) (k : ℕ) (r : Result E (Unit {0}) × W)
      (calls : List Call)
      → Begun k calls
      → IsOrdered
          (after_fail s (after_teardown (in_state q false) (r.0, (r.1, calls ++ (torn_down ∷ [])))))
  unfolding after_fail after_teardown
  after_fail-IsOrdered s q k (ok _, w) calls b =
      inr (k, b.0, b.1, ap (λ c. c ++ (torn_down ∷ [])) b.2)
  after_fail-IsOrdered s q k (err _, w) calls b =
      inr (k, b.0, b.1, ap (λ c. c ++ (torn_down ∷ [])) b.2)

  stopped-IsOrdered :
      (s : DegradedState) (e : E) (q : LifecycleState) (k : ℕ) (r : Result E (Unit {0}) × W)
      (calls : List Call) (next : AudioLifecycle → W × List Call → Outcome (W × List Call) E)
      → Begun k calls
      → IsOrdered (
          and_then
            (after_host_failure s e
              (after_teardown (in_state q false) (r.0, (r.1, calls ++ (torn_down ∷ [])))))
            next)
  unfolding after_host_failure after_teardown and_then
  stopped-IsOrdered s e q k (ok _, w) calls next b =
      inr (k, b.0, b.1, ap (λ c. c ++ (torn_down ∷ [])) b.2)
  stopped-IsOrdered s e q k (err _, w) calls next b =
      inr (k, b.0, b.1, ap (λ c. c ++ (torn_down ∷ [])) b.2)

  module _ (h : AudioHost W E) (q : LifecycleState) where
    host_failure-IsOrdered :
        (s : DegradedState) (e : E) (k : ℕ) (w : W) (calls : List Call)
        → Begun k calls
        → IsOrdered (host_failure (recording h) s e (in_state q false) (w, calls))
    unfolding host_failure teardown
    host_failure-IsOrdered s e k w calls b =
        after_host_failure-IsOrdered s e (degraded s) k (h.teardown w) calls b

    after_step-IsOrdered :
        (s : DegradedState) (k : ℕ) (r : Result E (Unit {0}) × W) (calls : List Call)
        (next : AudioLifecycle → W × List Call → Outcome (W × List Call) E)
        → Begun k calls
        → ((w : W) → IsOrdered (next (in_state q false) (w, calls)))
        → IsOrdered
            (and_then (after_step (recording h) s (in_state q false) (r.0, (r.1, calls))) next)
    unfolding after_step and_then host_failure teardown
    after_step-IsOrdered s k (ok _, w) calls next b rest = rest w
    after_step-IsOrdered s k (err e, w) calls next b rest =
        stopped-IsOrdered s e (degraded s) k (h.teardown w) calls next b

    module _ (c : UsbDeviceCandidate) where
      restore_routes-IsOrdered :
          (w : W)
          → IsOrdered (restore_routes (recording h) c (in_state q false) (w, take 6 startup))
      unfolding restore_routes run_host_step startup
      restore_routes-IsOrdered w =
          after_step-IsOrdered routing_restore_failed 7 (h.restore_software_routing c w) startup
            (λ l v. (ok tt, record l { state = ready }, v)) (omega arith, omega arith, refl)
            λ w. refl

      publish-IsOrdered :
          (w : W) → IsOrdered (publish (recording h) c (in_state q false) (w, take 5 startup))
      unfolding publish run_host_step startup
      publish-IsOrdered w =
          after_step-IsOrdered endpoint_publication_failed 6
            (h.publish_endpoints c deliberate_endpoints w) (take 6 startup)
            (restore_routes (recording h) c) (omega arith, omega arith, refl)
            restore_routes-IsOrdered

      prepare-IsOrdered :
          (w : W) → IsOrdered (prepare (recording h) c (in_state q false) (w, take 4 startup))
      unfolding prepare run_host_step startup
      prepare-IsOrdered w =
          after_step-IsOrdered playback_prepare_failed 5 (h.prepare_playback c w) (take 5 startup)
            (publish (recording h) c) (omega arith, omega arith, refl) publish-IsOrdered

      after_observation-IsOrdered :
          (r : Result E CaptureObservation × W)
          → IsOrdered
              (after_observation (recording h) c (in_state q false) (r.0, (r.1, take 4 startup)))
      unfolding after_observation fail teardown
      after_observation-IsOrdered (err e, w) =
          host_failure-IsOrdered capture_not_confirmed e 4 w (take 4 startup)
            (omega arith, omega arith, refl)
      after_observation-IsOrdered (ok o, w) =
          elim (Bool-cases (not o.active || (o.frames_consumed == 0))) [
            | inl stuck ↦ rw stuck (
                after_fail-IsOrdered capture_not_confirmed (degraded capture_not_confirmed) 4
                  (h.teardown w) (take 4 startup) (omega arith, omega arith, refl))
            | inr flows ↦ rw flows (prepare-IsOrdered w)
          ]

      after_capture-IsOrdered :
          (r : Result E CaptureConsumption × W)
          → IsOrdered
              (after_capture (recording h) c (in_state q false) (r.0, (r.1, take 3 startup)))
      unfolding after_capture startup
      after_capture-IsOrdered (err e, w) =
          host_failure-IsOrdered capture_start_failed e 3 w (take 3 startup)
            (omega arith, omega arith, refl)
      after_capture-IsOrdered (ok handle, w) =
          after_observation-IsOrdered (h.observe_capture c handle w)

      after_admission-IsOrdered :
          (r : Result E (Unit {0}) × W)
          → IsOrdered
              (after_admission (recording h) c (in_state q false) (r.0, (r.1, take 2 startup)))
      unfolding after_admission startup
      after_admission-IsOrdered (err e, w) =
          host_failure-IsOrdered device_admission_failed e 2 w (take 2 startup)
            (omega arith, omega arith, refl)
      after_admission-IsOrdered (ok _, w) =
          after_capture-IsOrdered (h.start_capture (record { candidate = c }) w)

      attempt-IsOrdered :
          (gate : Gate W E) (w : W)
          → IsOrdered (attempt (recording h) (recording_gate gate) c (in_state q false) (w, []))
      unfolding attempt run_host_step startup
      attempt-IsOrdered gate w =
          after_step-IsOrdered physical_nodes_exposed 1
            (h.verify_physical_nodes_hidden c hidden_physical_nodes w) (take 1 startup)
            (λ l v. after_admission (recording h) c l (recording_gate gate c v))
            (omega arith, omega arith, refl) (λ w. after_admission-IsOrdered (gate c w))

  with_candidate-IsOrdered :
      (h : AudioHost W E) (gate : Gate W E) (l : AudioLifecycle) (c : Option UsbDeviceCandidate)
      (w : W)
      → IsOrdered (with_candidate (recording h) (recording_gate gate) l c (w, []))
  unfolding with_candidate
  with_candidate-IsOrdered h gate l none w = inl refl
  with_candidate-IsOrdered h gate l (some c) w = elim (Bool-cases (is_empty c.alsa_cards)) [
    | inl bare ↦ rw bare (inl refl)
    | inr cards ↦ rw cards (attempt-IsOrdered h l.state c gate w)
  ]

  start-IsOrdered_of :
      (h : AudioHost W E) (gate : Gate W E) (q : LifecycleState) (done : Bool)
      (c : Option UsbDeviceCandidate) (w : W)
      → IsOrdered (start (recording h) (recording_gate gate) (in_state q done) c (w, []))
  unfolding start
  start-IsOrdered_of h gate q false c w = inl refl
  start-IsOrdered_of h gate q true c w = elim (Bool-cases (is_ready q)) [
    | inl up ↦ rw up (inl refl)
    | inr down ↦ rw down (with_candidate-IsOrdered h gate (in_state q true) c w)
  ]

  -- `start` calls the host in one order: it verifies the hidden nodes, asks the admission gate, starts and
  -- observes the capture, and only then prepares the playback, publishes the endpoints and restores the
  -- routes. All seven calls are made if it succeeds. If it fails, either no call was made, or a beginning
  -- of the seven was, followed by exactly one teardown.
  pub start-IsOrdered :
      (h : AudioHost W E) (gate : Gate W E) (l : AudioLifecycle) (c : Option UsbDeviceCandidate)
      (w : W)
      → IsOrdered (start (recording h) (recording_gate gate) l c (w, []))
  start-IsOrdered h gate l c w = start-IsOrdered_of h gate l.state l.cleanup_complete c w
