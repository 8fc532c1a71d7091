-- ===== src/Platform/Lifecycle/Reach.antt =====
-- What every operation of the lifecycle keeps, and what holds after any number of them.
use libre_wave.Common.{◌≡◌, ◌≢◌, refl, Bool, true, false, Option, Result, ok, err}
use libre_wave.Platform.Candidate.{UsbDeviceCandidate}
use libre_wave.Platform.Lifecycle.{
  AudioHost, Gate, LifecycleState, idle, degraded, host_restarted, device_disconnected, unavailable,
  already_active, host, cleanup, AudioLifecycle, Outcome, and_then, teardown, after_teardown, new,
}
use libre_wave.Platform.Lifecycle.Start.{
  is_ready, start, torn_down, recover_after_host_restart, handle_device_disconnect,
}
use libre_wave.Platform.Lifecycle.Reports.{
  in_state, with_candidate-Reports, IsSafe, Reports, start-Reports,
}

-- A call of the lifecycle by its owner, with what the call is given.
pub data Request (W E : Type 0) : Type 0 where
  start_request : Gate W E → Option UsbDeviceCandidate → Request W E
  teardown_request : Request W E
  restart_request : Gate W E → Option UsbDeviceCandidate → Request W E
  disconnect_request : Request W E

module _ {W E : Type 0} where
  abbrev pub serve : AudioHost W E → Request W E → AudioLifecycle → W → Outcome W E
  serve h (start_request gate candidate) l w = start h gate l candidate w
  serve h teardown_request l w = teardown h l w
  serve h (restart_request gate candidate) l w = recover_after_host_restart h gate l candidate w
  serve h disconnect_request l w = handle_device_disconnect h l w

  abbrev pub IsSafeAfter : (W → Type 0) → Outcome W E → Type 0
  IsSafeAfter IsClean (_, l, w) = IsSafe IsClean l w

  -- The lifecycles and worlds that a host in the world `w0` leads to.
  pub data Reach (h : AudioHost W E) (w0 : W) : AudioLifecycle → W → Type 0 where
    begin : Reach h w0 new w0
    next :
        {l : AudioLifecycle} {w : W} (r : Request W E)
        → Reach h w0 l w
        → Reach h w0 (serve h r l w).1 (serve h r l w).2

module _ {W E : Type 0} (IsClean : W → Type 0) (h : AudioHost W E)
    (cleans : (w : W) → (h.teardown w).0 ≡ ok tt → IsClean (h.teardown w).1) where
  safe_of_Reports :
      (before : AudioLifecycle) (w0 : W) (o : Outcome W E)
      → IsSafe IsClean before w0
      → Reports IsClean before w0 o
      → IsSafeAfter IsClean o
  safe_of_Reports before w0 (ok _, l, w) safe r = rw r (record { agrees = refl; clean = λ f. cc })
  safe_of_Reports before w0 (err already_active, l, w) safe r = rw (r.0, r.1) safe
  safe_of_Reports before w0 (err (unavailable s), l, w) safe r =
      rw r.0 (record { agrees = rw r.1 refl; clean = λ _. r.2 })
  safe_of_Reports before w0 (err (host s _), l, w) safe r =
      rw r.0 (record { agrees = rw r.1 refl; clean = λ _. r.2 })
  safe_of_Reports before w0 (err (cleanup _ _ _), l, w) safe r =
      rw r (record { agrees = refl; clean = λ f. cc })

  after_teardown-safe :
      (q : LifecycleState) (r : Result E (Unit {0}) × W)
      → (r.0 ≡ ok tt → IsClean r.1)
      → IsSafeAfter IsClean (after_teardown (in_state q false) r)
  unfolding after_teardown
  after_teardown-safe q (ok _, w) clean = record { agrees = refl; clean = λ _. clean refl }
  after_teardown-safe q (err e, w) clean = record { agrees = refl; clean = λ f. cc }

  teardown-safe :
      (q : LifecycleState) (done : Bool) (w : W)
      → (done ≡ true → IsClean w)
      → IsSafeAfter IsClean (teardown h (in_state q done) w)
  unfolding teardown
  teardown-safe q true w clean = record { agrees = refl; clean = clean }
  teardown-safe q false w clean = after_teardown-safe q (h.teardown w) (cleans w)

  -- After a teardown that was due, another operation on a clean world.
  after_teardown-disconnect :
      (q : LifecycleState) (r : Result E (Unit {0}) × W)
      → (r.0 ≡ ok tt → IsClean r.1)
      → IsSafeAfter IsClean (
          and_then
            (after_teardown (in_state q false) r)
            (λ l w. (ok tt, record l { state = degraded device_disconnected }, w)))
  unfolding after_teardown and_then
  after_teardown-disconnect q (ok _, w) clean = record { agrees = refl; clean = λ _. clean refl }
  after_teardown-disconnect q (err e, w) clean = record { agrees = refl; clean = λ f. cc }

  disconnect-safe :
      (q : LifecycleState) (done : Bool) (w : W)
      → (done ≡ true → IsClean w)
      → IsSafeAfter IsClean (handle_device_disconnect h (in_state q done) w)
  unfolding handle_device_disconnect torn_down and_then teardown
  disconnect-safe q true w clean = record { agrees = refl; clean = clean }
  disconnect-safe q false w clean = after_teardown-disconnect q (h.teardown w) (cleans w)

  after_teardown-start :
      (gate : Gate W E) (candidate : Option UsbDeviceCandidate) (q : LifecycleState)
      (r : Result E (Unit {0}) × W)
      → (r.0 ≡ ok tt → IsClean r.1)
      → (before : AudioLifecycle) (w0 : W)
      → Reports IsClean before w0 (
          and_then
            (after_teardown (in_state q false) r)
            (λ l w. start h gate (record l { state = degraded host_restarted }) candidate w))
  unfolding after_teardown and_then start is_ready
  after_teardown-start gate candidate q (ok _, w) clean before w0 =
      with_candidate-Reports IsClean h cleans gate (degraded host_restarted) candidate before w0 w
        (clean refl)
  after_teardown-start gate candidate q (err e, w) clean before w0 = refl

  recover-Reports_of :
      (gate : Gate W E) (candidate : Option UsbDeviceCandidate) (q : LifecycleState) (done : Bool)
      (w : W)
      → (done ≡ true → IsClean w)
      → (before : AudioLifecycle) (w0 : W)
      → Reports IsClean before w0 (recover_after_host_restart h gate (in_state q done) candidate w)
  unfolding recover_after_host_restart torn_down and_then teardown start is_ready
  recover-Reports_of gate candidate q true w clean before w0 =
      with_candidate-Reports IsClean h cleans gate (degraded host_restarted) candidate before w0 w
        (clean refl)
  recover-Reports_of gate candidate q false w clean before w0 =
      after_teardown-start gate candidate q (h.teardown w) (cleans w) before w0

  not_active :
      (o : Outcome W E)
      → ((before : AudioLifecycle) (w0 : W) → Reports IsClean before w0 o)
      → o.0 ≢ err already_active
  not_active (ok _, l, w) r e = cc
  not_active (err already_active, l, w) r e =
      let p : l ≡ in_state idle true = (r (in_state idle true) w).0 in
      let q : l ≡ in_state idle false = (r (in_state idle false) w).0 in cc
  not_active (err (unavailable _), l, w) r e = cc
  not_active (err (host _ _), l, w) r e = cc
  not_active (err (cleanup _ _ _), l, w) r e = cc

  -- From a safe lifecycle, recovery after a restart of the host reports the truth as `start` does, and is
  -- never refused because a graph is active.
  pub recover-Reports :
      (gate : Gate W E) (l : AudioLifecycle) (candidate : Option UsbDeviceCandidate) (w : W)
      → IsSafe IsClean l w
      → Reports IsClean l w (recover_after_host_restart h gate l candidate w)
        × ((recover_after_host_restart h gate l candidate w).0 ≢ err already_active)
  recover-Reports gate l candidate w safe = (truth l w, not_active _ truth)
    where
      truth :
          (before : AudioLifecycle) (w0 : W)
          → Reports IsClean before w0 (recover_after_host_restart h gate l candidate w)
      truth = recover-Reports_of gate candidate l.state l.cleanup_complete w safe.clean

  serve-IsSafe :
      (r : Request W E) (l : AudioLifecycle) (w : W)
      → IsSafe IsClean l w
      → IsSafeAfter IsClean (serve h r l w)
  serve-IsSafe (start_request gate candidate) l w safe =
      safe_of_Reports l w _ safe (start-Reports IsClean h cleans gate l candidate w safe)
  serve-IsSafe teardown_request l w safe = teardown-safe l.state l.cleanup_complete w safe.clean
  serve-IsSafe (restart_request gate candidate) l w safe =
      safe_of_Reports l w _ safe (recover-Reports gate l candidate w safe).0
  serve-IsSafe disconnect_request l w safe = disconnect-safe l.state l.cleanup_complete w safe.clean

  -- A lifecycle that any calls lead to from a new one in a clean world is safe: its cleanup flag is down
  -- exactly while it is ready or a cleanup has failed, and while the flag is up, the world is clean.
  pub Reach-IsSafe :
      {w0 : W} {l : AudioLifecycle} {w : W} → IsClean w0 → Reach h w0 l w → IsSafe IsClean l w
  unfolding new
  Reach-IsSafe clean begin = record { agrees = refl; clean = λ _. clean }
  Reach-IsSafe clean (next {l} {w} r path) = serve-IsSafe r l w (Reach-IsSafe clean path)
