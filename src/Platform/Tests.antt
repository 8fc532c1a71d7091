-- ===== src/Platform/Tests.antt =====
-- The properties of crates/librewave-platform-linux at concrete inputs.
use libre_wave.Common.{
  Bool, not, ◌==◌, ℕ, zero, suc, ◌+◌, ◌≡◌, ◌≢◌, refl, List, [], ◌∷◌, true, false, none, some, ok,
  err, arith, Result, map, ◌≤◌, ◌↔◌,
}
use libre_wave.Device.Session.{wave3_identity}
use libre_wave.Platform.Candidate.{UsbDeviceCandidate}
use libre_wave.Platform.Lifecycle.{AudioHost, Gate, capture_consumption, new, already_active, ready}
use libre_wave.Platform.Lifecycle.Start.{start, recover_after_host_restart, is_empty}
use libre_wave.Platform.Lifecycle.Reports.{in_state, IsSafe, Reports, start-Reports}
use libre_wave.Platform.Lifecycle.Reach.{start_request, begin, next, recover-Reports, Reach-IsSafe}
use libre_wave.Platform.Lifecycle.Order.{IsOrdered, recording, recording_gate, start-IsOrdered}
use libre_wave.Platform.Lifecycle.Willing.{IsWilling, IsReady, recover-IsReady}
use libre_wave.Core.Mixer.{
  MixerSourceSnapshot, MixerProfile, SourceRole-discrete, source_controls, source_of,
}
use libre_wave.Core.Mixer.Defaults.{default_profile, numbered, defaults, first_run}
use libre_wave.Core.Mixer.FirstRun.{first_run-IsProfile}
use libre_wave.Platform.Inputs.{
  InputLayout, put_inputs, updated, slot, active_mask, muted, dsp_profile,
}
use libre_wave.Platform.Inputs.Placed.{IsLayout}
use libre_wave.Platform.Inputs.Updated.{updated_lem}
use libre_wave.Platform.Inputs.Carried.{dsp_profile_lem}
use libre_wave.Platform.Ring.{Ring, channel}
use libre_wave.Platform.Ring.Blocks.{Link, PreparedPush, prepare_push, commit_push}
use libre_wave.Platform.Ring.Spec.{Buffer, offers, publishes}
use libre_wave.Platform.Ring.System.{System, prepared, committed, Implements}
use libre_wave.Platform.Ring.Admission.{IsLink}
use libre_wave.Platform.Ring.Accepts.{IsAcceptable, prepare_push_lem}
use libre_wave.Platform.Ring.Refine.{Run, start as run_start, later, Moves, fresh, empty, Run-Moves}

-- The world of this host is the number of objects that it owns. Its errors are numbers too. It cannot
-- prepare a playback that is denied.
abbrev answer : ℕ → ℕ → Result ℕ (Unit {0}) × ℕ
answer zero w = (ok tt, w + 1)
answer (suc e) w = (err e, w)

abbrev counting : ℕ → AudioHost ℕ ℕ
counting denied = record {
  verify_physical_nodes_hidden = λ c nodes w. (ok tt, w);
  start_capture = λ a w. (ok capture_consumption, w + 1);
  observe_capture = λ c handle w. (ok (record { active = true; frames_consumed = 512 }), w);
  prepare_playback = λ c w. answer denied w;
  publish_endpoints = λ c endpoints w. (ok tt, w + 4);
  restore_software_routing = λ c w. (ok tt, w);
  teardown = λ w. (ok tt, 0);
}

abbrev open_gate : Gate ℕ ℕ
open_gate c w = (ok tt, w)

abbrev wave : UsbDeviceCandidate
wave = record {
  identity = wave3_identity;
  topology = record { name = [] };
  alsa_cards = record { number = 2; id = none; name = none } ∷ [];
}

abbrev OwnsNothing : ℕ → Type 0
OwnsNothing w = w ≡ 0

new-IsSafe : IsSafe OwnsNothing new 0
unfolding new
new-IsSafe = record { agrees = refl; clean = λ _. refl }

-- The playback is denied.
start-Reports_example : Reports OwnsNothing new 0 (start (counting 7) open_gate new (some wave) 0)
start-Reports_example =
    start-Reports OwnsNothing (counting 7) (λ w _. refl) open_gate new (some wave) 0 new-IsSafe

recover-Reports_example :
    Reports OwnsNothing new 0 (recover_after_host_restart (counting 7) open_gate new (some wave) 0)
    × ((recover_after_host_restart (counting 7) open_gate new (some wave) 0).0 ≢ err already_active)
recover-Reports_example =
    recover-Reports OwnsNothing (counting 7) (λ w _. refl) open_gate new (some wave) 0 new-IsSafe

Reach-IsSafe_example : IsSafe OwnsNothing (in_state ready false) 6
unfolding start new
Reach-IsSafe_example =
    Reach-IsSafe OwnsNothing (counting 0) (λ w _. refl) refl
      (next (start_request open_gate (some wave)) begin)

start-IsOrdered_example :
    IsOrdered (start (recording (counting 7)) (recording_gate open_gate) new (some wave) (0, []))
start-IsOrdered_example = start-IsOrdered (counting 7) open_gate new (some wave) 0

counting-IsWilling : IsWilling (counting 0) open_gate wave
counting-IsWilling = record {
  verifies = λ w. refl;
  admits = λ w. refl;
  captures = λ w. refl;
  observes = λ w. (_, refl, refl, omega arith);
  prepares = λ w. refl;
  publishes = λ w. refl;
  restores = λ w. refl;
  tears_down = λ w. refl;
}

recover-IsReady_example :
    IsReady (recover_after_host_restart (counting 0) open_gate (in_state ready false) (some wave) 6)
unfolding is_empty
recover-IsReady_example =
    recover-IsReady (counting 0) open_gate wave counting-IsWilling (in_state ready false) 6 refl

-- A ring of three frames of two samples. Samples are numbers, and 9 stands for one that is not finite.
abbrev is_finite : ℕ → Bool
is_finite sample = not (sample == 9)

abbrev room_for_three : Ring ℕ
room_for_three = record {
  frames = (0 ∷ 0 ∷ []) ∷ (0 ∷ 0 ∷ []) ∷ (0 ∷ 0 ∷ []) ∷ [];
  capacity_sequence = 3;
  published_write_sequence = 0;
  published_read_sequence = 0;
}

abbrev two_frames : List ℕ
two_frames = 1 ∷ 2 ∷ 3 ∷ 4 ∷ []

abbrev push_two : PreparedPush
push_two = record { next_write_sequence = 2; fill_after_commit = 2 }

abbrev written : Link ℕ
written = record {
  ring = record room_for_three { frames = (1 ∷ 2 ∷ []) ∷ (3 ∷ 4 ∷ []) ∷ (0 ∷ 0 ∷ []) ∷ [] };
  write_sequence = 0;
  read_sequence = 0;
}

abbrev published_two : System ℕ
published_two = record { link = commit_push push_two written; pushing = none; reading = none }

two_frames_pushed :
    Run is_finite 2 (fresh room_for_three) (publishes ∷ offers two_frames ∷ []) published_two
unfolding prepare_push
two_frames_pushed =
    later (later run_start (prepared two_frames push_two written refl refl))
      (committed push_two refl)

Run-Moves_example :
    (b : Buffer ℕ) × Moves 3 empty (publishes ∷ offers two_frames ∷ []) b
    × Implements 3 published_two b
unfolding channel
Run-Moves_example = Run-Moves 0 (λ n. true) is_finite 2 3 room_for_three refl two_frames_pushed

fresh-IsLink : IsLink 3 0 (fresh room_for_three).link
fresh-IsLink = record {
  room = omega arith;
  fits = omega arith;
  full = refl;
  sized = refl;
  published_write = refl;
  published_read = refl;
  filled = refl;
  bounded = omega arith;
}

prepare_push_lem_example :
    (IsAcceptable fresh-IsLink is_finite 2 two_frames
      → (prepare_push is_finite 2 (fresh room_for_three).link two_frames).0 ≡ ok push_two)
    × ((p : PreparedPush)
        → (prepare_push is_finite 2 (fresh room_for_three).link two_frames).0 ≡ ok p
        → IsAcceptable fresh-IsLink is_finite 2 two_frames)
prepare_push_lem_example = prepare_push_lem fresh-IsLink is_finite 2 two_frames

-- Input 3 is in the second slot, and input 9, which is gone, in the third.
abbrev former : InputLayout
former = record {
  slots = none ∷ some 3 ∷ some 9 ∷ none ∷ none ∷ none ∷ none ∷ none ∷ none ∷ none ∷ [];
}

former-IsLayout : IsLayout former.slots
former-IsLayout = record {
  ten = refl;
  once = ((λ e. omega arith, tt), (tt, tt));
  inputs = (omega arith, (omega arith, tt));
}

abbrev first : MixerProfile
first = first_run []

updated_lem_example :
    IsLayout (updated former first).slots
    × ((id k : ℕ)
        → source_of first.sources id ≢ none
        → slot former id ≡ some k
        → slot (updated former first) id ≡ some k)
    × ((id : ℕ)
        → 3 ≤ id
        → (slot (updated former first) id ≢ none) ↔ (source_of first.sources id ≢ none))
updated_lem_example = updated_lem former first former-IsLayout (first_run-IsProfile [])

updated-former :
    map (slot (updated former first)) (2 ∷ 3 ∷ 4 ∷ 5 ∷ 9 ∷ [])
    ≡ some 2 ∷ some 4 ∷ some 3 ∷ some 5 ∷ none ∷ []
unfolding slot updated put_inputs first_run defaults default_profile numbered SourceRole-discrete
updated-former = refl

active_mask-former : active_mask former ≡ 1 + 4 + 8
unfolding active_mask
active_mask-former = refl

dsp_profile_lem_example :
    (dsp : MixerProfile) × (dsp_profile former first ≡ ok dsp)
    × (dsp.outputs ≡ first.outputs)
    × ((id k : ℕ) (s : MixerSourceSnapshot)
        → source_of first.sources id ≡ some s
        → slot former id ≡ some k
        → (t : MixerSourceSnapshot) × (source_of dsp.sources k ≡ some t)
          × (t.controls ≡ source_controls k s.controls.monitor s.controls.stream))
    × ((k : ℕ)
        → 1 ≤ k
        → k ≤ 12
        → ((id : ℕ) → source_of first.sources id ≢ none → slot former id ≢ some k)
        → (t : MixerSourceSnapshot) × (source_of dsp.sources k ≡ some t)
          × (t.controls ≡ source_controls k muted muted))
dsp_profile_lem_example = dsp_profile_lem former first former-IsLayout (first_run-IsProfile [])
