-- ===== src/Daemon/Control/Truth.antt =====
-- What crates/librewaved/src/control.rs reports of a change is what the session then holds.
use libre_wave.Common.{
  if◌then◌else◌, ◌≡◌, ◌⊎◌, inl, inr, refl, ap, sym, ◌∙◌, subst, Bool, true, false, ◌&&◌, ◌||◌, none,
  some, arith, Result, ok, err,
}
use libre_wave.Protocol.Schema.{is_config_schema}
use libre_wave.Protocol.Wave3.{Wave3Config, Wave3ControlChange}
use libre_wave.Core.Controls.{Wave3ConfigSnapshot, Wave3Control}
use libre_wave.Platform.Snapshot.{Wave3SnapshotError, wave3_config_snapshot}
use libre_wave.Device.Transport.{Transport}
use libre_wave.Device.Session.{Wave3Session, Wave3WriteState, ready}
use libre_wave.Device.Outcomes.{TransactionError, invalid_change, TransactionOutcome, rejected}
use libre_wave.Device.Transaction.{Wave3WriteState-discrete, transact_control}
use libre_wave.Device.Transaction.Fair.{Names}
use libre_wave.Device.Transaction.Ends.{Ends, transact_control-Ends}
use libre_wave.Daemon.Control.{
  Message, ConnectionOutcome, applied, unchanged, stale_baseline, invalid, disconnected, failed,
  changed, is_err, is_none, protocol_change, is_disconnected, ok_of, needs_reprobe,
  snapshot_outcome, stale_outcome, refused, transaction, readback_not_decoded, stale_not_decoded,
  decoded, decoded_stale, verification_absent, restored, transaction_outcome, apply,
}

-- The session that an outcome may be reported with.
abbrev pub IsTrue : Wave3Session → ConnectionOutcome → Wave3Session → Type 0
IsTrue before (applied s) after = wave3_config_snapshot after.config ≡ ok s
IsTrue before (unchanged s) after = (after ≡ before) × (wave3_config_snapshot after.config ≡ ok s)
IsTrue before (stale_baseline s) after = wave3_config_snapshot after.config ≡ ok s
IsTrue before (invalid message) after = after ≡ before
IsTrue before disconnected after = after.config ≡ before.config
IsTrue before (failed observed unverified message) after =
    ((s : Wave3ConfigSnapshot) → observed ≡ some s → wave3_config_snapshot after.config ≡ ok s)
    × (before.write_state ≡ ready → unverified ≡ false → after.write_state ≡ ready)

ok_of-some : {E A : Type 0} (r : Result E A) (a : A) → ok_of r ≡ some a → r ≡ ok a
ok_of-some (ok b) a e = ground arith
ok_of-some (err x) a e = absurd (ground arith)

-- Nothing is observed, and the restoration is not verified.
unknown :
    (before after : Wave3Session) (message : Message)
    → IsTrue before (failed none true message) after
unknown before after message = (λ s e. absurd (ground arith), λ r e. absurd (ground arith))

applied-IsTrue :
    (before after : Wave3Session) (r : Result Wave3SnapshotError Wave3ConfigSnapshot)
    → wave3_config_snapshot after.config ≡ r
    → IsTrue before (decoded true r) after
applied-IsTrue before after (ok s) e = e
applied-IsTrue before after (err x) e = unknown before after readback_not_decoded

unchanged-IsTrue :
    (before after : Wave3Session) (r : Result Wave3SnapshotError Wave3ConfigSnapshot)
    → wave3_config_snapshot after.config ≡ r
    → after ≡ before
    → IsTrue before (decoded false r) after
unchanged-IsTrue before after (ok s) e same = (same, e)
unchanged-IsTrue before after (err x) e same = unknown before after readback_not_decoded

stale-IsTrue :
    (before after : Wave3Session) (r : Result Wave3SnapshotError Wave3ConfigSnapshot)
    → wave3_config_snapshot after.config ≡ r
    → IsTrue before (decoded_stale r) after
stale-IsTrue before after (ok s) e = e
stale-IsTrue before after (err x) e = unknown before after stale_not_decoded

-- What is reported of an error other than a stale baseline or an invalid change
abbrev plain :
    Bool → Bool → Result Wave3SnapshotError Wave3ConfigSnapshot → Message → ConnectionOutcome
plain absent locked r message =
    if absent then disconnected else failed (if locked then none else ok_of r) locked message

plain-IsTrue :
    (before after : Wave3Session) (absent locked : Bool)
    (r : Result Wave3SnapshotError Wave3ConfigSnapshot) (message : Message)
    → after ≡ before
    → wave3_config_snapshot after.config ≡ r
    → (locked ≡ false → after.write_state ≡ ready)
    → IsTrue before (plain absent locked r message) after
plain-IsTrue before after true locked r message same e open_ = ap (λ s. s.config) same
plain-IsTrue before after false true r message same e open_ = unknown before after message
plain-IsTrue before after false false r message same e open_ =
    (λ s q. e ∙ ok_of-some r s q, λ _ _. open_ refl)

not_locked : (w : Wave3WriteState) → needs_reprobe w ≡ false → w ≡ ready
unfolding Wave3WriteState-discrete
not_locked ready e = refl
not_locked Wave3WriteState.needs_reprobe e = absurd (ground arith)

refused-IsTrue :
    (before after : Wave3Session) (baseline : Wave3Config) (error : TransactionError)
    → (after ≡ before)
      ⊎ ((error ≡ TransactionError.stale_baseline baseline after.config)
          × (after ≡ record before { config = after.config }))
    → Names error after.config
    → IsTrue before
        (refused error (ok_of (wave3_config_snapshot after.config)) after.write_state)
        after
unfolding refused stale_outcome
refused-IsTrue before after baseline error (inr (stale_, moved)) names =
    subst
      (λ e.
        IsTrue before (refused e (ok_of (wave3_config_snapshot after.config)) after.write_state)
          after)
      (sym stale_) (stale-IsTrue before after (wave3_config_snapshot after.config) refl)
refused-IsTrue before after baseline (TransactionError.stale_baseline expected actual) (inl same)
      names =
    stale-IsTrue before after (wave3_config_snapshot actual) (ap wave3_config_snapshot (sym names))
refused-IsTrue before after baseline (invalid_change x) (inl same) names = same
refused-IsTrue before after baseline error (inl same) names =
    plain-IsTrue before after (is_disconnected error) (needs_reprobe after.write_state)
      (wave3_config_snapshot after.config) (transaction error) same refl
      (not_locked after.write_state)

-- A restoration that was not verified
lost-IsTrue :
    (before after : Wave3Session) (absent both : Bool) (message : Message)
    → after.config ≡ before.config
    → IsTrue before (if absent && both then disconnected else failed none true message) after
lost-IsTrue before after true true message same = same
lost-IsTrue before after true false message same = unknown before after message
lost-IsTrue before after false both message same = unknown before after message

present-IsTrue :
    (before after : Wave3Session) (absent : Bool) (outcome : ConnectionOutcome)
    → IsTrue before outcome after
    → IsTrue before (if absent && false then disconnected else outcome) after
present-IsTrue before after true outcome h = h
present-IsTrue before after false outcome h = h

restored-IsTrue :
    (before after : Wave3Session) (config : Wave3Config) (message : Message)
    → config ≡ before.config
    → after ≡ record before { config = before.config }
    → IsTrue before
        (failed
          (ok_of (wave3_config_snapshot config))
          (is_none (ok_of (wave3_config_snapshot config)))
          message)
        after
restored-IsTrue before after config message same kept = (
  λ s q.
      ap (λ a. wave3_config_snapshot a.config) kept
      ∙ ap wave3_config_snapshot (sym same)
      ∙ ok_of-some (wave3_config_snapshot config) s q,
  λ open_ e. ap (λ a. a.write_state) kept ∙ open_,
)

failed-IsTrue :
    (before after : Wave3Session) (primary : TransactionError)
    (v : Result TransactionError Wave3Config)
    → ((v ≡ ok before.config) × (after ≡ record before { config = before.config }))
      ⊎ (((e : TransactionError) × (v ≡ err e))
          × (after ≡ record before { write_state = Wave3WriteState.needs_reprobe }))
    → IsTrue before
        (if is_disconnected primary && verification_absent v
          then disconnected
          else failed (restored v) (is_err v || is_none (restored v)) (transaction primary))
        after
failed-IsTrue before after primary (ok c) (inl (same, kept)) =
    present-IsTrue before after (is_disconnected primary) _
      (restored-IsTrue before after c (transaction primary) (ground arith) kept)
failed-IsTrue before after primary (ok c) (inr ((e, q), kept)) = absurd (ground arith)
failed-IsTrue before after primary (err x) (inl (same, kept)) = absurd (ground arith)
failed-IsTrue before after primary (err x) (inr ((e, q), kept)) =
    lost-IsTrue before after (is_disconnected primary) (is_disconnected x) (transaction primary)
      (ap (λ s. s.config) kept)

transaction_outcome-IsTrue :
    (before after : Wave3Session) (change : Wave3ControlChange) (outcome : TransactionOutcome)
    → Ends before before.config change outcome after
    → IsTrue before
        (transaction_outcome outcome (ok_of (wave3_config_snapshot after.config)) after.write_state)
        after
unfolding transaction_outcome snapshot_outcome
transaction_outcome-IsTrue before after change (TransactionOutcome.applied config) end =
    applied-IsTrue before after (wave3_config_snapshot config)
      (ap (λ s. wave3_config_snapshot s.config) end.1)
transaction_outcome-IsTrue before after change (TransactionOutcome.unchanged config) end =
    unchanged-IsTrue before after (wave3_config_snapshot config)
      (ap (λ s. wave3_config_snapshot s.config) end.2 ∙ ap wave3_config_snapshot (sym end.1)) end.2
transaction_outcome-IsTrue before after change (rejected error) end =
    refused-IsTrue before after before.config error end.0 end.1
transaction_outcome-IsTrue before after change (TransactionOutcome.failed primary restoration) end =
    failed-IsTrue before after primary restoration.verification end

-- On every transport, what a change of a control reports is the truth about the session that it
-- leaves. A snapshot that is reported is that of the configuration which the session then holds. If
-- the change is invalid or changes nothing, the session is as before; if the device is gone, the
-- configuration is as before. And a failure from a session that may write, unless it says that the
-- restoration is unverified, leaves the session able to write.
pub apply-IsTrue :
    {T : Type 0} (port : Transport T) (session : Wave3Session) (control : Wave3Control) (t : T)
    → is_config_schema session.config.schema ≡ true
    → IsTrue session (apply port session control t).0 (apply port session control t).1
unfolding apply
apply-IsTrue port session control t valid = go (protocol_change control)
  where
    go :
        (c : Result Message Wave3ControlChange)
        → IsTrue session (changed port session t c).0 (changed port session t c).1
    go (err message) = refl
    go (ok change) =
        let (outcome, after, t') = transact_control port session session.config change t in
        transaction_outcome-IsTrue session after change outcome
          (transact_control-Ends port session session.config change t valid)
