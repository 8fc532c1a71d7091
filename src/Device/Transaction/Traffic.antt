-- ===== src/Device/Transaction/Traffic.antt =====
-- What a transaction of crates/librewave-device/src/transaction.rs writes to the device.
use libre_wave.Common.{
  ℕ, ◌≡◌, refl, sym, ◌∙◌, List, [], ◌∷◌, ◌++◌, arith, length, Result, ok, err, Bool-cases, holds,
  ==_iff, Result-cases, inl, inr, ◌==◌,
}
use libre_wave.Protocol.Identity.{ApiVersion}
use libre_wave.Protocol.Schema.Admission.{config_schema_cases}
use libre_wave.Protocol.Codec.{CodecError, PatchResult}
use libre_wave.Protocol.Wave3.{Wave3Config, Wave3ControlChange, apply_control}
use libre_wave.Protocol.Wave3.Edit.{IsConfig, size_of_config, apply_control-IsConfig}
use libre_wave.Protocol.Setup.{SetupPacket, message_transfer}
use libre_wave.Device.Transport.{Transport, recording}
use libre_wave.Device.Configs.{same_config}
use libre_wave.Device.Session.{Wave3Session, ready}
use libre_wave.Device.Outcomes.{
  TransactionPhase, preflight_read, write, readback, restoration_write, restoration_readback,
  TransactionOutcome, TransactionError, RestorationOutcome, applied, failed, transaction_setup,
}
use libre_wave.Device.Transaction.{
  read_config, write_exact, after_write, settle, write_if_changed, after_preflight, after_patch,
  restore, write_verified, after_restore, write_phase, transfer_phase, Wave3WriteState-discrete,
  transact_control,
}

module _ {T : Type 0} (port : Transport T) where
  abbrev R : Transport (T × List (List ℕ))
  R = recording port

  -- A read writes nothing.
  read_config-recording :
      (packet : SetupPacket) (api : ApiVersion) (phase : TransactionPhase) (t : T)
      (log : List (List ℕ))
      → read_config R packet api phase (t, log)
        ≡ (let (r, t') = read_config port packet api phase t in (r, (t', log)))
  unfolding read_config
  read_config-recording packet api phase t log = elim (Bool-cases (16 == packet.length)) [
    | inl e ↦ rw e
    | inr e ↦ rw e
  ]

  write_exact-recording :
      (packet : SetupPacket) (payload : List ℕ) (phase : TransactionPhase) (t : T)
      (log : List (List ℕ))
      → length payload ≡ packet.length
      → write_exact R packet payload phase (t, log)
        ≡ (let (r, t') = write_exact port packet payload phase t in (r, (t', payload ∷ log)))
  unfolding write_exact
  write_exact-recording packet payload phase t log h =
      rw ((==_iff (length payload) packet.length).1 h)

  module _ (read_setup write_setup : SetupPacket) (api : ApiVersion)
      (baseline requested : Wave3Config) (long : length baseline.bytes ≡ write_setup.length)
      (fits : length requested.bytes ≡ write_setup.length) where
    restore-recording :
        (t : T) (log : List (List ℕ))
        → restore R read_setup write_setup api baseline (t, log) ≡ (
            let (r, t') = restore port read_setup write_setup api baseline t in
            (r, (t', baseline.bytes ∷ log)))
    unfolding restore
    restore-recording t log = rw (
      write_exact-recording write_setup baseline.bytes restoration_write t log long,
      read_config-recording read_setup api restoration_readback
          (write_exact port write_setup baseline.bytes restoration_write t).1
          (baseline.bytes ∷ log),
    )

    after_write-recording :
        (w : Result TransactionError (Unit {0})) (t : T) (log : List (List ℕ))
        → after_write R read_setup api requested w (t, log)
          ≡ (let (r, t') = after_write port read_setup api requested w t in (r, (t', log)))
    unfolding after_write
    after_write-recording (ok u) t log = rw (read_config-recording read_setup api readback t log)
    after_write-recording (err e) t log = refl

    write_verified-recording :
        (t : T) (log : List (List ℕ))
        → write_verified R read_setup write_setup api requested (t, log) ≡ (
            let (r, t') = write_verified port read_setup write_setup api requested t in
            (r, (t', requested.bytes ∷ log)))
    unfolding write_verified
    write_verified-recording t log = rw (
      write_exact-recording write_setup requested.bytes write t log fits,
      after_write-recording (write_exact port write_setup requested.bytes write t).0
          (write_exact port write_setup requested.bytes write t).1 (requested.bytes ∷ log),
    )

pub setup_length :
    (session : Wave3Session) (a b : SetupPacket)
    → transaction_setup session ≡ ok (a, b)
    → (a.length ≡ 16) × (b.length ≡ 16)
unfolding transaction_setup message_transfer
setup_length session a b h = elim (config_schema_cases session.api) [
  | inl (r, e, supported, admitted, d) ↦ ground (arith, size_of_config r admitted)
  | inr (e, unsupported) ↦ ground arith
]

-- The payload that a change asks for.
abbrev pub bytes_of : Result CodecError (PatchResult × Wave3Config) → List ℕ
bytes_of (ok (patch, requested)) = requested.bytes
bytes_of (err e) = []

abbrev pub requested_bytes : Wave3Config → Wave3ControlChange → List ℕ
requested_bytes baseline change = bytes_of (apply_control baseline change)

-- The payloads that an outcome has cost, the newest first.
abbrev pub sent : List ℕ → List ℕ → TransactionOutcome → List (List ℕ)
sent baseline requested (applied config) = requested ∷ []
sent baseline requested (failed primary restoration) = baseline ∷ requested ∷ []
sent baseline requested _ = []

module _ {T : Type 0} (port : Transport T) (session : Wave3Session) (baseline : Wave3Config) where
  module _ (read_setup write_setup : SetupPacket) (requested : Wave3Config)
      (long : length baseline.bytes ≡ write_setup.length)
      (fits : length requested.bytes ≡ write_setup.length) where
    after_restore-recording :
        (primary : TransactionError) (restoration : RestorationOutcome)
        (v : Result TransactionError Wave3Config) (t : T) (log : List (List ℕ))
        → after_restore
            (recording port)
            session
            primary
            restoration
            v
            (t, baseline.bytes ∷ requested.bytes ∷ log)
          ≡ (let (o, s', t') = after_restore port session primary restoration v t in
              (o, s', (t', sent baseline.bytes requested.bytes o ++ log)))
    unfolding after_restore
    after_restore-recording primary restoration (ok c) t log = refl
    after_restore-recording primary restoration (err e) t log = refl

    settle-recording :
        (r : Result TransactionError Wave3Config) (t : T) (log : List (List ℕ))
        → settle
            (recording port)
            session
            read_setup
            write_setup
            baseline
            r
            (t, requested.bytes ∷ log)
          ≡ (let (o, s', t') = settle port session read_setup write_setup baseline r t in
              (o, s', (t', sent baseline.bytes requested.bytes o ++ log)))
    unfolding settle
    settle-recording (ok c) t log = refl
    settle-recording (err primary) t log =
        let (restoration, t') = restore port read_setup write_setup session.api baseline t in
        rw (
          restore-recording port read_setup write_setup session.api baseline requested long fits t
              (requested.bytes ∷ log),
          after_restore-recording primary restoration restoration.verification t' log,
        )

    write_phase-recording :
        (t : T) (log : List (List ℕ))
        → write_phase (recording port) session read_setup write_setup baseline requested (t, log)
          ≡ (let (o, s', t') =
                write_phase port session read_setup write_setup baseline requested t in
              (o, s', (t', sent baseline.bytes requested.bytes o ++ log)))
    unfolding write_phase
    write_phase-recording t log =
        let (r, t') = write_verified port read_setup write_setup session.api requested t in
        rw (
          write_verified-recording port read_setup write_setup session.api baseline requested long
              fits t log,
          settle-recording r t' log,
        )

    write_if_changed-recording :
        (patch : PatchResult) (current : Wave3Config) (t : T) (log : List (List ℕ))
        → write_if_changed
            (recording port)
            session
            read_setup
            write_setup
            baseline
            patch
            requested
            current
            (t, log)
          ≡ (let (o, s', t') =
                write_if_changed port session read_setup write_setup baseline patch requested
                  current t in
              (o, s', (t', sent baseline.bytes requested.bytes o ++ log)))
    unfolding write_if_changed
    write_if_changed-recording PatchResult.unchanged current t log = refl
    write_if_changed-recording PatchResult.changed current t log = write_phase-recording t log

    after_preflight-recording :
        (patch : PatchResult) (r : Result TransactionError Wave3Config) (t : T)
        (log : List (List ℕ))
        → after_preflight
            (recording port)
            session
            read_setup
            write_setup
            baseline
            patch
            requested
            r
            (t, log)
          ≡ (let (o, s', t') =
                after_preflight port session read_setup write_setup baseline patch requested r t in
              (o, s', (t', sent baseline.bytes requested.bytes o ++ log)))
    unfolding after_preflight
    after_preflight-recording patch (ok current) t log =
        elim (Bool-cases (same_config current baseline)) [
          | inl e ↦ rw e (write_if_changed-recording patch current t log)
          | inr e ↦ rw e
        ]
    after_preflight-recording patch (err e) t log = refl

  module _ (valid : IsConfig baseline) where
    transfer_phase-recording :
        (patch : PatchResult) (requested : Wave3Config) (t : T) (log : List (List ℕ))
        → length requested.bytes ≡ 16
        → transfer_phase
            (recording port)
            session
            baseline
            patch
            requested
            (transaction_setup session)
            (t, log)
          ≡ (let (o, s', t') =
                transfer_phase port session baseline patch requested
                  (transaction_setup session)
                  t in
              (o, s', (t', sent baseline.bytes requested.bytes o ++ log)))
    unfolding transfer_phase
    transfer_phase-recording patch requested t log fits =
        elim (Result-cases (transaction_setup session)) [
          | inl ((a, b), e) ↦
              let (r, t') = read_config port a session.api preflight_read t in
              let long = sym (setup_length session a b e).1 in
              rw (
                e,
                read_config-recording port a session.api preflight_read t log,
                after_preflight-recording a b requested (valid.complete ∙ long) (fits ∙ long) patch
                    r t' log,
              )
          | inr (x, e) ↦ rw e
        ]

    after_patch-recording :
        (change : Wave3ControlChange) (t : T) (log : List (List ℕ))
        → after_patch (recording port) session baseline (apply_control baseline change) (t, log) ≡ (
            let (o, s', t') = after_patch port session baseline (apply_control baseline change) t in
            (o, s', (t', sent baseline.bytes (requested_bytes baseline change) o ++ log)))
    unfolding after_patch
    after_patch-recording change t log = elim (Result-cases (apply_control baseline change)) [
      | inl ((p, c), e) ↦ rw e (
          transfer_phase-recording p c t log
            (apply_control-IsConfig baseline change p c e valid).complete)
      | inr (x, e) ↦ rw e
    ]

    -- What a transaction writes: nothing if it is rejected or changes nothing; the complete patched
    -- baseline if it is applied; the complete patched baseline and then the complete baseline if it
    -- fails. Recording does not change the run.
    pub transact_control-recording :
        (change : Wave3ControlChange) (t : T) (log : List (List ℕ))
        → transact_control (recording port) session baseline change (t, log) ≡ (
            let (o, s', t') = transact_control port session baseline change t in
            (o, s', (t', sent baseline.bytes (requested_bytes baseline change) o ++ log)))
    unfolding transact_control
    transact_control-recording change t log =
        elim (Bool-cases (holds (Wave3WriteState-discrete session.write_state ready))) [
          | inl open_ ↦ elim (Bool-cases (same_config baseline session.config)) [
            | inl same ↦ rw (open_, same) (after_patch-recording change t log)
            | inr other ↦ rw (open_, other)
          ]
          | inr locked ↦ rw locked
        ]
