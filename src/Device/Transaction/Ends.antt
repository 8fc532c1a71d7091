-- ===== src/Device/Transaction/Ends.antt =====
-- How a transaction of crates/librewave-device/src/transaction.rs ends, and what it leaves in the
-- session, on every transport.
use libre_wave.Common.{
  ℕ, ◌≡◌, ◌⊎◌, inl, inr, refl, sym, ◌∙◌, List, true, arith, holds, Bool-cases, Result, ok, err,
  Result-cases, >>=-eq-ok, ap,
}
use libre_wave.Protocol.Identity.{ApiVersion}
use libre_wave.Protocol.Schema.{config_schema, is_config_schema}
use libre_wave.Protocol.Codec.{CodecError, PatchResult}
use libre_wave.Protocol.Wave3.{Wave3Config, Wave3ControlChange, apply_control}
use libre_wave.Protocol.Wave3.Edit.{from_schema_iff, schema-apply_control, apply_control_unchanged}
use libre_wave.Protocol.Setup.{SetupPacket}
use libre_wave.Device.Transport.{Transport}
use libre_wave.Device.Configs.{same_config, same_config_iff, checked_config-eq-ok}
use libre_wave.Device.Session.{Wave3Session, Wave3WriteState, ready}
use libre_wave.Device.Outcomes.{
  TransactionPhase, preflight_read, write, restoration_write, restoration_readback, readback,
  TransactionError, stale_baseline, RestorationOutcome, TransactionOutcome, applied, unchanged,
  rejected, failed, transaction_setup,
}
use libre_wave.Device.Transaction.Fair.{Names, Fair, transaction_setup-Fair, read_config-Fair}
use libre_wave.Device.Transaction.{
  Step, read_payload, parsed, confirmed, read_config, write_exact, restore, write_verified,
  after_write, after_restore, settle, write_phase, write_if_changed, after_preflight,
  transfer_phase, after_patch, Wave3WriteState-discrete, transact_control,
}

-- The session and outcome that a transaction from `session` may leave.
abbrev pub Ends :
    Wave3Session → Wave3Config → Wave3ControlChange → TransactionOutcome → Wave3Session → Type 0
Ends session baseline change (applied config) session' =
    (apply_control baseline change ≡ ok (PatchResult.changed, config))
    × (session' ≡ record session { config = config })
Ends session baseline change (unchanged config) session' =
    (apply_control baseline change ≡ ok (PatchResult.unchanged, config))
    × (config ≡ baseline)
    × (session' ≡ session)
Ends session baseline change (rejected error) session' =
    ((session' ≡ session)
      ⊎ ((error ≡ stale_baseline baseline session'.config)
          × (session' ≡ record session { config = session'.config })))
    × Names error session'.config
Ends session baseline change (failed primary restoration) session' =
    ((restoration.verification ≡ ok baseline) × (session' ≡ record session { config = baseline }))
    ⊎ (((e : TransactionError) × (restoration.verification ≡ err e))
        × (session' ≡ record session { write_state = Wave3WriteState.needs_reprobe }))

parsed-admitted :
    (api : ApiVersion) (phase : TransactionPhase) (payload : List ℕ) (config : Wave3Config)
    → parsed api phase payload ≡ ok config
    → is_config_schema config.schema ≡ true
unfolding parsed
parsed-admitted api phase payload config h = elim (Result-cases (config_schema api)) [
  | inl (r, e) ↦
      let made = (checked_config-eq-ok r payload config (ground arith)).0 in
      ground (arith, (from_schema_iff r payload config).0 made)
  | inr (x, e) ↦ absurd (ground arith)
]

confirmed-eq :
    (phase : TransactionPhase) (expected : Wave3Config) (r : Result TransactionError Wave3Config)
    (found : Wave3Config)
    → is_config_schema expected.schema ≡ true
    → ((c : Wave3Config) → r ≡ ok c → is_config_schema c.schema ≡ true)
    → confirmed phase expected r ≡ ok found
    → found ≡ expected
unfolding confirmed
confirmed-eq phase expected (ok c) found valid admitted h =
    ground (arith, same_config_iff c expected (admitted c refl) valid)
confirmed-eq phase expected (err e) found valid admitted h = absurd (ground arith)

module _ {T : Type 0} (port : Transport T) where
  read_config-admitted :
      (packet : SetupPacket) (api : ApiVersion) (phase : TransactionPhase) (t : T) (c : Wave3Config)
      → (read_config port packet api phase t).0 ≡ ok c
      → is_config_schema c.schema ≡ true
  unfolding read_config
  read_config-admitted packet api phase t c h =
      let (payload, read, e) =
        >>=-eq-ok (read_payload port packet phase t).0 (parsed api phase) h in
      parsed-admitted api phase payload c e

  after_write-eq :
      (packet : SetupPacket) (api : ApiVersion) (requested : Wave3Config)
      (w : Result TransactionError (Unit {0})) (t : T) (found : Wave3Config)
      → is_config_schema requested.schema ≡ true
      → (after_write port packet api requested w t).0 ≡ ok found
      → found ≡ requested
  unfolding after_write
  after_write-eq packet api requested (ok u) t found valid h =
      confirmed-eq readback requested (read_config port packet api readback t).0 found valid
        (read_config-admitted packet api readback t) h
  after_write-eq packet api requested (err e) t found valid h = absurd (ground arith)

  module _ (session : Wave3Session) (baseline : Wave3Config) (change : Wave3ControlChange)
      (valid : is_config_schema baseline.schema ≡ true) where
    End : Step port → Type 0
    End s = Ends session baseline change s.0 s.1

    after_restore-Ends :
        (primary : TransactionError) (restoration : RestorationOutcome)
        (v : Result TransactionError Wave3Config) (t : T)
        → restoration.verification ≡ v
        → ((c : Wave3Config) → v ≡ ok c → c ≡ baseline)
        → End (after_restore port session primary restoration v t)
    unfolding after_restore End
    after_restore-Ends primary restoration (ok c) t e same =
        let eq = same c refl in
        inl (e ∙ ap ok eq, ap (λ (c : Wave3Config). record session { config = c }) eq)
    after_restore-Ends primary restoration (err x) t e same = inr ((x, e), refl)

    restore-baseline :
        (a b : SetupPacket) (t : T) (c : Wave3Config)
        → (restore port a b session.api baseline t).0.verification ≡ ok c
        → c ≡ baseline
    unfolding restore
    restore-baseline a b t c h =
        let t' = (write_exact port b baseline.bytes restoration_write t).1 in
        confirmed-eq restoration_readback baseline
          (read_config port a session.api restoration_readback t').0 c valid
          (read_config-admitted a session.api restoration_readback t') h

    settle-Ends :
        (a b : SetupPacket) (requested : Wave3Config) (r : Result TransactionError Wave3Config)
        (t : T)
        → apply_control baseline change ≡ ok (PatchResult.changed, requested)
        → ((c : Wave3Config) → r ≡ ok c → c ≡ requested)
        → End (settle port session a b baseline r t)
    unfolding settle End
    settle-Ends a b requested (ok c) t patched same = (rw (same c refl) patched, refl)
    settle-Ends a b requested (err primary) t patched same =
        let (restoration, t') = restore port a b session.api baseline t in
        after_restore-Ends primary restoration restoration.verification t' refl
          (restore-baseline a b t)

    write_if_changed-Ends :
        (a b : SetupPacket) (patch : PatchResult) (requested current : Wave3Config) (t : T)
        → apply_control baseline change ≡ ok (patch, requested)
        → current ≡ baseline
        → End (write_if_changed port session a b baseline patch requested current t)
    unfolding write_if_changed write_phase End
    write_if_changed-Ends a b PatchResult.unchanged requested current t patched same =
        let kept = apply_control_unchanged baseline change requested patched in
        (
          rw same (patched ∙ ap (λ (c : Wave3Config). ok (PatchResult.unchanged, c)) (sym kept)),
          same,
          refl,
        )
    write_if_changed-Ends a b PatchResult.changed requested current t patched same =
        let written = write_verified port a b session.api requested t in
        settle-Ends a b requested written.0 written.1 patched (λ c h.
          after_write-eq a session.api requested (write_exact port b requested.bytes write t).0
            (write_exact port b requested.bytes write t).1 c
            (ap is_config_schema
                (schema-apply_control baseline change PatchResult.changed requested patched)
              ∙ valid)
            h)

    after_preflight-Ends :
        (a b : SetupPacket) (patch : PatchResult) (requested : Wave3Config)
        (r : Result TransactionError Wave3Config) (t : T)
        → apply_control baseline change ≡ ok (patch, requested)
        → ((c : Wave3Config) → r ≡ ok c → is_config_schema c.schema ≡ true)
        → Fair r
        → End (after_preflight port session a b baseline patch requested r t)
    unfolding after_preflight
    after_preflight-Ends a b patch requested (ok current) t patched admitted fair =
        elim (Bool-cases (same_config current baseline)) [
          | inl e ↦ rw e (
              write_if_changed-Ends a b patch requested current t patched
                ((same_config_iff current baseline (admitted current refl) valid).0 e))
          | inr e ↦ rw e (unfold End in (inr (refl, refl), refl))
        ]
    after_preflight-Ends a b patch requested (err e) t patched admitted fair =
        unfold End in (inl refl, fair session.config)

    transfer_phase-Ends :
        (patch : PatchResult) (requested : Wave3Config)
        (packets : Result TransactionError (SetupPacket × SetupPacket)) (t : T)
        → apply_control baseline change ≡ ok (patch, requested)
        → Fair packets
        → End (transfer_phase port session baseline patch requested packets t)
    unfolding transfer_phase
    transfer_phase-Ends patch requested (ok (a, b)) t patched fair =
        let (r, t') = read_config port a session.api preflight_read t in
        after_preflight-Ends a b patch requested r t' patched
          (read_config-admitted a session.api preflight_read t)
          (read_config-Fair port a session.api preflight_read t)
    transfer_phase-Ends patch requested (err e) t patched fair =
        unfold End in (inl refl, fair session.config)

    after_patch-Ends :
        (patched : Result CodecError (PatchResult × Wave3Config)) (t : T)
        → apply_control baseline change ≡ patched
        → End (after_patch port session baseline patched t)
    unfolding after_patch
    after_patch-Ends (ok (patch, requested)) t e =
        transfer_phase-Ends patch requested (transaction_setup session) t e
          (transaction_setup-Fair session)
    after_patch-Ends (err x) t e = unfold End in (inl refl, tt)

  -- On every transport, and whatever it answers, a transaction from a baseline of an admitted schema
  -- ends in one of these ways. Applied: the baseline changes to the reported configuration, which the
  -- session now holds. Unchanged: the change leaves the baseline as it is, and the session stays.
  -- Rejected: the session stays, or the device was found at another configuration, which is reported
  -- and now held; a stale baseline is never reported with a configuration other than the held one.
  -- Failed: the restoration has read back the complete baseline, which the session holds, or it has
  -- not, and the session only lost its permission to write.
  pub transact_control-Ends :
      (session : Wave3Session) (baseline : Wave3Config) (change : Wave3ControlChange) (t : T)
      → is_config_schema baseline.schema ≡ true
      → (let (outcome, session', t') = transact_control port session baseline change t in
          Ends session baseline change outcome session')
  unfolding transact_control End
  transact_control-Ends session baseline change t valid =
      elim (Bool-cases (holds (Wave3WriteState-discrete session.write_state ready))) [
        | inl open_ ↦ elim (Bool-cases (same_config baseline session.config)) [
          | inl same ↦
              rw (open_, same)
                (after_patch-Ends session baseline change valid (apply_control baseline change) t
                  refl)
          | inr other ↦ rw (open_, other) (inl refl, refl)
        ]
        | inr locked ↦ rw locked (inl refl, tt)
      ]
