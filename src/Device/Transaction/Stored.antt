-- ===== src/Device/Transaction/Stored.antt =====
-- A transaction of crates/librewave-device/src/transaction.rs on a device that stores what it is sent.
use libre_wave.Common.{ℕ, ◌≡◌, refl, sym, ap, ◌∙◌, List, true, arith, length, ok, replicate, holds}
use libre_wave.Protocol.Identity.{ApiVersion}
use libre_wave.Protocol.Schema.{config_schema}
use libre_wave.Protocol.Codec.{PatchResult}
use libre_wave.Protocol.Wave3.{Wave3Config, Wave3ControlChange, apply_control}
use libre_wave.Protocol.Wave3.Edit.{
  IsConfig, IsReviewed, apply_control_total, apply_control-IsConfig, schema-apply_control,
  apply_control_unchanged,
}
use libre_wave.Protocol.Wave3.Controls.{IsDecodable, apply_control-IsDecodable}
use libre_wave.Protocol.Setup.{SetupPacket}
use libre_wave.Protocol.Setup.Packets.{config_transfer}
use libre_wave.Protocol.Identity.{in_, out}
use libre_wave.Device.Transport.{Transport, control_transfer_timeout}
use libre_wave.Device.Transport.Ideal.{Stores}
use libre_wave.Device.Configs.{same_config, same_config_iff, checked_config-bytes}
use libre_wave.Device.Session.{Wave3Session, ready}
use libre_wave.Device.Session.Valid.{IsSession}
use libre_wave.Device.Outcomes.{
  TransactionPhase, preflight_read, write, readback, TransactionOutcome, applied, unchanged,
  transaction_setup,
}
use libre_wave.Device.Transaction.{
  parsed, confirmed, read_payload, read_config, write_exact, write_verified, write_phase,
  write_if_changed, after_preflight, transfer_phase, after_patch, Wave3WriteState-discrete,
  transact_control,
}
use libre_wave.Device.Transaction.Traffic.{setup_length}

-- A configuration that the session's API version admits, complete and decodable.
record IsSound (api : ApiVersion) (c : Wave3Config) : Type 0 where
  pub admitted : config_schema api ≡ ok c.schema
  pub whole : IsConfig c
  pub decodes : IsDecodable c

parsed_bytes :
    (api : ApiVersion) (phase : TransactionPhase) (c : Wave3Config)
    → IsSound api c
    → parsed api phase c.bytes ≡ ok c
unfolding parsed
parsed_bytes api phase c sound =
    rw (sound.admitted, checked_config-bytes c sound.whole sound.decodes)

same_config_self : (c : Wave3Config) → IsConfig c → same_config c c ≡ true
same_config_self c whole = (same_config_iff c c whole.admitted whole.admitted).1 refl

setup_total :
    (s : Wave3Session)
    → IsSession s
    → (a : SetupPacket) × (b : SetupPacket) × (transaction_setup s ≡ ok (a, b))
unfolding transaction_setup
setup_total s valid =
    let (a, ea) = config_transfer s.control_interface in_ s.config.schema valid.whole.admitted in
    let (b, eb) = config_transfer s.control_interface out s.config.schema valid.whole.admitted in
    (a, b, rw (valid.admitted, ea, eb))

unlocked_test :
    (s : Wave3Session)
    → s.write_state ≡ ready
    → holds (Wave3WriteState-discrete s.write_state ready) ≡ true
unlocked_test s h = ground arith

module _ {T : Type 0} (port : Transport T) (memory : T → List ℕ) (stores : Stores port memory) where
  read_payload_stored :
      (packet : SetupPacket) (phase : TransactionPhase) (t : T) (payload : List ℕ)
      → packet.length ≡ 16
      → length payload ≡ 16
      → memory t ≡ payload
      → ((read_payload port packet phase t).0 ≡ ok payload)
        × (memory (read_payload port packet phase t).1 ≡ payload)
  unfolding read_payload
  read_payload_stored packet phase t payload long whole held =
      let kept =
        stores.reads packet (replicate 16 0) control_transfer_timeout t (ap length held ∙ whole) in
      ground (arith, kept)

  write_exact_stored :
      (packet : SetupPacket) (phase : TransactionPhase) (t : T) (payload : List ℕ)
      → packet.length ≡ 16
      → length payload ≡ 16
      → ((write_exact port packet payload phase t).0 ≡ ok tt)
        × (memory (write_exact port packet payload phase t).1 ≡ payload)
  unfolding write_exact
  write_exact_stored packet phase t payload long whole =
      ground (arith, stores.writes packet payload control_transfer_timeout t)

  read_config_stored :
      (packet : SetupPacket) (api : ApiVersion) (phase : TransactionPhase) (t : T) (c : Wave3Config)
      → packet.length ≡ 16
      → IsSound api c
      → memory t ≡ c.bytes
      → ((read_config port packet api phase t).0 ≡ ok c)
        × (memory (read_config port packet api phase t).1 ≡ c.bytes)
  unfolding read_config
  read_config_stored packet api phase t c long sound held =
      let (r, m) = read_payload_stored packet phase t c.bytes long sound.whole.complete held in
      (rw r (parsed_bytes api phase c sound), m)

  write_verified_stored :
      (a b : SetupPacket) (api : ApiVersion) (c : Wave3Config) (t : T)
      → a.length ≡ 16
      → b.length ≡ 16
      → IsSound api c
      → ((write_verified port a b api c t).0 ≡ ok c)
        × (memory (write_verified port a b api c t).1 ≡ c.bytes)
  unfolding write_verified confirmed
  write_verified_stored a b api c t la lb sound =
      let (w, m) = write_exact_stored b write t c.bytes lb sound.whole.complete in
      let (r, k) =
        read_config_stored a api readback (write_exact port b c.bytes write t).1 c la sound m in
      (rw (w, r, same_config_self c sound.whole), rw w k)

  -- The result of the change, when every transfer works.
  abbrev pub Done :
      Wave3Session → PatchResult → Wave3Config → TransactionOutcome × Wave3Session × T → Type 0
  Done s patch requested (outcome, s', t') =
      (outcome ≡ elim patch [
        | PatchResult.unchanged ↦ unchanged requested
        | PatchResult.changed ↦ applied requested
      ])
      × (s' ≡ record s { config = requested })
      × (memory t' ≡ requested.bytes)

  module _ (s : Wave3Session) (valid : IsSession s) (change : Wave3ControlChange)
      (requested : Wave3Config) where
    sound : IsSound s.api s.config
    sound = record { admitted = valid.admitted; whole = valid.whole; decodes = valid.decodes }

    write_phase_stored :
        (a b : SetupPacket) (t : T)
        → a.length ≡ 16
        → b.length ≡ 16
        → IsSound s.api requested
        → Done s PatchResult.changed requested (write_phase port s a b s.config requested t)
    unfolding write_phase
    write_phase_stored a b t la lb wanted =
        let (r, m) = write_verified_stored a b s.api requested t la lb wanted in
        rw r (refl, refl, m)

    write_if_changed_stored :
        (patch : PatchResult) (a b : SetupPacket) (t : T)
        → apply_control s.config change ≡ ok (patch, requested)
        → a.length ≡ 16
        → b.length ≡ 16
        → IsSound s.api requested
        → memory t ≡ s.config.bytes
        → Done s patch requested (write_if_changed port s a b s.config patch requested s.config t)
    unfolding write_if_changed
    write_if_changed_stored PatchResult.unchanged a b t patched la lb wanted held =
        let kept = apply_control_unchanged s.config change requested patched in
        (
          ap unchanged kept,
          ap (λ (c : Wave3Config). record s { config = c }) kept,
          held ∙ ap (λ (c : Wave3Config). c.bytes) kept,
        )
    write_if_changed_stored PatchResult.changed a b t patched la lb wanted held =
        write_phase_stored a b t la lb wanted

    requested-IsSound :
        (patch : PatchResult)
        → apply_control s.config change ≡ ok (patch, requested)
        → IsSound s.api requested
    requested-IsSound patch patched = record {
      admitted =
          valid.admitted
          ∙ ap ok (sym (schema-apply_control s.config change patch requested patched));
      whole = apply_control-IsConfig s.config change patch requested patched valid.whole;
      decodes = apply_control-IsDecodable s.config change patch requested patched valid.decodes;
    }

    transfer_phase_stored :
        (patch : PatchResult) (t : T)
        → apply_control s.config change ≡ ok (patch, requested)
        → memory t ≡ s.config.bytes
        → Done s patch requested
            (transfer_phase port s s.config patch requested (transaction_setup s) t)
    unfolding transfer_phase after_preflight
    transfer_phase_stored patch t patched held =
        let (a, b, e) = setup_total s valid in
        let (la, lb) = setup_length s a b e in
        let (r, m) = read_config_stored a s.api preflight_read t s.config la sound held in
        rw (e, r, same_config_self s.config valid.whole)
          (write_if_changed_stored patch a b (read_config port a s.api preflight_read t).1 patched
            la lb (requested-IsSound patch patched) m)

  -- On a device that stores what it is sent, a typed change from the retained baseline, while writes
  -- are not locked and the device still holds that baseline, is always carried out: it is reported as
  -- applied, or as unchanged where it asks for what is there; session and device then hold the
  -- baseline with the change applied.
  pub transact_control_stored :
      (s : Wave3Session) (change : Wave3ControlChange) (t : T)
      → IsSession s
      → s.write_state ≡ ready
      → IsReviewed change
      → memory t ≡ s.config.bytes
      → (patch : PatchResult) × (requested : Wave3Config) × (apply_control s.config change
          ≡ ok (patch, requested))
        × Done s patch requested (transact_control port s s.config change t)
  unfolding transact_control after_patch
  transact_control_stored s change t valid unlocked reviewed held =
      let (patch, requested, patched) = apply_control_total s.config change valid.whole reviewed in
      (
        patch,
        requested,
        patched,
        rw (unlocked_test s unlocked, same_config_self s.config valid.whole, patched)
            (transfer_phase_stored s valid change requested patch t patched held),
      )
