-- ===== src/Device/Session/Valid.antt =====
-- The invariant of a session of crates/librewave-device/src/session.rs, under the probe and the
-- refresh.
use libre_wave.Common.{
  ℕ, ◌≡◌, inl, inr, refl, sym, ap, ◌∙◌, List, arith, Bool-cases, Result, ok, err, ◌>>=◌, >>=-eq-ok,
  subst, ◌≢◌, replicate, get_or,
}
use libre_wave.Common.Bytes.{IsBytes}
use libre_wave.Protocol.Schema.{SchemaRef, config_schema}
use libre_wave.Protocol.Wave3.{Wave3Config, controls, Wave3ControlState}
use libre_wave.Protocol.Wave3.Edit.{IsConfig}
use libre_wave.Protocol.Wave3.Controls.{IsDecodable, controls_total}
use libre_wave.Protocol.Identity.{ApiVersion}
use libre_wave.Protocol.Setup.{SetupPacket, version_probe, decode_version_response}
use libre_wave.Device.Transport.{Transport, KeepsBuffer, control_transfer_timeout}
use libre_wave.Device.Configs.{checked_config-IsConfig, same_config, same_config_iff}
use libre_wave.Device.Session.{
  Wave3Session, ready, needs_reprobe, SessionError, Wave3RefreshOutcome, unchanged, changed, parsed,
  read_request, after_request, after_version, after_refresh, admitted, read_exact, read_config,
  probe_wave3, refresh_config,
}

pub record IsSession (s : Wave3Session) : Type 0 where
  pub admitted : config_schema s.api ≡ ok s.config.schema
  pub whole : IsConfig s.config
  pub decodes : IsDecodable s.config

abbrev pub Refreshed :
    Wave3Session → Result SessionError Wave3RefreshOutcome → Wave3Session → Type 0
Refreshed s (ok (unchanged c)) s' = (s' ≡ s) × (c ≡ s.config)
Refreshed s (ok (changed c)) s' = (s' ≡ record s { config = c }) × (c ≢ s.config)
Refreshed s (err e) s' = s' ≡ record s { write_state = needs_reprobe }

module _ {T : Type 0} (port : Transport T) (keeps : KeepsBuffer port) where
  read_exact-IsBytes :
      (packet : SetupPacket) (buffer : List ℕ) (t : T) (payload : List ℕ)
      → IsBytes buffer
      → (read_exact port packet buffer t).0 ≡ ok payload
      → IsBytes payload
  unfolding read_exact
  read_exact-IsBytes packet buffer t payload bytes h =
      subst IsBytes (ground arith)
        (keeps.still_bytes packet buffer control_transfer_timeout t bytes)

  after_request-valid :
      (api : ApiVersion) (request : Result SessionError (SchemaRef × SetupPacket)) (t : T)
      (c : Wave3Config)
      → ((r : SchemaRef) (packet : SetupPacket)
          → request ≡ ok (r, packet)
          → config_schema api ≡ ok r)
      → (after_request port request t).0 ≡ ok c
      → (config_schema api ≡ ok c.schema) × IsConfig c × IsDecodable c
  unfolding after_request
  after_request-valid api (ok (r, packet)) t c schema h =
      let (payload, read, made) =
        >>=-eq-ok (read_exact port packet (replicate 16 0) t).0 (parsed r) h in
      let (whole, decodes, shape) =
        checked_config-IsConfig r payload c (ground arith)
          (read_exact-IsBytes packet (replicate 16 0) t payload (omega arith) read) in
      (
        schema r packet refl ∙ ap ok (sym (ap (λ (c : Wave3Config). c.schema) shape)),
        whole,
        decodes,
      )
  after_request-valid api (err e) t c schema h = absurd (ground arith)

  -- What a read gives is a configuration of the schema of its API version.
  read_config-valid :
      (interface : ℕ) (api : ApiVersion) (t : T) (c : Wave3Config)
      → (read_config port interface api t).0 ≡ ok c
      → (config_schema api ≡ ok c.schema) × IsConfig c × IsDecodable c
  unfolding read_config
  read_config-valid interface api t c h =
      after_request-valid api (read_request interface api) t c (λ r packet e. ground arith) h

  admitted-IsSession :
      (interface : ℕ) (api : ApiVersion) (t : T) (s : Wave3Session)
      → ((read_config port interface api t).0 >>= λ config. ok (admitted interface api config))
        ≡ ok s
      → IsSession s × (s.write_state ≡ ready) × (s.control_interface ≡ interface)
  unfolding admitted
  admitted-IsSession interface api t s h =
      let (c, read, made) = >>=-eq-ok (read_config port interface api t).0 _ h in
      let (schema, whole, decodes) = read_config-valid interface api t c read in
      (
        record {
          admitted = ground arith;
          whole = subst IsConfig (ground arith) whole;
          decodes = subst IsDecodable (ground arith) decodes;
        },
        ground arith,
        ground arith,
      )

  after_version-IsSession :
      (interface : ℕ) (version : Result SessionError (List ℕ)) (t : T) (s : Wave3Session)
      → (after_version port interface version t).0 ≡ ok s
      → IsSession s × (s.write_state ≡ ready) × (s.control_interface ≡ interface)
  unfolding after_version
  after_version-IsSession interface (ok v) t s h =
      admitted-IsSession interface (decode_version_response (get_or v 0 0) (get_or v 1 0)) t s h
  after_version-IsSession interface (err e) t s h = absurd (ground arith)

  -- An admitted session is valid: its configuration is complete, of the schema of its API version,
  -- and decodes in every field; and its control view exists.
  pub probe_wave3-IsSession :
      (interface : ℕ) (t : T) (s : Wave3Session)
      → (probe_wave3 port interface t).0 ≡ ok s
      → IsSession s
        × (s.write_state ≡ ready)
        × (s.control_interface ≡ interface)
        × ((view : Wave3ControlState) × (controls s.config ≡ ok view))
  unfolding probe_wave3
  probe_wave3-IsSession interface t s h =
      let (r, t') = read_exact port (version_probe interface) (replicate 2 0) t in
      let (valid, state, same) = after_version-IsSession interface r t' s h in
      (valid, state, same, controls_total s.config valid.decodes)

  after_refresh-IsSession :
      (s : Wave3Session) (r : Result SessionError Wave3Config) (t : T)
      → IsSession s
      → ((c : Wave3Config)
          → r ≡ ok c
          → (config_schema s.api ≡ ok c.schema) × IsConfig c × IsDecodable c)
      → (let (o, s', t') = after_refresh port s r t in IsSession s' × Refreshed s o s')
  unfolding after_refresh
  after_refresh-IsSession s (ok c) t valid read =
      let (schema, whole, decodes) = read c refl in
      let same = same_config_iff c s.config whole.admitted valid.whole.admitted in
      elim (Bool-cases (same_config c s.config)) [
        | inl e ↦ rw e (valid, (refl, same.0 e))
        | inr e ↦ rw e (
          record { admitted = schema; whole = whole; decodes = decodes },
          (refl, λ q. ground (arith, same.1 q)),
        )
      ]
  after_refresh-IsSession s (err e) t valid read =
      (record { admitted = valid.admitted; whole = valid.whole; decodes = valid.decodes }, refl)

  -- A refresh keeps the session valid, whatever the transport answers. A failed read keeps the
  -- baseline and locks writes; no refresh unlocks them; and a successful one reports whether the
  -- configuration that it retains is a new one.
  pub refresh_config-IsSession :
      (s : Wave3Session) (t : T)
      → IsSession s
      → (let (r, s', t') = refresh_config port s t in IsSession s' × Refreshed s r s')
  unfolding refresh_config
  refresh_config-IsSession s t valid =
      let (r, t') = read_config port s.control_interface s.api t in
      after_refresh-IsSession s r t' valid (read_config-valid s.control_interface s.api t)
