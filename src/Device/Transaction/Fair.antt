-- ===== src/Device/Transaction/Fair.antt =====
-- The errors of crates/librewave-device/src/transaction.rs that name a configuration.
use libre_wave.Common.{
  ℕ, ◌≡◌, inl, inr, List, Bool-cases, Result, ok, err, ltb, map_err, ◌>>=◌, replicate, ◌==◌,
}
use libre_wave.Protocol.Identity.{ApiVersion}
use libre_wave.Protocol.Schema.{config_schema, deref}
use libre_wave.Protocol.Wave3.{Wave3Config}
use libre_wave.Protocol.Setup.{SetupPacket, message_transfer}
use libre_wave.Protocol.Identity.{in_, out}
use libre_wave.Device.Transport.{Transport, TransportError, control_transfer_timeout}
use libre_wave.Device.Configs.{checked_config}
use libre_wave.Device.Session.{Wave3Session, protocol, setup}
use libre_wave.Device.Outcomes.{
  TransactionPhase, TransactionError, stale_baseline, schema, invalid_configuration,
  transaction_setup,
}
use libre_wave.Device.Transaction.{check_length, completed, read_payload, parsed, read_config}

-- Only this configuration may be reported as the one found in place of the baseline.
abbrev pub Names : TransactionError → Wave3Config → Type 0
Names (stale_baseline expected actual) config = actual ≡ config
Names _ config = Unit

-- An error that names no configuration, if it is one.
abbrev pub Fair : {A : Type 0} → Result TransactionError A → Type 0
Fair (ok a) = Unit
Fair (err e) = (config : Wave3Config) → Names e config

bind-Fair :
    {A B : Type 0} (r : Result TransactionError A) (next : A → Result TransactionError B)
    → Fair r
    → ((a : A) → Fair (next a))
    → Fair (r >>= next)
bind-Fair (ok a) next h k = k a
bind-Fair (err e) next h k = h

map_err-Fair :
    {E A : Type 0} (r : Result E A) (f : E → TransactionError)
    → ((e : E) (config : Wave3Config) → Names (f e) config)
    → Fair (map_err f r)
map_err-Fair (ok a) f h = tt
map_err-Fair (err e) f h = h e

check_length-Fair :
    {A : Type 0} (phase : TransactionPhase) (expected actual : ℕ) (a : A)
    → Fair (check_length phase expected actual a)
unfolding check_length
check_length-Fair phase expected actual a = elim (Bool-cases (ltb actual expected)) [
  | inl e ↦ rw (e, Fair) (λ config. tt)
  | inr e ↦ elim (Bool-cases (ltb expected actual)) [
    | inl f ↦ rw (e, f, Fair) (λ config. tt)
    | inr f ↦ rw (e, f, Fair) tt
  ]
]

completed-Fair :
    {A : Type 0} (phase : TransactionPhase) (expected : ℕ) (a : A) (r : Result TransportError ℕ)
    → Fair (completed phase expected a r)
unfolding completed
completed-Fair phase expected a (ok actual) = check_length-Fair phase expected actual a
completed-Fair phase expected a (err e) = λ config. tt

parsed-Fair :
    (api : ApiVersion) (phase : TransactionPhase) (payload : List ℕ)
    → Fair (parsed api phase payload)
unfolding parsed
parsed-Fair api phase payload =
    bind-Fair (map_err (λ e. schema (protocol e)) (config_schema api))
      (λ reference. map_err (invalid_configuration phase) (checked_config reference payload))
      (map_err-Fair (config_schema api) (λ e. schema (protocol e)) (λ e config. tt))
      (λ reference.
        map_err-Fair (checked_config reference payload) (invalid_configuration phase)
          (λ e config. tt))

pub transaction_setup-Fair : (session : Wave3Session) → Fair (transaction_setup session)
unfolding transaction_setup
transaction_setup-Fair session =
    bind-Fair (map_err (λ e. schema (protocol e)) (config_schema session.api)) _
      (map_err-Fair (config_schema session.api) (λ e. schema (protocol e)) (λ e config. tt))
      (λ reference.
        bind-Fair
          (map_err (λ e. schema (setup e))
            (message_transfer session.control_interface in_ (deref reference)))
          _
          (map_err-Fair (message_transfer session.control_interface in_ (deref reference)) _
            (λ e config. tt))
          (λ receive.
            bind-Fair
              (map_err (λ e. schema (setup e))
                (message_transfer session.control_interface out (deref reference)))
              _
              (map_err-Fair (message_transfer session.control_interface out (deref reference)) _
                (λ e config. tt))
              (λ send. tt)))

module _ {T : Type 0} (port : Transport T) where
  read_payload-Fair :
      (packet : SetupPacket) (phase : TransactionPhase) (t : T)
      → Fair (read_payload port packet phase t).0
  unfolding read_payload
  read_payload-Fair packet phase t =
      let (r, payload, t') = port.read_control packet (replicate 16 0) control_transfer_timeout t in
      elim (Bool-cases (16 == packet.length)) [
        | inl e ↦ rw (e, Fair) (completed-Fair phase packet.length payload r)
        | inr e ↦ rw (e, Fair) (λ config. tt)
      ]

  pub read_config-Fair :
      (packet : SetupPacket) (api : ApiVersion) (phase : TransactionPhase) (t : T)
      → Fair (read_config port packet api phase t).0
  unfolding read_config
  read_config-Fair packet api phase t =
      bind-Fair (read_payload port packet phase t).0 (parsed api phase)
        (read_payload-Fair packet phase t) (parsed-Fair api phase)
