-- ===== src/Device/Transport.antt =====
-- The transports of crates/librewave-device/src/session.rs and transaction.rs, `ReadOnlyTransport`
-- and `ControlWriteTransport`, which the platform implements: a transport is a state `T` with the
-- two calls, each of which returns the new state. Code that calls it is a function of that state.
pub mod Ideal
use libre_wave.Common.{ℕ, List, ◌∷◌, ◌≡◌, length, Result}
use libre_wave.Common.Bytes.{IsBytes}
use libre_wave.Protocol.Setup.{SetupPacket}

pub data TransportError : Type 0 where
  not_found permission_denied busy timed_out disconnected io : TransportError

-- `CONTROL_TRANSFER_TIMEOUT`, in milliseconds.
abbrev pub control_transfer_timeout : ℕ
control_transfer_timeout = 500

-- `read_control` fills a response buffer and returns the completed length; `write_control` sends a
-- setup packet with a payload (`ControlWriteRequest`).
pub record Transport (T : Type 0) : Type 0 where
  pub read_control : SetupPacket → List ℕ → ℕ → T → Result TransportError ℕ × List ℕ × T
  pub write_control : SetupPacket → List ℕ → ℕ → T → Result TransportError ℕ × T

-- What the type `&mut [u8]` of the response guarantees: a call leaves bytes, as many as before.
pub record KeepsBuffer {T : Type 0} (port : Transport T) : Type 0 where
  pub same_length :
      (setup : SetupPacket) (buffer : List ℕ) (timeout : ℕ) (t : T)
      → length (port.read_control setup buffer timeout t).1 ≡ length buffer
  pub still_bytes :
      (setup : SetupPacket) (buffer : List ℕ) (timeout : ℕ) (t : T)
      → IsBytes buffer
      → IsBytes (port.read_control setup buffer timeout t).1

-- A transport that keeps the payloads it was asked to send, the newest first.
abbrev pub recording : {T : Type 0} → Transport T → Transport (T × List (List ℕ))
recording port = record {
  read_control = λ setup buffer timeout s.
      let (r, b, t') = port.read_control setup buffer timeout s.0 in (r, b, (t', s.1));
  write_control = λ setup payload timeout s.
      let (r, t') = port.write_control setup payload timeout s.0 in (r, (t', payload ∷ s.1));
}
