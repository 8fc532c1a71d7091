-- ===== src/Platform/Candidate.antt =====
-- crates/librewave-platform-linux/src/lib.rs: the candidate that discovery hands on, and the endpoints of
-- crates/librewave-core/src/lib.rs that the audio graph publishes.
use libre_wave.Common.{ℕ, List, [], ◌∷◌, Option}
use libre_wave.Device.Session.{DeviceIdentity}

pub record UsbTopology : Type 0 where
  pub name : List ℕ

pub record AlsaCardInfo : Type 0 where
  pub number : ℕ
  pub id : Option (List ℕ)
  pub name : Option (List ℕ)

pub record UsbDeviceCandidate : Type 0 where
  pub identity : DeviceIdentity
  pub topology : UsbTopology
  pub alsa_cards : List AlsaCardInfo

pub data EndpointId : Type 0 where
  system microphone monitor_mix stream_mix : EndpointId
  input : (source : ℕ) → EndpointId

unfoldable pub deliberate_endpoints : List EndpointId
deliberate_endpoints = system ∷ microphone ∷ monitor_mix ∷ stream_mix ∷ []
