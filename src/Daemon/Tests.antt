-- ===== src/Daemon/Tests.antt =====
-- The properties of crates/librewaved at concrete inputs.
use libre_wave.Common.{refl, true}
use libre_wave.Protocol.Schema.{is_config_schema}
use libre_wave.Protocol.Tests.{zeros}
use libre_wave.Core.Controls.{microphone_mute}
use libre_wave.Device.Transport.Ideal.{ideal}
use libre_wave.Device.Tests.{session}
use libre_wave.Daemon.Control.{apply}
use libre_wave.Daemon.Control.Truth.{IsTrue, apply-IsTrue}

apply-IsTrue_example :
    IsTrue session
      (apply ideal session (microphone_mute true) zeros).0
      (apply ideal session (microphone_mute true) zeros).1
unfolding is_config_schema
apply-IsTrue_example = apply-IsTrue ideal session (microphone_mute true) zeros refl
