-- ===== src/Protocol/Setup.antt =====
-- crates/librewave-protocol/src/setup.rs: USB control setup packets.
pub mod Packets
pub mod Wire
use libre_wave.Common.{
  ℕ, List, [], ◌∷◌, Bool, true, false, not, if◌then◌else◌, ltb, bit_or, Result, ok, err, ◌>>=◌,
  ◌>>◌, ensure,
}
use libre_wave.Common.Bytes.{low_byte, high_byte}
use libre_wave.Protocol.Identity.{ApiVersion, api_version, Direction, in_, out}
use libre_wave.Protocol.Schema.{MessageSchema}

pub record SetupPacket : Type 0 where
  pub request_type : ℕ
  pub request : ℕ
  pub value : ℕ
  pub index : ℕ
  pub length : ℕ

unfoldable pub to_bytes : SetupPacket → List ℕ
to_bytes p =
    p.request_type
    ∷ p.request
    ∷ low_byte p.value
    ∷ high_byte p.value
    ∷ low_byte p.index
    ∷ high_byte p.index
    ∷ low_byte p.length
    ∷ high_byte p.length
    ∷ []

pub data SetupError : Type 0 where
  message_not_readable message_not_writable payload_too_large : SetupError

-- `0x3300 | u16::from(interface)`
unfoldable pub interface_index : ℕ → ℕ
interface_index interface = bit_or 0x3300 interface

unfoldable pub version_probe : ℕ → SetupPacket
version_probe interface = record {
  request_type = 0xa1;
  request = 0x85;
  value = 0x000a;
  index = interface_index interface;
  length = 2;
}

unfoldable pub decode_version_response : ℕ → ℕ → ApiVersion
decode_version_response major minor = api_version major minor

abbrev request_type_of : Direction → ℕ
request_type_of in_ = 0xa1
request_type_of out = 0x21

abbrev request_of : Direction → ℕ
request_of in_ = 0x85
request_of out = 0x05

check_access : Direction → MessageSchema → Result SetupError (Unit {0})
check_access in_ message = ensure message.access.readable message_not_readable
check_access out message = ensure message.access.writable message_not_writable

-- `u16::try_from(payload_size)` fails from 2 ^ 16 on.
unfoldable pub message_transfer : ℕ → Direction → MessageSchema → Result SetupError SetupPacket
unfolding check_access
message_transfer interface direction message = do
  check_access direction message
  ensure (ltb message.identity.payload_size 65536) payload_too_large
  ok (record {
    request_type = request_type_of direction;
    request = request_of direction;
    value = message.identity.message.id;
    index = interface_index interface;
    length = message.identity.payload_size;
  })
