-- ===== src/Protocol/Setup/Wire.antt =====
-- The eight bytes of a packet of crates/librewave-protocol/src/setup.rs, as USB 2.0 lays them out.
use libre_wave.Common.{
  ℕ, ◌≡◌, ◌↔◌, List, [], ◌∷◌, Option, none, some, arith, ◌*◌, ◌+◌, ap, sym, ◌∙◌,
}
use libre_wave.Common.Bytes.{low_byte, high_byte, IsByte, IsBytes}
use libre_wave.Protocol.Setup.{SetupPacket, to_bytes}
use libre_wave.Protocol.Setup.Packets.{IsPacket}

-- What a device reads from the bytes: bmRequestType, bRequest, and then wValue, wIndex and wLength, each
-- with its low byte first (USB 2.0, table 9-2).
pub read_setup : List ℕ → Option SetupPacket
read_setup (t ∷ r ∷ v0 ∷ v1 ∷ i0 ∷ i1 ∷ l0 ∷ l1 ∷ []) = some (record {
  request_type = t;
  request = r;
  value = v0 + 256 * v1;
  index = i0 + 256 * i1;
  length = l0 + 256 * l1;
})
read_setup _ = none

read_setup-to_bytes : (p : SetupPacket) → IsPacket p → read_setup (to_bytes p) ≡ some p
unfolding read_setup to_bytes low_byte high_byte
read_setup-to_bytes p h = ground arith

low_of_word : (a b : ℕ) → IsByte a → IsByte b → low_byte (a + 256 * b) ≡ a
unfolding low_byte
low_of_word a b h k = omega arith

high_of_word : (a b : ℕ) → IsByte a → IsByte b → high_byte (a + 256 * b) ≡ b
unfolding high_byte
high_of_word a b h k = omega arith

to_bytes-read_setup :
    (p : SetupPacket) (bytes : List ℕ)
    → IsBytes bytes
    → read_setup bytes ≡ some p
    → to_bytes p ≡ bytes
unfolding read_setup to_bytes
to_bytes-read_setup p (t ∷ r ∷ v0 ∷ v1 ∷ i0 ∷ i1 ∷ l0 ∷ l1 ∷ [])
      (_, (_, (a, (b, (c, (d, (e, (f, _)))))))) h =
    ground (
      arith,
      low_of_word v0 v1 a b,
      high_of_word v0 v1 a b,
      low_of_word i0 i1 c d,
      high_of_word i0 i1 c d,
      low_of_word l0 l1 e f,
      high_of_word l0 l1 e f,
    )
to_bytes-read_setup p _ bytes h = absurd (ground arith)

-- On a packet whose three words have 16 bits, and on bytes below 256: the bytes are those of the packet
-- exactly if a device reads this packet from them, with bmRequestType and bRequest first and then
-- wValue, wIndex and wLength, the low byte of each before the high one.
pub to_bytes_iff :
    (p : SetupPacket) (bytes : List ℕ)
    → IsPacket p
    → IsBytes bytes
    → (to_bytes p ≡ bytes) ↔ (read_setup bytes ≡ some p)
to_bytes_iff p bytes fits small =
    (λ e. ap read_setup (sym e) ∙ read_setup-to_bytes p fits, to_bytes-read_setup p bytes small)
