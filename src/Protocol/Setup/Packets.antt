-- ===== src/Protocol/Setup/Packets.antt =====
-- The packets of crates/librewave-protocol/src/setup.rs on the wire, and which messages may be written.
use libre_wave.Common.{
  ℕ, zero, suc, ◌+◌, ◌<◌, ◌≡◌, ◌↔◌, refl, Bool, true, ◌&&◌, ◌==◌, arith, bit_or, ok, err, ==_iff,
  tests, Bool-cases, ltb, lt→ltb, ◌≤◌, inl, inr, false,
}
use libre_wave.Common.Bytes.{IsByte}
use libre_wave.Protocol.Identity.{Direction, in_, out}
use libre_wave.Protocol.Schema.{
  MessageSchema, SchemaRef, deref, is_config_schema, config_schema_5_3, config_schema_5_4, copy,
}
use libre_wave.Protocol.Schema.Admission.{IsStatic}
use libre_wave.Protocol.Setup.{
  SetupPacket, SetupError, message_not_readable, message_not_writable, payload_too_large,
  message_transfer, interface_index,
}

-- Whether a test holds of all numbers under a bound.
table : (ℕ → Bool) → (bound : ℕ) → Bool
table test zero = true
table test (suc k) = test k && table test k

table_entry : (test : ℕ → Bool) (bound i : ℕ) → i < bound → table test bound ≡ true → test i ≡ true
unfolding table
table_entry test zero i small full = absurd (omega arith)
table_entry test (suc k) i small full = ground (arith, table_entry test k i)

interface_table : table (λ i. bit_or 0x3300 i == 0x3300 + i) 256 ≡ true
unfolding table
interface_table = refl

pub interface_index_lem :
    (interface : ℕ) → IsByte interface → interface_index interface ≡ 0x3300 + interface
unfolding interface_index
interface_index_lem i h =
    (==_iff (bit_or 0x3300 i) (0x3300 + i)).0 (table_entry _ 256 i h interface_table)

pub record IsPacket (p : SetupPacket) : Type 0 where
  pub value_word : p.value < 65536
  pub index_word : p.index < 65536
  pub length_word : p.length < 65536

-- The class requests of the legacy UAC1 transfers: to an interface, and from it with the bit of the
-- direction set.
abbrev pub Codes : Direction → SetupPacket → Type 0
Codes in_ p = (p.request_type ≡ 0xa1) × (p.request ≡ 0x85)
Codes out p = (p.request_type ≡ 0x21) × (p.request ≡ 0x05)

abbrev pub Permits : Direction → MessageSchema → Type 0
Permits in_ message = message.access.readable ≡ true
Permits out message = message.access.writable ≡ true

abbrev pub refusal : Direction → SetupError
refusal in_ = message_not_readable
refusal out = message_not_writable

-- The packet that carries a message.
pub record IsTransfer (interface : ℕ) (direction : Direction) (message : MessageSchema)
    (p : SetupPacket) : Type 0 where
  pub permitted : Permits direction message
  pub fits : message.identity.payload_size < 65536
  pub codes : Codes direction p
  pub message_id : p.value ≡ message.identity.message.id
  pub unit_interface : p.index ≡ 0x3300 + interface
  pub whole : p.length ≡ message.identity.payload_size

made-IsTransfer :
    (interface : ℕ) (direction : Direction) (message : MessageSchema) (p : SetupPacket)
    → IsByte interface
    → message_transfer interface direction message ≡ ok p
    → IsTransfer interface direction message p
unfolding message_transfer
made-IsTransfer i in_ m p b h = record {
  permitted = ground arith;
  fits = grind tests;
  codes = ground arith;
  message_id = ground arith;
  unit_interface = ground (arith, interface_index_lem i b);
  whole = ground arith;
}
made-IsTransfer i out m p b h = record {
  permitted = ground arith;
  fits = grind tests;
  codes = ground arith;
  message_id = ground arith;
  unit_interface = ground (arith, interface_index_lem i b);
  whole = ground arith;
}

IsTransfer-made :
    (interface : ℕ) (direction : Direction) (message : MessageSchema) (p : SetupPacket)
    → IsByte interface
    → IsTransfer interface direction message p
    → message_transfer interface direction message ≡ ok p
unfolding message_transfer
IsTransfer-made i in_ m p b t =
    let fits : ltb m.identity.payload_size 65536 ≡ true = lt→ltb _ _ t.fits in
    ground (
      arith,
      t.permitted,
      fits,
      interface_index_lem i b,
      t.codes,
      t.message_id,
      t.unit_interface,
      t.whole,
    )
IsTransfer-made i out m p b t =
    let fits : ltb m.identity.payload_size 65536 ≡ true = lt→ltb _ _ t.fits in
    ground (
      arith,
      t.permitted,
      fits,
      interface_index_lem i b,
      t.codes,
      t.message_id,
      t.unit_interface,
      t.whole,
    )

refused :
    (interface : ℕ) (direction : Direction) (message : MessageSchema)
    → (message_transfer interface direction message ≡ err (refusal direction))
      ↔ ¬ Permits direction message
unfolding message_transfer
refused i in_ m = (
  λ e h. ground arith,
  λ n. elim (Bool-cases m.access.readable) [ inl h ↦ absurd (n h) | inr h ↦ ground arith ],
)
refused i out m = (
  λ e h. ground arith,
  λ n. elim (Bool-cases m.access.writable) [ inl h ↦ absurd (n h) | inr h ↦ ground arith ],
)

too_large :
    (interface : ℕ) (direction : Direction) (message : MessageSchema)
    → (message_transfer interface direction message ≡ err payload_too_large)
      ↔ (Permits direction message × (65536 ≤ message.identity.payload_size))
unfolding message_transfer
too_large i in_ m = (
  λ e. (ground arith, grind tests),
  λ h. let large : ltb m.identity.payload_size 65536 ≡ false = grind tests in ground arith,
)
too_large i out m = (
  λ e. (ground arith, grind tests),
  λ h. let large : ltb m.identity.payload_size 65536 ≡ false = grind tests in ground arith,
)

-- For a message of any schema and an interface below 256. The transfer is made exactly if the schema
-- permits its direction and its size has 16 bits, and it is then the packet with the codes 0xa1 and
-- 0x85 to read or 0x21 and 0x05 to write, the message identifier, the unit 0x33 over the interface, and
-- the size. It is refused as not readable or not writable exactly if the direction is not permitted,
-- and as too large exactly if the direction is permitted and the size has more than 16 bits.
pub message_transfer_iff :
    (interface : ℕ) (direction : Direction) (message : MessageSchema)
    → IsByte interface
    → ((p : SetupPacket)
        → (message_transfer interface direction message ≡ ok p)
          ↔ IsTransfer interface direction message p)
      × ((message_transfer interface direction message ≡ err (refusal direction))
          ↔ ¬ Permits direction message)
      × ((message_transfer interface direction message ≡ err payload_too_large)
          ↔ (Permits direction message × (65536 ≤ message.identity.payload_size)))
message_transfer_iff i d m b =
    (λ p. (made-IsTransfer i d m p b, IsTransfer-made i d m p b), refused i d m, too_large i d m)

-- Of the six admitted messages only the two configuration messages can be sent to the device.
pub out_transfer_iff :
    (interface : ℕ) (r : SchemaRef)
    → IsStatic r
    → ((p : SetupPacket) × (message_transfer interface out (deref r) ≡ ok p))
      ↔ (is_config_schema r ≡ true)
unfolding message_transfer deref is_config_schema
out_transfer_iff i config_schema_5_3 s = (λ h. refl, λ h. (_, refl))
out_transfer_iff i config_schema_5_4 s = (λ h. refl, λ h. (_, refl))
out_transfer_iff i (copy m) s = absurd s
out_transfer_iff i _ s = (λ h. absurd (ground (arith, h.1)), λ h. cc)

pub config_transfer :
    (interface : ℕ) (direction : Direction) (r : SchemaRef)
    → is_config_schema r ≡ true
    → (p : SetupPacket) × (message_transfer interface direction (deref r) ≡ ok p)
unfolding message_transfer deref is_config_schema
config_transfer i in_ config_schema_5_3 h = (_, refl)
config_transfer i in_ config_schema_5_4 h = (_, refl)
config_transfer i out config_schema_5_3 h = (_, refl)
config_transfer i out config_schema_5_4 h = (_, refl)
config_transfer i _ _ h = absurd (ground arith)
