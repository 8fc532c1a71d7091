-- ===== src/Device/Transport/Ideal.antt =====
-- A device that behaves: its memory holds one payload, a read returns it, and a write replaces it.
use libre_wave.Common.{ℕ, ◌≡◌, refl, ap, List, length, ok}
use libre_wave.Protocol.Setup.{SetupPacket}
use libre_wave.Device.Transport.{Transport}

-- What such a device promises, of any transport.
pub record Stores {T : Type 0} (port : Transport T) (memory : T → List ℕ) : Type 0 where
  pub reads :
      (packet : SetupPacket) (buffer : List ℕ) (timeout : ℕ) (t : T)
      → length (memory t) ≡ length buffer
      → (let (r, response, t') = port.read_control packet buffer timeout t in
          (r ≡ ok (length buffer)) × (response ≡ memory t) × (memory t' ≡ memory t))
  pub writes :
      (packet : SetupPacket) (payload : List ℕ) (timeout : ℕ) (t : T)
      → (let (r, t') = port.write_control packet payload timeout t in
          (r ≡ ok (length payload)) × (memory t' ≡ payload))

abbrev pub ideal : Transport (List ℕ)
ideal = record {
  read_control = λ packet buffer timeout m. (ok (length m), m, m);
  write_control = λ packet payload timeout m. (ok (length payload), payload);
}

pub ideal-Stores : Stores ideal (λ m. m)
ideal-Stores = record {
  reads = λ packet buffer timeout m h. (ap ok h, refl, refl);
  writes = λ packet payload timeout m. (refl, refl);
}
