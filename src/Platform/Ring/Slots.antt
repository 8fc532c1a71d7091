-- ===== src/Platform/Ring/Slots.antt =====
-- Which slot a sequence number has: consecutive numbers have consecutive slots, and the numbers of a
-- full ring have different ones.
use native.Mathlib.Nat.{mod-add-mod, mod-eq_of_lt, mod-eq-sub-mod, mod-lt, mod_self}
use libre_wave.Common.{ℕ, ◌+◌, ◌-◌, ◌%◌, ◌<◌, ◌≡◌, ◌≢◌, ◌∙◌, sym, ap, dec_lt, ℕ_discrete, arith}
use libre_wave.Platform.Ring.{advance_slot}

-- What is left of `position + offset` when the slot of `position` is known.
slot-shift :
    (capacity position offset : ℕ)
    → (position + offset) % capacity ≡ (position % capacity + offset) % capacity
slot-shift capacity position offset = sym (mod-add-mod position capacity offset)

next_slot : (capacity at : ℕ) → at < capacity → advance_slot capacity at ≡ (at + 1) % capacity
unfolding advance_slot
next_slot capacity at inside = elim (ℕ_discrete (at + 1) capacity) [
  | yes last ↦ rw (last, mod_self capacity) (ground arith)
  | no inner ↦ ground (arith, mod-eq_of_lt {n = at + 1} {m = capacity})
]

pub advance_slot_lem :
    (capacity position : ℕ)
    → 0 < capacity
    → advance_slot capacity (position % capacity) ≡ (position + 1) % capacity
advance_slot_lem capacity position room =
    next_slot capacity (position % capacity) (mod-lt position room)
    ∙ mod-add-mod position capacity 1

-- Going on from a slot by less than the capacity leads to another slot.
moves_on :
    (capacity at gap : ℕ) → at < capacity → 0 < gap → gap < capacity → at ≢ (at + gap) % capacity
moves_on capacity at gap inside forward short = elim (dec_lt (at + gap) capacity) [
  | yes within ↦ λ same. omega (arith, same, mod-eq_of_lt within)
  | no wrapped ↦ λ same. omega (
    arith,
    same,
    mod-eq-sub-mod {n = at + gap} {m = capacity} (omega arith),
    mod-eq_of_lt {n = at + gap - capacity} {m = capacity} (omega arith),
  )
]

pub slot-ne : (capacity a b : ℕ) → a < b → b < a + capacity → a % capacity ≢ b % capacity
slot-ne capacity a b before near same =
    moves_on capacity (a % capacity) (b - a) (mod-lt a (omega arith)) (omega arith) (omega arith)
      (same ∙ ap (λ n. n % capacity) (omega arith) ∙ slot-shift capacity a (b - a))
