-- ===== src/Platform/Ring/Window.antt =====
-- The frames of a run of sequence numbers, and what the two copy loops do to them.
use native.Mathlib.Nat.{mod-lt, zero-add, add-zero, suc-add}
use libre_wave.Common.{
  ℕ, zero, suc, ◌+◌, ◌%◌, ◌≤◌, ◌<◌, ◌≡◌, ◌∙◌, refl, sym, ap, ap₂, List, [], ◌∷◌, ◌++◌, length,
  get_or, set, arith, length-set, get_or-set_self, get_or-set_ne,
}
use libre_wave.Platform.Ring.{advance_slot}
use libre_wave.Platform.Ring.Blocks.{copy_in, copy_out}
use libre_wave.Platform.Ring.Slots.{advance_slot_lem, slot-ne}

module _ {S : Type 0} (capacity : ℕ) where
  -- The frames of the sequence numbers from `position` on.
  abbrev pub window : List (List S) → ℕ → ℕ → List (List S)
  window frames position zero = []
  window frames position (suc n) =
      get_or frames (position % capacity) [] ∷ window frames (position + 1) n

  pub length-window :
      (frames : List (List S)) (position n : ℕ) → length (window frames position n) ≡ n
  length-window frames position zero = refl
  length-window frames position (suc n) = ap suc (length-window frames (position + 1) n)

  pub window-append :
      (frames : List (List S)) (position n m : ℕ)
      → window frames position (n + m) ≡ window frames position n ++ window frames (position + n) m
  window-append frames position zero m =
      rw (zero-add m) (ap (λ p. window frames p m) (sym (add-zero position)))
  window-append frames position (suc n) m = rw (suc-add n m) (
      ap₂ ◌∷◌ refl (
        window-append frames (position + 1) n m
        ∙ ap (λ p. window frames (position + 1) n ++ window frames p m) (omega arith)))

  module _ (room : 0 < capacity) where
    pub copy_out_lem :
        (frames : List (List S)) (position n : ℕ)
        → length frames ≡ capacity
        → copy_out frames (position % capacity) n ≡ window frames position n
    unfolding copy_out
    copy_out_lem frames position zero full = refl
    copy_out_lem frames position (suc n) full = ap₂ ◌∷◌ refl (
        ap (λ a. copy_out frames a n)
          (ap (λ c. advance_slot c (position % capacity)) full
            ∙ advance_slot_lem capacity position room)
        ∙ copy_out_lem frames (position + 1) n full)

    -- A write behind the window leaves it alone.
    window-set :
        (frames : List (List S)) (frame : List S) (position n at : ℕ)
        → position + n ≤ at
        → at < position + capacity
        → window (set frames (at % capacity) frame) position n ≡ window frames position n
    window-set frames frame position zero at after near = refl
    window-set frames frame position (suc n) at after near =
        ap₂ ◌∷◌
          (get_or-set_ne frames (at % capacity) (position % capacity) frame []
            (λ same. slot-ne capacity position at (omega arith) near (sym same)))
          (window-set frames frame (position + 1) n at (omega arith) (omega arith))

    pub length-copy_in :
        (frames blocks : List (List S)) (at : ℕ) → length (copy_in frames at blocks) ≡ length frames
    unfolding copy_in
    length-copy_in frames [] at = refl
    length-copy_in frames (block ∷ rest) at =
        length-copy_in (set frames at block) rest (advance_slot (length frames) at)
        ∙ length-set frames at block

    copy_in-cons :
        (frames rest : List (List S)) (block : List S) (at : ℕ)
        → length frames ≡ capacity
        → copy_in frames (at % capacity) (block ∷ rest)
          ≡ copy_in (set frames (at % capacity) block) ((at + 1) % capacity) rest
    unfolding copy_in
    copy_in-cons frames rest block at full =
        ap (λ a. copy_in (set frames (at % capacity) block) a rest)
          (ap (λ c. advance_slot c (at % capacity)) full ∙ advance_slot_lem capacity at room)

    -- A block that is copied behind the window leaves it alone.
    pub window-copy_in :
        (frames blocks : List (List S)) (position n at : ℕ)
        → length frames ≡ capacity
        → position + n ≤ at
        → at + length blocks ≤ position + capacity
        → window (copy_in frames (at % capacity) blocks) position n ≡ window frames position n
    unfolding copy_in
    window-copy_in frames [] position n at full after near = refl
    window-copy_in frames (block ∷ rest) position n at full after near =
        ap (λ f. window f position n) (copy_in-cons frames rest block at full)
        ∙ window-copy_in (set frames (at % capacity) block) rest position n (at + 1)
            (length-set frames (at % capacity) block ∙ full) (omega arith) (omega arith)
        ∙ window-set frames block position n at after (omega arith)

    -- A block that is copied is found where it was put.
    pub copy_in_lem :
        (frames blocks : List (List S)) (at : ℕ)
        → length frames ≡ capacity
        → length blocks ≤ capacity
        → window (copy_in frames (at % capacity) blocks) at (length blocks) ≡ blocks
    copy_in_lem frames [] at full fits = refl
    copy_in_lem frames (block ∷ rest) at full fits =
        ap (λ f. window f at (suc (length rest))) (copy_in-cons frames rest block at full)
        ∙ ap₂ ◌∷◌ head (
            copy_in_lem (set frames (at % capacity) block) rest (at + 1)
              (length-set frames (at % capacity) block ∙ full) (omega arith))
      where
        put : List (List S)
        put = set frames (at % capacity) block

        whole : length put ≡ capacity
        whole = length-set frames (at % capacity) block ∙ full

        head : get_or (copy_in put ((at + 1) % capacity) rest) (at % capacity) [] ≡ block
        head =
            ap (λ run. get_or run 0 [])
              (window-copy_in put rest at 1 (at + 1) whole (omega arith) (omega arith))
            ∙ get_or-set_self frames (at % capacity) block [] (omega (arith, mod-lt at room, full))
