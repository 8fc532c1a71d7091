-- ===== src/Platform/Ring/Admission.antt =====
-- What an admitted block and an admitted read guarantee.
use native.Mathlib.Nat.{mod-lt}
use libre_wave.Common.{
  ℕ, ◌+◌, ◌-◌, ◌/◌, ◌%◌, ◌≤◌, ◌<◌, ◌≡◌, refl, List, Bool, true, false, Option, none, some, Result,
  ok, err, ensure, ok_or, map_err, arith, length,
}
use libre_wave.Common.Bytes.{usize_mod, checked_add}
use libre_wave.Platform.Ring.{
  Ring, try_from, is_multiple_of, slot, fill_frames, free_frames, available_frames,
}
use libre_wave.Platform.Ring.Blocks.{
  Link, Admitted, PreparedRead, admit_push, admit_peek, next_read, finish_push,
}

module _ {E : Type 0} where
  ensure-eq-ok : (test : Bool) (e : E) {u : Unit {0}} → ensure test e ≡ ok u → test ≡ true
  ensure-eq-ok true e h = refl
  ensure-eq-ok false e h = cc

  map_err-eq-ok :
      {F A : Type 0} (f : F → E) (r : Result F A) {a : A} → map_err f r ≡ ok a → r ≡ ok a
  map_err-eq-ok f (ok a) h = cc
  map_err-eq-ok f (err e) h = cc

  ok_or-eq-ok : {A : Type 0} (o : Option A) (e : E) {a : A} → ok_or o e ≡ ok a → o ≡ some a
  ok_or-eq-ok none e h = cc
  ok_or-eq-ok (some a) e h = cc

  try_from-eq-ok : (e : E) (n : ℕ) {m : ℕ} → try_from e n ≡ ok m → m ≡ n
  try_from-eq-ok e n h = ground arith

pub checked_add-eq-some : (a b : ℕ) {c : ℕ} → checked_add a b ≡ some c → c ≡ a + b
checked_add-eq-some a b h = ground arith

-- A ring that holds `fill` frames between the cursors of its two owners.
pub record IsLink {S : Type 0} (capacity fill : ℕ) (link : Link S) : Type 0 where
  pub room : 0 < capacity
  pub fits : capacity < usize_mod
  pub full : length link.ring.frames ≡ capacity
  pub sized : link.ring.capacity_sequence ≡ capacity
  pub published_write : link.ring.published_write_sequence ≡ link.write_sequence
  pub published_read : link.ring.published_read_sequence ≡ link.read_sequence
  pub filled : link.write_sequence ≡ link.read_sequence + fill
  pub bounded : fill ≤ capacity

module _ {S : Type 0} where
  fill_frames_lem :
      (ring : Ring S) (w r fill : ℕ)
      → w ≡ r + fill
      → fill ≤ ring.capacity_sequence
      → ring.capacity_sequence < usize_mod
      → fill_frames ring w r ≡ ok fill
  unfolding fill_frames
  fill_frames_lem ring w r fill e b f = ground arith

module _ {S : Type 0} {capacity fill : ℕ} {link : Link S}
    (is_link : IsLink capacity fill link) where
  open is_link use {room, fits, full, sized, published_write, published_read, filled, bounded}

  pub free_frames_lem : free_frames link.ring link.write_sequence ≡ ok (capacity - fill)
  unfolding free_frames
  free_frames_lem = ground (
    arith,
    full,
    sized,
    fill_frames_lem link.ring link.write_sequence link.ring.published_read_sequence fill,
  )

  pub available_frames_lem : available_frames link.ring link.read_sequence ≡ ok fill
  unfolding available_frames
  available_frames_lem = ground (
    arith,
    full,
    sized,
    fill_frames_lem link.ring link.ring.published_write_sequence link.read_sequence fill,
  )

  pub slot_lem : (p : ℕ) → slot link.ring p ≡ ok (p % capacity)
  unfolding slot
  slot_lem p = ground (arith, sized, mod-lt p room)

  -- What a block of so many frames has been granted.
  pub record Granted (frames : ℕ) (admitted : Admitted) : Type 0 where
    pub free : admitted.remaining ≡ capacity - fill
    pub enough : fill + frames ≤ capacity
    pub next : admitted.next_write_sequence ≡ link.write_sequence + frames
    pub first : admitted.slot ≡ link.write_sequence % capacity

  module _ (is_finite : S → Bool) (channels : ℕ) where
    pub admit_push_lem :
        (samples : List S) (admitted : Admitted)
        → admit_push is_finite channels link samples ≡ ok admitted
        → (is_multiple_of (length samples) channels ≡ true)
          × Granted (length samples / channels) admitted
    unfolding admit_push
    admit_push_lem samples admitted chain =
        ground (arith, free_frames_lem, slot_lem link.write_sequence)

  module _ (channels : ℕ) where
    -- The copy and the last checks cannot fail.
    pub finish_push_lem :
        (samples : List S) (admitted : Admitted)
        → Granted (length samples / channels) admitted
        → finish_push channels link.ring samples admitted
          ≡ ok (record {
            next_write_sequence = link.write_sequence + length samples / channels;
            fill_after_commit = fill + length samples / channels;
          })
    unfolding finish_push
    finish_push_lem samples admitted granted = ground (arith, full)
      where
        open granted use {free, enough, next, first}

    pub admit_peek_lem :
        (wanted first : ℕ)
        → admit_peek channels link wanted ≡ ok first
        → (is_multiple_of wanted channels ≡ true)
          × (wanted / channels ≤ fill)
          × (first ≡ link.read_sequence % capacity)
    unfolding admit_peek
    admit_peek_lem wanted first chain =
        ground (arith, available_frames_lem, slot_lem link.read_sequence)

  pub next_read_lem :
      (frames : ℕ) (prepared : PreparedRead)
      → next_read link frames ≡ ok prepared
      → prepared.next_read_sequence ≡ link.read_sequence + frames
  unfolding next_read
  next_read_lem frames prepared chain = ground arith
