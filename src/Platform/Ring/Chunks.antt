-- ===== src/Platform/Ring/Chunks.antt =====
-- Cutting samples into frames, and joining frames.
use native.Mathlib.Nat.{mod-add-div', suc-mul}
use libre_wave.Common.{
  ℕ, zero, suc, ◌-◌, ◌*◌, ◌/◌, ◌%◌, ◌≡◌, ◌∙◌, refl, ap, ap₂, List, [], ◌∷◌, ◌++◌, length, drop,
  true, ==_iff, arith, length-drop, take-drop,
}
use libre_wave.Platform.Ring.{chunks, concat, is_multiple_of}

module _ {ℓ} {A : Type ℓ} where
  empty_of_length : (xs : List A) → length xs ≡ 0 → [] ≡ xs
  empty_of_length [] h = refl
  empty_of_length (x ∷ xs) h = absurd (omega arith)

module _ {S : Type 0} (channels : ℕ) where
  pub length-chunks : (n : ℕ) (samples : List S) → length (chunks channels n samples) ≡ n
  length-chunks zero samples = refl
  length-chunks (suc n) samples = ap suc (length-chunks n (drop channels samples))

  pub concat-chunks :
      (n : ℕ) (samples : List S)
      → length samples ≡ n * channels
      → concat (chunks channels n samples) ≡ samples
  concat-chunks zero samples h = empty_of_length samples (omega (arith, h))
  concat-chunks (suc n) samples h =
      ap₂ ◌++◌ refl (
        concat-chunks n (drop channels samples) (
          length-drop channels samples
          ∙ ap (λ k. k - channels) h
          ∙ omega (arith, suc-mul n channels)))
      ∙ take-drop channels samples

-- Whole frames are cut without a rest.
pub is_multiple_of_lem :
    (channels count : ℕ)
    → is_multiple_of count channels ≡ true
    → count ≡ count / channels * channels
is_multiple_of_lem channels count whole =
    omega (arith, (==_iff (count % channels) 0).0 whole, mod-add-div' count channels)
