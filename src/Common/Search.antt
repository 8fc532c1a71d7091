-- ===== src/Common/Search.antt =====
-- Searching and editing lists the way slices and vectors are: by a Boolean test or by position. A
-- position out of range is `none`, where the code would panic.
pub mod Edits
pub mod Order
pub mod Priors
pub mod Found
use Prim.Native.Nat.{ℕ, zero, suc}
use mathlib.Core.Path.{◌≡◌}
use mathlib.Core.Logic.{◌≢◌, ◌⊎◌}
use mathlib.Core.List.{List, [], ◌∷◌}
use mathlib.Core.Option.{Option, none, some}
use mathlib.Core.Bool.{Bool, true, false, ◌||◌}
use libre_wave.Common.Tests.{if◌then◌else◌}
use libre_wave.Common.Lists.{All}

abbrev pub next_some : Option ℕ → Option ℕ
next_some none = none
next_some (some i) = some (suc i)

module _ {ℓ} {A : Type ℓ} where
  abbrev pub any : (A → Bool) → List A → Bool
  any test [] = false
  any test (x ∷ xs) = test x || any test xs

  abbrev pub find : (A → Bool) → List A → Option A
  find test [] = none
  find test (x ∷ xs) = if test x then some x else find test xs

  abbrev pub retain : (A → Bool) → List A → List A
  retain test [] = []
  retain test (x ∷ xs) = let rest = retain test xs in if test x then x ∷ rest else rest

  abbrev pub cons_some : A → Option (List A) → Option (List A)
  cons_some x none = none
  cons_some x (some xs) = some (x ∷ xs)

  -- `.iter_mut().find(test)` and a change of what was found.
  abbrev pub update : (A → Bool) → (A → A) → List A → Option (List A)
  update test f [] = none
  update test f (x ∷ xs) =
      let rest = update test f xs in if test x then some (f x ∷ xs) else cons_some x rest

  abbrev pub position : (A → Bool) → List A → Option ℕ
  position test [] = none
  position test (x ∷ xs) = let rest = position test xs in if test x then some 0 else next_some rest

  abbrev pub beside : A → Option (A × List A) → Option (A × List A)
  beside x none = none
  beside x (some (y, ys)) = some (y, x ∷ ys)

  -- `Vec::remove`, which returns the element.
  abbrev pub remove : List A → ℕ → Option (A × List A)
  remove [] i = none
  remove (x ∷ xs) zero = some (x, xs)
  remove (x ∷ xs) (suc i) = beside x (remove xs i)

  -- `Vec::insert`
  abbrev pub insert : List A → ℕ → A → List A
  insert xs zero a = a ∷ xs
  insert [] (suc i) a = a ∷ []
  insert (x ∷ xs) (suc i) a = x ∷ insert xs i a

module _ {A : Type 0} where
  -- No two entries are equal.
  abbrev pub Unique : List A → Type 0
  Unique [] = Unit
  Unique (x ∷ xs) = All (λ y. x ≢ y) xs × Unique xs

  abbrev pub Has : A → List A → Type 0
  Has a [] = ⊥
  Has a (x ∷ xs) = (x ≡ a) ⊎ Has a xs
