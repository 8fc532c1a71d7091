-- ===== src/Common/Results.antt =====
-- Fallible code: `Result E A` is Rust's `Result<A, E>`, and `>>=` its `?`.
use mathlib.Core.Path.{◌≡◌, refl}
use mathlib.Core.Logic.{◌⊎◌, inl, inr}
use mathlib.Core.Option.{Option, none, some}
use mathlib.Core.Bool.{Bool, true, false}

pub data Result {ℓ} (E : Type 0) (A : Type ℓ) : Type ℓ where
  ok : A → Result E A
  err : E → Result E A

module _ {E : Type 0} where
  abbrev pub map_err {ℓ} : {F : Type 0} {A : Type ℓ} → (E → F) → Result E A → Result F A
  map_err f (ok a) = ok a
  map_err f (err e) = err (f e)

  infixl 5 ◌>>=◌
  abbrev pub ◌>>=◌ {ℓ κ} : {A : Type ℓ} {B : Type κ} → Result E A → (A → Result E B) → Result E B
  err e >>= next = err e
  ok a >>= next = next a

  infixl 5 ◌>>◌
  abbrev pub ◌>>◌ {ℓ κ} : {A : Type ℓ} {B : Type κ} → Result E A → Result E B → Result E B
  err e >> other = err e
  ok a >> other = other

  -- `if !test { return Err(e); }`
  abbrev pub ensure : Bool → E → Result E (Unit {0})
  ensure true e = ok tt
  ensure false e = err e

  abbrev pub ok_or {ℓ} : {A : Type ℓ} → Option A → E → Result E A
  ok_or none e = err e
  ok_or (some a) e = ok a

  pub Result-cases {ℓ} :
      {A : Type ℓ} (r : Result E A) → ((a : A) × (r ≡ ok a)) ⊎ ((e : E) × (r ≡ err e))
  Result-cases (ok a) = inl (a, refl)
  Result-cases (err e) = inr (e, refl)

  -- A chain that succeeds has succeeded in its first step.
  pub >>=-eq-ok {ℓ κ} :
      {A : Type ℓ} {B : Type κ} (r : Result E A) (next : A → Result E B) {value : B}
      → (r >>= next) ≡ ok value
      → (first : A) × (r ≡ ok first) × (next first ≡ ok value)
  >>=-eq-ok (err failure) next chain = cc
  >>=-eq-ok (ok first) next chain = (first, refl, chain)

  pub >>-eq-ok {κ} :
      {B : Type κ} (r : Result E (Unit {0})) (other : Result E B) {value : B}
      → (r >> other) ≡ ok value
      → (r ≡ ok tt) × (other ≡ ok value)
  >>-eq-ok (err failure) other chain = cc
  >>-eq-ok (ok done) other chain = (refl, chain)
