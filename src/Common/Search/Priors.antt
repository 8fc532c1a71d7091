-- ===== src/Common/Search/Priors.antt =====
-- Loops that compare each entry with those before it, and searches for a key.
use libre_wave.Common.{
  ◌≡◌, ◌≢◌, ◌↔◌, inl, inr, refl, sym, subst, List, [], ◌∷◌, map, Bool, true, false, some, arith,
  All, any, find, Unique, Bool-cases,
}

pub any-false_iff :
    {A : Type 0} (test : A → Bool) (Q : A → Type 0) (xs : List A)
    → ((x : A) → (test x ≡ true) ↔ Q x)
    → (any test xs ≡ false) ↔ All (λ x. ¬ Q x) xs
any-false_iff test Q [] exact = (λ h. tt, λ h. refl)
any-false_iff test Q (x ∷ xs) exact = elim (Bool-cases (test x)) [
  | inl t ↦ (λ h. absurd (ground arith), λ h. absurd (h.0 ((exact x).0 t)))
  | inr t ↦
      let rest = any-false_iff test Q xs exact in
      (
        λ h. (λ q. absurd (ground (arith, (exact x).1 q)), rest.0 (ground arith)),
        λ h. rw t (rest.1 h.1),
      )
]

module _ {A K : Type 0} (key : A → K) where
  -- No entry has the key of one in `prior`.
  abbrev pub Apart : List A → List A → Type 0
  Apart prior xs = All (λ x. All (λ p. key p ≢ key x) prior) xs

  pub Apart-nil : (xs : List A) → Apart [] xs
  Apart-nil [] = tt
  Apart-nil (x ∷ xs) = (tt, Apart-nil xs)

  pub Apart-cons_iff :
      (x : A) (prior xs : List A)
      → Apart (x ∷ prior) xs ↔ (All (λ k. key x ≢ k) (map key xs) × Apart prior xs)
  Apart-cons_iff x prior [] = (λ h. (tt, tt), λ h. tt)
  Apart-cons_iff x prior (y ∷ ys) =
      let rest = Apart-cons_iff x prior ys in
      (
        λ h. let (a, b) = rest.0 h.1 in ((h.0.0, a), (h.0.1, b)),
        λ h. ((h.0.0, h.1.0), rest.1 (h.0.1, h.1.1)),
      )

  absent_find :
      (k : K) (a : A) (xs : List A)
      → All (λ y. k ≢ y) (map key xs)
      → All (λ x. key x ≡ k → x ≡ a) xs
  absent_find k a [] h = tt
  absent_find k a (x ∷ xs) h = (λ e. absurd (h.0 (sym e)), absent_find k a xs h.1)

  -- With unique keys, what a search finds is the only entry with its key.
  pub find_only :
      (test : A → Bool) (k : K) (xs : List A) {a : A}
      → ((x : A) → (test x ≡ true) ↔ (key x ≡ k))
      → Unique (map key xs)
      → find test xs ≡ some a
      → All (λ x. key x ≡ k → x ≡ a) xs
  find_only test k [] exact h e = tt
  find_only test k (x ∷ xs) {a} exact h e = elim (Bool-cases (test x)) [
    | inl t ↦
        let x-a : x ≡ a = ground arith in
        (
          (λ q. x-a),
          absent_find k a xs (subst (λ j. All (λ y. j ≢ y) (map key xs)) ((exact x).0 t) h.0),
        )
    | inr t ↦ (
      (λ q. absurd (ground (arith, (exact x).1 q))),
      find_only test k xs exact h.1 (ground arith),
    )
  ]
