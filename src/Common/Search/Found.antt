-- ===== src/Common/Search/Found.antt =====
-- What a search finds after a list was edited.
use libre_wave.Common.{
  ◌≡◌, refl, ap, sym, ◌∙◌, List, [], ◌∷◌, ◌++◌, Bool, true, false, none, some, inl, inr, arith,
  find, retain, update, Bool-cases, Option-cases,
}

module _ {A : Type 0} (other : A → Bool) where
  pub find-retain :
      (test : A → Bool) (xs : List A)
      → ((x : A) → other x ≡ true → test x ≡ true)
      → find other (retain test xs) ≡ find other xs
  find-retain test [] kept = refl
  find-retain test (x ∷ xs) kept = elim (Bool-cases (test x)) [
    | inl t ↦ elim (Bool-cases (other x)) [
      | inl o ↦ rw (t, o) refl
      | inr o ↦ rw (t, o) (find-retain test xs kept)
    ]
    | inr t ↦ elim (Bool-cases (other x)) [
      | inl o ↦ absurd (ground (arith, kept x o))
      | inr o ↦ rw (t, o) (find-retain test xs kept)
    ]
  ]

  pub find-retain-none :
      (test : A → Bool) (xs : List A)
      → ((x : A) → test x ≡ true → other x ≡ false)
      → find other (retain test xs) ≡ none
  find-retain-none test [] dropped = refl
  find-retain-none test (x ∷ xs) dropped = elim (Bool-cases (test x)) [
    | inl t ↦ rw (t, dropped x t) (find-retain-none test xs dropped)
    | inr t ↦ rw t (find-retain-none test xs dropped)
  ]

  pub find-append_none :
      (xs ys : List A) → find other xs ≡ none → find other (xs ++ ys) ≡ find other ys
  find-append_none [] ys h = refl
  find-append_none (x ∷ xs) ys h = elim (Bool-cases (other x)) [
    | inl o ↦ absurd (ground arith)
    | inr o ↦ rw o (find-append_none xs ys (ground arith))
  ]

  pub find-append_other :
      (xs ys : List A) → find other ys ≡ none → find other (xs ++ ys) ≡ find other xs
  find-append_other [] ys h = h
  find-append_other (x ∷ xs) ys h = elim (Bool-cases (other x)) [
    | inl o ↦ rw o refl
    | inr o ↦ rw o (find-append_other xs ys h)
  ]

  -- An update of the entries that `test` passes is seen by the search for them, and by no other.
  pub find-update_self :
      (f : A → A) (xs : List A) {ys : List A}
      → ((x : A) → other x ≡ true → other (f x) ≡ true)
      → update other f xs ≡ some ys
      → (x : A) × (find other xs ≡ some x) × (find other ys ≡ some (f x))
  find-update_self f [] keep e = absurd (ground arith)
  find-update_self f (x ∷ xs) {ys} keep e = elim (Bool-cases (other x)) [
    | inl o ↦
        let shape : f x ∷ xs ≡ ys = ground arith in
        (x, rw o refl, sym (ap (find other) shape) ∙ first x xs (keep x o))
    | inr o ↦ elim (Option-cases (update other f xs)) [
      | inl none_ ↦ absurd (ground arith)
      | inr (zs, some_) ↦
          let shape : x ∷ zs ≡ ys = ground arith in
          let (y, before, after) = find-update_self f xs keep some_ in
          (y, rw o before, sym (ap (find other) shape) ∙ second zs o ∙ after)
    ]
  ]
    where
      first : (x : A) (xs : List A) → other (f x) ≡ true → find other (f x ∷ xs) ≡ some (f x)
      first x xs o = rw o refl

      second : (zs : List A) → other x ≡ false → find other (x ∷ zs) ≡ find other zs
      second zs o = rw o refl

  pub find-update_ne :
      (test : A → Bool) (f : A → A) (xs : List A) {ys : List A}
      → ((x : A) → test x ≡ true → other x ≡ false)
      → ((x : A) → test x ≡ true → other (f x) ≡ false)
      → update test f xs ≡ some ys
      → find other ys ≡ find other xs
  find-update_ne test f [] no_ keep e = absurd (ground arith)
  find-update_ne test f (x ∷ xs) {ys} no_ keep e = elim (Bool-cases (test x)) [
    | inl t ↦
        let shape : f x ∷ xs ≡ ys = ground arith in
        sym (ap (find other) shape) ∙ skip (f x) xs (keep x t) ∙ sym (skip x xs (no_ x t))
    | inr t ↦ elim (Option-cases (update test f xs)) [
      | inl none_ ↦ absurd (ground arith)
      | inr (zs, some_) ↦
          let shape : x ∷ zs ≡ ys = ground arith in
          let rest = find-update_ne test f xs no_ keep some_ in
          sym (ap (find other) shape) ∙ both zs rest
    ]
  ]
    where
      skip : (x : A) (xs : List A) → other x ≡ false → find other (x ∷ xs) ≡ find other xs
      skip x xs o = rw o refl

      both :
          (zs : List A) → find other zs ≡ find other xs → find other (x ∷ zs) ≡ find other (x ∷ xs)
      both zs same = elim (Bool-cases (other x)) [ inl o ↦ rw o refl | inr o ↦ rw o same ]
