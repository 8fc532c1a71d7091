-- ===== src/Common/Search/Edits.antt =====
-- What the edits of a list keep: a property of every entry, the keys of the entries, and their
-- uniqueness.
use libre_wave.Common.{
  ◌≤◌, ◌≡◌, ◌≢◌, ◌↔◌, inl, inr, refl, ap, sym, subst, ◌∙◌, List, [], ◌∷◌, ◌++◌, map, Bool, true,
  some, arith, length, All, find, retain, update, Unique, Has, Bool-cases, Option-cases,
}

module _ {ℓ κ} {A : Type ℓ} (P : A → Type κ) where
  pub All-append : (xs ys : List A) → All P xs → All P ys → All P (xs ++ ys)
  All-append [] ys h k = k
  All-append (x ∷ xs) ys h k = (h.0, All-append xs ys h.1 k)

  pub All-retain : (test : A → Bool) (xs : List A) → All P xs → All P (retain test xs)
  All-retain test [] h = h
  All-retain test (x ∷ xs) h = elim (Bool-cases (test x)) [
    | inl e ↦ rw e (h.0, All-retain test xs h.1)
    | inr e ↦ rw e (All-retain test xs h.1)
  ]

  pub All-find :
      (test : A → Bool) (xs : List A) {a : A}
      → All P xs
      → find test xs ≡ some a
      → (test a ≡ true) × P a
  All-find test [] h e = absurd (ground arith)
  All-find test (x ∷ xs) {a} h e = elim (Bool-cases (test x)) [
    | inl t ↦ let x-a : x ≡ a = ground arith in (subst (λ b. test b ≡ true) x-a t, subst P x-a h.0)
    | inr t ↦ All-find test xs h.1 (ground arith)
  ]

  pub All-update :
      (test : A → Bool) (f : A → A) (xs : List A) {ys : List A}
      → ((x : A) → test x ≡ true → P x → P (f x))
      → All P xs
      → update test f xs ≡ some ys
      → All P ys
  All-update test f [] keep h e = absurd (ground arith)
  All-update test f (x ∷ xs) {ys} keep h e = elim (Bool-cases (test x)) [
    | inl t ↦ let shape : f x ∷ xs ≡ ys = ground arith in subst (All P) shape (keep x t h.0, h.1)
    | inr t ↦ elim (Option-cases (update test f xs)) [
      | inl none_ ↦ absurd (ground arith)
      | inr (zs, some_) ↦
          let shape : x ∷ zs ≡ ys = ground arith in
          subst (All P) shape (h.0, All-update test f xs keep h.1 some_)
    ]
  ]

  pub All-map_of : {B : Type ℓ} (f : B → A) (xs : List B) → All (λ b. P (f b)) xs → All P (map f xs)
  All-map_of f [] h = h
  All-map_of f (x ∷ xs) h = (h.0, All-map_of f xs h.1)

module _ {ℓ κ μ} {A : Type ℓ} {P : A → Type κ} {Q : A → Type μ} where
  pub All-mono : (xs : List A) → ((x : A) → P x → Q x) → All P xs → All Q xs
  All-mono [] imp h = tt
  All-mono (x ∷ xs) imp h = (imp x h.0, All-mono xs imp h.1)

module _ {ℓ κ μ} {A : Type ℓ} (P : A → Type κ) (Q : A → Type μ) where
  pub All-zip : (xs : List A) → All P xs → All Q xs → All (λ x. P x × Q x) xs
  All-zip [] h k = tt
  All-zip (x ∷ xs) h k = ((h.0, k.0), All-zip xs h.1 k.1)

-- Entries with keys.
module _ {A K : Type 0} (key : A → K) where
  pub map-update :
      (test : A → Bool) (f : A → A) (xs : List A) {ys : List A}
      → ((x : A) → test x ≡ true → key (f x) ≡ key x)
      → update test f xs ≡ some ys
      → map key ys ≡ map key xs
  map-update test f [] keep e = absurd (ground arith)
  map-update test f (x ∷ xs) {ys} keep e = elim (Bool-cases (test x)) [
    | inl t ↦
        let shape : f x ∷ xs ≡ ys = ground arith in
        sym (ap (map key) shape) ∙ ap (λ k. k ∷ map key xs) (keep x t)
    | inr t ↦ elim (Option-cases (update test f xs)) [
      | inl none_ ↦ absurd (ground arith)
      | inr (zs, some_) ↦
          let shape : x ∷ zs ≡ ys = ground arith in
          sym (ap (map key) shape) ∙ ap (λ ks. key x ∷ ks) (map-update test f xs keep some_)
    ]
  ]

  pub All-map-retain :
      (P : K → Type 0) (test : A → Bool) (xs : List A)
      → All P (map key xs)
      → All P (map key (retain test xs))
  All-map-retain P test [] h = h
  All-map-retain P test (x ∷ xs) h = elim (Bool-cases (test x)) [
    | inl e ↦ rw e (h.0, All-map-retain P test xs h.1)
    | inr e ↦ rw e (All-map-retain P test xs h.1)
  ]

  pub Unique-retain :
      (test : A → Bool) (xs : List A) → Unique (map key xs) → Unique (map key (retain test xs))
  Unique-retain test [] h = h
  Unique-retain test (x ∷ xs) h = elim (Bool-cases (test x)) [
    | inl e ↦ rw e (All-map-retain (λ y. key x ≢ y) test xs h.0, Unique-retain test xs h.1)
    | inr e ↦ rw e (Unique-retain test xs h.1)
  ]

  pub Has-retain :
      (test : A → Bool) (k : K) (xs : List A)
      → ((x : A) → key x ≡ k → test x ≡ true)
      → Has k (map key xs)
      → Has k (map key (retain test xs))
  Has-retain test k [] kept h = h
  Has-retain test k (x ∷ xs) kept (inl e) = rw (kept x e) (inl e)
  Has-retain test k (x ∷ xs) kept (inr h) = elim (Bool-cases (test x)) [
    | inl e ↦ rw e (inr (Has-retain test k xs kept h))
    | inr e ↦ rw e (Has-retain test k xs kept h)
  ]

  -- A search for a key finds an entry exactly when the key is there.
  pub find-Has :
      (test : A → Bool) (k : K) (xs : List A)
      → ((x : A) → (test x ≡ true) ↔ (key x ≡ k))
      → Has k (map key xs)
      → (a : A) × (find test xs ≡ some a)
  find-Has test k [] exact h = absurd h
  find-Has test k (x ∷ xs) exact (inl e) = (x, rw ((exact x).1 e) refl)
  find-Has test k (x ∷ xs) exact (inr h) = elim (Bool-cases (test x)) [
    | inl e ↦ (x, rw e refl)
    | inr e ↦ rw e (find-Has test k xs exact h)
  ]

  pub Has-find :
      (test : A → Bool) (k : K) (xs : List A) (a : A)
      → ((x : A) → (test x ≡ true) ↔ (key x ≡ k))
      → find test xs ≡ some a
      → Has k (map key xs)
  Has-find test k [] a exact e = absurd (ground arith)
  Has-find test k (x ∷ xs) a exact e = elim (Bool-cases (test x)) [
    | inl t ↦ inl ((exact x).0 t)
    | inr t ↦ inr (Has-find test k xs a exact (ground arith))
  ]

pub append_nil : {A : Type 0} (xs : List A) → xs ++ [] ≡ xs
append_nil [] = refl
append_nil (x ∷ xs) = ap (λ ys. x ∷ ys) (append_nil xs)

pub map-append_one :
    {A B : Type 0} (f : A → B) (xs : List A) (x : A)
    → map f (xs ++ (x ∷ [])) ≡ map f xs ++ (f x ∷ [])
map-append_one f [] x = refl
map-append_one f (y ∷ ys) x = ap (λ zs. f y ∷ zs) (map-append_one f ys x)

pub Unique-append_one :
    {K : Type 0} (ks : List K) (k : K) → All (λ y. y ≢ k) ks → Unique ks → Unique (ks ++ (k ∷ []))
Unique-append_one [] k new h = (tt, tt)
Unique-append_one (x ∷ ks) k new h =
    (All-append (λ y. x ≢ y) ks (k ∷ []) h.0 (new.0, tt), Unique-append_one ks k new.1 h.1)

pub Has-append : {K : Type 0} (k : K) (xs ys : List K) → Has k xs → Has k (xs ++ ys)
Has-append k [] ys h = absurd h
Has-append k (x ∷ xs) ys (inl e) = inl e
Has-append k (x ∷ xs) ys (inr h) = inr (Has-append k xs ys h)

pub Has-append_right : {K : Type 0} (k : K) (xs ys : List K) → Has k ys → Has k (xs ++ ys)
Has-append_right k [] ys h = h
Has-append_right k (x ∷ xs) ys h = inr (Has-append_right k xs ys h)

pub Has-two : {K : Type 0} (a b : K) (xs : List K) → a ≢ b → Has a xs → Has b xs → 2 ≤ length xs
Has-two a b [] n h k = absurd h
Has-two a b (x ∷ []) n (inl p) (inl q) = absurd (n (sym p ∙ q))
Has-two a b (x ∷ []) n (inr h) k = absurd h
Has-two a b (x ∷ []) n h (inr k) = absurd k
Has-two a b (x ∷ y ∷ zs) n h k = omega arith
