-- ===== src/Common/Search/Order.antt =====
-- Moving an entry of a list to another position: the entries stay the same but for their order.
use mathlib.Core.List.{Permᴰ}
use mathlib.Core.List.Permᴰ.{nil, cons, swap, trans}
use mathlib.Core.List.Permᴰ
use libre_wave.Common.{
  ℕ, zero, suc, ◌<◌, ◌≤◌, ◌≡◌, ◌≢◌, inl, inr, refl, ap, sym, subst, ◌∙◌, List, [], ◌∷◌, map, Bool,
  true, some, arith, length, All, position, remove, insert, get_elem?, Unique, Has, Bool-cases,
  Option-cases,
}

module _ {A : Type 0} where
  pub insert-Permᴰ : (xs : List A) (i : ℕ) (a : A) → Permᴰ (a ∷ xs) (insert xs i a)
  insert-Permᴰ xs zero a = Permᴰ.refl (a ∷ xs)
  insert-Permᴰ [] (suc i) a = Permᴰ.refl (a ∷ [])
  insert-Permᴰ (x ∷ xs) (suc i) a = trans (swap refl refl) (cons refl (insert-Permᴰ xs i a))

  pub remove-Permᴰ :
      (xs : List A) (i : ℕ) {a : A} {rest : List A}
      → remove xs i ≡ some (a, rest)
      → Permᴰ xs (a ∷ rest)
  remove-Permᴰ [] i e = absurd (ground arith)
  remove-Permᴰ (x ∷ xs) zero {a} {rest} e =
      subst (λ l. Permᴰ (x ∷ xs) l) (the_list) (Permᴰ.refl (x ∷ xs))
    where
      the_list : x ∷ xs ≡ a ∷ rest
      the_list = ground arith
  remove-Permᴰ (x ∷ xs) (suc i) {a} {rest} e = elim (Option-cases (remove xs i)) [
    | inl none_ ↦ absurd (ground arith)
    | inr ((y, ys), some_) ↦
        let shape : y ∷ x ∷ ys ≡ a ∷ rest = ground arith in
        subst (λ l. Permᴰ (x ∷ xs) l) shape
          (trans (cons refl (remove-Permᴰ xs i some_)) (swap refl refl))
  ]

  pub remove-total :
      (xs : List A) (i : ℕ)
      → i < length xs
      → (a : A) × (rest : List A) × (remove xs i ≡ some (a, rest))
        × (get_elem? xs i ≡ some a)
        × (length xs ≡ suc (length rest))
  remove-total [] i h = absurd (omega arith)
  remove-total (x ∷ xs) zero h = (x, xs, refl, refl, refl)
  remove-total (x ∷ xs) (suc i) h =
      let (a, rest, e, at, long) = remove-total xs i (omega arith) in
      (a, x ∷ rest, rw e refl, at, ap suc long)

  pub get_elem?-insert :
      (xs : List A) (i : ℕ) (a : A) → i ≤ length xs → get_elem? (insert xs i a) i ≡ some a
  get_elem?-insert xs zero a h = refl
  get_elem?-insert [] (suc i) a h = absurd (omega arith)
  get_elem?-insert (x ∷ xs) (suc i) a h = get_elem?-insert xs i a (omega arith)

  -- The position found is in range, and its entry passes the test.
  pub position_lem :
      (test : A → Bool) (xs : List A) {i : ℕ}
      → position test xs ≡ some i
      → (a : A) × (get_elem? xs i ≡ some a) × (test a ≡ true) × (i < length xs)
  position_lem test [] e = absurd (ground arith)
  position_lem test (x ∷ xs) {i} e = elim (Bool-cases (test x)) [
    | inl t ↦
        let here : 0 ≡ i = ground arith in
        subst
          (λ j. (a : A) × (get_elem? (x ∷ xs) j ≡ some a) × (test a ≡ true) × (j < suc (length xs)))
          here (x, refl, t, omega arith)
    | inr t ↦ elim (Option-cases (position test xs)) [
      | inl none_ ↦ absurd (ground arith)
      | inr (j, some_) ↦
          let there : suc j ≡ i = ground arith in
          let (a, at, passes, small) = position_lem test xs some_ in
          subst
            (λ j.
              (a : A) × (get_elem? (x ∷ xs) j ≡ some a) × (test a ≡ true) × (j < suc (length xs)))
            there (a, at, passes, omega arith)
    ]
  ]

  pub length-Permᴰ : {xs ys : List A} → Permᴰ xs ys → length xs ≡ length ys
  length-Permᴰ nil = refl
  length-Permᴰ (cons e p) = ap suc (length-Permᴰ p)
  length-Permᴰ (swap e f) = refl
  length-Permᴰ (trans p q) = length-Permᴰ p ∙ length-Permᴰ q

  pub All-Permᴰ : (P : A → Type 0) {xs ys : List A} → Permᴰ xs ys → All P xs → All P ys
  All-Permᴰ P nil h = h
  All-Permᴰ P (cons e p) h = (subst P e h.0, All-Permᴰ P p h.1)
  All-Permᴰ P (swap e f) h = (subst P f h.1.0, (subst P e h.0, h.1.1))
  All-Permᴰ P (trans p q) h = All-Permᴰ P q (All-Permᴰ P p h)

  pub Unique-Permᴰ : {xs ys : List A} → Permᴰ xs ys → Unique xs → Unique ys
  Unique-Permᴰ nil h = h
  Unique-Permᴰ (cons {a = a} {l₂ = ys} e p) h =
      (subst (λ x. All (λ y. x ≢ y) ys) e (All-Permᴰ (λ y. a ≢ y) p h.0), Unique-Permᴰ p h.1)
  Unique-Permᴰ (swap {l = l} e f) h = (
    (λ q. h.0.0 (e ∙ sym q ∙ sym f), subst (λ x. All (λ y. x ≢ y) l) f h.1.0),
    (subst (λ x. All (λ y. x ≢ y) l) e h.0.1, h.1.1),
  )
  Unique-Permᴰ (trans p q) h = Unique-Permᴰ q (Unique-Permᴰ p h)

  pub Has-Permᴰ : (k : A) {xs ys : List A} → Permᴰ xs ys → Has k xs → Has k ys
  Has-Permᴰ k nil h = h
  Has-Permᴰ k (cons e p) (inl q) = inl (sym e ∙ q)
  Has-Permᴰ k (cons e p) (inr h) = inr (Has-Permᴰ k p h)
  Has-Permᴰ k (swap e f) (inl q) = inr (inl (sym e ∙ q))
  Has-Permᴰ k (swap e f) (inr (inl q)) = inl (sym f ∙ q)
  Has-Permᴰ k (swap e f) (inr (inr h)) = inr (inr h)
  Has-Permᴰ k (trans p q) h = Has-Permᴰ k q (Has-Permᴰ k p h)

pub map-Permᴰ :
    {A B : Type 0} (f : A → B) {xs ys : List A} → Permᴰ xs ys → Permᴰ (map f xs) (map f ys)
map-Permᴰ f nil = nil
map-Permᴰ f (cons e p) = cons (ap f e) (map-Permᴰ f p)
map-Permᴰ f (swap e g) = swap (ap f e) (ap f g)
map-Permᴰ f (trans p q) = trans (map-Permᴰ f p) (map-Permᴰ f q)

module _ {A : Type 0} where
  without_one :
      (x : A) (ys : List A)
      → Has x ys
      → (zs : List A) × (length ys ≡ suc (length zs)) × ((y : A) → x ≢ y → Has y ys → Has y zs)
  without_one x [] h = absurd h
  without_one x (z ∷ ys) (inl e) =
      (ys, refl, λ y n h. elim h [ inl q ↦ absurd (n (sym e ∙ q)) | inr later ↦ later ])
  without_one x (z ∷ ys) (inr h) =
      let (zs, long, rest) = without_one x ys h in
      (z ∷ zs, ap suc long, λ y n h. elim h [ inl q ↦ inl q | inr later ↦ inr (rest y n later) ])

  -- A list without repetition is no longer than a list that has its entries.
  pub length-Unique : (xs ys : List A) → Unique xs → All (λ x. Has x ys) xs → length xs ≤ length ys
  length-Unique [] ys u h = omega arith
  length-Unique (x ∷ xs) ys u h =
      let (zs, long, rest) = without_one x ys h.0 in
      let fewer = length-Unique xs zs u.1 (all_in zs rest xs u.0 h.1) in omega arith
    where
      all_in :
          (zs : List A)
          → ((y : A) → x ≢ y → Has y ys → Has y zs)
          → (l : List A) → All (λ y. x ≢ y) l
          → All (λ y. Has y ys) l
          → All (λ y. Has y zs) l
      all_in zs rest [] n h = tt
      all_in zs rest (y ∷ l) n h = (rest y n.0 h.0, all_in zs rest l n.1 h.1)
