-- ===== src/Base/Choice.antt =====
-- Sublists by a test, and elements by their place.
use fractalbits.Base.{
  ℕ, zero, suc, ◌<◌, ◌≡◌, refl, subst, Bool, true, false, some, List, [], ◌∷◌, arith, if◌then◌else◌,
  get_elem?, length, Bool-cases, inl, inr,
}

module _ {ℓ} {A : Type ℓ} where
  abbrev pub filter : (A → Bool) → List A → List A
  filter p [] = []
  filter p (x ∷ xs) = let rest = filter p xs in if p x then x ∷ rest else rest

  -- `a` stands at some place of the list.
  abbrev pub Holds : A → List A → Type ℓ
  Holds a xs = (i : ℕ) × (get_elem? xs i ≡ some a)

  Holds-later : (x a : A) (xs : List A) → Holds a xs → Holds a (x ∷ xs)
  Holds-later x a xs (i, h) = (suc i, h)

  some-inj : (x a : A) → some x ≡ some a → x ≡ a
  some-inj x a h = cc

  pub Holds-filter :
      (p : A → Bool) (a : A) (xs : List A) → Holds a (filter p xs) → Holds a xs × (p a ≡ true)
  Holds-filter p a [] (i, h) = cc
  Holds-filter p a (x ∷ xs) (i, h) = elim (Bool-cases (p x)) [
    | inl t ↦ kept (Holds-filter p a xs) t i (rw t at h)
    | inr f ↦ let (found, ok) = Holds-filter p a xs (i, rw f at h) in (Holds-later x a xs found, ok)
  ]
    where
      kept :
          (Holds a (filter p xs) → Holds a xs × (p a ≡ true))
          → p x ≡ true
          → (i : ℕ) → get_elem? (x ∷ filter p xs) i ≡ some a
          → Holds a (x ∷ xs) × (p a ≡ true)
      kept next t zero h = ((zero, h), subst (λ y. p y ≡ true) (some-inj x a h) t)
      kept next t (suc i) h = let (found, ok) = next (i, h) in (Holds-later x a xs found, ok)

  pub get_elem?_below : (xs : List A) (i : ℕ) → i < length xs → (a : A) × (get_elem? xs i ≡ some a)
  get_elem?_below [] i h = absurd (omega arith)
  get_elem?_below (x ∷ xs) zero h = (x, refl)
  get_elem?_below (x ∷ xs) (suc i) h = get_elem?_below xs i (omega arith)

  pub filter_none :
      (p : A → Bool) (a : A) (xs : List A) → filter p xs ≡ [] → Holds a xs → p a ≡ false
  filter_none p a [] e (i, h) = cc
  filter_none p a (x ∷ xs) e (i, h) = elim (Bool-cases (p x)) [
    | inl t ↦ let some_left : x ∷ filter p xs ≡ [] = rw t at e in cc
    | inr f ↦ dropped (filter_none p a xs (rw f at e)) f i h
  ]
    where
      dropped :
          (Holds a xs → p a ≡ false)
          → p x ≡ false
          → (i : ℕ) → get_elem? (x ∷ xs) i ≡ some a
          → p a ≡ false
      dropped next f zero h = subst (λ y. p y ≡ false) (some-inj x a h) f
      dropped next f (suc i) h = next (i, h)
