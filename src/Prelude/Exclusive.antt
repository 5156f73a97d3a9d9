-- ===== src/Prelude/Exclusive.antt =====
-- Lists no two entries of which clash, for a symmetric test.
use dro_asms.Prelude.{◌≡◌, refl, Bool, false, ◌||◌, List, [], ◌∷◌, ◌++◌, map, arith}

module _ {ℓ} {A : Type ℓ} where
  -- `any(p(x) for x in xs)`
  abbrev pub any : (A → Bool) → List A → Bool
  any p [] = false
  any p (x ∷ xs) = p x || any p xs

  pub any-append_one :
      (p : A → Bool) (xs : List A) (x : A) → any p (xs ++ (x ∷ [])) ≡ (any p xs || p x)
  any-append_one p [] x = ground arith
  any-append_one p (y ∷ xs) x = ground (arith, any-append_one p xs x)

  pub any_congr : (p q : A → Bool) (xs : List A) → ((x : A) → p x ≡ q x) → any p xs ≡ any q xs
  any_congr p q [] h = refl
  any_congr p q (x ∷ xs) h = ground (arith, h x, any_congr p q xs h)

  abbrev pub Exclusive : (A → A → Bool) → List A → Type 0
  Exclusive clash [] = Unit
  Exclusive clash (x ∷ xs) = (any (clash x) xs ≡ false) × Exclusive clash xs

  any_symmetric :
      (clash : A → A → Bool) (xs : List A) (x : A)
      → ((y z : A) → clash y z ≡ clash z y)
      → any (λ y. clash y x) xs ≡ any (clash x) xs
  any_symmetric clash [] x h = refl
  any_symmetric clash (y ∷ xs) x h = ground (arith, h x y, any_symmetric clash xs x h)

  pub Exclusive-append_one :
      (clash : A → A → Bool) (xs : List A) (x : A)
      → ((y z : A) → clash y z ≡ clash z y)
      → Exclusive clash xs
      → any (clash x) xs ≡ false
      → Exclusive clash (xs ++ (x ∷ []))
  Exclusive-append_one clash [] x h e n = (refl, tt)
  Exclusive-append_one clash (y ∷ xs) x h e n =
      ground (arith, h x y, any-append_one (clash y) xs x, Exclusive-append_one clash xs x h e.1)

  any-map :
      (clash : A → A → Bool) (f : A → A) (x : A) (xs : List A)
      → ((y z : A) → clash y z ≡ false → clash (f y) (f z) ≡ false)
      → any (clash x) xs ≡ false
      → any (clash (f x)) (map f xs) ≡ false
  any-map clash f x [] h n = refl
  any-map clash f x (y ∷ xs) h n = ground (arith, h x y, any-map clash f x xs h)

  pub Exclusive-map :
      (clash : A → A → Bool) (f : A → A) (xs : List A)
      → ((y z : A) → clash y z ≡ false → clash (f y) (f z) ≡ false)
      → Exclusive clash xs
      → Exclusive clash (map f xs)
  Exclusive-map clash f [] h e = tt
  Exclusive-map clash f (x ∷ xs) h e = (any-map clash f x xs h e.0, Exclusive-map clash f xs h e.1)
