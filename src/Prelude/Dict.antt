-- ===== src/Prelude/Dict.antt =====
-- A Python dict keyed by numbers (identifiers), as an association list in insertion order.
use dro_asms.Prelude.{
  ℕ, ◌≡◌, refl, Bool, true, false, Option, none, some, List, [], ◌∷◌, arith, ◌==◌, if◌then◌else◌,
}

abbrev pub Dict {ℓ} : Type ℓ → Type ℓ
Dict V = List (ℕ × V)

module _ {ℓ} {V : Type ℓ} where
  -- `d[key] = value`
  abbrev pub insert : (key : ℕ) → V → Dict V → Dict V
  insert key value [] = (key, value) ∷ []
  insert key value ((head, old) ∷ others) =
      if key == head then (key, value) ∷ others else (head, old) ∷ insert key value others

  -- `d.pop(key, None)`
  abbrev pub erase : (key : ℕ) → Dict V → Dict V
  erase key [] = []
  erase key ((head, old) ∷ others) =
      let tail = erase key others in if key == head then tail else (head, old) ∷ tail

  -- `d.get(key)`
  abbrev pub lookup : (key : ℕ) → Dict V → Option V
  lookup key [] = none
  lookup key ((head, old) ∷ others) = if key == head then some old else lookup key others

  -- `key in d`
  abbrev pub contains : (key : ℕ) → Dict V → Bool
  contains key others = elim (lookup key others) [ none ↦ false | some _ ↦ true ]

  pub lookup-insert :
      (j k : ℕ) (v : V) (d : Dict V)
      → lookup j (insert k v d) ≡ (if j == k then some v else lookup j d)
  lookup-insert j k v [] = refl
  lookup-insert j k v ((i, w) ∷ d) = ground (arith, lookup-insert j k v d)

  pub lookup-erase :
      (j k : ℕ) (d : Dict V) → lookup j (erase k d) ≡ (if j == k then none else lookup j d)
  lookup-erase j k [] = ground arith
  lookup-erase j k ((i, w) ∷ d) = ground (arith, lookup-erase j k d)
