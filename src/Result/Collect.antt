-- ===== src/Result/Collect.antt =====
-- `collect` of infra/result.py.
use mathlib.Core.Path.{subst}
use mathlib.Core.List.{append-nil}
use dro_asms.Prelude.{◌≡◌, refl, ap, List, [], ◌∷◌, ◌++◌, map}
use dro_asms.Result.{Result, ok, err, collect_from, collect, sequence}

module _ {ℓ κ} {T : Type ℓ} {E : Type κ} where
  -- What a list of results comes to: all of them are values, or there is a first error.
  pub data Collected (rs : List (Result T E)) : Result (List T) E → Type (ℓ ⊔ κ) where
    all_values : (vs : List T) → rs ≡ map ok vs → Collected rs (ok vs)
    first_error :
        (vs : List T) (e : E) (rest : List (Result T E))
        → rs ≡ map ok vs ++ (err e ∷ rest)
        → Collected rs (err e)

  snoc_ok :
      (values : List T) (v : T) (rs : List (Result T E))
      → map ok (values ++ (v ∷ [])) ++ rs ≡ map ok values ++ (ok v ∷ rs)
  snoc_ok [] v rs = refl
  snoc_ok (w ∷ values) v rs = ap (λ (ys : List (Result T E)). ok w ∷ ys) (snoc_ok values v rs)

  collect_from-Collected :
      (values : List T) (rs : List (Result T E))
      → Collected (map ok values ++ rs) (collect_from values rs)
  unfolding collect_from
  collect_from-Collected values [] = all_values values (append-nil (map ok values))
  collect_from-Collected values (err e ∷ rs) = first_error values e rs refl
  collect_from-Collected values (ok v ∷ rs) =
      subst (λ ys. Collected ys (collect_from (values ++ (v ∷ [])) rs)) (snoc_ok values v rs)
        (collect_from-Collected (values ++ (v ∷ [])) rs)

  -- `collect` and `sequence` return the values in order where every result is a value, and
  -- otherwise the first error, whatever comes after it.
  sequence-Collected : (rs : List (Result T E)) → Collected rs (sequence rs)
  unfolding sequence collect
  sequence-Collected rs = collect_from-Collected [] rs
