-- ===== src/Result.antt =====
-- `Ok` and `Err` of infra/result.py with their methods. `unwrap` and `unwrap_err` raise
-- RuntimeError on the other case, which is `none` here.
pub mod Sanitize
mod Collect
mod Tests
use dro_asms.Prelude.{Option, none, some, Bool, true, false, List, [], ◌∷◌, ◌++◌, ◌≡◌, refl}

pub data Result {ℓ κ} (T : Type ℓ) (E : Type κ) : Type (ℓ ⊔ κ) where
  ok : T → Result T E
  err : E → Result T E

module _ {ℓ κ} {T : Type ℓ} {E : Type κ} where
  unfoldable pub is_ok : Result T E → Bool
  is_ok (ok v) = true
  is_ok (err e) = false

  unfoldable pub is_err : Result T E → Bool
  is_err (ok v) = false
  is_err (err e) = true

  unfoldable pub unwrap : Result T E → Option T
  unwrap (ok v) = some v
  unwrap (err e) = none

  unfoldable pub unwrap_err : Result T E → Option E
  unwrap_err (ok v) = none
  unwrap_err (err e) = some e

  unfoldable pub unwrap_or : Result T E → T → T
  unwrap_or (ok v) d = v
  unwrap_or (err e) d = d

  -- `__iter__`: one value for Ok, none for Err.
  unfoldable pub iter : Result T E → List T
  iter (ok v) = v ∷ []
  iter (err e) = []

module _ {ℓ κ μ} {T : Type ℓ} {E : Type κ} {U : Type μ} where
  unfoldable pub map_ok : (T → U) → Result T E → Result U E
  map_ok fn (ok v) = ok (fn v)
  map_ok fn (err e) = err e

  unfoldable pub map_err : (E → U) → Result T E → Result T U
  map_err fn (ok v) = ok v
  map_err fn (err e) = err (fn e)

  unfoldable pub and_then : (T → Result U E) → Result T E → Result U E
  and_then fn (ok v) = fn v
  and_then fn (err e) = err e

  unfoldable pub or_else : (E → Result T U) → Result T E → Result T U
  or_else fn (ok v) = ok v
  or_else fn (err e) = fn e

module _ {ℓ κ} {T : Type ℓ} {E : Type κ} where
  unfoldable pub unwrap_or_else : Result T E → (Unit {0} → T) → T
  unwrap_or_else (ok v) f = v
  unwrap_or_else (err e) f = f tt

  -- `collect`: the loop with the values that it has so far.
  unfoldable pub collect_from : List T → List (Result T E) → Result (List T) E
  collect_from values [] = ok values
  collect_from values (ok v ∷ rs) = collect_from (values ++ (v ∷ [])) rs
  collect_from values (err e ∷ rs) = err e

  unfoldable pub collect : List (Result T E) → Result (List T) E
  unfolding collect_from
  collect rs = collect_from [] rs

  unfoldable pub sequence : List (Result T E) → Result (List T) E
  sequence rs = collect rs

-- What holds of both cases holds of the split on a result.
pub result_cases {ℓ κ μ ν} :
    {T : Type ℓ} {E : Type κ} {B : Type μ} (P : B → Type ν) (r : Result T E) (f : E → B) (g : T → B)
    → ((e : E) → r ≡ err e → P (f e))
    → ((v : T) → r ≡ ok v → P (g v))
    → P (elim r [ err e ↦ f e | ok v ↦ g v ])
result_cases P (ok v) f g pe pv = pv v refl
result_cases P (err e) f g pe pv = pe e refl
