-- ===== src/Prelude/Texts.antt =====
-- Text keys: equality of texts, and a Python dict keyed by texts in insertion order.
use Prim.Native.String.{String}
use text.Mathlib.Text
use text.Mathlib.TextEquality
use dro_asms.Prelude.{
  ◌≡◌, refl, ◌↔◌, Bool, true, false, ◌||◌, Option, none, some, List, [], ◌∷◌, arith, if◌then◌else◌,
}

abbrev pub eqb_text : String → String → Bool
eqb_text s t = Text.◌==◌ s t

pub eqb_text_iff : (s t : String) → (eqb_text s t ≡ true) ↔ (s ≡ t)
eqb_text_iff s t = TextEquality.eq_iff s t

-- `s in xs`
abbrev pub text_elem : String → List String → Bool
text_elem s [] = false
text_elem s (x ∷ xs) = eqb_text s x || text_elem s xs

abbrev pub TextDict {ℓ} : Type ℓ → Type ℓ
TextDict V = List (String × V)

module _ {ℓ} {V : Type ℓ} where
  -- `d.get(k)`
  abbrev pub text_lookup : String → TextDict V → Option V
  text_lookup k [] = none
  text_lookup k ((j, v) ∷ d) = if eqb_text k j then some v else text_lookup k d

  -- `d[k] = v`
  abbrev pub text_insert : String → V → TextDict V → TextDict V
  text_insert k v [] = (k, v) ∷ []
  text_insert k v ((j, w) ∷ d) = if eqb_text k j then (j, v) ∷ d else (j, w) ∷ text_insert k v d

  -- `d.values()`
  abbrev pub text_values : TextDict V → List V
  text_values [] = []
  text_values ((j, v) ∷ d) = v ∷ text_values d

  pub text_lookup-text_insert :
      (j k : String) (v : V) (d : TextDict V)
      → text_lookup j (text_insert k v d) ≡ (if eqb_text j k then some v else text_lookup j d)
  text_lookup-text_insert j k v [] = refl
  text_lookup-text_insert j k v ((i, w) ∷ d) =
      ground (
        arith,
        eqb_text_iff j k,
        eqb_text_iff k i,
        eqb_text_iff j i,
        text_lookup-text_insert j k v d,
      )
