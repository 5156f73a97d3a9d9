-- ===== src/Paginator/Pages.antt =====
-- The pages of a paginator and its items.
use mathlib.Core.Path.{subst}
use native.Mathlib.Nat.{le-div_iff_mul-le, lt-div-mul-add}
use dro_asms.Prelude.{
  ℕ, suc, zero, ◌+◌, ◌-◌, ◌*◌, ◌/◌, ◌≤◌, ◌<◌, max, min, ◌≡◌, refl, sym, ap, ◌∙◌, ◌⊎◌, inl, inr,
  List, [], ◌∷◌, ◌++◌, arith, length, take, drop,
}
use dro_asms.Prelude.Int.{pos}
use dro_asms.Paginator.Defs.{Paginator, page_count, get_page_items}

rounded_up : (len size q : ℕ) → 0 < size → len + size - 1 < q * size + size → len ≤ max 1 q * size
rounded_up len size zero h lt = omega arith
rounded_up len size (suc q) h lt =
    let whole : max 1 (suc q) ≡ suc q = omega arith in
    subst (λ m. len ≤ m * size) (sym whole) (omega arith)

module _ {ℓ} {A : Type ℓ} where
  -- The page size is positive, the pages are as many as the items need, and one of them is current.
  pub record IsValid (p : Paginator A) : Type 0 where
    pub sized : 0 < p.page_size
    pub counted : p.total_pages ≡ page_count p.items p.page_size
    pub on_a_page : p.current_page < p.total_pages

  -- The pages from `first` on, `n` of them, one after the other.
  abbrev pub pages_from : Paginator A → ℕ → ℕ → List A
  pages_from p first zero = []
  pages_from p first (suc n) = get_page_items p (pos first) ++ pages_from p (suc first) n

  drop-drop : (m n : ℕ) (xs : List A) → drop n (drop m xs) ≡ drop (m + n) xs
  drop-drop zero n xs = ap (λ k. drop k xs) (omega arith)
  drop-drop (suc m) zero [] = let same : suc m ≡ suc m + 0 = omega arith in ap (λ k. drop k []) same
  drop-drop (suc m) (suc n) [] =
      let more : suc (m + suc n) ≡ suc m + suc n = omega arith in ap (λ k. drop k []) more
  drop-drop (suc m) n (x ∷ xs) =
      let more : suc (m + n) ≡ suc m + n = omega arith in
      drop-drop m n xs ∙ ap (λ k. drop k (x ∷ xs)) more

  take-drop : (n : ℕ) (xs : List A) → take n xs ++ drop n xs ≡ xs
  take-drop zero xs = refl
  take-drop (suc n) [] = refl
  take-drop (suc n) (x ∷ xs) = ap (λ ys. x ∷ ys) (take-drop n xs)

  drop_all : (n : ℕ) (xs : List A) → length xs ≤ n → drop n xs ≡ []
  drop_all zero [] h = refl
  drop_all zero (x ∷ xs) h = ground arith
  drop_all (suc n) [] h = refl
  drop_all (suc n) (x ∷ xs) h = drop_all n xs (omega arith)

  length-take : (n : ℕ) (xs : List A) → length (take n xs) ≡ min n (length xs)
  length-take zero xs = omega arith
  length-take (suc n) [] = omega arith
  length-take (suc n) (x ∷ xs) = omega (arith, length-take n xs)

  length-drop : (n : ℕ) (xs : List A) → length (drop n xs) ≡ length xs - n
  length-drop zero xs = omega arith
  length-drop (suc n) [] = omega arith
  length-drop (suc n) (x ∷ xs) = omega (arith, length-drop n xs)

  page_count_covers : (xs : List A) (size : ℕ) → 0 < size → length xs ≤ page_count xs size * size
  unfolding page_count
  page_count_covers xs size h =
      let q = (length xs + size - 1) / size in rounded_up (length xs) size q h (lt-div-mul-add h)

  page_count_needed :
      (xs : List A) (size n : ℕ) → 0 < size → suc n < page_count xs size → suc n * size < length xs
  unfolding page_count
  page_count_needed xs size n h lt =
      let enough =
        (le-div_iff_mul-le {x = suc (suc n)} {y = length xs + size - 1} h).0 (omega arith) in
      omega (arith, enough)

  page_drop :
      (p : Paginator A) (n : ℕ)
      → n < p.total_pages
      → get_page_items p (pos n) ≡ take p.page_size (drop (n * p.page_size) p.items)
  unfolding get_page_items
  page_drop p n h = ground arith

  pages_from-drop :
      (p : Paginator A)
      → IsValid p
      → (first n : ℕ) → first + n ≡ p.total_pages
      → pages_from p first n ≡ drop (first * p.page_size) p.items
  pages_from-drop p v first zero e = sym (
      drop_all (first * p.page_size) p.items (
        subst (λ k. length p.items ≤ k * p.page_size) (sym v.counted ∙ sym e ∙ omega arith)
          (page_count_covers p.items p.page_size v.sized)))
  pages_from-drop p v first (suc n) e =
      let size = p.page_size in
      let rest = drop (first * size) p.items in
      ap (λ ys. ys ++ pages_from p (suc first) n) (page_drop p first (omega arith))
      ∙ ap (λ ys. take size rest ++ ys)
          (pages_from-drop p v (suc first) n (omega arith)
            ∙ ap (λ k. drop k p.items) (omega arith)
            ∙ sym (drop-drop (first * size) size p.items))
      ∙ take-drop size rest

  -- The pages of a paginator, one after the other, are its items, where the page size is positive
  -- and the pages are as many as the items need.
  pub pages_cover : (p : Paginator A) → IsValid p → pages_from p 0 p.total_pages ≡ p.items
  pages_cover p v =
      let whole : 0 * p.page_size ≡ 0 = omega arith in
      pages_from-drop p v 0 p.total_pages (omega arith) ∙ ap (λ k. drop k p.items) whole

  nonempty_or : (xs : List A) → (0 < length xs) ⊎ (xs ≡ [])
  nonempty_or [] = inr refl
  nonempty_or (x ∷ xs) = inl (omega arith)

  starts_inside :
      (xs : List A) (size n : ℕ)
      → 0 < size
      → 0 < length xs
      → n < page_count xs size
      → n * size < length xs
  starts_inside xs size zero h some_item lt = omega arith
  starts_inside xs size (suc n) h some_item lt = page_count_needed xs size n h lt

  -- The page shown of a valid paginator has as many items as a page holds or, if fewer, as are left
  -- from its first one on, and it is not empty unless there are no items at all.
  page_length :
      (p : Paginator A)
      → IsValid p
      → let shown = length (get_page_items p (pos p.current_page)) in
        (shown ≡ min p.page_size (length p.items - p.current_page * p.page_size))
        × ((0 < shown) ⊎ (p.items ≡ []))
  page_length p v =
      let size = p.page_size in
      let first = p.current_page * size in
      let exact =
        ap length (page_drop p p.current_page v.on_a_page)
        ∙ length-take size (drop first p.items)
        ∙ ap (min size) (length-drop first p.items) in
      let counted = subst (λ t. p.current_page < t) v.counted v.on_a_page in
      (
        exact,
        elim (nonempty_or p.items) [
          | inr none_at_all ↦ inr none_at_all
          | inl h ↦
              let inside = starts_inside p.items size p.current_page v.sized h counted in
              inl (omega (arith, exact, inside))
        ],
      )
