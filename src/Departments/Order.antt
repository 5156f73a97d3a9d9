-- ===== src/Departments/Order.antt =====
-- The lists of departments that the registry returns: sorted by code, and by level.
use Prim.Native.String.{String}
use mathlib.Core.List.{append-nil, append_assoc}
use dro_asms.Prelude.{
  ℕ, ◌≤◌, ◌≡◌, refl, sym, ap, ◌∙◌, Option, none, some, Option-cases, inl, inr, List, [], ◌∷◌, ◌++◌,
  arith, keep, ◌==◌, if◌then◌else◌,
}
use dro_asms.Prelude.Texts.{
  eqb_text, eqb_text_iff, TextDict, text_lookup, text_values, text_lookup-text_insert,
}
use dro_asms.Departments.Defs.{
  Department, Registry, insert_sorted, sort_by_code, list_all, first_with_code, get_by_code,
  add_to_level, group_by_level, get_hierarchy,
}

-- Non-decreasing codes.
abbrev pub Sorted : List Department → Type 0
Sorted [] = Unit
Sorted (d ∷ []) = Unit
Sorted (d ∷ e ∷ es) = (d.code ≤ e.code) × Sorted (e ∷ es)

abbrev pub with_code : ℕ → List Department → List Department
with_code c = keep λ d. d.code == c

Sorted-insert_sorted :
    (d : Department) (ds : List Department) → Sorted ds → Sorted (insert_sorted d ds)
unfolding insert_sorted
Sorted-insert_sorted d [] h = tt
Sorted-insert_sorted d (e ∷ []) h = ground arith
Sorted-insert_sorted d (e ∷ f ∷ es) h = ground (arith, Sorted-insert_sorted d (f ∷ es) h.1)

with_code-insert_sorted :
    (c : ℕ) (d : Department) (ds : List Department)
    → with_code c (insert_sorted d ds) ≡ with_code c (d ∷ ds)
unfolding insert_sorted
with_code-insert_sorted c d [] = refl
with_code-insert_sorted c d (e ∷ es) = ground (arith, with_code-insert_sorted c d es)

Sorted-sort_by_code : (ds : List Department) → Sorted (sort_by_code ds)
unfolding sort_by_code
Sorted-sort_by_code [] = tt
Sorted-sort_by_code (d ∷ ds) = Sorted-insert_sorted d (sort_by_code ds) (Sorted-sort_by_code ds)

with_code-sort_by_code :
    (c : ℕ) (ds : List Department) → with_code c (sort_by_code ds) ≡ with_code c ds
unfolding sort_by_code
with_code-sort_by_code c [] = refl
with_code-sort_by_code c (d ∷ ds) =
    ground (arith, with_code-insert_sorted c d (sort_by_code ds), with_code-sort_by_code c ds)

abbrev pub first : List Department → Option Department
first [] = none
first (d ∷ ds) = some d

first_with_code-first :
    (c : ℕ) (ds : List Department) → first_with_code c ds ≡ first (with_code c ds)
unfolding first_with_code
first_with_code-first c [] = refl
first_with_code-first c (d ∷ ds) = ground (arith, first_with_code-first c ds)

-- `list_all` is the stable sort of the departments by code: the codes do not decrease, and the
-- departments of any one code are those of the registry in their order there. The first of them is
-- what `get_by_code` finds.
pub list_all_lem :
    (r : Registry) (c : ℕ)
    → Sorted (list_all r)
      × (with_code c (list_all r) ≡ with_code c (text_values r.departments))
      × (get_by_code r c ≡ first (with_code c (list_all r)))
unfolding list_all get_by_code
list_all_lem r c =
    let ds = text_values r.departments in
    let same = with_code-sort_by_code c ds in
    (Sorted-sort_by_code ds, same, first_with_code-first c ds ∙ ap first (sym same))

abbrev pub level_of : Department → String
level_of d = if eqb_text d.level "" then "department" else d.level

-- `hierarchy.get(level, [])`
abbrev pub at_level : String → TextDict (List Department) → List Department
at_level l h = elim (text_lookup l h) [ none ↦ [] | some ds ↦ ds ]

at_level-add_to_level :
    (l : String) (h : TextDict (List Department)) (d : Department)
    → at_level l (add_to_level h d) ≡ at_level l h ++ keep (λ e. eqb_text (level_of e) l) (d ∷ [])
at_level-add_to_level l h d =
    let k = level_of d in
    let new : List Department = elim (text_lookup k h) [
      | none ↦ d ∷ []
      | some ds ↦ ds ++ (d ∷ [])
    ] in
    elim (Option-cases (text_lookup k h)) [
      | inl p ↦ ground (
        arith,
        p,
        append-nil (at_level l h),
        eqb_text_iff l k,
        eqb_text_iff k l,
        text_lookup-text_insert l k new h,
      )
      | inr (es, p) ↦ ground (
        arith,
        p,
        append-nil (at_level l h),
        eqb_text_iff l k,
        eqb_text_iff k l,
        text_lookup-text_insert l k new h,
      )
    ]

at_level-group_by_level :
    (l : String) (h : TextDict (List Department)) (ds : List Department)
    → at_level l (group_by_level h ds) ≡ at_level l h ++ keep (λ e. eqb_text (level_of e) l) ds
unfolding group_by_level
at_level-group_by_level l h [] = sym (append-nil (at_level l h))
at_level-group_by_level l h (d ∷ ds) =
    at_level-group_by_level l (add_to_level h d) ds
    ∙ ap (λ es. es ++ keep (λ e. eqb_text (level_of e) l) ds) (at_level-add_to_level l h d)
    ∙ append_assoc (at_level l h) (keep (λ e. eqb_text (level_of e) l) (d ∷ []))
        (keep (λ e. eqb_text (level_of e) l) ds)
    ∙ ap (λ es. at_level l h ++ es) (ground arith)

-- The hierarchy holds under each level, known or not, the departments of that level in their order
-- in the registry; an empty level counts as "department".
get_hierarchy_lem :
    (r : Registry) (l : String)
    → at_level l (get_hierarchy r) ≡ keep (λ d. eqb_text (level_of d) l) (text_values r.departments)
unfolding get_hierarchy
get_hierarchy_lem r l =
    let levels : TextDict (List Department) =
      ("executive", []) ∷ ("governance", []) ∷ ("department", []) ∷ [] in
    let empty : at_level l levels ≡ [] = ground arith in
    at_level-group_by_level l levels (text_values r.departments)
    ∙ ap (λ es. es ++ keep (λ d. eqb_text (level_of d) l) (text_values r.departments)) empty
