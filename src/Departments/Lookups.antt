-- ===== src/Departments/Lookups.antt =====
-- The registry's lookups after any file is loaded.
use Prim.Native.String.{String}
use dro_asms.Prelude.{
  ◌≡◌, refl, sym, ap, ◌∙◌, Option, none, some, List, [], ◌∷◌, ◌++◌, arith, Option-cases, ◌≢◌, inl,
  inr, All,
}
use mathlib.Core.Path.{subst}
use dro_asms.Prelude.Texts.{
  eqb_text_iff, TextDict, text_lookup, text_insert, text_values, text_lookup-text_insert,
}
use dro_asms.Departments.Defs.{
  Department, RawDepartment, ConfigFile, missing, unreadable, not_a_list, departments_list,
  Registry, parse_department, parse_all, default_departments, name_mapping, registry_of,
  load_departments, get_by_id, get_by_name,
}

-- Each department stands under its own id, once.
abbrev pub Filed : TextDict Department → Type 0
Filed [] = Unit
Filed ((k, d) ∷ ds) = (d.id ≡ k) × (text_lookup k ds ≡ none) × Filed ds

Filed-text_insert :
    (d : Department) (ds : TextDict Department) → Filed ds → Filed (text_insert d.id d ds)
Filed-text_insert d [] h = (refl, refl, tt)
Filed-text_insert d ((k, e) ∷ ds) h = ground (
  arith,
  eqb_text_iff d.id k,
  eqb_text_iff k d.id,
  Filed-text_insert d ds h.2,
  text_lookup-text_insert k d.id d ds,
)

Filed-parse_all :
    (acc : TextDict Department) (objs : List RawDepartment) (ds : TextDict Department)
    → Filed acc
    → parse_all acc objs ≡ some ds
    → Filed ds
unfolding parse_all
Filed-parse_all acc [] ds h e = ground arith
Filed-parse_all acc (obj ∷ objs) ds h e = elim (Option-cases (parse_department obj)) [
  | inl p ↦ ground (arith, p)
  | inr (d, p) ↦
      Filed-parse_all (text_insert d.id d acc) objs ds (Filed-text_insert d acc h)
        (ground (arith, p, e))
]

Filed-defaults : Filed default_departments
unfolding default_departments
Filed-defaults = ground arith

abbrev FoundIn : TextDict Department → Department → Type 0
FoundIn whole d = text_lookup d.id whole ≡ some d

values-FoundIn :
    (whole ds : TextDict Department)
    → Filed ds
    → ((k : String) (d : Department) → text_lookup k ds ≡ some d → text_lookup k whole ≡ some d)
    → All (FoundIn whole) (text_values ds)
values-FoundIn whole [] h sub = tt
values-FoundIn whole ((k, d) ∷ ds) h sub = (
  ground (arith, eqb_text_iff d.id k, sub d.id d),
  values-FoundIn whole ds h.2 (λ j e found. ground (arith, eqb_text_iff j k, sub j e)),
)

-- The department that a name of the mapping leads to.
abbrev Leads : TextDict Department → String → Option String → Type 0
Leads ds n none = Unit
Leads ds n (some i) = (d : Department) × (text_lookup i ds ≡ some d) × (d.name ≡ n) × (d.id ≡ i)

name_mapping-Leads :
    (ds : TextDict Department) (acc : TextDict String) (vs : List Department)
    → All (FoundIn ds) vs
    → ((n : String) → Leads ds n (text_lookup n acc))
    → (n : String) → Leads ds n (text_lookup n (name_mapping acc vs))
unfolding name_mapping
name_mapping-Leads ds acc [] h leads n = leads n
name_mapping-Leads ds acc (v ∷ vs) h leads n =
    name_mapping-Leads ds (text_insert v.name v.id acc) vs h.1
      (λ m.
        ground (arith, eqb_text_iff m v.name, text_lookup-text_insert m v.name v.id acc, leads m))
      n

abbrev Unnamed : String → List Department → Type 0
Unnamed n = All (λ v. v.name ≢ n)

name_mapping-Unnamed :
    (n : String) (acc : TextDict String) (vs : List Department)
    → text_lookup n (name_mapping acc vs) ≡ none
    → (text_lookup n acc ≡ none) × Unnamed n vs
unfolding name_mapping
name_mapping-Unnamed n acc [] h = (h, tt)
name_mapping-Unnamed n acc (v ∷ vs) h = ground (
  arith,
  eqb_text_iff n v.name,
  text_lookup-text_insert n v.name v.id acc,
  name_mapping-Unnamed n (text_insert v.name v.id acc) vs h,
)

lookup-Unnamed :
    (n i : String) (ds : TextDict Department) (d : Department)
    → text_lookup i ds ≡ some d
    → Unnamed n (text_values ds)
    → d.name ≢ n
lookup-Unnamed n i [] d e h = ground arith
lookup-Unnamed n i ((k, v) ∷ ds) d e h = ground (arith, lookup-Unnamed n i ds d)

abbrev pub IsLoaded : Registry → Type 0
IsLoaded r = Filed r.departments × (r.name_to_id ≡ name_mapping [] (text_values r.departments))

abbrev registry_or_default : Option (TextDict Department) → Registry
registry_or_default o = elim o [ none ↦ registry_of default_departments | some ds ↦ registry_of ds ]

pub load_departments-IsLoaded : (f : ConfigFile) → IsLoaded (load_departments f)
unfolding load_departments
load_departments-IsLoaded missing = (Filed-defaults, refl)
load_departments-IsLoaded unreadable = (Filed-defaults, refl)
load_departments-IsLoaded not_a_list = (Filed-defaults, refl)
load_departments-IsLoaded (departments_list objs) = elim (Option-cases (parse_all [] objs)) [
  | inl p ↦ subst (λ o. IsLoaded (registry_or_default o)) (sym p) (Filed-defaults, refl)
  | inr (ds, p) ↦
      subst (λ o. IsLoaded (registry_or_default o)) (sym p) (Filed-parse_all [] objs ds tt p, refl)
]

entry_key :
    (i : String) (ds : TextDict Department) (d : Department)
    → Filed ds
    → text_lookup i ds ≡ some d
    → d.id ≡ i
entry_key i [] d h e = ground arith
entry_key i ((k, v) ∷ ds) d h e = ground (arith, eqb_text_iff i k, entry_key i ds d h.2)

mapping_target :
    (r : Registry) → IsLoaded r → (n : String) → Leads r.departments n (text_lookup n r.name_to_id)
mapping_target r (filed, names) n =
    subst (λ m. Leads r.departments n (text_lookup n m)) (sym names)
      (name_mapping-Leads r.departments [] (text_values r.departments)
        (values-FoundIn r.departments r.departments filed (λ k d e. e)) (λ m. tt) n)

-- Whatever the file holds, a department found by a name has that name, and its id finds the same
-- department again.
pub found_by_name :
    (f : ConfigFile) (n : String) (d : Department)
    → get_by_name (load_departments f) n ≡ some d
    → (d.name ≡ n) × (get_by_id (load_departments f) d.id ≡ some d)
unfolding get_by_name get_by_id
found_by_name f n d e =
    let r = load_departments f in ground (arith, mapping_target r (load_departments-IsLoaded f) n)

name_found :
    (r : Registry)
    → IsLoaded r
    → (i : String) (d : Department) → text_lookup i r.departments ≡ some d
    → (e : Department) × (get_by_name r d.name ≡ some e) × (e.name ≡ d.name)
unfolding get_by_name
name_found r loaded i d found = elim (Option-cases (text_lookup d.name r.name_to_id)) [
  | inl absent ↦
      let (_, unnamed) =
        name_mapping-Unnamed d.name [] (text_values r.departments)
          (sym (ap (text_lookup d.name) loaded.1) ∙ absent) in
      ground (arith, lookup-Unnamed d.name i r.departments d found unnamed)
  | inr (k, at) ↦ ground (arith, at, mapping_target r loaded d.name)
]

-- Whatever the file holds, a department found by an id has that id, and its name finds a
-- department of the same name.
pub found_by_id :
    (f : ConfigFile) (i : String) (d : Department)
    → get_by_id (load_departments f) i ≡ some d
    → (d.id ≡ i)
      × (e : Department) × (get_by_name (load_departments f) d.name ≡ some e)
      × (e.name ≡ d.name)
unfolding get_by_name get_by_id
found_by_id f i d found =
    let loaded = load_departments-IsLoaded f in
    let (e, at, same) = name_found (load_departments f) loaded i d found in
    (entry_key i (load_departments f).departments d loaded.0 found, e, at, same)

parse_all_bad :
    (acc : TextDict Department) (before after : List RawDepartment) (bad : RawDepartment)
    → parse_department bad ≡ none
    → parse_all acc (before ++ (bad ∷ after)) ≡ none
unfolding parse_all
parse_all_bad acc [] after bad h = ground (arith, h)
parse_all_bad acc (obj ∷ objs) after bad h = elim (Option-cases (parse_department obj)) [
  | inl p ↦ ground (arith, p)
  | inr (d, p) ↦ ground (arith, p, parse_all_bad (text_insert d.id d acc) objs after bad h)
]

-- One object that does not parse makes the whole file count for nothing: the registry is the one of
-- a missing file.
pub bad_object :
    (before after : List RawDepartment) (bad : RawDepartment)
    → parse_department bad ≡ none
    → load_departments (departments_list (before ++ (bad ∷ after))) ≡ load_departments missing
unfolding load_departments
bad_object before after bad h = ap registry_or_default (parse_all_bad [] before after bad h)
