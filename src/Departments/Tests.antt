-- ===== src/Departments/Tests.antt =====
-- The registry's theorems at concrete files.
use Prim.Native.String.{String}
use dro_asms.Prelude.{List, All, ℕ, ◌+◌, ◌^◌, ◌<◌, ◌≡◌, ◌↔◌, refl, none, some, [], ◌∷◌, ◌++◌, arith}
use dro_asms.Prelude.Int.{pos}
use dro_asms.Prelude.Texts.{text_values}
use dro_asms.Departments.Defs.{
  Department, RawCode, integer, not_integer, RawDepartment, ConfigFile, missing, departments_list,
  Registry, load_departments, default_departments, parse_all, parse_department, name_mapping,
  get_by_id, get_by_name, list_all, get_by_code,
}
use dro_asms.Departments.Accounts.{
  derive_council_account_id, derive_main_account_id, derive_department_account_id,
  derive_account_id, department_accounts_iff, guild_accounts, AreDistinct,
}
use dro_asms.Departments.Lookups.{found_by_name, found_by_id, bad_object}
use dro_asms.Departments.Order.{Sorted, with_code, first, list_all_lem}

abbrev raw : String → String → RawCode → RawDepartment
raw i n c = record {
  id = some i;
  name = some n;
  code = some c;
  emoji = none;
  level = none;
  description = none;
  parent = none;
  subordinates = none;
}

abbrev parsed : String → String → ℕ → Department
parsed i n c = record {
  id = i;
  name = n;
  code = c;
  emoji = none;
  level = "department";
  description = none;
  parent = none;
  subordinates = none;
}

-- Two departments share a name.
abbrev file : ConfigFile
file = departments_list (
    raw "a" "A" (integer (pos 3))
    ∷ raw "b" "B" (integer (pos 2))
    ∷ raw "c" "A" (integer (pos 1))
    ∷ [])

last_name : get_by_name (load_departments file) "A" ≡ some (parsed "c" "A" 1)
unfolding load_departments parse_all parse_department name_mapping get_by_name
last_name = refl

found_by_name_example :
    (parsed "c" "A" 1).name ≡ "A"
    × (get_by_id (load_departments file) "c" ≡ some (parsed "c" "A" 1))
found_by_name_example = found_by_name file "A" (parsed "c" "A" 1) last_name

found_by_id_example :
    ((parsed "a" "A" 3).id ≡ "a")
    × (e : Department) × (get_by_name (load_departments file) "A" ≡ some e)
    × (e.name ≡ "A")
unfolding load_departments parse_all parse_department name_mapping get_by_id
found_by_id_example = found_by_id file "a" (parsed "a" "A" 3) refl

bad_object_example :
    load_departments
      (departments_list ((raw "a" "A" (integer (pos 3)) ∷ []) ++ (raw "b" "B" not_integer ∷ [])))
    ≡ load_departments missing
unfolding parse_department
bad_object_example =
    bad_object (raw "a" "A" (integer (pos 3)) ∷ []) [] (raw "b" "B" not_integer) refl

list_all_lem_example :
    let r = load_departments file in
    Sorted (list_all r)
    × (with_code 2 (list_all r) ≡ with_code 2 (text_values r.departments))
    × (get_by_code r 2 ≡ first (with_code 2 (list_all r)))
list_all_lem_example = list_all_lem (load_departments file) 2

finance :
    get_by_name (load_departments missing) "財政部" ≡ get_by_id (load_departments missing) "finance"
unfolding load_departments default_departments name_mapping get_by_name get_by_id
finance = refl

abbrev three_codes : Registry
three_codes = record {
  departments = ("a", parsed "a" "A" 3) ∷ ("b", parsed "b" "B" 2) ∷ [];
  name_to_id = ("A", "a") ∷ ("B", "b") ∷ [];
}

department_accounts_iff_example :
    (derive_department_account_id three_codes 70 "A"
      ≡ derive_department_account_id three_codes 71 "B")
    ↔ (70 + 3 ≡ 71 + 2)
unfolding get_by_name
department_accounts_iff_example =
    department_accounts_iff three_codes 70 71 "A" "B" (parsed "a" "A" 3) (parsed "b" "B" 2) refl
      refl

abbrev accounts : ℕ → List ℕ
accounts g =
    derive_council_account_id g
    ∷ derive_main_account_id g
    ∷ derive_department_account_id three_codes g "A"
    ∷ derive_department_account_id three_codes g "B"
    ∷ derive_account_id g
    ∷ []

guild_accounts_example :
    AreDistinct (accounts 1_300_000_000_000_000_000)
    × All (λ account. account < 2 ^ 63) (accounts 1_300_000_000_000_000_000)
unfolding get_by_name
guild_accounts_example =
    guild_accounts three_codes 1_300_000_000_000_000_000 "A" "B" (parsed "a" "A" 3)
      (parsed "b" "B" 2) refl refl (ground arith) (ground arith) (ground arith) (ground arith)
      (ground arith) (ground arith)
