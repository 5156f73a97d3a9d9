-- ===== src/Departments/Defs.antt =====
-- `class DepartmentRegistry`. A value of departments.json is what the loader can see of it.
use Prim.Native.String.{String}
use dro_asms.Prelude.{ℕ, Option, none, some, List, [], ◌∷◌, ◌++◌, keep, leb, ◌==◌, if◌then◌else◌}
use dro_asms.Prelude.Int.{ℤ, pos}
use dro_asms.Prelude.Texts.{eqb_text, TextDict, text_lookup, text_insert, text_values}

pub record Department : Type 0 where
  pub id : String
  pub name : String
  pub code : ℕ
  pub emoji : Option String
  pub level : String
  pub description : Option String
  pub parent : Option String
  pub subordinates : Option (List String)

-- `obj["code"]`
pub data RawCode : Type 0 where
  integer : ℤ → RawCode
  not_integer : RawCode

-- An object of the file: each key with `str` of its value, or absent. In the list of subordinates
-- `none` is a value that is no text.
pub record RawDepartment : Type 0 where
  pub id : Option String
  pub name : Option String
  pub code : Option RawCode
  pub emoji : Option String
  pub level : Option String
  pub description : Option String
  pub parent : Option String
  pub subordinates : Option (List (Option String))

-- The file at `config_path`; `unreadable` is a failure to open or to parse it.
pub data ConfigFile : Type 0 where
  missing unreadable not_a_list : ConfigFile
  departments_list : List RawDepartment → ConfigFile

pub record Registry : Type 0 where
  pub departments : TextDict Department
  pub name_to_id : TextDict String

-- `if isinstance(s, str) and s`
unfoldable pub text_entries : List (Option String) → List String
text_entries [] = []
text_entries (none ∷ xs) = text_entries xs
text_entries (some s ∷ xs) = let rest = text_entries xs in if eqb_text s "" then rest else s ∷ rest

abbrev pub nonempty : List String → Option (List String)
nonempty [] = none
nonempty (x ∷ xs) = some (x ∷ xs)

abbrev pub parse_subordinates : Option (List (Option String)) → Option (List String)
parse_subordinates none = none
parse_subordinates (some xs) = nonempty (text_entries xs)

abbrev pub get_or_text : Option String → String → String
get_or_text none d = d
get_or_text (some s) d = s

-- One turn of the loop over the file; `none` is the ValueError.
abbrev pub parse_fields :
    Option String → Option String → Option RawCode → RawDepartment → Option Department
parse_fields (some i) (some n) (some (integer (pos c))) obj = some (record {
  id = i;
  name = n;
  code = c;
  emoji = obj.emoji;
  level = get_or_text obj.level "department";
  description = obj.description;
  parent = obj.parent;
  subordinates = parse_subordinates obj.subordinates;
})
parse_fields _ _ _ obj = none

unfoldable pub parse_department : RawDepartment → Option Department
unfolding text_entries
parse_department obj = parse_fields obj.id obj.name obj.code obj

unfoldable pub parse_all : TextDict Department → List RawDepartment → Option (TextDict Department)
unfolding parse_department
parse_all acc [] = some acc
parse_all acc (obj ∷ objs) = elim (parse_department obj) [
  | none ↦ none
  | some d ↦ parse_all (text_insert d.id d acc) objs
]

abbrev ministry : String → String → ℕ → String → String × Department
ministry i n c e = (
  i,
  record {
    id = i;
    name = n;
    code = c;
    emoji = some e;
    level = "department";
    description = none;
    parent = some "state_council";
    subordinates = none;
  },
)

-- An emoji is written without its invisible variation selector.
unfoldable pub default_departments : TextDict Department
default_departments =
    (
      "permanent_council",
      record {
        id = "permanent_council";
        name = "常任理事會";
        code = 0;
        emoji = some "👑";
        level = "executive";
        description = some "國家最高決策機構";
        parent = none;
        subordinates = none;
      },
    )
    ∷ (
      "state_council",
      record {
        id = "state_council";
        name = "國務院";
        code = 100;
        emoji = some "🏛";
        level = "governance";
        description = some "國家治理執行機構";
        parent = none;
        subordinates = some (
            "interior_affairs" ∷ "finance" ∷ "homeland_security" ∷ "central_bank"
            ∷ "justice_department" ∷ []);
      },
    )
    ∷ ministry "interior_affairs" "內政部" 1 "🏘"
    ∷ ministry "finance" "財政部" 2 "💰"
    ∷ ministry "homeland_security" "國土安全部" 3 "🛡"
    ∷ ministry "central_bank" "中央銀行" 4 "🏦"
    ∷ ministry "justice_department" "法務部" 5 "⚖"
    ∷ []

-- `{dept.name: dept.id for dept in self._departments.values()}`
unfoldable pub name_mapping : TextDict String → List Department → TextDict String
name_mapping acc [] = acc
name_mapping acc (d ∷ ds) = name_mapping (text_insert d.name d.id acc) ds

abbrev pub registry_of : TextDict Department → Registry
registry_of ds = record { departments = ds; name_to_id = name_mapping [] (text_values ds) }

unfoldable pub load_departments : ConfigFile → Registry
unfolding default_departments parse_all name_mapping
load_departments missing = registry_of default_departments
load_departments unreadable = registry_of default_departments
load_departments not_a_list = registry_of default_departments
load_departments (departments_list objs) = elim (parse_all [] objs) [
  | none ↦ registry_of default_departments
  | some ds ↦ registry_of ds
]

unfoldable pub get_by_id : Registry → String → Option Department
get_by_id r i = text_lookup i r.departments

unfoldable pub get_by_name : Registry → String → Option Department
get_by_name r n = elim (text_lookup n r.name_to_id) [
  | none ↦ none
  | some i ↦ text_lookup i r.departments
]

unfoldable pub get_id_by_name : Registry → String → Option String
get_id_by_name r n = text_lookup n r.name_to_id

unfoldable pub get_name_by_id : Registry → String → Option String
get_name_by_id r i = elim (text_lookup i r.departments) [ none ↦ none | some d ↦ some d.name ]

unfoldable pub first_with_code : ℕ → List Department → Option Department
first_with_code c [] = none
first_with_code c (d ∷ ds) = let rest = first_with_code c ds in if d.code == c then some d else rest

unfoldable pub get_by_code : Registry → ℕ → Option Department
unfolding first_with_code
get_by_code r c = first_with_code c (text_values r.departments)

unfoldable pub get_by_level : Registry → String → List Department
get_by_level r l = keep (λ d. eqb_text d.level l) (text_values r.departments)

-- `if not dept or not dept.parent`: an empty text counts as no parent.
unfoldable pub get_parent : Registry → String → Option Department
get_parent r i = elim (text_lookup i r.departments) [
  | none ↦ none
  | some d ↦ elim d.parent [
    | none ↦ none
    | some p ↦ if eqb_text p "" then none else text_lookup p r.departments
  ]
]

unfoldable pub registered : Registry → List String → List Department
registered r [] = []
registered r (i ∷ is) =
    let rest = registered r is in
    elim (text_lookup i r.departments) [ none ↦ rest | some d ↦ d ∷ rest ]

unfoldable pub get_subordinates : Registry → String → List Department
unfolding registered
get_subordinates r i = elim (text_lookup i r.departments) [
  | none ↦ []
  | some d ↦ elim d.subordinates [ none ↦ [] | some is ↦ registered r is ]
]

-- `sorted(…, key=lambda d: d.code)`, which is stable.
unfoldable pub insert_sorted : Department → List Department → List Department
insert_sorted d [] = d ∷ []
insert_sorted d (e ∷ es) =
    let rest = insert_sorted d es in if leb d.code e.code then d ∷ e ∷ es else e ∷ rest

unfoldable pub sort_by_code : List Department → List Department
unfolding insert_sorted
sort_by_code [] = []
sort_by_code (d ∷ ds) = insert_sorted d (sort_by_code ds)

unfoldable pub list_all : Registry → List Department
unfolding sort_by_code
list_all r = sort_by_code (text_values r.departments)

-- `hierarchy[level].append(dept)`, or a new entry.
abbrev pub add_to_level : TextDict (List Department) → Department → TextDict (List Department)
add_to_level h d =
    let level = if eqb_text d.level "" then "department" else d.level in
    text_insert level (elim (text_lookup level h) [ none ↦ d ∷ [] | some ds ↦ ds ++ (d ∷ []) ]) h

unfoldable pub group_by_level :
    TextDict (List Department) → List Department → TextDict (List Department)
group_by_level h [] = h
group_by_level h (d ∷ ds) = group_by_level (add_to_level h d) ds

unfoldable pub get_hierarchy : Registry → TextDict (List Department)
unfolding group_by_level
get_hierarchy r =
    group_by_level (("executive", []) ∷ ("governance", []) ∷ ("department", []) ∷ [])
      (text_values r.departments)
