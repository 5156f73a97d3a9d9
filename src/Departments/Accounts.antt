-- ===== src/Departments/Accounts.antt =====
-- The account numbers of the government: `derive_council_account_id` (council_service.py),
-- `derive_account_id` (supreme_assembly_service.py), `derive_department_account_id` and
-- `derive_main_account_id` (state_council_service.py). A guild's number is a Discord snowflake.
use Prim.Native.String.{String}
use dro_asms.Prelude.{
  ℕ, ◌+◌, ◌^◌, ◌<◌, ◌≡◌, ◌≢◌, ◌↔◌, Option, none, some, List, [], ◌∷◌, All, arith,
}
use dro_asms.Departments.Defs.{Department, Registry, get_by_name}

unfoldable pub derive_council_account_id : ℕ → ℕ
derive_council_account_id g = 9_000_000_000_000_000 + g

unfoldable pub derive_main_account_id : ℕ → ℕ
derive_main_account_id g = 9_100_000_000_000_000 + g

abbrev pub code_or_zero : Option Department → ℕ
code_or_zero none = 0
code_or_zero (some d) = d.code

unfoldable pub derive_department_account_id : Registry → ℕ → String → ℕ
unfolding get_by_name
derive_department_account_id r g department =
    9_500_000_000_000_000 + g + code_or_zero (get_by_name r department)

-- The supreme assembly's.
unfoldable pub derive_account_id : ℕ → ℕ
derive_account_id g = 9_500_000_000_000_000 + g + 200

-- No two of the numbers are the same.
abbrev pub AreDistinct : List ℕ → Type 0
AreDistinct [] = Unit
AreDistinct (n ∷ ns) = All (λ m. n ≢ m) ns × AreDistinct ns

-- The department accounts of two guilds, or of one, are the same account exactly where the guild's
-- number and the department's code have the same sum: in one guild, departments of different codes
-- have different accounts, and a department's account is also that of the code one less in the
-- guild with the next number.
pub department_accounts_iff :
    (r : Registry) (g h : ℕ) (n m : String) (d e : Department)
    → get_by_name r n ≡ some d
    → get_by_name r m ≡ some e
    → (derive_department_account_id r g n ≡ derive_department_account_id r h m)
      ↔ (g + d.code ≡ h + e.code)
unfolding derive_department_account_id
department_accounts_iff r g h n m d e p q = ground (arith, p, q)

-- In one guild, for two registered departments of different codes, neither of which is the supreme
-- assembly's 200, the accounts of the council, of the state council, of the two departments and of
-- the supreme assembly are five different ones. Where the guild's number is below 2 ^ 62, as that of
-- a Discord snowflake is until the year 2049, and the codes are below 2 ^ 32, all five fit the
-- signed 64-bit column of the database.
pub guild_accounts :
    (r : Registry) (g : ℕ) (n m : String) (d e : Department)
    → get_by_name r n ≡ some d
    → get_by_name r m ≡ some e
    → d.code ≢ 200
    → e.code ≢ 200
    → d.code ≢ e.code
    → g < 2 ^ 62
    → d.code < 2 ^ 32
    → e.code < 2 ^ 32
    → AreDistinct (
        derive_council_account_id g
        ∷ derive_main_account_id g
        ∷ derive_department_account_id r g n
        ∷ derive_department_account_id r g m
        ∷ derive_account_id g
        ∷ [])
      × All
          (λ account. account < 2 ^ 63)
          (derive_council_account_id g
            ∷ derive_main_account_id g
            ∷ derive_department_account_id r g n
            ∷ derive_department_account_id r g m
            ∷ derive_account_id g
            ∷ [])
unfolding derive_council_account_id derive_main_account_id derive_department_account_id
    derive_account_id
guild_accounts r g n m d e p q other_d other_e apart small small_d small_e = ground (arith, p, q)
