-- ===== src/Companies/Defs.antt =====
-- The table governance.companies with its sequence of numbers, the functions of fn_companies.sql,
-- and `class CompanyService`. Numbers of licences and companies are numbers; the gateway of
-- licences is the one of Applications/Licenses, and the balances are Economy's. What the database
-- function raises is named by the error that the service makes of it.
use Prim.Native.String.{String}
use dro_asms.Prelude.{
  ℕ, suc, ◌+◌, ◌-◌, ◌*◌, Bool, false, ◌&&◌, ◌||◌, not, Option, none, some, List, [], ◌∷◌, ◌++◌,
  keep, take, drop, length, ltb, leb, ◌==◌, if◌then◌else◌,
}
use dro_asms.Prelude.Exclusive.{any}
use dro_asms.Result.{Result, ok, err}
use dro_asms.Applications.Licenses.{
  is_active, BusinessLicense, LicenseTable, find_license, latest_first,
}
use dro_asms.Economy.Defs.{Account, ensure_account, find_account, balance_in}

pub record Company : Type 0 where
  pub id : ℕ
  pub guild_id : ℕ
  pub owner_id : ℕ
  pub license_id : ℕ
  pub name : String
  pub account_id : ℕ
  pub created_at : ℕ

-- `sequence` is what companies_id_seq gives next. A number that it has given is not given again,
-- also where the statement that asked for it fails.
pub record World : Type 0 where
  pub companies : List Company
  pub sequence : ℕ
  pub licenses : LicenseTable
  pub accounts : List Account
  pub now : ℕ

pub data CompanyError : Type 0 where
  not_found not_owner license_invalid no_available_license : CompanyError
  license_already_used invalid_name database_error : CompanyError

pub record CompanyListResult : Type 0 where
  pub companies : List Company
  pub total_count : ℕ
  pub page : ℕ
  pub page_size : ℕ

abbrev pub base : ℕ
base = 9_600_000_000_000_000

-- `CompanyGateway.derive_account_id`
abbrev pub derive_account_id : (guild_id company_id : ℕ) → ℕ
derive_account_id guild_id company_id = base + company_id

-- `derive_company_account_id`
abbrev pub derive_company_account_id : (company_id : ℕ) → ℕ
derive_company_account_id company_id = derive_account_id 0 company_id

-- The licence is the user's, in this guild, and marked as active.
abbrev pub is_usable : ℕ → ℕ → ℕ → BusinessLicense → Bool
is_usable g owner license l =
    (l.license_id == license) && ((l.guild_id == g) && ((l.user_id == owner) && is_active l.status))

abbrev pub stands_on : ℕ → ℕ → Company → Bool
stands_on g license c = (c.guild_id == g) && (c.license_id == license)

abbrev pub has_account_id : ℕ → Company → Bool
has_account_id account c = c.account_id == account

abbrev pub new_company : ℕ → ℕ → ℕ → String → ℕ → World → Company
new_company g owner license name account w = record {
  id = w.sequence;
  guild_id = g;
  owner_id = owner;
  license_id = license;
  name = name;
  account_id = account;
  created_at = w.now;
}

abbrev pub insert_company : Company → World → World
insert_company c w = record w { companies = w.companies ++ (c ∷ []); sequence = suc w.sequence }

abbrev pub is_name : (String → ℕ) → String → Bool
is_name text_length name = not (ltb (text_length name) 1 || ltb 100 (text_length name))

-- The row takes the next number of the sequence. An account that another company has is refused
-- by the table.
unfoldable pub fn_create_company :
    (String → ℕ) → ℕ → ℕ → ℕ → String → ℕ → World → Result Company CompanyError × World
fn_create_company text_length g owner license name account w =
    if not (any (is_usable g owner license) w.licenses.licenses)
    then (err no_available_license, w)
    else if any (stands_on g license) w.companies
    then (err license_already_used, w)
    else if not (is_name text_length name)
    then (err invalid_name, w)
    else if any (has_account_id account) w.companies
    then (err database_error, record w { sequence = suc w.sequence })
    else let c = new_company g owner license name account w in (ok c, insert_company c w)

abbrev pub next_company_id : World → ℕ × World
next_company_id w = (w.sequence, record w { sequence = suc w.sequence })

abbrev pub with_balance : ℕ → ℕ → World → World
with_balance g account w = record w { accounts = ensure_account w.now g account w.accounts }

-- `strip` is `str.strip`, and `text_length` is `len`.
unfoldable pub create_company :
    (String → String)
    → (String → ℕ)
    → ℕ
    → ℕ
    → ℕ
    → String
    → World
    → Result Company CompanyError × World
create_company strip text_length g owner license name w =
    if not (is_name text_length (strip name))
    then (err invalid_name, w)
    else let (next_id, drawn) = next_company_id w in
      let account = derive_account_id g next_id in
      let (result, after) =
        fn_create_company text_length g owner license (strip name) account drawn in
      elim result [ err e ↦ (err e, after) | ok c ↦ (ok c, with_balance g account after) ]

unfoldable pub find_company : (Company → Bool) → List Company → Option Company
find_company wanted [] = none
find_company wanted (c ∷ more) =
    let rest = find_company wanted more in if wanted c then some c else rest

unfoldable pub get_company : ℕ → World → Option Company
get_company k w = find_company (λ c. c.id == k) w.companies

unfoldable pub get_company_by_account : ℕ → World → Option Company
get_company_by_account account w = find_company (has_account_id account) w.companies

-- `ORDER BY created_at DESC`
unfoldable pub insert_newest_company : Company → List Company → List Company
insert_newest_company a [] = a ∷ []
insert_newest_company a (b ∷ bs) =
    let rest = insert_newest_company a bs in
    if leb b.created_at a.created_at then a ∷ b ∷ bs else b ∷ rest

unfoldable pub newest_companies : List Company → List Company
unfolding insert_newest_company
newest_companies [] = []
newest_companies (c ∷ more) = insert_newest_company c (newest_companies more)

unfoldable pub list_user_companies : ℕ → ℕ → World → List Company
list_user_companies g owner w =
    newest_companies (keep (λ c. (c.guild_id == g) && (c.owner_id == owner)) w.companies)

abbrev pub reported_count : List Company → ℕ → ℕ
reported_count [] total = 0
reported_count (c ∷ more) total = total

-- The total comes with the rows of the page: a page without rows reports 0.
unfoldable pub list_guild_companies : ℕ → (page page_size : ℕ) → World → CompanyListResult
list_guild_companies g page page_size w =
    let found = keep (λ c. c.guild_id == g) w.companies in
    let shown = take page_size (drop ((page - 1) * page_size) (newest_companies found)) in
    record {
      companies = shown;
      total_count = reported_count shown (length found);
      page = page;
      page_size = page_size;
    }

-- Active licences that no company of any guild stands on.
unfoldable pub get_available_licenses : ℕ → ℕ → World → List BusinessLicense
get_available_licenses g user w = latest_first (
    keep
      (λ l.
        ((l.guild_id == g) && (l.user_id == user))
        && (is_active l.status && not (any (λ c. c.license_id == l.license_id) w.companies)))
      w.licenses.licenses)

abbrev pub is_owner : ℕ → Option Company → Bool
is_owner user none = false
is_owner user (some c) = c.owner_id == user

unfoldable pub check_ownership : ℕ → ℕ → World → Bool
check_ownership k user w = is_owner user (get_company k w)

abbrev pub is_active_license : Option BusinessLicense → Bool
is_active_license none = false
is_active_license (some l) = is_active l.status

abbrev pub license_of : World → Option Company → Bool
license_of w none = false
license_of w (some c) = is_active_license (find_license c.license_id w.licenses.licenses)

unfoldable pub check_license_valid : ℕ → World → Bool
check_license_valid k w = license_of w (get_company k w)

unfoldable pub validate_company_operation : ℕ → ℕ → World → Result Company CompanyError
validate_company_operation k user w = elim (get_company k w) [
  | none ↦ err not_found
  | some c ↦
      if not (c.owner_id == user)
      then err not_owner
      else if not (check_license_valid k w)
      then err license_invalid
      else ok c
]

unfoldable pub get_company_balance : ℕ → ℕ → World → ℕ
get_company_balance g account w = balance_in (find_account g account w.accounts)
