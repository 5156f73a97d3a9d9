-- ===== src/Companies/Tests.antt =====
-- A registry with one company and one free licence.
use Prim.Native.String.{String}
use dro_asms.Prelude.{ℕ, ◌+◌, ◌≡◌, refl, none, List, [], ◌∷◌, arith}
use dro_asms.Result.{ok}
use dro_asms.Applications.Licenses.{active, BusinessLicense, latest_first, insert_latest}
use dro_asms.Companies.Defs.{
  Company, World, base, create_company, new_company, next_company_id, get_available_licenses,
}
use dro_asms.Companies.Registry.{
  IsValid, Event, create, revoke, expire, wait, run, companies-IsValid,
}
use dro_asms.Companies.Grants.{offered_license_suffices}

abbrev strip : String → String
strip s = s

-- The length of every text of these tests, near enough.
abbrev text_length : String → ℕ
text_length s = 6

abbrev licensed : ℕ → BusinessLicense
licensed k = record {
  license_id = k;
  guild_id = 1;
  user_id = 20;
  license_type = "bakery";
  issued_by = 30;
  issued_at = 10;
  expires_at = 900;
  status = active;
  revoked_by = none;
  revoked_at = none;
  revoke_reason = none;
  updated_at = 10;
}

abbrev bakery : Company
bakery = record {
  id = 2;
  guild_id = 1;
  owner_id = 20;
  license_id = 5;
  name = "Bakery";
  account_id = base + 1;
  created_at = 50;
}

abbrev world : World
world = record {
  companies = bakery ∷ [];
  sequence = 3;
  licenses = record { licenses = licensed 5 ∷ licensed 6 ∷ []; next_license = 7 };
  accounts = [];
  now = 100;
}

world-IsValid : IsValid world
world-IsValid = record { one_company = (refl, tt); numbered = ((refl, ground arith), tt) }

abbrev requests : List Event
requests = create 1 20 6 "Second" ∷ create 1 20 6 "Again" ∷ revoke 6 30 "why" ∷ expire ∷ wait 9 ∷ []

companies-IsValid_example : IsValid (run strip text_length requests world)
companies-IsValid_example = companies-IsValid strip text_length requests world world-IsValid

offered_license_suffices_example :
    (create_company strip text_length 1 20 6 "Second" world).0
    ≡ ok (new_company 1 20 6 "Second" (base + 3) (next_company_id world).1)
unfolding get_available_licenses latest_first insert_latest
offered_license_suffices_example =
    offered_license_suffices strip text_length 1 20 6 "Second" world world-IsValid refl refl
