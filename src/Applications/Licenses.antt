-- ===== src/Applications/Licenses.antt =====
-- The table governance.business_licenses and BusinessLicenseGateway of
-- db/gateway/business_license.py, each operation with the function of fn_business_licenses.sql that
-- it calls.
use Prim.Native.String.{String}
use dro_asms.Prelude.{
  ℕ, suc, Bool, true, false, ◌&&◌, Option, none, some, List, [], ◌∷◌, ◌++◌, map, keep, length, ltb,
  leb, ◌==◌, if◌then◌else◌,
}
use dro_asms.Prelude.Exclusive.{any}
use dro_asms.Prelude.Texts.{eqb_text}
use dro_asms.Result.{Result, ok, err}

pub data LicenseStatus : Type 0 where
  active expired revoked : LicenseStatus

abbrev pub is_active : LicenseStatus → Bool
is_active active = true
is_active _ = false

pub record BusinessLicense : Type 0 where
  pub license_id : ℕ
  pub guild_id : ℕ
  pub user_id : ℕ
  pub license_type : String
  pub issued_by : ℕ
  pub issued_at : ℕ
  pub expires_at : ℕ
  pub status : LicenseStatus
  pub revoked_by : Option ℕ
  pub revoked_at : Option ℕ
  pub revoke_reason : Option String
  pub updated_at : ℕ

pub record LicenseTable : Type 0 where
  pub licenses : List BusinessLicense
  pub next_license : ℕ

-- The exceptions of the functions, which the gateway's decorator turns into DatabaseError.
pub data LicenseError : Type 0 where
  already_active license_not_found cannot_revoke : LicenseError

abbrev pub is_license_of : ℕ → ℕ → String → BusinessLicense → Bool
is_license_of g user type l =
    (l.guild_id == g) && ((l.user_id == user) && eqb_text l.license_type type)

-- The user has a licence for the type that is marked as active, whatever its time.
abbrev pub has_active : ℕ → ℕ → String → List BusinessLicense → Bool
has_active g user type = any λ l. is_license_of g user type l && is_active l.status

abbrev pub new_license : ℕ → ℕ → ℕ → String → ℕ → ℕ → LicenseTable → BusinessLicense
new_license now g user type issued_by expires_at t = record {
  license_id = t.next_license;
  guild_id = g;
  user_id = user;
  license_type = type;
  issued_by = issued_by;
  issued_at = now;
  expires_at = expires_at;
  status = active;
  revoked_by = none;
  revoked_at = none;
  revoke_reason = none;
  updated_at = now;
}

abbrev pub add_license : BusinessLicense → LicenseTable → LicenseTable
add_license l t = record { licenses = t.licenses ++ (l ∷ []); next_license = suc t.next_license }

unfoldable pub issue_license :
    ℕ → ℕ → ℕ → String → ℕ → ℕ → LicenseTable → Result BusinessLicense LicenseError × LicenseTable
issue_license now g user type issued_by expires_at t =
    if has_active g user type t.licenses
    then (err already_active, t)
    else (let row = new_license now g user type issued_by expires_at t in
        (ok row, add_license row t))

unfoldable pub find_license : ℕ → List BusinessLicense → Option BusinessLicense
find_license k [] = none
find_license k (l ∷ ls) = let rest = find_license k ls in if l.license_id == k then some l else rest

abbrev pub with_revocation : ℕ → ℕ → String → BusinessLicense → BusinessLicense
with_revocation now by why l = record l {
  status = revoked;
  revoked_by = some by;
  revoked_at = some now;
  revoke_reason = some why;
  updated_at = now;
}

abbrev pub revoke_found :
    ℕ
    → ℕ
    → ℕ
    → String
    → BusinessLicense
    → LicenseTable
    → Result BusinessLicense LicenseError × LicenseTable
revoke_found now k by why l t =
    if is_active l.status
    then (
      ok (with_revocation now by why l),
      record t {
        licenses =
            map (λ m. if m.license_id == k then with_revocation now by why m else m) t.licenses;
      },
    )
    else (err cannot_revoke, t)

unfoldable pub revoke_license :
    ℕ → ℕ → ℕ → String → LicenseTable → Result BusinessLicense LicenseError × LicenseTable
revoke_license now k by why t = elim (find_license k t.licenses) [
  | none ↦ (err license_not_found, t)
  | some l ↦ revoke_found now k by why l t
]

unfoldable pub get_license : ℕ → LicenseTable → Option BusinessLicense
get_license k t = find_license k t.licenses

-- Only a licence that is active and whose time has not come counts here.
unfoldable pub check_active_license : ℕ → ℕ → ℕ → String → LicenseTable → Bool
check_active_license now g user type t =
    any (λ l. is_license_of g user type l && (is_active l.status && ltb now l.expires_at))
      t.licenses

abbrev pub expire_row : ℕ → BusinessLicense → BusinessLicense
expire_row now l =
    if is_active l.status && leb l.expires_at now
    then record l { status = expired; updated_at = now }
    else l

unfoldable pub expire_licenses : ℕ → LicenseTable → ℕ × LicenseTable
expire_licenses now t = (
  length (keep (λ l. is_active l.status && leb l.expires_at now) t.licenses),
  record t { licenses = map (expire_row now) t.licenses },
)

-- `ORDER BY issued_at DESC`
unfoldable pub insert_latest : BusinessLicense → List BusinessLicense → List BusinessLicense
insert_latest a [] = a ∷ []
insert_latest a (b ∷ bs) =
    let rest = insert_latest a bs in if leb b.issued_at a.issued_at then a ∷ b ∷ bs else b ∷ rest

unfoldable pub latest_first : List BusinessLicense → List BusinessLicense
unfolding insert_latest
latest_first [] = []
latest_first (a ∷ more) = insert_latest a (latest_first more)

unfoldable pub get_user_licenses : ℕ → ℕ → LicenseTable → List BusinessLicense
get_user_licenses g user t =
    latest_first (keep (λ l. (l.guild_id == g) && (l.user_id == user)) t.licenses)
