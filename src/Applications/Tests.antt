-- ===== src/Applications/Tests.antt =====
-- Requests on a small world.
use Prim.Native.String.{String}
use dro_asms.Prelude.{ℕ, suc, ◌≡◌, ◌⊎◌, refl, none, some, List, [], ◌∷◌}
use dro_asms.Prelude.Int.{ℤ, pos}
use dro_asms.Result.{ok, err}
use dro_asms.Applications.Table.{
  pending, rejected, Application, create_application, find_application, get_application,
  check_pending_application, with_approval, approve_application, reject_application, update_pending,
}
use dro_asms.Applications.Licenses.{
  active, BusinessLicense, already_active, check_active_license, issue_license, expire_licenses,
}
use dro_asms.Applications.Service.{
  license_error, World, Payout, result_ok, result_err, approve_found, pay_approved,
  approve_welfare_application, submit_license_application, approve_license_application,
  reject_license_application,
}
use dro_asms.Applications.Validity.{
  Event, submit_license, approve_license, expire, wait, reject_license, issue, handle, run, IsValid,
  run-IsValid,
}
use dro_asms.Applications.Review.{approve_welfare_lem, expired_license_blocks}
use dro_asms.Applications.Decided.{decided_stays}

abbrev strip : String → String
strip s = s

abbrev asked : Application ℤ
asked = record {
  id = 4;
  guild_id = 1;
  applicant_id = 20;
  subject = pos 50;
  reason = "rent";
  status = pending;
  created_at = 5;
  reviewer_id = none;
  reviewed_at = none;
  rejection_reason = none;
}

abbrev refused : Application String
refused = record {
  id = 2;
  guild_id = 1;
  applicant_id = 20;
  subject = "bakery";
  reason = "bread";
  status = rejected;
  created_at = 5;
  reviewer_id = some 30;
  reviewed_at = some 6;
  rejection_reason = some "no";
}

abbrev lapsed : BusinessLicense
lapsed = record {
  license_id = 1;
  guild_id = 1;
  user_id = 20;
  license_type = "bakery";
  issued_by = 30;
  issued_at = 10;
  expires_at = 90;
  status = active;
  revoked_by = none;
  revoked_at = none;
  revoke_reason = none;
  updated_at = 10;
}

-- The ledger is the number of coins paid.
abbrev world : World ℕ
world = record {
  welfare = record { rows = asked ∷ []; next_id = 5 };
  license_applications = record { rows = refused ∷ []; next_id = 3 };
  licenses = record { licenses = lapsed ∷ []; next_license = 2 };
  ledger = 0;
  now = 100;
}

world-IsValid : IsValid world
world-IsValid = record { one_active = (refl, tt); one_pending = (refl, tt) }

abbrev pays : Application ℤ → ℕ → Payout × ℕ
pays a n = (result_ok, suc n)

abbrev fails : Application ℤ → ℕ → Payout × ℕ
fails a n = (result_err, n)

abbrev other : ℕ
other = 3

abbrev requests : List (Event ℕ)
requests =
    submit_license 1 20 "bakery" "bread"
    ∷ approve_license 3 30 none
    ∷ expire
    ∷ approve_license 3 30 none
    ∷ issue 1 20 "bakery" 30 500
    ∷ reject_license 2 31 "late"
    ∷ wait 5
    ∷ []

-- The second approval goes through, after the job has run.
approved_after_expire :
    get_application 3 (run strip requests world).license_applications
    ≡ some (
        with_approval 30 100
          (create_application 100 1 20 "bakery" "bread" world.license_applications).0)
unfolding run handle submit_license_application approve_license_application approve_found
    get_application find_application create_application check_pending_application
    check_active_license expire_licenses reject_license_application reject_application
    update_pending issue_license approve_application
approved_after_expire = refl

run-IsValid_example : IsValid (run strip requests world)
run-IsValid_example = run-IsValid strip requests world world-IsValid

decided_stays_example :
    get_application 2 (run strip requests world).license_applications ≡ some refused
unfolding get_application find_application
decided_stays_example = decided_stays strip requests world 2 refused refl refl

approve_welfare_lem_example :
    ((approve_welfare_application strip 4 30 (some pays) world).1.ledger ≡ 1)
    × ((get_application 4 (approve_welfare_application strip 4 30 (some pays) world).1.welfare
          ≡ some (with_approval 30 100 asked))
        × ((other ≡ 4)
            ⊎ (get_application other
                  (approve_welfare_application strip 4 30 (some pays) world).1.welfare
                ≡ get_application other world.welfare)))
unfolding get_application find_application
approve_welfare_lem_example = approve_welfare_lem strip 4 30 pays world asked other refl refl

-- Where the payment fails, the application waits as before.
welfare_not_paid :
    get_application 4 (approve_welfare_application strip 4 30 (some fails) world).1.welfare
    ≡ some asked
unfolding get_application find_application approve_welfare_application pay_approved
welfare_not_paid = (approve_welfare_lem strip 4 30 fails world asked other refl refl).1.0

expired_license_blocks_example :
    ((submit_license_application strip 1 20 "bakery" "bread" world).0
      ≡ ok (create_application 100 1 20 "bakery" "bread" world.license_applications).0)
    × (approve_license_application strip 3 30 none
          (submit_license_application strip 1 20 "bakery" "bread" world).1
        ≡ (
          err (license_error already_active),
          (submit_license_application strip 1 20 "bakery" "bread" world).1,
        ))
unfolding get_application find_application check_pending_application check_active_license
expired_license_blocks_example =
    expired_license_blocks strip 1 20 "bakery" "bread" 30 none world refl refl refl refl refl refl
