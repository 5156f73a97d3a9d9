-- ===== src/Applications/Decided.antt =====
-- Applications for a licence that have been approved or rejected.
use Prim.Native.String.{String}
use dro_asms.Prelude.{
  ℕ, ◌+◌, ◌≡◌, refl, false, Option, none, some, List, [], ◌∷◌, if_ind, option_cases,
}
use dro_asms.Prelude.Int.{ℤ, pos, leb_ℤ}
use dro_asms.Result.{result_cases}
use dro_asms.Applications.Table.{
  Application, is_pending, get_application, check_pending_application, approve_application,
  reject_application, with_approval, with_rejection,
}
use dro_asms.Applications.Licenses.{check_active_license, issue_license}
use dro_asms.Applications.Service.{
  Payout, is_paid, is_blank, duration, World, submit_welfare_application, pay_approved,
  approve_welfare_application, reject_welfare_application, submit_license_application,
  approve_found, approve_license_application, reject_license_application,
}
use dro_asms.Applications.Lookup.{update_pending_keeps, create_application_keeps}
use dro_asms.Applications.Validity.{
  Event, submit_welfare, approve_welfare, reject_welfare, submit_license, approve_license,
  reject_license, issue, revoke, expire, wait, handle, run,
}

module _ {L : Type 0} (strip : String → String) (j : ℕ) (a : Application String)
    (closed : is_pending a.status ≡ false) where
  abbrev Found : World L → Type 0
  Found w = get_application j w.license_applications ≡ some a

  abbrev FoundAfter : {R : Type 0} → R × World L → Type 0
  FoundAfter out = Found out.1

  submit_license_keeps :
      (g applicant : ℕ) (type reason : String) (w : World L)
      → Found w
      → FoundAfter (submit_license_application strip g applicant type reason w)
  unfolding submit_license_application
  submit_license_keeps g applicant type reason w e = if_ind FoundAfter (is_blank strip type) e (
      if_ind FoundAfter (is_blank strip reason) e (
        if_ind FoundAfter
          (check_pending_application g applicant (strip type) w.license_applications) e
          (if_ind FoundAfter (check_active_license w.now g applicant (strip type) w.licenses) e (
            create_application_keeps w.now g applicant (strip type) (strip reason)
              w.license_applications j a e))))

  approve_found_keeps :
      (k reviewer : ℕ) (days : Option ℕ) (b : Application String) (w : World L)
      → Found w
      → FoundAfter (approve_found strip k reviewer days b w)
  unfolding approve_found approve_application
  approve_found_keeps k reviewer days b w e =
      if_ind FoundAfter (check_active_license w.now b.guild_id b.applicant_id b.subject w.licenses)
        e
        (result_cases FoundAfter
          (issue_license w.now b.guild_id b.applicant_id b.subject reviewer (w.now + duration days)
            w.licenses).0
          _ _ (λ _ _. e)
          (λ _ _.
            update_pending_keeps k j (with_approval reviewer w.now) w.license_applications a
              (λ c. refl) e closed))

  approve_license_keeps :
      (k reviewer : ℕ) (days : Option ℕ) (w : World L)
      → Found w
      → FoundAfter (approve_license_application strip k reviewer days w)
  unfolding approve_license_application
  approve_license_keeps k reviewer days w e =
      option_cases FoundAfter (get_application k w.license_applications) _ _ (λ _. e)
        (λ b _.
          if_ind FoundAfter (is_pending b.status) (approve_found_keeps k reviewer days b w e) e)

  reject_license_keeps :
      (k reviewer : ℕ) (why : String) (w : World L)
      → Found w
      → FoundAfter (reject_license_application strip k reviewer why w)
  unfolding reject_license_application reject_application
  reject_license_keeps k reviewer why w e = if_ind FoundAfter (is_blank strip why) e (
      update_pending_keeps k j (with_rejection reviewer w.now (strip why)) w.license_applications a
        (λ c. refl) e closed)

  approve_welfare_keeps :
      (k reviewer : ℕ) (pay : Option (Application ℤ → L → Payout × L)) (w : World L)
      → Found w
      → FoundAfter (approve_welfare_application strip k reviewer pay w)
  unfolding approve_welfare_application pay_approved
  approve_welfare_keeps k reviewer none w e =
      option_cases FoundAfter (get_application k w.welfare) _ _ (λ _. e)
        (λ b _.
          if_ind FoundAfter (is_pending b.status)
            (result_cases FoundAfter (approve_application w.now k reviewer w.welfare).0 _ _
              (λ _ _. e) (λ _ _. e))
            e)
  approve_welfare_keeps k reviewer (some pay) w e =
      option_cases FoundAfter (get_application k w.welfare) _ _ (λ _. e)
        (λ b _.
          if_ind FoundAfter (is_pending b.status)
            (result_cases FoundAfter (approve_application w.now k reviewer w.welfare).0 _ _
              (λ _ _. e) (λ c _. if_ind FoundAfter (is_paid (pay c w.ledger).0) e e))
            e)

  handle_keeps : (ev : Event L) (w : World L) → Found w → Found (handle strip ev w)
  unfolding handle submit_welfare_application reject_welfare_application
  handle_keeps (submit_welfare g b amount reason) w e =
      if_ind FoundAfter (leb_ℤ amount (pos 0)) e (if_ind FoundAfter (is_blank strip reason) e e)
  handle_keeps (approve_welfare k r pay) w e = approve_welfare_keeps k r pay w e
  handle_keeps (reject_welfare k r why) w e = if_ind FoundAfter (is_blank strip why) e e
  handle_keeps (submit_license g b type reason) w e = submit_license_keeps g b type reason w e
  handle_keeps (approve_license k r days) w e = approve_license_keeps k r days w e
  handle_keeps (reject_license k r why) w e = reject_license_keeps k r why w e
  handle_keeps (issue g user type by expires_at) w e = e
  handle_keeps (revoke k by why) w e = e
  handle_keeps expire w e = e
  handle_keeps (wait n) w e = e

  run_keeps : (es : List (Event L)) (w : World L) → Found w → Found (run strip es w)
  unfolding run
  run_keeps [] w e = e
  run_keeps (ev ∷ es) w e = run_keeps es (handle strip ev w) (handle_keeps ev w e)

-- An application for a licence that has been approved or rejected is found exactly as it is,
-- reviewer and times included, after any sequence of requests.
pub decided_stays :
    {L : Type 0} (strip : String → String) (es : List (Event L)) (w : World L) (j : ℕ)
    (a : Application String)
    → get_application j w.license_applications ≡ some a
    → is_pending a.status ≡ false
    → get_application j (run strip es w).license_applications ≡ some a
decided_stays strip es w j a e closed = run_keeps strip j a closed es w e
