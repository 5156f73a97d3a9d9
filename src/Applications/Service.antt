-- ===== src/Applications/Service.antt =====
-- `class ApplicationService`. The world is the three tables, the ledger that a payment goes to, and
-- the clock. Where the code awaits the database nothing else runs, and the database does not fail.
use Prim.Native.String.{String}
use dro_asms.Prelude.{ℕ, ◌+◌, ◌*◌, Bool, true, false, Option, none, some, ◌==◌, if◌then◌else◌}
use dro_asms.Prelude.Int.{ℤ, pos, leb_ℤ}
use dro_asms.Prelude.Texts.{eqb_text}
use dro_asms.Result.{Result, ok, err}
use dro_asms.Applications.Table.{
  Status, is_pending, Application, Table, NotPending, create_application, get_application,
  approve_application, reject_application, check_pending_application,
}
use dro_asms.Applications.Licenses.{LicenseTable, LicenseError, issue_license, check_active_license}

pub data Error : Type 0 where
  invalid_amount missing_reason missing_license_type missing_rejection_reason : Error
  application_not_found : ℕ → Error
  application_not_pending : ℕ → Status → Error
  duplicate_pending_application already_has_license : String → Error
  welfare_disburse_failed : Error
  -- a DatabaseError of a gateway
  not_pending_row : NotPending → Error
  license_error : LicenseError → Error

-- What the callback that pays returns, or that it raises an exception other than a
-- BusinessLogicError, which would be the error itself.
pub data Payout : Type 0 where
  result_ok result_err raised returned_false other_value : Payout
  pair : (success : Bool) → Payout

abbrev pub is_paid : Payout → Bool
is_paid result_ok = true
is_paid result_err = false
is_paid raised = false
is_paid returned_false = false
is_paid other_value = true
is_paid (pair success) = success

pub record World (L : Type 0) : Type 0 where
  pub welfare : Table ℤ
  pub license_applications : Table String
  pub licenses : LicenseTable
  pub ledger : L
  pub now : ℕ

abbrev pub lift_error :
    {D : Type 0} → Result (Application D) NotPending → Result (Application D) Error
lift_error (ok a) = ok a
lift_error (err e) = err (not_pending_row e)

abbrev pub is_blank : (String → String) → String → Bool
is_blank strip s = eqb_text (strip s) ""

-- `license_duration_days or self.DEFAULT_LICENSE_DURATION_DAYS`, in seconds
abbrev pub duration : Option ℕ → ℕ
duration none = 365 * 86_400
duration (some d) = (if d == 0 then 365 else d) * 86_400

-- `strip` is `str.strip`.
module _ {L : Type 0} (strip : String → String) where
  unfoldable pub submit_welfare_application :
      ℕ → ℕ → ℤ → String → World L → Result (Application ℤ) Error × World L
  submit_welfare_application g applicant amount reason w =
      if leb_ℤ amount (pos 0)
      then (err invalid_amount, w)
      else if is_blank strip reason
      then (err missing_reason, w)
      else let (a, t) = create_application w.now g applicant amount (strip reason) w.welfare in
        (ok a, record w { welfare = t })

  unfoldable pub pay_approved :
      Option (Application ℤ → L → Payout × L)
      → Application ℤ
      → Table ℤ
      → World L
      → Result (Application ℤ) Error × World L
  pay_approved none a t w = (ok a, record w { welfare = t })
  pay_approved (some transfer_callback) a t w =
      let (payout, l) = transfer_callback a w.ledger in
      if is_paid payout
      then (ok a, record w { welfare = t; ledger = l })
      else (err welfare_disburse_failed, record w { ledger = l })

  -- The status is set in a transaction, which a payment that fails rolls back; the payment itself
  -- does not go through the transaction.
  unfoldable pub approve_welfare_application :
      ℕ
      → ℕ
      → Option (Application ℤ → L → Payout × L)
      → World L
      → Result (Application ℤ) Error × World L
  approve_welfare_application k reviewer transfer_callback w = elim (get_application k w.welfare) [
    | none ↦ (err (application_not_found k), w)
    | some a ↦
        if is_pending a.status
        then (let (r, t) = approve_application w.now k reviewer w.welfare in
            elim r [
              | err e ↦ (err (not_pending_row e), w)
              | ok approved ↦ pay_approved transfer_callback approved t w
            ])
        else (err (application_not_pending k a.status), w)
  ]

  unfoldable pub reject_welfare_application :
      ℕ → ℕ → String → World L → Result (Application ℤ) Error × World L
  reject_welfare_application k reviewer why w =
      if is_blank strip why
      then (err missing_rejection_reason, w)
      else let (r, t) = reject_application w.now k reviewer (strip why) w.welfare in
        (lift_error r, record w { welfare = t })

  -- The application is for the type without its outer blanks; the errors name the type as given.
  unfoldable pub submit_license_application :
      ℕ → ℕ → String → String → World L → Result (Application String) Error × World L
  submit_license_application g applicant type reason w =
      if is_blank strip type
      then (err missing_license_type, w)
      else if is_blank strip reason
      then (err missing_reason, w)
      else if check_pending_application g applicant (strip type) w.license_applications
      then (err (duplicate_pending_application type), w)
      else if check_active_license w.now g applicant (strip type) w.licenses
      then (err (already_has_license type), w)
      else let (a, t) =
          create_application w.now g applicant (strip type) (strip reason) w.license_applications in
        (ok a, record w { license_applications = t })

  -- The licence is issued, and then the application approved, each on its own.
  unfoldable pub approve_found :
      ℕ → ℕ → Option ℕ → Application String → World L → Result (Application String) Error × World L
  approve_found k reviewer days a w =
      if check_active_license w.now a.guild_id a.applicant_id a.subject w.licenses
      then (err (already_has_license a.subject), w)
      else let (issued, ls) =
          issue_license w.now a.guild_id a.applicant_id a.subject reviewer (w.now + duration days)
            w.licenses in
        elim issued [
          | err e ↦ (err (license_error e), w)
          | ok l ↦
              let (r, t) = approve_application w.now k reviewer w.license_applications in
              (lift_error r, record w { licenses = ls; license_applications = t })
        ]

  unfoldable pub approve_license_application :
      ℕ → ℕ → Option ℕ → World L → Result (Application String) Error × World L
  approve_license_application k reviewer days w = elim (get_application k w.license_applications) [
    | none ↦ (err (application_not_found k), w)
    | some a ↦
        if is_pending a.status
        then approve_found k reviewer days a w
        else (err (application_not_pending k a.status), w)
  ]

  unfoldable pub reject_license_application :
      ℕ → ℕ → String → World L → Result (Application String) Error × World L
  reject_license_application k reviewer why w =
      if is_blank strip why
      then (err missing_rejection_reason, w)
      else let (r, t) = reject_application w.now k reviewer (strip why) w.license_applications in
        (lift_error r, record w { license_applications = t })
