-- ===== src/Applications/Review.antt =====
-- The review of an application: `approve_welfare_application` and `approve_license_application`.
use Prim.Native.String.{String}
use mathlib.Core.Path.{subst}
use dro_asms.Prelude.{
  ℕ, Option, none, false, ◌≡◌, ◌⊎◌, refl, sym, ap, ◌∙◌, true, some, arith, Bool-cases, inl, inr,
  if_cases, if◌then◌else◌, ◌==◌,
}
use dro_asms.Prelude.Int.{ℤ}
use dro_asms.Result.{Result, ok, err}
use dro_asms.Applications.Table.{
  Application, is_pending, get_application, with_approval, approve_application, create_application,
  check_pending_application,
}
use dro_asms.Applications.Licenses.{already_active, has_active, check_active_license, issue_license}
use dro_asms.Applications.Service.{
  Error, Payout, is_paid, World, is_blank, license_error, approve_found, submit_license_application,
  approve_license_application, pay_approved, approve_welfare_application,
}
use dro_asms.Applications.Lookup.{
  update_pending_others, create_application_found, update_pending_found, get_application-reviewed,
}

module _ {L : Type 0} (strip : String → String) where
  approve_pending :
      (k reviewer : ℕ) (pay : Application ℤ → L → Payout × L) (w : World L) (a : Application ℤ)
      → get_application k w.welfare ≡ some a
      → is_pending a.status ≡ true
      → approve_welfare_application strip k reviewer (some pay) w
        ≡ pay_approved strip
            (some pay)
            (with_approval reviewer w.now a)
            (approve_application w.now k reviewer w.welfare).1
            w
  unfolding approve_welfare_application approve_application
  approve_pending k reviewer pay w a e waits =
      let reviewed : (approve_application w.now k reviewer w.welfare).0
          ≡ ok (with_approval reviewer w.now a) =
        ap (λ out. out.0)
          (update_pending_found k (with_approval reviewer w.now) w.welfare a (λ b. refl) e waits) in
      rw (e, approve_welfare_application, waits, reviewed)

  apart_or_kept :
      (k reviewer j : ℕ) (w : World L)
      → (j ≡ k)
        ⊎ (get_application j (approve_application w.now k reviewer w.welfare).1
            ≡ get_application j w.welfare)
  unfolding approve_application
  apart_or_kept k reviewer j w = elim (Bool-cases (j == k)) [
    | inl e ↦ inl ground (arith, e)
    | inr e ↦ inr (
        update_pending_others k j (with_approval reviewer w.now) w.welfare (λ b. refl)
          (ground (arith, e)))
  ]

  get_approved :
      (k reviewer : ℕ) (w : World L) (a : Application ℤ)
      → get_application k w.welfare ≡ some a
      → is_pending a.status ≡ true
      → get_application k (approve_application w.now k reviewer w.welfare).1
        ≡ some (with_approval reviewer w.now a)
  unfolding approve_application
  get_approved k reviewer w a e waits =
      get_application-reviewed k (with_approval reviewer w.now) w.welfare a (λ b. refl) e waits

  -- Approving a welfare application that is pending, with a callback that pays: the callback gets
  -- the application as approved and its effect on the ledger stays; afterwards the application is
  -- found approved by this reviewer at this time if the callback paid, and just as it was if it did
  -- not; and every other application is as it was.
  pub approve_welfare_lem :
      (k reviewer : ℕ) (pay : Application ℤ → L → Payout × L) (w : World L) (a : Application ℤ)
      (j : ℕ)
      → get_application k w.welfare ≡ some a
      → is_pending a.status ≡ true
      → ((approve_welfare_application strip k reviewer (some pay) w).1.ledger
          ≡ (pay (with_approval reviewer w.now a) w.ledger).1)
        × ((get_application k (approve_welfare_application strip k reviewer (some pay) w).1.welfare
              ≡ some (
                  if is_paid (pay (with_approval reviewer w.now a) w.ledger).0
                  then with_approval reviewer w.now a
                  else a))
            × ((j ≡ k)
                ⊎ (get_application j
                      (approve_welfare_application strip k reviewer (some pay) w).1.welfare
                    ≡ get_application j w.welfare)))
  unfolding pay_approved
  approve_welfare_lem k reviewer pay w a j e waits =
      let f = with_approval reviewer w.now in
      let t = (approve_application w.now k reviewer w.welfare).1 in
      let answer = pay (f a) w.ledger in
      let Claim : Result (Application ℤ) Error × World L → Type 0 = λ out.
        (out.1.ledger ≡ answer.1)
        × ((get_application k out.1.welfare ≡ some (if is_paid answer.0 then f a else a))
            × ((j ≡ k) ⊎ (get_application j out.1.welfare ≡ get_application j w.welfare))) in
      subst Claim (sym (approve_pending k reviewer pay w a e waits)) (
        if_cases Claim (is_paid answer.0)
          (λ paid.
            (refl, (get_approved k reviewer w a e waits ∙ rw paid, apart_or_kept k reviewer j w)))
          (λ unpaid. (refl, (e ∙ rw unpaid, inr refl))))

  approve_marked :
      (k reviewer : ℕ) (days : Option ℕ) (w : World L) (a : Application String)
      → get_application k w.license_applications ≡ some a
      → is_pending a.status ≡ true
      → check_active_license w.now a.guild_id a.applicant_id a.subject w.licenses ≡ false
      → has_active a.guild_id a.applicant_id a.subject w.licenses.licenses ≡ true
      → approve_license_application strip k reviewer days w
        ≡ (err (license_error already_active), w)
  unfolding approve_license_application approve_found issue_license
  approve_marked k reviewer days w a e waits past marked =
      rw (e, approve_license_application, waits, past, marked)

  submit_accepted :
      (g applicant : ℕ) (type reason : String) (w : World L)
      → is_blank strip type ≡ false
      → is_blank strip reason ≡ false
      → check_pending_application g applicant (strip type) w.license_applications ≡ false
      → check_active_license w.now g applicant (strip type) w.licenses ≡ false
      → submit_license_application strip g applicant type reason w ≡ (
        ok
            (create_application w.now g applicant
              (strip type)
              (strip reason)
              w.license_applications).0,
        record w {
          license_applications =
              (create_application w.now g applicant
                (strip type)
                (strip reason)
                w.license_applications).1;
        },
      )
  unfolding submit_license_application
  submit_accepted g applicant type reason w t r free past = rw (t, r, free, past)

  -- The service asks whether there is a licence whose time has not passed, and issuing one whether
  -- there is one marked as active. For a user whose licence of the type is marked as active although
  -- its time has passed, and who has no application for it pending, an application for the type is
  -- accepted, and its approval then fails with the error of the issue and changes nothing. The
  -- number that the table gives next is one that no row has.
  pub expired_license_blocks :
      (g applicant : ℕ) (type reason : String) (reviewer : ℕ) (days : Option ℕ) (w : World L)
      → is_blank strip type ≡ false
      → is_blank strip reason ≡ false
      → check_pending_application g applicant (strip type) w.license_applications ≡ false
      → check_active_license w.now g applicant (strip type) w.licenses ≡ false
      → has_active g applicant (strip type) w.licenses.licenses ≡ true
      → get_application w.license_applications.next_id w.license_applications ≡ none
      → ((submit_license_application strip g applicant type reason w).0
          ≡ ok
              (create_application w.now g applicant
                (strip type)
                (strip reason)
                w.license_applications).0)
        × (approve_license_application strip w.license_applications.next_id reviewer days
              (submit_license_application strip g applicant type reason w).1
            ≡ (
              err (license_error already_active),
              (submit_license_application strip g applicant type reason w).1,
            ))
  unfolding create_application
  expired_license_blocks g applicant type reason reviewer days w t r free past marked fresh =
      let s = submit_accepted g applicant type reason w t r free past in
      let (a, table) =
        create_application w.now g applicant (strip type) (strip reason) w.license_applications in
      (
        ap (λ out. out.0) s,
        subst
            (λ x.
              approve_license_application strip w.license_applications.next_id reviewer days x
              ≡ (err (license_error already_active), x))
            (ap (λ out. out.1) (sym s))
            (approve_marked w.license_applications.next_id reviewer days
              (record w { license_applications = table }) a
              (create_application_found w.now g applicant (strip type) (strip reason)
                w.license_applications fresh)
              refl past marked),
      )
