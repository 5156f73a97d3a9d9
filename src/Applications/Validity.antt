-- ===== src/Applications/Validity.antt =====
-- Sequences of requests to the service and to the gateway of licences, and the passing of time.
use Prim.Native.String.{String}
use dro_asms.Prelude.{
  ℕ, ◌+◌, ◌≡◌, refl, false, Option, none, some, List, [], ◌∷◌, if_ind, if_cases, option_cases,
}
use dro_asms.Prelude.Int.{ℤ, pos, leb_ℤ}
use dro_asms.Result.{Result, result_cases}
use dro_asms.Applications.Table.{
  Application, Table, is_pending, check_pending_application, update_pending, get_application,
  approve_application, reject_application, with_approval, with_rejection,
}
use dro_asms.Applications.Licenses.{
  issue_license, revoke_license, expire_licenses, check_active_license,
}
use dro_asms.Applications.Service.{
  Error, is_blank, Payout, World, submit_welfare_application, approve_welfare_application,
  reject_welfare_application, submit_license_application, pay_approved, is_paid, approve_found,
  approve_license_application, reject_license_application, duration,
}
use dro_asms.Applications.Keys.{
  OneActive, OnePending, issue_license-OneActive, revoke_license-OneActive,
  expire_licenses-OneActive, create_application-OnePending, update_pending-OnePending,
}

-- A request, or the passing of time.
pub data Event (L : Type 0) : Type 0 where
  submit_welfare : (g applicant : ℕ) → ℤ → (reason : String) → Event L
  approve_welfare : (k reviewer : ℕ) → Option (Application ℤ → L → Payout × L) → Event L
  reject_welfare : (k reviewer : ℕ) → (why : String) → Event L
  submit_license : (g applicant : ℕ) → (type reason : String) → Event L
  approve_license : (k reviewer : ℕ) → (days : Option ℕ) → Event L
  reject_license : (k reviewer : ℕ) → (why : String) → Event L
  issue : (g user : ℕ) → (type : String) → (by expires_at : ℕ) → Event L
  revoke : (k by : ℕ) → (why : String) → Event L
  expire : Event L
  wait : ℕ → Event L

-- At most one active licence and one pending application for a licence for each user and type.
pub record IsValid {L : Type 0} (w : World L) : Type 0 where
  pub one_active : OneActive w.licenses
  pub one_pending : OnePending w.license_applications

module _ {L : Type 0} (strip : String → String) where
  unfoldable pub handle : Event L → World L → World L
  handle (submit_welfare g a amount reason) w =
      (submit_welfare_application strip g a amount reason w).1
  handle (approve_welfare k r pay) w = (approve_welfare_application strip k r pay w).1
  handle (reject_welfare k r why) w = (reject_welfare_application strip k r why w).1
  handle (submit_license g a type reason) w = (submit_license_application strip g a type reason w).1
  handle (approve_license k r days) w = (approve_license_application strip k r days w).1
  handle (reject_license k r why) w = (reject_license_application strip k r why w).1
  handle (issue g user type by expires_at) w = record w {
    licenses = (issue_license w.now g user type by expires_at w.licenses).1;
  }
  handle (revoke k by why) w = record w { licenses = (revoke_license w.now k by why w.licenses).1 }
  handle expire w = record w { licenses = (expire_licenses w.now w.licenses).1 }
  handle (wait n) w = record w { now = w.now + n }

  unfoldable pub run : List (Event L) → World L → World L
  unfolding handle
  run [] w = w
  run (e ∷ es) w = run es (handle e w)

  submit_license-IsValid :
      (g a : ℕ) (type reason : String) (w : World L)
      → IsValid w
      → IsValid (submit_license_application strip g a type reason w).1
  unfolding submit_license_application
  submit_license-IsValid g a type reason w v =
      let P : Result (Application String) Error × World L → Type 0 = λ out. IsValid out.1 in
      if_ind P (is_blank strip type) v (
        if_ind P (is_blank strip reason) v (
          if_cases P (check_pending_application g a (strip type) w.license_applications) (λ _. v)
            (λ free. if_ind P (check_active_license w.now g a (strip type) w.licenses) v (record {
              one_active = v.one_active;
              one_pending =
                  create_application-OnePending w.now g a (strip type) (strip reason)
                    w.license_applications v.one_pending free;
            }))))

  review-IsValid :
      (k : ℕ) (f : Application String → Application String) (w : World L)
      → ((a : Application String) → is_pending (f a).status ≡ false)
      → IsValid w
      → IsValid (record w { license_applications = (update_pending k f w.license_applications).1 })
  review-IsValid k f w closes v = record {
    one_active = v.one_active;
    one_pending = update_pending-OnePending k f w.license_applications closes v.one_pending;
  }

  approve_found-IsValid :
      (k reviewer : ℕ) (days : Option ℕ) (a : Application String) (w : World L)
      → IsValid w
      → IsValid (approve_found strip k reviewer days a w).1
  unfolding approve_found approve_application
  approve_found-IsValid k reviewer days a w v =
      let P : Result (Application String) Error × World L → Type 0 = λ out. IsValid out.1 in
      if_ind P (check_active_license w.now a.guild_id a.applicant_id a.subject w.licenses) v (
        result_cases P
          (issue_license w.now a.guild_id a.applicant_id a.subject reviewer (w.now + duration days)
            w.licenses).0
          _ _ (λ e _. v)
          (λ l _. record {
            one_active =
                issue_license-OneActive w.now a.guild_id a.applicant_id a.subject reviewer
                  (w.now + duration days) w.licenses v.one_active;
            one_pending =
                update_pending-OnePending k (with_approval reviewer w.now) w.license_applications
                  (λ a. refl) v.one_pending;
          }))

  approve_license-IsValid :
      (k reviewer : ℕ) (days : Option ℕ) (w : World L)
      → IsValid w
      → IsValid (approve_license_application strip k reviewer days w).1
  unfolding approve_license_application
  approve_license-IsValid k reviewer days w v =
      let P : Result (Application String) Error × World L → Type 0 = λ out. IsValid out.1 in
      option_cases P (get_application k w.license_applications) _ _ (λ _. v)
        (λ a _. if_ind P (is_pending a.status) (approve_found-IsValid k reviewer days a w v) v)

  reject_license-IsValid :
      (k reviewer : ℕ) (why : String) (w : World L)
      → IsValid w
      → IsValid (reject_license_application strip k reviewer why w).1
  unfolding reject_license_application reject_application
  reject_license-IsValid k reviewer why w v =
      if_ind {A = Result (Application String) Error × World L} (λ out. IsValid out.1)
        (is_blank strip why) v
        (review-IsValid k (with_rejection reviewer w.now (strip why)) w (λ a. refl) v)

  submit_welfare-IsValid :
      (g a : ℕ) (amount : ℤ) (reason : String) (w : World L)
      → IsValid w
      → IsValid (submit_welfare_application strip g a amount reason w).1
  unfolding submit_welfare_application
  submit_welfare-IsValid g a amount reason w v =
      let P : Result (Application ℤ) Error × World L → Type 0 = λ out. IsValid out.1 in
      if_ind P (leb_ℤ amount (pos 0)) v (
        if_ind P (is_blank strip reason) v
          (record { one_active = v.one_active; one_pending = v.one_pending }))

  -- Where a payment fails, only the ledger is new.
  pay_approved-IsValid :
      (pay : Option (Application ℤ → L → Payout × L)) (a : Application ℤ) (t : Table ℤ)
      (w : World L)
      → IsValid w
      → IsValid (pay_approved strip pay a t w).1
  unfolding pay_approved
  pay_approved-IsValid none a t w v = record {
    one_active = v.one_active;
    one_pending = v.one_pending;
  }
  pay_approved-IsValid (some pay) a t w v =
      if_ind {A = Result (Application ℤ) Error × World L} (λ out. IsValid out.1)
        (is_paid (pay a w.ledger).0)
        (record { one_active = v.one_active; one_pending = v.one_pending })
        (record { one_active = v.one_active; one_pending = v.one_pending })

  approve_welfare-IsValid :
      (k reviewer : ℕ) (pay : Option (Application ℤ → L → Payout × L)) (w : World L)
      → IsValid w
      → IsValid (approve_welfare_application strip k reviewer pay w).1
  unfolding approve_welfare_application
  approve_welfare-IsValid k reviewer pay w v =
      let P : Result (Application ℤ) Error × World L → Type 0 = λ out. IsValid out.1 in
      let answer = approve_application w.now k reviewer w.welfare in
      option_cases P (get_application k w.welfare) _ _ (λ _. v)
        (λ a _.
          if_ind P (is_pending a.status)
            (result_cases P answer.0 _ _ (λ e _. v)
              (λ b _. pay_approved-IsValid pay b answer.1 w v))
            v)

  reject_welfare-IsValid :
      (k reviewer : ℕ) (why : String) (w : World L)
      → IsValid w
      → IsValid (reject_welfare_application strip k reviewer why w).1
  unfolding reject_welfare_application
  reject_welfare-IsValid k reviewer why w v =
      if_ind {A = Result (Application ℤ) Error × World L} (λ out. IsValid out.1)
        (is_blank strip why) v (record { one_active = v.one_active; one_pending = v.one_pending })

  handle-IsValid : (e : Event L) (w : World L) → IsValid w → IsValid (handle e w)
  unfolding handle
  handle-IsValid (submit_welfare g a amount reason) w v =
      submit_welfare-IsValid g a amount reason w v
  handle-IsValid (approve_welfare k r pay) w v = approve_welfare-IsValid k r pay w v
  handle-IsValid (reject_welfare k r why) w v = reject_welfare-IsValid k r why w v
  handle-IsValid (submit_license g a type reason) w v = submit_license-IsValid g a type reason w v
  handle-IsValid (approve_license k r days) w v = approve_license-IsValid k r days w v
  handle-IsValid (reject_license k r why) w v = reject_license-IsValid k r why w v
  handle-IsValid (issue g user type by expires_at) w v = record {
    one_active = issue_license-OneActive w.now g user type by expires_at w.licenses v.one_active;
    one_pending = v.one_pending;
  }
  handle-IsValid (revoke k by why) w v = record {
    one_active = revoke_license-OneActive w.now k by why w.licenses v.one_active;
    one_pending = v.one_pending;
  }
  handle-IsValid expire w v = record {
    one_active = expire_licenses-OneActive w.now w.licenses v.one_active;
    one_pending = v.one_pending;
  }
  handle-IsValid (wait n) w v = record { one_active = v.one_active; one_pending = v.one_pending }

  -- Whatever is requested of the service and of the gateway of licences, and whenever, a user never
  -- has two licences of a type that are marked as active in a guild, nor two applications for it
  -- that are pending, where this holds at first.
  pub run-IsValid : (es : List (Event L)) (w : World L) → IsValid w → IsValid (run es w)
  unfolding run
  run-IsValid [] w v = v
  run-IsValid (e ∷ es) w v = run-IsValid es (handle e w) (handle-IsValid e w v)
