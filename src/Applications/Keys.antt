-- ===== src/Applications/Keys.antt =====
-- What the tables may hold once for each user and type: a licence that is active and an application
-- that is pending. Lemmas on the operations of the gateways.
use Prim.Native.String.{String}
use mathlib.Core.Path.{subst}
use dro_asms.Prelude.{
  ℕ, ◌≡◌, sym, ◌∙◌, Bool, true, false, ◌&&◌, arith, Option-cases, Bool-cases, inl, inr, if_ind,
  ◌==◌, if◌then◌else◌,
}
use dro_asms.Prelude.Texts.{eqb_text_iff}
use dro_asms.Prelude.Exclusive.{any, any_congr, Exclusive, Exclusive-append_one, Exclusive-map}
use dro_asms.Result.{Result, ok, err}
use dro_asms.Applications.Table.{
  is_pending, Application, Table, create_application, find_application, NotPending,
  not_found_or_not_pending, update_found, update_pending, review_row, is_pending_for,
  check_pending_application,
}
use dro_asms.Applications.Licenses.{
  is_active, BusinessLicense, LicenseTable, is_license_of, has_active, new_license, add_license,
  LicenseError, already_active, license_not_found, revoke_found, issue_license, find_license,
  revoke_license, with_revocation, expire_row, expire_licenses,
}

abbrev pub license_clash : BusinessLicense → BusinessLicense → Bool
license_clash l m =
    (is_active l.status && is_active m.status)
    && is_license_of l.guild_id l.user_id l.license_type m

abbrev pub OneActive : LicenseTable → Type 0
OneActive t = Exclusive license_clash t.licenses

license_clash_symmetric : (l m : BusinessLicense) → license_clash l m ≡ license_clash m l
license_clash_symmetric l m =
    ground (
      arith,
      eqb_text_iff l.license_type m.license_type,
      eqb_text_iff m.license_type l.license_type,
    )

clash_with_active : (same is_on : Bool) → ((true && is_on) && same) ≡ (same && is_on)
clash_with_active same is_on = ground arith

pub issue_license-OneActive :
    (now g user : ℕ) (type : String) (by expires : ℕ) (t : LicenseTable)
    → OneActive t
    → OneActive (issue_license now g user type by expires t).1
unfolding issue_license
issue_license-OneActive now g user type by expires t h =
    elim (Bool-cases (has_active g user type t.licenses)) [
      | inl b ↦
          let s : issue_license now g user type by expires t ≡ (err already_active, t) =
            rw (b, issue_license) in
          subst (λ out. OneActive out.1) (sym s) h
      | inr b ↦
          let row = new_license now g user type by expires t in
          let s : issue_license now g user type by expires t ≡ (ok row, add_license row t) =
            rw (b, issue_license) in
          let free : any (license_clash row) t.licenses ≡ false =
            any_congr (license_clash row) _ t.licenses
              (λ l. clash_with_active (is_license_of g user type l) (is_active l.status))
            ∙ b in
          subst (λ out. OneActive out.1) (sym s)
            (Exclusive-append_one license_clash t.licenses row license_clash_symmetric h free)
    ]

revoked_apart :
    (k now by : ℕ) (why : String) (l m : BusinessLicense)
    → license_clash l m ≡ false
    → license_clash
        (if l.license_id == k then with_revocation now by why l else l)
        (if m.license_id == k then with_revocation now by why m else m)
      ≡ false
revoked_apart k now by why l m h = ground arith

pub revoke_license-OneActive :
    (now k by : ℕ) (why : String) (t : LicenseTable)
    → OneActive t
    → OneActive (revoke_license now k by why t).1
unfolding revoke_license
revoke_license-OneActive now k by why t h =
    let all =
      Exclusive-map license_clash
        (λ m. if m.license_id == k then with_revocation now by why m else m) t.licenses
        (revoked_apart k now by why) h in
    elim (Option-cases (find_license k t.licenses)) [
      | inl e ↦
          let s : revoke_license now k by why t ≡ (err license_not_found, t) =
            rw (e, revoke_license) in
          subst (λ out. OneActive out.1) (sym s) h
      | inr (l, e) ↦
          let s : revoke_license now k by why t ≡ revoke_found now k by why l t =
            rw (e, revoke_license) in
          subst (λ out. OneActive out.1) (sym s)
            (if_ind {A = Result BusinessLicense LicenseError × LicenseTable}
              (λ out. OneActive out.1) (is_active l.status) all h)
    ]

expired_apart :
    (now : ℕ) (l m : BusinessLicense)
    → license_clash l m ≡ false
    → license_clash (expire_row now l) (expire_row now m) ≡ false
expired_apart now l m h = ground arith

pub expire_licenses-OneActive :
    (now : ℕ) (t : LicenseTable) → OneActive t → OneActive (expire_licenses now t).1
unfolding expire_licenses
expire_licenses-OneActive now t h =
    Exclusive-map license_clash (expire_row now) t.licenses (expired_apart now) h

abbrev pub application_clash : Application String → Application String → Bool
application_clash a b = is_pending a.status && is_pending_for a.guild_id a.applicant_id a.subject b

abbrev pub OnePending : Table String → Type 0
OnePending t = Exclusive application_clash t.rows

application_clash_symmetric :
    (a b : Application String) → application_clash a b ≡ application_clash b a
application_clash_symmetric a b =
    ground (arith, eqb_text_iff a.subject b.subject, eqb_text_iff b.subject a.subject)

pub create_application-OnePending :
    (now g applicant : ℕ) (type reason : String) (t : Table String)
    → OnePending t
    → check_pending_application g applicant type t ≡ false
    → OnePending (create_application now g applicant type reason t).1
unfolding create_application check_pending_application
create_application-OnePending now g applicant type reason t h free =
    Exclusive-append_one application_clash t.rows _ application_clash_symmetric h free

reviewed_apart :
    (k : ℕ) (f : Application String → Application String)
    → ((a : Application String) → is_pending (f a).status ≡ false)
    → (a b : Application String) → application_clash a b ≡ false
    → application_clash (review_row k f a) (review_row k f b) ≡ false
reviewed_apart k f closes a b h = ground (arith, closes a, closes b)

-- `f` is a review, which closes an application.
pub update_pending-OnePending :
    (k : ℕ) (f : Application String → Application String) (t : Table String)
    → ((a : Application String) → is_pending (f a).status ≡ false)
    → OnePending t
    → OnePending (update_pending k f t).1
unfolding update_pending
update_pending-OnePending k f t closes h =
    let all =
      Exclusive-map application_clash (review_row k f) t.rows (reviewed_apart k f closes) h in
    elim (Option-cases (find_application k t.rows)) [
      | inl e ↦
          let s : update_pending k f t ≡ (err not_found_or_not_pending, t) =
            rw (e, update_pending) in
          subst (λ out. OnePending out.1) (sym s) h
      | inr (a, e) ↦
          let s : update_pending k f t ≡ update_found k f a t = rw (e, update_pending) in
          subst (λ out. OnePending out.1) (sym s)
            (if_ind {A = Result (Application String) NotPending × Table String}
              (λ out. OnePending out.1) (is_pending a.status) all h)
    ]
