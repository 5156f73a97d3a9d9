-- ===== src/Companies/Grants.antt =====
-- The licences that a user is offered for a company.
use Prim.Native.String.{String}
use dro_asms.Prelude.{
  ℕ, ◌+◌, ◌≡◌, refl, sym, ap, ◌∙◌, Bool, true, false, not, ◌&&◌, ◌||◌, List, [], ◌∷◌, keep, arith,
  All, ◌==◌,
}
use dro_asms.Prelude.Exclusive.{any}
use dro_asms.Result.{ok}
use dro_asms.Applications.Licenses.{is_active, BusinessLicense, latest_first, insert_latest}
use dro_asms.Companies.Defs.{
  Company, World, base, is_usable, stands_on, has_account_id, new_company, is_name,
  fn_create_company, next_company_id, create_company, get_available_licenses,
}
use dro_asms.Companies.Registry.{IsNumbered, IsValid}

any-insert_latest :
    (p : BusinessLicense → Bool) (a : BusinessLicense) (ls : List BusinessLicense)
    → any p (insert_latest a ls) ≡ (p a || any p ls)
unfolding insert_latest
any-insert_latest p a [] = refl
any-insert_latest p a (b ∷ ls) = ground (arith, any-insert_latest p a ls)

any-latest_first :
    (p : BusinessLicense → Bool) (ls : List BusinessLicense) → any p (latest_first ls) ≡ any p ls
unfolding latest_first
any-latest_first p [] = refl
any-latest_first p (a ∷ ls) =
    any-insert_latest p a (latest_first ls) ∙ ap (λ b. p a || b) (any-latest_first p ls)

module _ {A : Type 0} where
  any-keep : (p q : A → Bool) (xs : List A) → any p (keep q xs) ≡ any (λ x. q x && p x) xs
  any-keep p q [] = refl
  any-keep p q (x ∷ xs) = ground (arith, any-keep p q xs)

  any_mono :
      (p q : A → Bool) (xs : List A)
      → ((x : A) → p x ≡ true → q x ≡ true)
      → any p xs ≡ true
      → any q xs ≡ true
  any_mono p q [] h e = e
  any_mono p q (x ∷ xs) h e = ground (arith, h x, any_mono p q xs h)

  any_const :
      (p : A → Bool) (b : Bool) (xs : List A)
      → ((x : A) → p x ≡ true → b ≡ true)
      → any p xs ≡ true
      → b ≡ true
  any_const p b [] h e = ground arith
  any_const p b (x ∷ xs) h e = ground (arith, h x, any_const p b xs h)

  any_none :
      (p q : A → Bool) (xs : List A)
      → ((x : A) → p x ≡ true → q x ≡ true)
      → any q xs ≡ false
      → any p xs ≡ false
  any_none p q [] h e = refl
  any_none p q (x ∷ xs) h e = ground (arith, h x, any_none p q xs h)

unused_account :
    (n : ℕ) (cs : List Company) → All (IsNumbered n) cs → any (has_account_id (base + n)) cs ≡ false
unused_account n [] a = refl
unused_account n (c ∷ cs) a = ground (arith, unused_account n cs a.1)

-- The licence is one of those offered, as `get_available_licenses` chooses them.
abbrev offered : ℕ → ℕ → ℕ → World → BusinessLicense → Bool
offered g owner license w l =
    (((l.guild_id == g) && (l.user_id == owner))
      && (is_active l.status && not (any (λ c. c.license_id == l.license_id) w.companies)))
    && (l.license_id == license)

any-offered :
    (g owner license : ℕ) (w : World)
    → any (λ l. l.license_id == license) (get_available_licenses g owner w) ≡ true
    → any (offered g owner license w) w.licenses.licenses ≡ true
unfolding get_available_licenses
any-offered g owner license w e =
    sym (any-keep (λ l. l.license_id == license) _ w.licenses.licenses)
    ∙ sym (any-latest_first (λ l. l.license_id == license) _)
    ∙ e

offered_free :
    (g owner license : ℕ) (w : World) (l : BusinessLicense)
    → offered g owner license w l ≡ true
    → not (any (stands_on g license) w.companies) ≡ true
offered_free g owner license w l e =
    let unused : any (λ c. c.license_id == l.license_id) w.companies ≡ false = ground arith in
    let same : (l.license_id == license) ≡ true = ground arith in
    let free =
      any_none (stands_on g license) (λ c. c.license_id == l.license_id) w.companies
        (λ c s. ground (arith, s, same)) unused in
    ap not free

created :
    (strip : String → String) (text_length : String → ℕ) (g owner license : ℕ) (name : String)
    (w : World)
    → is_name text_length (strip name) ≡ true
    → any (is_usable g owner license) w.licenses.licenses ≡ true
    → any (stands_on g license) w.companies ≡ false
    → any (has_account_id (base + w.sequence)) w.companies ≡ false
    → (create_company strip text_length g owner license name w).0
      ≡ ok (new_company g owner license (strip name) (base + w.sequence) (next_company_id w).1)
unfolding create_company fn_create_company
created strip text_length g owner license name w good usable free fresh =
    rw (good, usable, free, fresh, create_company)

-- A user who is offered a licence for a company, and gives a name of 1 to 100 characters, gets the
-- company, in a registry that is valid: one on that licence, with the stripped name, with the next
-- number but one of the sequence's and with the account that belongs to the next.
pub offered_license_suffices :
    (strip : String → String) (text_length : String → ℕ) (g owner license : ℕ) (name : String)
    (w : World)
    → IsValid w
    → is_name text_length (strip name) ≡ true
    → any (λ l. l.license_id == license) (get_available_licenses g owner w) ≡ true
    → (create_company strip text_length g owner license name w).0
      ≡ ok (new_company g owner license (strip name) (base + w.sequence) (next_company_id w).1)
offered_license_suffices strip text_length g owner license name w v good available =
    let some_offered = any-offered g owner license w available in
    created strip text_length g owner license name w good
      (any_mono (offered g owner license w) (is_usable g owner license) w.licenses.licenses
        (λ l e. ground (arith, e)) some_offered)
      (ground (
        arith,
        any_const (offered g owner license w) (not (any (stands_on g license) w.companies))
            w.licenses.licenses (offered_free g owner license w) some_offered,
      ))
      (unused_account w.sequence w.companies v.numbered)
