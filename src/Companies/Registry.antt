-- ===== src/Companies/Registry.antt =====
-- What the table of companies holds after any sequence of requests, and which requests for a
-- company are granted.
use Prim.Native.String.{String}
use dro_asms.Prelude.{
  ℕ, suc, ◌+◌, ◌≡◌, ◌<◌, Bool, false, not, List, [], ◌∷◌, ◌++◌, arith, All, if_ind, if_cases,
}
use dro_asms.Prelude.Exclusive.{any, Exclusive, Exclusive-append_one}
use dro_asms.Result.{Result, result_cases}
use dro_asms.Applications.Licenses.{issue_license, revoke_license, expire_licenses}
use dro_asms.Companies.Defs.{
  Company, World, CompanyError, base, derive_account_id, is_usable, stands_on, has_account_id,
  new_company, insert_company, is_name, fn_create_company, next_company_id, create_company,
}

-- One company was registered with the number before its own.
abbrev pub IsNumbered : ℕ → Company → Type 0
IsNumbered sequence c = (suc c.account_id ≡ base + c.id) × (c.id < sequence)

abbrev pub same_license : Company → Company → Bool
same_license c d = stands_on c.guild_id c.license_id d

-- No two companies of a guild stand on the same licence; the account of each is the one that
-- belongs to the number before its own, and its number has been given.
pub record IsValid (w : World) : Type 0 where
  pub one_company : Exclusive same_license w.companies
  pub numbered : All (IsNumbered w.sequence) w.companies

same_license_symmetric : (c d : Company) → same_license c d ≡ same_license d c
same_license_symmetric c d = ground arith

All-later :
    (n m : ℕ) (cs : List Company) → n < suc m → All (IsNumbered n) cs → All (IsNumbered m) cs
All-later n m [] h a = tt
All-later n m (c ∷ cs) h a = ((a.0.0, ground arith), All-later n m cs h a.1)

All-append_one :
    (n : ℕ) (cs : List Company) (c : Company)
    → All (IsNumbered n) cs
    → IsNumbered n c
    → All (IsNumbered n) (cs ++ (c ∷ []))
All-append_one n [] c a p = (p, tt)
All-append_one n (d ∷ cs) c a p = (a.0, All-append_one n cs c a.1 p)

drawn-IsValid : (w : World) → IsValid w → IsValid (next_company_id w).1
drawn-IsValid w v = record {
  one_company = v.one_company;
  numbered = All-later w.sequence (suc w.sequence) w.companies (ground arith) v.numbered;
}

inserted-IsValid :
    (g owner license : ℕ) (name : String) (w : World)
    → any (stands_on g license) w.companies ≡ false
    → IsValid w
    → IsValid (
        insert_company
          (new_company g owner license name (base + w.sequence) (next_company_id w).1)
          (next_company_id w).1)
inserted-IsValid g owner license name w free v = record {
  one_company =
      Exclusive-append_one same_license w.companies _ same_license_symmetric v.one_company free;
  numbered =
      All-append_one (suc (suc w.sequence)) w.companies _
        (All-later w.sequence (suc (suc w.sequence)) w.companies (ground arith) v.numbered)
        (ground arith, ground arith);
}

fn_create_company-IsValid :
    (text_length : String → ℕ) (g owner license : ℕ) (name : String) (w : World)
    → IsValid w
    → IsValid
        (fn_create_company text_length g owner license name
          (derive_account_id g w.sequence)
          (next_company_id w).1).1
unfolding fn_create_company
fn_create_company-IsValid text_length g owner license name w v =
    let P : Result Company CompanyError × World → Type 0 = λ out. IsValid out.1 in
    let drawn = (next_company_id w).1 in
    let u = drawn-IsValid w v in
    if_ind P (not (any (is_usable g owner license) w.licenses.licenses)) u (
      if_cases P (any (stands_on g license) w.companies) (λ _. u)
        (λ free. if_ind P (not (is_name text_length name)) u (
          if_ind P (any (has_account_id (derive_account_id g w.sequence)) w.companies)
            (drawn-IsValid drawn u) (inserted-IsValid g owner license name w free v))))

create_company-IsValid :
    (strip : String → String) (text_length : String → ℕ) (g owner license : ℕ) (name : String)
    (w : World)
    → IsValid w
    → IsValid (create_company strip text_length g owner license name w).1
unfolding create_company
create_company-IsValid strip text_length g owner license name w v =
    let P : Result Company CompanyError × World → Type 0 = λ out. IsValid out.1 in
    let account = derive_account_id g w.sequence in
    let made =
      fn_create_company text_length g owner license (strip name) account (next_company_id w).1 in
    let kept = fn_create_company-IsValid text_length g owner license (strip name) w v in
    if_ind P (not (is_name text_length (strip name))) v (
      result_cases P made.0 _ _ (λ e _. kept)
        (λ c _. record { one_company = kept.one_company; numbered = kept.numbered }))

pub data Event : Type 0 where
  create : (g owner license : ℕ) → (name : String) → Event
  issue : (g user : ℕ) → (type : String) → (by expires_at : ℕ) → Event
  revoke : (license by : ℕ) → (why : String) → Event
  expire : Event
  wait : ℕ → Event

module _ (strip : String → String) (text_length : String → ℕ) where
  unfoldable pub handle : Event → World → World
  handle (create g owner license name) w =
      (create_company strip text_length g owner license name w).1
  handle (issue g user type by expires_at) w = record w {
    licenses = (issue_license w.now g user type by expires_at w.licenses).1;
  }
  handle (revoke license by why) w = record w {
    licenses = (revoke_license w.now license by why w.licenses).1;
  }
  handle expire w = record w { licenses = (expire_licenses w.now w.licenses).1 }
  handle (wait n) w = record w { now = w.now + n }

  unfoldable pub run : List Event → World → World
  unfolding handle
  run [] w = w
  run (e ∷ es) w = run es (handle e w)

  handle-IsValid : (e : Event) (w : World) → IsValid w → IsValid (handle e w)
  unfolding handle
  handle-IsValid (create g owner license name) w v =
      create_company-IsValid strip text_length g owner license name w v
  handle-IsValid (issue g user type by expires_at) w v = record {
    one_company = v.one_company;
    numbered = v.numbered;
  }
  handle-IsValid (revoke license by why) w v = record {
    one_company = v.one_company;
    numbered = v.numbered;
  }
  handle-IsValid expire w v = record { one_company = v.one_company; numbered = v.numbered }
  handle-IsValid (wait n) w v = record { one_company = v.one_company; numbered = v.numbered }

  -- After any sequence of requests for companies and changes of licences, where it holds at first:
  -- no two companies of a guild stand on the same licence, and the account of every company is the
  -- one derived from the number before its own, never the one derived from its number.
  pub companies-IsValid : (es : List Event) (w : World) → IsValid w → IsValid (run es w)
  unfolding run
  companies-IsValid [] w v = v
  companies-IsValid (e ∷ es) w v = companies-IsValid es (handle e w) (handle-IsValid e w v)
