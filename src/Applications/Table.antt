-- ===== src/Applications/Table.antt =====
-- The tables governance.welfare_applications and governance.license_applications, which differ in
-- what is applied for, and the gateways of db/gateway/government_applications.py: the operations of
-- WelfareApplicationGateway, under the names that they have there, and those of
-- LicenseApplicationGateway. Identifiers and times are numbers. Rows of the same time are listed in
-- the order of the table, which SQL leaves open.
use Prim.Native.String.{String}
use dro_asms.Prelude.{
  ℕ, suc, ◌-◌, ◌*◌, Bool, true, false, ◌&&◌, Option, none, some, List, [], ◌∷◌, ◌++◌, map, keep,
  take, drop, length, leb, ◌==◌, if◌then◌else◌,
}
use dro_asms.Prelude.Exclusive.{any}
use dro_asms.Prelude.Texts.{eqb_text}
use dro_asms.Result.{Result, ok, err}

pub data Status : Type 0 where
  pending approved rejected : Status

abbrev pub is_pending : Status → Bool
is_pending pending = true
is_pending _ = false

abbrev pub is_approved : Status → Bool
is_approved approved = true
is_approved _ = false

abbrev pub eqb_status : Status → Status → Bool
eqb_status pending pending = true
eqb_status approved approved = true
eqb_status rejected rejected = true
eqb_status _ _ = false

-- `subject` is the amount of money or the type of licence.
pub record Application (D : Type 0) : Type 0 where
  pub id : ℕ
  pub guild_id : ℕ
  pub applicant_id : ℕ
  pub subject : D
  pub reason : String
  pub status : Status
  pub created_at : ℕ
  pub reviewer_id : Option ℕ
  pub reviewed_at : Option ℕ
  pub rejection_reason : Option String

pub record Table (D : Type 0) : Type 0 where
  pub rows : List (Application D)
  pub next_id : ℕ

-- `DatabaseError("Application not found or not pending")`
pub data NotPending : Type 0 where
  not_found_or_not_pending : NotPending

pub record ListResult (D : Type 0) : Type 0 where
  pub applications : List (Application D)
  pub total_count : ℕ
  pub page : ℕ
  pub page_size : ℕ

abbrev matches_status : Option Status → Status → Bool
matches_status none s = true
matches_status (some t) s = eqb_status s t

abbrev matches_applicant : Option ℕ → ℕ → Bool
matches_applicant none a = true
matches_applicant (some b) a = a == b

module _ {D : Type 0} where
  unfoldable pub create_application : ℕ → ℕ → ℕ → D → String → Table D → Application D × Table D
  create_application now g applicant subject reason t =
      let row : Application D = record {
        id = t.next_id;
        guild_id = g;
        applicant_id = applicant;
        subject = subject;
        reason = reason;
        status = pending;
        created_at = now;
        reviewer_id = none;
        reviewed_at = none;
        rejection_reason = none;
      } in
      (row, record { rows = t.rows ++ (row ∷ []); next_id = suc t.next_id })

  unfoldable pub find_application : ℕ → List (Application D) → Option (Application D)
  find_application k [] = none
  find_application k (a ∷ more) =
      let rest = find_application k more in if a.id == k then some a else rest

  unfoldable pub get_application : ℕ → Table D → Option (Application D)
  get_application k t = find_application k t.rows

  -- `SET … WHERE id = $1 AND status = 'pending'`, on one row
  abbrev pub review_row : ℕ → (Application D → Application D) → Application D → Application D
  review_row k f a = if (a.id == k) && is_pending a.status then f a else a

  abbrev pub with_approval : ℕ → ℕ → Application D → Application D
  with_approval reviewer now a = record a {
    status = approved;
    reviewer_id = some reviewer;
    reviewed_at = some now;
  }

  abbrev pub with_rejection : ℕ → ℕ → String → Application D → Application D
  with_rejection reviewer now why a = record a {
    status = rejected;
    reviewer_id = some reviewer;
    reviewed_at = some now;
    rejection_reason = some why;
  }

  abbrev pub update_found :
      ℕ
      → (Application D → Application D)
      → Application D
      → Table D
      → Result (Application D) NotPending × Table D
  update_found k f a t =
      if is_pending a.status
      then (ok (f a), record t { rows = map (review_row k f) t.rows })
      else (err not_found_or_not_pending, t)

  -- The updated row (`RETURNING *`), where there is one.
  unfoldable pub update_pending :
      ℕ → (Application D → Application D) → Table D → Result (Application D) NotPending × Table D
  update_pending k f t = elim (find_application k t.rows) [
    | none ↦ (err not_found_or_not_pending, t)
    | some a ↦ update_found k f a t
  ]

  unfoldable pub approve_application :
      ℕ → ℕ → ℕ → Table D → Result (Application D) NotPending × Table D
  approve_application now k reviewer t = update_pending k (with_approval reviewer now) t

  unfoldable pub reject_application :
      ℕ → ℕ → ℕ → String → Table D → Result (Application D) NotPending × Table D
  reject_application now k reviewer why t = update_pending k (with_rejection reviewer now why) t

  -- `ORDER BY created_at DESC`
  unfoldable pub insert_newest : Application D → List (Application D) → List (Application D)
  insert_newest a [] = a ∷ []
  insert_newest a (b ∷ bs) =
      let rest = insert_newest a bs in
      if leb b.created_at a.created_at then a ∷ b ∷ bs else b ∷ rest

  unfoldable pub newest_first : List (Application D) → List (Application D)
  unfolding insert_newest
  newest_first [] = []
  newest_first (a ∷ more) = insert_newest a (newest_first more)

  -- Pages count from 1. `wanted` is the further condition on the subject.
  unfoldable pub list_where : (Application D → Bool) → (page page_size : ℕ) → Table D → ListResult D
  list_where wanted page page_size t =
      let found = keep wanted t.rows in
      record {
        applications = take page_size (drop ((page - 1) * page_size) (newest_first found));
        total_count = length found;
        page = page;
        page_size = page_size;
      }

  unfoldable pub list_applications :
      ℕ → Option Status → Option ℕ → (page page_size : ℕ) → Table D → ListResult D
  list_applications g status applicant page page_size t =
      list_where
        (λ a.
          (a.guild_id == g)
          && (matches_status status a.status && matches_applicant applicant a.applicant_id))
        page page_size t

  unfoldable pub get_user_applications : ℕ → ℕ → (limit : ℕ) → Table D → List (Application D)
  get_user_applications g applicant limit t =
      take limit
        (newest_first (keep (λ a. (a.guild_id == g) && (a.applicant_id == applicant)) t.rows))

-- What only LicenseApplicationGateway has, and its list, which can ask for a type of licence.
abbrev matches_type : Option String → String → Bool
matches_type none s = true
matches_type (some t) s = eqb_text s t

unfoldable pub list_license_rows :
    ℕ
    → Option Status
    → Option ℕ
    → Option String
    → (page page_size : ℕ) → Table String
    → ListResult String
list_license_rows g status applicant type page page_size t =
    list_where
      (λ a.
        (a.guild_id == g)
        && (matches_status status a.status
            && (matches_applicant applicant a.applicant_id && matches_type type a.subject)))
      page page_size t

abbrev pub is_pending_for : ℕ → ℕ → String → Application String → Bool
is_pending_for g applicant type a =
    (a.guild_id == g)
    && ((a.applicant_id == applicant) && (eqb_text a.subject type && is_pending a.status))

unfoldable pub check_pending_application : ℕ → ℕ → String → Table String → Bool
check_pending_application g applicant type t = any (is_pending_for g applicant type) t.rows
