-- ===== src/Applications/Lookup.antt =====
-- Looking for an application in a table that an operation has left.
use Prim.Native.String.{String}
use dro_asms.Prelude.{
  ℕ, ◌≡◌, ◌≢◌, refl, sym, ap, ◌∙◌, true, false, Option, none, some, List, [], ◌∷◌, ◌++◌, map, arith,
  Option-cases, inl, inr, ◌==◌, option_cases, if_ind,
}
use dro_asms.Result.{Result, ok}
use dro_asms.Applications.Table.{
  Application, Table, NotPending, is_pending, find_application, get_application, review_row,
  update_found, update_pending, create_application,
}

module _ {D : Type 0} where
  abbrev found_review :
      ℕ → (Application D → Application D) → Option (Application D) → Option (Application D)
  found_review k f none = none
  found_review k f (some a) = some (review_row k f a)

  review_row_id :
      (k : ℕ) (f : Application D → Application D) (a : Application D)
      → ((b : Application D) → (f b).id ≡ b.id)
      → (review_row k f a).id ≡ a.id
  review_row_id k f a same = ground (arith, same a)

  find_application-map :
      (k j : ℕ) (f : Application D → Application D) (rows : List (Application D))
      → ((a : Application D) → (f a).id ≡ a.id)
      → find_application j (map (review_row k f) rows) ≡ found_review k f (find_application j rows)
  unfolding find_application
  find_application-map k j f [] same = refl
  find_application-map k j f (a ∷ rows) same =
      ground (arith, review_row_id k f a same, find_application-map k j f rows same)

  find_application-append :
      (j : ℕ) (rows : List (Application D)) (a b : Application D)
      → find_application j rows ≡ some a
      → find_application j (rows ++ (b ∷ [])) ≡ some a
  unfolding find_application
  find_application-append j [] a b e = ground arith
  find_application-append j (c ∷ rows) a b e = ground (arith, find_application-append j rows a b)

  find_application_id :
      (j : ℕ) (rows : List (Application D)) (a : Application D)
      → find_application j rows ≡ some a
      → (a.id == j) ≡ true
  unfolding find_application
  find_application_id j [] a e = ground arith
  find_application_id j (c ∷ rows) a e = ground (arith, find_application_id j rows a)

  -- An application that has been decided is the same after every review.
  pub update_pending_keeps :
      (k j : ℕ) (f : Application D → Application D) (t : Table D) (a : Application D)
      → ((b : Application D) → (f b).id ≡ b.id)
      → get_application j t ≡ some a
      → is_pending a.status ≡ false
      → get_application j (update_pending k f t).1 ≡ some a
  unfolding get_application update_pending
  update_pending_keeps k j f t a same e closed =
      let kept : review_row k f a ≡ a = ground (arith) in
      let all : find_application j (map (review_row k f) t.rows) ≡ some a =
        find_application-map k j f t.rows same ∙ ap (found_review k f) e ∙ ap some kept in
      let P : Result (Application D) NotPending × Table D → Type 0 =
        λ out. find_application j out.1.rows ≡ some a in
      option_cases P (find_application k t.rows) _ _ (λ _. e)
        (λ b _. if_ind P (is_pending b.status) all e)

  found_review_other :
      (k j : ℕ) (f : Application D → Application D) (rows : List (Application D))
      → j ≢ k
      → found_review k f (find_application j rows) ≡ find_application j rows
  found_review_other k j f rows apart = elim (Option-cases (find_application j rows)) [
    | inl e ↦ ap (found_review k f) e ∙ sym e
    | inr (a, e) ↦
        let mine = find_application_id j rows a e in
        let kept : review_row k f a ≡ a = ground arith in
        ap (found_review k f) e ∙ ap some kept ∙ sym e
  ]

  -- A review of one application leaves the others as they are.
  pub update_pending_others :
      (k j : ℕ) (f : Application D → Application D) (t : Table D)
      → ((b : Application D) → (f b).id ≡ b.id)
      → j ≢ k
      → get_application j (update_pending k f t).1 ≡ get_application j t
  unfolding get_application update_pending
  update_pending_others k j f t same apart =
      let P : Result (Application D) NotPending × Table D → Type 0 =
        λ out. find_application j out.1.rows ≡ find_application j t.rows in
      option_cases P (find_application k t.rows) _ _ (λ _. refl)
        (λ b _.
          if_ind P (is_pending b.status)
            (find_application-map k j f t.rows same ∙ found_review_other k j f t.rows apart) refl)

  -- A pending application is reviewed.
  pub update_pending_found :
      (k : ℕ) (f : Application D → Application D) (t : Table D) (a : Application D)
      → ((b : Application D) → (f b).id ≡ b.id)
      → get_application k t ≡ some a
      → is_pending a.status ≡ true
      → update_pending k f t ≡ (ok (f a), record t { rows = map (review_row k f) t.rows })
  unfolding get_application update_pending
  update_pending_found k f t a same e waits =
      let found : find_application k t.rows ≡ some a = e in
      let chosen : update_pending k f t ≡ update_found k f a t = rw (found, update_pending) in
      chosen ∙ rw waits

  pub get_application-reviewed :
      (k : ℕ) (f : Application D → Application D) (t : Table D) (a : Application D)
      → ((b : Application D) → (f b).id ≡ b.id)
      → get_application k t ≡ some a
      → is_pending a.status ≡ true
      → get_application k (update_pending k f t).1 ≡ some (f a)
  unfolding get_application
  get_application-reviewed k f t a same e waits =
      let mine = find_application_id k t.rows a e in
      let reviewed : review_row k f a ≡ f a = ground arith in
      ap (λ out. find_application k out.1.rows) (update_pending_found k f t a same e waits)
      ∙ find_application-map k k f t.rows same
      ∙ ap (found_review k f) e
      ∙ ap some reviewed

  pub create_application_keeps :
      (now g applicant : ℕ) (subject : D) (reason : String) (t : Table D) (j : ℕ)
      (a : Application D)
      → get_application j t ≡ some a
      → get_application j (create_application now g applicant subject reason t).1 ≡ some a
  unfolding get_application create_application
  create_application_keeps now g applicant subject reason t j a e =
      find_application-append j t.rows a _ e

  find_application-append_one :
      (rows : List (Application D)) (a : Application D)
      → find_application a.id rows ≡ none
      → find_application a.id (rows ++ (a ∷ [])) ≡ some a
  unfolding find_application
  find_application-append_one [] a e = ground arith
  find_application-append_one (c ∷ rows) a e = ground (arith, find_application-append_one rows a)

  pub create_application_found :
      (now g applicant : ℕ) (subject : D) (reason : String) (t : Table D)
      → get_application t.next_id t ≡ none
      → get_application t.next_id (create_application now g applicant subject reason t).1
        ≡ some (create_application now g applicant subject reason t).0
  unfolding get_application create_application
  create_application_found now g applicant subject reason t e =
      find_application-append_one t.rows (create_application now g applicant subject reason t).0 e
