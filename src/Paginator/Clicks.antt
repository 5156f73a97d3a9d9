-- ===== src/Paginator/Clicks.antt =====
-- Clicks on a paginator's buttons, and the refreshing of its items.
use mathlib.Core.Path.{subst}
use mathlib.Core.Option
use dro_asms.Prelude.{
  ℕ, suc, zero, ◌+◌, ◌-◌, ◌≤◌, ◌<◌, ◌≡◌, refl, Bool, false, true, Option, some, List, [], ◌∷◌, ◌++◌,
  arith, All, min, ap, ◌∙◌, ltb, if◌then◌else◌, if_ind,
}
use dro_asms.Prelude.Int.{ℤ, pos, negsuc}
use dro_asms.Paginator.Defs.{
  Value, number, more, not_a_number, Paginator, Reply, no_reply, page_count, new, is_stranger,
  update_page, on_prev_page, on_next_page, on_jump_page, jump_to, refresh_items, jump_options,
  options_from,
}
use dro_asms.Paginator.Pages.{IsValid}

-- A click by a user, or a refresh.
pub data Event {ℓ} (A : Type ℓ) : Type ℓ where
  prev next : (user : ℕ) → Event A
  jump : (user : ℕ) (values : List Value) → Event A
  refresh : List A → Event A

All-append : (P : Value → Type 0) (vs ws : List Value) → All P vs → All P ws → All P (vs ++ ws)
All-append P [] ws h k = k
All-append P (v ∷ vs) ws h k = (h.0, All-append P vs ws h.1 k)

module _ {ℓ} {A : Type ℓ} where
  unfoldable pub handle : Event A → Paginator A → Reply A × Paginator A
  handle (prev user) p = on_prev_page user p
  handle (next user) p = on_next_page user p
  handle (jump user values) p = on_jump_page user values p
  handle (refresh xs) p = (no_reply, refresh_items xs p)

  unfoldable pub run : List (Event A) → Paginator A → Paginator A
  unfolding handle
  run [] p = p
  run (e ∷ es) p = run es (handle e p).1

  moved :
      (p : Paginator A) (n : ℕ)
      → IsValid p
      → n < p.total_pages
      → IsValid (record p { current_page = n })
  moved p n v h = record { sized = v.sized; counted = v.counted; on_a_page = h }

  jump_to-IsValid : (z : ℤ) (p : Paginator A) → IsValid p → IsValid (jump_to z p).1
  unfolding jump_to update_page
  jump_to-IsValid (negsuc n) p v = v
  jump_to-IsValid (pos zero) p v = v
  jump_to-IsValid (pos (suc n)) p v = ground (arith, moved p n v)

  handle-IsValid : (e : Event A) (p : Paginator A) → IsValid p → IsValid (handle e p).1
  unfolding handle on_prev_page on_next_page on_jump_page refresh_items update_page page_count
  handle-IsValid (prev user) p v = ground (arith, moved p (p.current_page - 1) v)
  handle-IsValid (next user) p v = ground (arith, moved p (p.current_page + 1) v)
  handle-IsValid (jump user []) p v = ground arith
  handle-IsValid (jump user (more ∷ vs)) p v = ground arith
  handle-IsValid (jump user (not_a_number ∷ vs)) p v = ground arith
  handle-IsValid (jump user (number z ∷ vs)) p v = ground (arith, jump_to-IsValid z p v)
  handle-IsValid (refresh xs) p v = record {
    sized = v.sized;
    counted = refl;
    on_a_page = ground arith;
  }

  run-IsValid : (es : List (Event A)) (p : Paginator A) → IsValid p → IsValid (run es p)
  unfolding run
  run-IsValid [] p v = v
  run-IsValid (e ∷ es) p v = run-IsValid es (handle e p).1 (handle-IsValid e p v)

  new-IsValid :
      (xs : List A) (size : ℕ) (author : Option ℕ) (indicator : Bool) (p : Paginator A)
      → new xs size author indicator ≡ some p
      → IsValid p
  unfolding new page_count
  new-IsValid xs zero author indicator p h = ground arith
  new-IsValid xs (suc n) author indicator p h =
      subst IsValid (Option.some-injective _ p h)
        (record { sized = omega arith; counted = refl; on_a_page = omega arith })

  -- From the constructor on, whatever is clicked and whenever the items are replaced, the current
  -- page is one of the pages, and the pages are as many as the items need.
  pub clicks-IsValid :
      (es : List (Event A)) (xs : List A) (size : ℕ) (author : Option ℕ) (indicator : Bool)
      (p : Paginator A)
      → new xs size author indicator ≡ some p
      → IsValid (run es p)
  clicks-IsValid es xs size author indicator p h =
      run-IsValid es p (new-IsValid xs size author indicator p h)

  -- What an option of the menu stands for, where it is a number: a click on it makes that page the
  -- current one, and shows it.
  abbrev Leads : Paginator A → ℕ → Value → Type 0
  Leads p user more = Unit
  Leads p user not_a_number = ⊥
  Leads p user (number (negsuc n)) = ⊥
  Leads p user (number (pos zero)) = ⊥
  Leads p user (number (pos (suc n))) =
      (on_jump_page user (number (pos (suc n)) ∷ []) p).1.current_page ≡ n

  options_from-Leads :
      (p : Paginator A) (user first n : ℕ)
      → is_stranger p.author_id user ≡ false
      → first + n ≤ p.total_pages
      → All (Leads p user) (options_from (suc first) n)
  unfolding on_jump_page jump_to update_page
  options_from-Leads p user first zero h le = tt
  options_from-Leads p user first (suc n) h le =
      (ground (arith, h), options_from-Leads p user (suc first) n h (omega arith))

  -- Every option of the select menu that is a number is one of the pages, and leads there when
  -- someone who may click picks it.
  jump_options_lem :
      (p : Paginator A) (user : ℕ)
      → is_stranger p.author_id user ≡ false
      → All (Leads p user) (jump_options p.total_pages)
  jump_options_lem p user h =
      All-append (Leads p user) (options_from 1 (min (p.total_pages + 1) 21 - 1))
        (if ltb 20 p.total_pages then more ∷ [] else [])
        (options_from-Leads p user 0 (min (p.total_pages + 1) 21 - 1) h (omega arith))
        (if_ind {A = List Value} (All (Leads p user)) (ltb 20 p.total_pages) (tt, tt) tt)

  -- The previous page of the next page is the page itself, for someone who may click where there is
  -- a next page.
  pub prev-next :
      (p : Paginator A) (user : ℕ)
      → is_stranger p.author_id user ≡ false
      → p.current_page + 1 < p.total_pages
      → (on_prev_page user (on_next_page user p).1).1 ≡ p
  unfolding on_prev_page on_next_page update_page
  prev-next p user h lt =
      let same : p.current_page + 1 - 1 ≡ p.current_page = omega arith in
      let more_pages : ltb p.current_page (p.total_pages - 1) ≡ true = ground arith in
      let not_first : ltb 0 (p.current_page + 1) ≡ true = ground arith in
      let forth : (on_next_page user p).1 ≡ record p { current_page = p.current_page + 1 } =
        rw (h, more_pages) in
      let back : (on_prev_page user (record p { current_page = p.current_page + 1 })).1
          ≡ record p { current_page = p.current_page + 1 - 1 } =
        rw (h, not_first) in
      ap (λ q. (on_prev_page user q).1) forth ∙ back ∙ ap (λ c. record p { current_page = c }) same
