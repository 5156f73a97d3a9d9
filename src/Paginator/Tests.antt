-- ===== src/Paginator/Tests.antt =====
-- The paginator at concrete lists.
use dro_asms.Prelude.{ℕ, ◌≡◌, refl, false, some, List, [], ◌∷◌, arith}
use dro_asms.Prelude.Int.{pos}
use dro_asms.Paginator.Defs.{Paginator, page_count, new, number}
use dro_asms.Paginator.Pages.{IsValid, pages_from, pages_cover}
use dro_asms.Paginator.Clicks.{next, jump, refresh, run, clicks-IsValid}

abbrev items : List ℕ
items = 1 ∷ 2 ∷ 3 ∷ 4 ∷ 5 ∷ []

-- Five items, two to a page, seen by their owner.
abbrev panel : Paginator ℕ
panel = record {
  items = items;
  page_size = 2;
  author_id = some 7;
  show_indicator = false;
  total_pages = 3;
  current_page = 1;
}

panel-IsValid : IsValid panel
unfolding page_count
panel-IsValid = record { sized = omega arith; counted = refl; on_a_page = omega arith }

pages_cover_example : pages_from panel 0 3 ≡ items
pages_cover_example = pages_cover panel panel-IsValid

clicks-IsValid_example : IsValid (
    run
      (next 7 ∷ jump 7 (number (pos 3) ∷ []) ∷ refresh (1 ∷ []) ∷ [])
      (record panel { current_page = 0 }))
unfolding new page_count
clicks-IsValid_example =
    clicks-IsValid (next 7 ∷ jump 7 (number (pos 3) ∷ []) ∷ refresh (1 ∷ []) ∷ []) items 2 (some 7)
      false (record panel { current_page = 0 }) refl
