-- ===== src/History/Tests.antt =====
-- A member with three transactions, two to a page, and one of another member.
use dro_asms.Prelude.{ℕ, ◌≡◌, refl, none, some, false, List, [], ◌∷◌, map, arith}
use dro_asms.Result.{ok}
use dro_asms.Economy.Defs.{Transaction, transfer}
use dro_asms.History.Defs.{make_history_entry, insert_row, order_rows, get_history}
use dro_asms.History.Pages.{walk, pages_cover_history}

abbrev paid : (number from to at : ℕ) → Transaction
paid number from to at = record {
  transaction_id = number;
  guild_id = 1;
  initiator_id = from;
  target_id = some to;
  amount = 5;
  direction = transfer;
  reason = none;
  balance_after_initiator = 10;
  balance_after_target = some 20;
  created_at = at;
}

abbrev table : List Transaction
table = paid 0 7 8 100 ∷ paid 1 8 7 300 ∷ paid 2 8 9 300 ∷ paid 3 7 9 200 ∷ []

pages_cover_history_example :
    walk 4 (λ cursor. get_history 1 7 none false 2 cursor table) none
    ≡ ok (map (make_history_entry 7) (paid 1 8 7 300 ∷ paid 3 7 9 200 ∷ paid 0 7 8 100 ∷ []))
unfolding insert_row order_rows
pages_cover_history_example =
    pages_cover_history 1 7 none false 2 3 table (omega arith) (omega arith) refl
      (refl, (refl, (refl, tt))) (omega arith)
