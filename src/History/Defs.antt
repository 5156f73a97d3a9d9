-- ===== src/History/Defs.antt =====
-- `BalanceService.get_history` in its Result mode, with the database's fn_get_history and
-- fn_has_more_history. The table of transactions is the one of Economy/Defs; a transaction's
-- metadata is left out.
use Prim.Native.String.{String}
use dro_asms.Prelude.{
  ℕ, Bool, true, false, ◌&&◌, ◌||◌, Option, none, some, List, [], ◌∷◌, map, length, take, keep, ltb,
  leb, ◌==◌, if◌then◌else◌,
}
use dro_asms.Prelude.Exclusive.{any}
use dro_asms.Result.{Result, ok, err}
use dro_asms.Economy.Defs.{Direction, Transaction, PostgresError, history_limit}

pub record HistoryEntry : Type 0 where
  pub transaction_id : ℕ
  pub guild_id : ℕ
  pub member_id : ℕ
  pub initiator_id : ℕ
  pub target_id : Option ℕ
  pub amount : ℕ
  pub direction : Direction
  pub reason : Option String
  pub created_at : ℕ
  pub balance_after_initiator : ℕ
  pub balance_after_target : Option ℕ

pub record HistoryPage : Type 0 where
  pub items : List HistoryEntry
  pub next_cursor : Option ℕ

-- The ValueError that is raised, the BalancePermissionError inside a DatabaseError, and what the
-- database raises.
pub data HistoryError : Type 0 where
  limit_out_of_range permission_denied : HistoryError
  database : PostgresError → HistoryError

abbrev pub make_history_entry : ℕ → Transaction → HistoryEntry
make_history_entry member t = record {
  transaction_id = t.transaction_id;
  guild_id = t.guild_id;
  member_id = member;
  initiator_id = t.initiator_id;
  target_id = t.target_id;
  amount = t.amount;
  direction = t.direction;
  reason = t.reason;
  created_at = t.created_at;
  balance_after_initiator = t.balance_after_initiator;
  balance_after_target = t.balance_after_target;
}

abbrev pub is_number : Option ℕ → ℕ → Bool
is_number none n = false
is_number (some m) n = m == n

abbrev pub is_of : ℕ → ℕ → Transaction → Bool
is_of g member t = (t.guild_id == g) && ((t.initiator_id == member) || is_number t.target_id member)

abbrev pub older : ℕ → Transaction → Bool
older c t = ltb t.created_at c

abbrev pub after_cursor : Option ℕ → Transaction → Bool
after_cursor none t = true
after_cursor (some c) t = older c t

-- `ORDER BY created_at DESC, transaction_id DESC`: whether the first comes no later.
abbrev pub precedes : Transaction → Transaction → Bool
precedes t u =
    ltb u.created_at t.created_at
    || ((u.created_at == t.created_at) && leb u.transaction_id t.transaction_id)

unfoldable pub insert_row : Transaction → List Transaction → List Transaction
insert_row t [] = t ∷ []
insert_row t (u ∷ rows) =
    let rest = insert_row t rows in if precedes t u then t ∷ u ∷ rows else u ∷ rest

unfoldable pub order_rows : List Transaction → List Transaction
order_rows [] = []
order_rows (t ∷ rows) = insert_row t (order_rows rows)

unfoldable pub fn_get_history :
    (g member limit : ℕ)
    → (cursor : Option ℕ) → List Transaction
    → Result (List Transaction) PostgresError
fn_get_history g member limit cursor table =
    if ltb limit 1 || ltb 50 limit
    then err history_limit
    else ok (take limit (order_rows (keep (λ t. is_of g member t && after_cursor cursor t) table)))

unfoldable pub fn_has_more_history : (g member before : ℕ) → List Transaction → Bool
fn_has_more_history g member before table = any (λ t. is_of g member t && older before t) table

-- `entries[-1]`
unfoldable pub last {ℓ} : {A : Type ℓ} → List A → Option A
last [] = none
last (x ∷ xs) = elim (last xs) [ none ↦ some x | some y ↦ some y ]

-- `has_more` is the database's answer.
abbrev pub cursor_of : Option HistoryEntry → (has_more : ℕ → Bool) → Option ℕ
cursor_of none has_more = none
cursor_of (some e) has_more = if has_more e.created_at then some e.created_at else none

abbrev pub next_cursor_value : (limit : ℕ) → List HistoryEntry → (has_more : ℕ → Bool) → Option ℕ
next_cursor_value limit entries has_more =
    if length entries == limit then cursor_of (last entries) has_more else none

-- `target_member_id or requester_id`, where the number 0 counts as none.
abbrev pub target_of : (requester : ℕ) → Option ℕ → ℕ
target_of requester none = requester
target_of requester (some m) = if m == 0 then requester else m

abbrev pub may_view : (requester target : ℕ) → (can_view_others : Bool) → Bool
may_view requester target can_view_others = (requester == target) || can_view_others

unfoldable pub read_history :
    (g member limit : ℕ) → (cursor : Option ℕ) → List Transaction → Result HistoryPage HistoryError
read_history g member limit cursor table = elim (fn_get_history g member limit cursor table) [
  | err e ↦ err (database e)
  | ok records ↦
      let entries = map (make_history_entry member) records in
      ok (record {
        items = entries;
        next_cursor =
            next_cursor_value limit entries (λ before. fn_has_more_history g member before table);
      })
]

unfoldable pub get_history :
    (g requester : ℕ)
    → (target_member_id : Option ℕ) → (can_view_others : Bool) → (limit : ℕ) → (cursor : Option ℕ)
    → List Transaction
    → Result HistoryPage HistoryError
get_history g requester target_member_id can_view_others limit cursor table =
    if ltb limit 1 || ltb 50 limit
    then err limit_out_of_range
    else let member = target_of requester target_member_id in
      if may_view requester member can_view_others
      then read_history g member limit cursor table
      else err permission_denied
