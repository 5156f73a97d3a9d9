-- ===== src/Economy/Adjust.antt =====
-- fn_adjust_balance and fn_get_balance, with the gateways that call them, and
-- `AdjustmentService.adjust_balance`.
use Prim.Native.String.{String}
use dro_asms.Prelude.{
  ℕ, zero, suc, ◌+◌, Bool, false, not, Option, some, List, ◌∷◌, ltb, ◌==◌, if◌then◌else◌,
}
use dro_asms.Prelude.Int.{ℤ, pos, negsuc}
use dro_asms.Prelude.Texts.{eqb_text}
use dro_asms.Result.{Result, ok, err}
use dro_asms.Economy.Defs.{
  Account, Direction, adjustment_grant, adjustment_deduct, Db, PostgresError, reason_required,
  zero_amount, below_zero, out_of_range, max_bigint, mentions, find_account, balance_of,
  ensure_account, update_account, credit, debit, statement,
}

pub record Adjustment : Type 0 where
  pub transaction_id : ℕ
  pub guild_id : ℕ
  pub admin_id : ℕ
  pub target_id : ℕ
  pub amount : ℕ
  pub direction : Direction
  pub created_at : ℕ
  pub target_balance_after : ℕ

abbrev pub adjustment_of : ℕ → ℕ → ℕ → ℕ → Direction → List Account → Db → Adjustment
adjustment_of g admin target n direction accounts db = record {
  transaction_id = db.next_transaction;
  guild_id = g;
  admin_id = admin;
  target_id = target;
  amount = n;
  direction = direction;
  created_at = db.now;
  target_balance_after = balance_of g target accounts;
}

abbrev pub book_adjustment : ℕ → ℕ → ℕ → ℕ → Direction → String → List Account → Db → Db
book_adjustment g admin target n direction reason accounts db = record db {
  accounts = accounts;
  transactions =
      record {
        transaction_id = db.next_transaction;
        guild_id = g;
        initiator_id = admin;
        target_id = some target;
        amount = n;
        direction = direction;
        reason = some reason;
        balance_after_initiator = balance_of g target accounts;
        balance_after_target = some (balance_of g target accounts);
        created_at = db.now;
      }
      ∷ db.transactions;
  next_transaction = suc db.next_transaction;
}

unfoldable pub grant : ℕ → ℕ → ℕ → ℕ → String → Db → Result Adjustment PostgresError × Db
grant g admin target n reason db =
    if ltb max_bigint (balance_of g target db.accounts + n)
    then (err out_of_range, db)
    else (let accounts = update_account g target (credit db.now n) db.accounts in
        (
          ok (adjustment_of g admin target n adjustment_grant accounts db),
          book_adjustment g admin target n adjustment_grant reason accounts db,
        ))

unfoldable pub deduct : ℕ → ℕ → ℕ → ℕ → String → Db → Result Adjustment PostgresError × Db
deduct g admin target n reason db =
    if ltb (balance_of g target db.accounts) n
    then (err below_zero, db)
    else (let accounts = update_account g target (debit db.now n) db.accounts in
        (
          ok (adjustment_of g admin target n adjustment_deduct accounts db),
          book_adjustment g admin target n adjustment_deduct reason accounts db,
        ))

abbrev pub with_admin_rows : ℕ → ℕ → ℕ → Db → Db
with_admin_rows g admin target db = record db {
  accounts = ensure_account db.now g target (ensure_account db.now g admin db.accounts);
}

unfoldable pub fn_adjust_balance :
    ℕ → ℕ → ℕ → ℤ → String → Db → Result Adjustment PostgresError × Db
fn_adjust_balance g admin target (pos zero) reason db =
    if eqb_text reason "" then (err reason_required, db) else (err zero_amount, db)
fn_adjust_balance g admin target (pos (suc n)) reason db =
    if eqb_text reason ""
    then (err reason_required, db)
    else grant g admin target (suc n) reason (with_admin_rows g admin target db)
fn_adjust_balance g admin target (negsuc n) reason db =
    if ltb max_bigint (suc n)
    then (err out_of_range, db)
    else if eqb_text reason ""
    then (err reason_required, db)
    else deduct g admin target (suc n) reason (with_admin_rows g admin target db)

-- A number fits into bigint.
abbrev pub fits : ℤ → Bool
fits (pos n) = not (ltb max_bigint n)
fits (negsuc n) = not (ltb max_bigint n)

unfoldable pub gateway_adjust : ℕ → ℕ → ℕ → ℤ → String → Db → Result Adjustment PostgresError × Db
gateway_adjust g admin target amount reason db =
    if fits amount
    then statement (fn_adjust_balance g admin target amount reason) db
    else (err out_of_range, db)

-- Without a connection the service returns these; with one it raises them, the first as
-- UnauthorizedAdjustmentError.
pub data AdjustmentError : Type 0 where
  unauthorized missing_reason amount_is_zero would_drop_below_zero database_error : AdjustmentError

unfoldable pub map_postgres_error : PostgresError → AdjustmentError
map_postgres_error e =
    if mentions e "cannot drop below zero" then would_drop_below_zero else database_error

abbrev pub is_zero : ℤ → Bool
is_zero (pos n) = n == 0
is_zero (negsuc n) = false

unfoldable pub run_adjustment : ℕ → ℕ → ℕ → ℤ → String → Db → Result Adjustment AdjustmentError × Db
run_adjustment g admin target amount reason db =
    let (result, after) = gateway_adjust g admin target amount reason db in
    elim result [ err e ↦ (err (map_postgres_error e), after) | ok a ↦ (ok a, after) ]

-- `strip` is `str.strip`.
unfoldable pub adjust_balance :
    (String → String) → ℕ → ℕ → ℕ → ℤ → String → Bool → Db → Result Adjustment AdjustmentError × Db
adjust_balance strip g admin target amount reason can_adjust db =
    if not can_adjust
    then (err unauthorized, db)
    else if eqb_text (strip reason) ""
    then (err missing_reason, db)
    else if is_zero amount
    then (err amount_is_zero, db)
    else run_adjustment g admin target amount reason db

-- `fetch_balance`, which makes the member's row where there is none.
unfoldable pub fetch_balance : ℕ → ℕ → Db → Option Account × Db
fetch_balance g m db =
    let accounts = ensure_account db.now g m db.accounts in
    (find_account g m accounts, record db { accounts = accounts })

-- `fetch_balance_snapshot`, which only reads.
unfoldable pub fetch_balance_snapshot : ℕ → ℕ → Db → Option Account
fetch_balance_snapshot g m db = find_account g m db.accounts
