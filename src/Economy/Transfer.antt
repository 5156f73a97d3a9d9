-- ===== src/Economy/Transfer.antt =====
-- fn_transfer_currency and fn_record_throttle of fn_transfer_currency.sql, and the gateway
-- EconomyTransferGateway.
use Prim.Native.String.{String}
use dro_asms.Prelude.{
  ℕ, suc, ◌+◌, ◌*◌, ◌/◌, Bool, true, false, ◌&&◌, Option, none, some, List, [], ◌∷◌, ltb, leb, ◌==◌,
  if◌then◌else◌,
}
use dro_asms.Prelude.Int.{ℤ, pos, pos_part, leb_ℤ}
use dro_asms.Prelude.Exclusive.{any}
use dro_asms.Result.{Result, ok, err}
use dro_asms.Economy.Defs.{
  Account, Direction, transfer, throttle_block, Transaction, transaction_success,
  transaction_denied, Db, PostgresError, distinct_members, not_positive, insufficient_funds,
  throttled_until, daily_limit_exceeded, out_of_range, max_bigint, find_account, balance_of,
  ensure_account, update_account, credit, debit, statement,
}

-- `TransferProcedureResult`
pub record Receipt : Type 0 where
  pub transaction_id : ℕ
  pub guild_id : ℕ
  pub initiator_id : ℕ
  pub target_id : ℕ
  pub amount : ℕ
  pub direction : Direction
  pub created_at : ℕ
  pub initiator_balance : ℕ
  pub target_balance : Option ℕ
  pub throttled_until : Option ℕ

unfoldable pub is_government : ℕ → ℕ → Db → Bool
is_government g m db = any (λ ga. (ga.1 == m) && (ga.0 == g)) db.government_accounts

abbrev pub until_of : Option Account → Option ℕ
until_of none = none
until_of (some a) = a.throttled_until

-- The time until which the member has to wait, where it has not come.
abbrev pub waiting : ℕ → Option ℕ → Option ℕ
waiting now none = none
waiting now (some u) = if ltb now u then some u else none

unfoldable pub cooldown : ℕ → ℕ → Db → Option ℕ
cooldown g m db =
    if is_government g m db then none else waiting db.now (until_of (find_account g m db.accounts))

abbrev pub is_transfer : Direction → Bool
is_transfer transfer = true
is_transfer _ = false

-- `date_trunc('day', v_now)`
abbrev pub day_start : ℕ → ℕ
day_start now = now / 86400 * 86400

unfoldable pub total_today : ℕ → ℕ → ℕ → List Transaction → ℕ
total_today g m since [] = 0
total_today g m since (t ∷ ts) =
    let rest = total_today g m since ts in
    if (t.guild_id == g)
      && ((t.initiator_id == m) && (is_transfer t.direction && leb since t.created_at))
    then t.amount + rest
    else rest

pub data LimitCheck : Type 0 where
  within overflows : LimitCheck
  exceeds : (limit : ℕ) → LimitCheck

abbrev pub compare_limit : ℕ → ℕ → LimitCheck
compare_limit total limit =
    if ltb max_bigint total then overflows else if ltb limit total then exceeds limit else within

unfoldable pub check_limit : ℕ → ℕ → ℕ → Db → LimitCheck
check_limit g m n db = if is_government g m db then within else elim db.daily_limit [
  | none ↦ within
  | some limit ↦
      if leb_ℤ limit (pos 0)
      then within
      else compare_limit (total_today g m (day_start db.now) db.transactions + n) (pos_part limit)
]

abbrev pub throttle : ℕ → ℕ → Account → Account
throttle now until a = record a { throttled_until = some until; last_modified_at = now }

unfoldable pub fn_record_throttle : ℕ → ℕ → Db → Db
fn_record_throttle g m db =
    let until = db.now + 300 in
    let accounts =
      update_account g m (throttle db.now until) (ensure_account db.now g m db.accounts) in
    record db {
      accounts = accounts;
      transactions =
          record {
            transaction_id = db.next_transaction;
            guild_id = g;
            initiator_id = m;
            target_id = none;
            amount = 0;
            direction = throttle_block;
            reason = some "Transfer throttled";
            balance_after_initiator = balance_of g m accounts;
            balance_after_target = none;
            created_at = db.now;
          }
          ∷ db.transactions;
      next_transaction = suc db.next_transaction;
      notices = transaction_denied g m until ∷ db.notices;
    }

-- The debit also ends the member's cooldown.
abbrev pub debit_transfer : ℕ → ℕ → Account → Account
debit_transfer now n a = record (debit now n a) { throttled_until = none }

unfoldable pub move : ℕ → ℕ → ℕ → ℕ → ℕ → List Account → List Account
move now g initiator target n accounts =
    update_account g target (credit now n)
      (update_account g initiator (debit_transfer now n) accounts)

abbrev pub receipt_of : ℕ → ℕ → ℕ → ℕ → Db → Receipt
receipt_of g initiator target n db =
    let accounts = move db.now g initiator target n db.accounts in
    record {
      transaction_id = db.next_transaction;
      guild_id = g;
      initiator_id = initiator;
      target_id = target;
      amount = n;
      direction = transfer;
      created_at = db.now;
      initiator_balance = balance_of g initiator accounts;
      target_balance = some (balance_of g target accounts);
      throttled_until = none;
    }

abbrev pub book_transfer : ℕ → ℕ → ℕ → ℕ → Option String → Db → Db
book_transfer g initiator target n reason db =
    let accounts = move db.now g initiator target n db.accounts in
    record db {
      accounts = accounts;
      transactions =
          record {
            transaction_id = db.next_transaction;
            guild_id = g;
            initiator_id = initiator;
            target_id = some target;
            amount = n;
            direction = transfer;
            reason = reason;
            balance_after_initiator = balance_of g initiator accounts;
            balance_after_target = some (balance_of g target accounts);
            created_at = db.now;
          }
          ∷ db.transactions;
      next_transaction = suc db.next_transaction;
      notices = transaction_success db.next_transaction g initiator target n ∷ db.notices;
    }

unfoldable pub pay : ℕ → ℕ → ℕ → ℕ → Option String → Db → Result Receipt PostgresError × Db
pay g initiator target n reason db =
    if ltb (balance_of g initiator db.accounts) n
    then (err insufficient_funds, db)
    else if ltb max_bigint (balance_of g target db.accounts + n)
    then (err out_of_range, db)
    else (ok (receipt_of g initiator target n db), book_transfer g initiator target n reason db)

abbrev pub with_rows : ℕ → ℕ → ℕ → Db → Db
with_rows g initiator target db = record db {
  accounts = ensure_account db.now g target (ensure_account db.now g initiator db.accounts);
}

unfoldable pub pay_unless_limited :
    ℕ → ℕ → ℕ → ℕ → Option String → Db → Result Receipt PostgresError × Db
pay_unless_limited g initiator target n reason db = elim (check_limit g initiator n db) [
  | within ↦ pay g initiator target n reason db
  | overflows ↦ (err out_of_range, db)
  | exceeds limit ↦ (err (daily_limit_exceeded limit), fn_record_throttle g initiator db)
]

unfoldable pub pay_unless_throttled :
    ℕ → ℕ → ℕ → ℕ → Option String → Db → Result Receipt PostgresError × Db
pay_unless_throttled g initiator target n reason db = elim (cooldown g initiator db) [
  | none ↦ pay_unless_limited g initiator target n reason db
  | some until ↦ (err (throttled_until until), db)
]

unfoldable pub fn_transfer_currency :
    ℕ → ℕ → ℕ → ℤ → Option String → Db → Result Receipt PostgresError × Db
fn_transfer_currency g initiator target amount reason db =
    if initiator == target
    then (err distinct_members, db)
    else if leb_ℤ amount (pos 0)
    then (err not_positive, db)
    else pay_unless_throttled g initiator target (pos_part amount) reason
        (with_rows g initiator target db)

-- `EconomyTransferGateway.transfer_currency`: a number that does not fit is refused before the
-- statement runs, and what the statement raises is the cause of the error.
unfoldable pub gateway_transfer :
    ℕ → ℕ → ℕ → ℤ → Option String → Db → Result Receipt PostgresError × Db
gateway_transfer g initiator target amount reason db =
    if ltb max_bigint (pos_part amount)
    then (err out_of_range, db)
    else statement (fn_transfer_currency g initiator target amount reason) db
