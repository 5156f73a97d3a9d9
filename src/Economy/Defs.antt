-- ===== src/Economy/Defs.antt =====
-- The tables economy.guild_member_balances and economy.currency_transactions, what the functions
-- read besides them, and the errors that they raise. A transaction's metadata is left out.
-- Numbers of members and guilds are taken to fit their columns. A table has no order: a new
-- transaction is put first.
use Prim.Native.String.{String}
use text.Mathlib.Text.{find?}
use dro_asms.Prelude.{
  ℕ, ◌+◌, ◌-◌, Bool, true, false, ◌&&◌, Option, none, some, List, [], ◌∷◌, ◌++◌, map, ◌==◌,
  if◌then◌else◌,
}
use dro_asms.Prelude.Int.{ℤ}
use dro_asms.Result.{Result, ok, err}
use dro_asms.Pool.Defs.{PendingTransfer}

pub record Account : Type 0 where
  pub guild_id : ℕ
  pub member_id : ℕ
  pub current_balance : ℕ
  pub last_modified_at : ℕ
  pub throttled_until : Option ℕ

pub data Direction : Type 0 where
  transfer adjustment_grant adjustment_deduct throttle_block : Direction

pub record Transaction : Type 0 where
  pub transaction_id : ℕ
  pub guild_id : ℕ
  pub initiator_id : ℕ
  pub target_id : Option ℕ
  pub amount : ℕ
  pub direction : Direction
  pub reason : Option String
  pub balance_after_initiator : ℕ
  pub balance_after_target : Option ℕ
  pub created_at : ℕ

-- `pg_notify('economy_events', …)`
pub data Notice : Type 0 where
  transaction_success : (transaction_id guild_id initiator_id target_id amount : ℕ) → Notice
  transaction_denied : (guild_id initiator_id throttle_until : ℕ) → Notice

-- `government_accounts` has pairs of a guild and an account; `daily_limit` is the setting
-- app.transfer_daily_limit, none where it is not set or empty. `now` is the clock, in seconds.
pub record Db : Type 0 where
  pub accounts : List Account
  pub transactions : List Transaction
  pub next_transaction : ℕ
  pub notices : List Notice
  pub government_accounts : List (ℕ × ℕ)
  pub daily_limit : Option ℤ
  pub pending_transfers : List PendingTransfer
  pub next_transfer : ℕ
  pub now : ℕ

-- What the functions raise, or the database for them.
pub data PostgresError : Type 0 where
  distinct_members not_positive insufficient_funds : PostgresError
  throttled_until daily_limit_exceeded : ℕ → PostgresError
  reason_required zero_amount below_zero : PostgresError
  out_of_range history_limit : PostgresError

abbrev pub sqlstate : PostgresError → String
sqlstate distinct_members = "22023"
sqlstate not_positive = "22023"
sqlstate insufficient_funds = "P0001"
sqlstate (throttled_until _) = "P0001"
sqlstate (daily_limit_exceeded _) = "P0001"
sqlstate reason_required = "22023"
sqlstate zero_amount = "22023"
sqlstate below_zero = "P0001"
sqlstate out_of_range = "22003"
sqlstate history_limit = "22023"

-- The message up to the first value in it, in lower case.
abbrev pub message : PostgresError → String
message distinct_members = "initiator and target must be distinct members for transfers."
message not_positive = "transfer amount must be a positive whole number."
message insufficient_funds = "transfer denied: insufficient funds. balance available: "
message (throttled_until _) = "transfer throttled: member is on cooldown until "
message (daily_limit_exceeded _) = "transfer throttled: daily limit of "
message reason_required = "adjustment reason is required."
message zero_amount = "adjustment amount must be non-zero."
message below_zero = "adjustment denied: balance cannot drop below zero."
message out_of_range = "bigint out of range"
message history_limit = "history limit must be between 1 and 50 inclusive."

abbrev pub mentions : PostgresError → String → Bool
mentions e word = elim (find? (message e) word) [ none ↦ false | some _ ↦ true ]

abbrev pub max_bigint : ℕ
max_bigint = 9_223_372_036_854_775_807

abbrev pub is_account : ℕ → ℕ → Account → Bool
is_account g m a = (a.guild_id == g) && (a.member_id == m)

unfoldable pub find_account : ℕ → ℕ → List Account → Option Account
find_account g m [] = none
find_account g m (a ∷ more) =
    let rest = find_account g m more in if is_account g m a then some a else rest

abbrev pub balance_in : Option Account → ℕ
balance_in none = 0
balance_in (some a) = a.current_balance

-- The balance of a member, 0 for one who has no row yet.
abbrev pub balance_of : ℕ → ℕ → List Account → ℕ
balance_of g m accounts = balance_in (find_account g m accounts)

abbrev pub new_account : ℕ → ℕ → ℕ → Account
new_account now g m = record {
  guild_id = g;
  member_id = m;
  current_balance = 0;
  last_modified_at = now;
  throttled_until = none;
}

abbrev pub ensured : ℕ → ℕ → ℕ → List Account → Option Account → List Account
ensured now g m accounts none = accounts ++ (new_account now g m ∷ [])
ensured now g m accounts (some a) = accounts

-- `INSERT … ON CONFLICT (guild_id, member_id) DO NOTHING`
unfoldable pub ensure_account : ℕ → ℕ → ℕ → List Account → List Account
ensure_account now g m accounts = ensured now g m accounts (find_account g m accounts)

-- `UPDATE … WHERE guild_id = … AND member_id = …`
unfoldable pub update_account : ℕ → ℕ → (Account → Account) → List Account → List Account
update_account g m f accounts = map (λ a. if is_account g m a then f a else a) accounts

abbrev pub credit : ℕ → ℕ → Account → Account
credit now n a = record a { current_balance = a.current_balance + n; last_modified_at = now }

abbrev pub debit : ℕ → ℕ → Account → Account
debit now n a = record a { current_balance = a.current_balance - n; last_modified_at = now }

-- A statement that raises leaves nothing behind.
abbrev pub statement :
    {T : Type 0} → (Db → Result T PostgresError × Db) → Db → Result T PostgresError × Db
statement f db = elim (f db).0 [ err e ↦ (err e, db) | ok v ↦ (ok v, (f db).1) ]
