-- ===== src/Economy/Log.antt =====
-- The list of transactions as the account of where the balances come from.
use Prim.Native.String.{String}
use dro_asms.Prelude.{
  ℕ, ◌+◌, ◌≡◌, ◌∙◌, ◌≤◌, Bool, false, Option, none, some, List, [], ◌∷◌, arith, ◌==◌, ltb,
  if◌then◌else◌,
}
use dro_asms.Economy.Defs.{
  Db, Direction, transfer, adjustment_grant, adjustment_deduct, throttle_block, Transaction,
  balance_of, ensure_account, update_account, credit, debit,
}
use dro_asms.Economy.Transfer.{book_transfer, with_rows}
use dro_asms.Economy.Adjust.{book_adjustment, with_admin_rows}
use dro_asms.Economy.Accounts.{
  same_key, balance_of-ensure_account, has_account-ensure_account, balance_of-update_credit,
  balance_of-update_debit,
}
use dro_asms.Economy.Moves.{balances, balances-with_rows, balances-book_transfer}

abbrev pub is_target : ℕ → ℕ → Transaction → Bool
is_target h m x = elim x.target_id [ none ↦ false | some t ↦ same_key x.guild_id t h m ]

-- What a transaction gives to a member, and what it takes.
abbrev pub credit_of : ℕ → ℕ → Transaction → Direction → ℕ
credit_of h m x transfer = if is_target h m x then x.amount else 0
credit_of h m x adjustment_grant = if is_target h m x then x.amount else 0
credit_of h m x adjustment_deduct = 0
credit_of h m x throttle_block = 0

abbrev pub debit_of : ℕ → ℕ → Transaction → Direction → ℕ
debit_of h m x transfer = if same_key x.guild_id x.initiator_id h m then x.amount else 0
debit_of h m x adjustment_grant = 0
debit_of h m x adjustment_deduct = if is_target h m x then x.amount else 0
debit_of h m x throttle_block = 0

unfoldable pub received : ℕ → ℕ → List Transaction → ℕ
received h m [] = 0
received h m (x ∷ xs) = credit_of h m x x.direction + received h m xs

unfoldable pub spent : ℕ → ℕ → List Transaction → ℕ
spent h m [] = 0
spent h m (x ∷ xs) = debit_of h m x x.direction + spent h m xs

-- Every balance is what the member received less what the member spent.
abbrev pub Audited : Db → Type 0
Audited db = (h m : ℕ) → balances db h m + spent h m db.transactions ≡ received h m db.transactions

pub book_transfer-Audited :
    (g i t n : ℕ) (reason : Option String) (db : Db)
    → (i == t) ≡ false
    → n ≤ balances (with_rows g i t db) g i
    → Audited db
    → Audited (book_transfer g i t n reason (with_rows g i t db))
unfolding received spent
book_transfer-Audited g i t n reason db apart enough a h m = ground (
  arith,
  a h m,
  balances-with_rows g i t db g i,
  balances-book_transfer g i t n reason db h m apart,
)

balances-with_admin_rows :
    (g admin t : ℕ) (db : Db) (h m : ℕ)
    → balances (with_admin_rows g admin t db) h m ≡ balances db h m
balances-with_admin_rows g admin t db h m =
    balance_of-ensure_account db.now h m g t (ensure_account db.now g admin db.accounts)
    ∙ balance_of-ensure_account db.now h m g admin db.accounts

pub granted :
    (g admin t n : ℕ) (reason : String) (db : Db)
    → Audited db
    → Audited (
        book_adjustment g admin t n adjustment_grant reason
          (update_account g t (credit db.now n) (with_admin_rows g admin t db).accounts)
          (with_admin_rows g admin t db))
unfolding received spent
granted g admin t n reason db a h m =
    let rows = (with_admin_rows g admin t db).accounts in
    ground (
      arith,
      a h m,
      balances-with_admin_rows g admin t db h m,
      has_account-ensure_account db.now g t g t (ensure_account db.now g admin db.accounts),
      balance_of-update_credit db.now n h m g t rows,
    )

pub deducted :
    (g admin t n : ℕ) (reason : String) (db : Db)
    → ltb (balance_of g t (with_admin_rows g admin t db).accounts) n ≡ false
    → Audited db
    → Audited (
        book_adjustment g admin t n adjustment_deduct reason
          (update_account g t (debit db.now n) (with_admin_rows g admin t db).accounts)
          (with_admin_rows g admin t db))
unfolding received spent
deducted g admin t n reason db enough a h m =
    let rows = (with_admin_rows g admin t db).accounts in
    ground (
      arith,
      enough,
      a h m,
      balances-with_admin_rows g admin t db h m,
      balances-with_admin_rows g admin t db g t,
      balance_of-update_debit db.now n h m g t rows,
    )
