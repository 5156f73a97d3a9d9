-- ===== src/Economy/Moves.antt =====
-- The branches of a transfer: what holds of each of its outcomes holds of the transfer, for
-- fn_transfer_currency, for the gateway and for the service.
use Prim.Native.String.{String}
use dro_asms.Prelude.{
  ℕ, ◌+◌, ◌-◌, ◌≡◌, ◌∙◌, ◌≤◌, false, Option, arith, ◌==◌, ltb, if_ind, if_cases, option_cases,
  if◌then◌else◌,
}
use dro_asms.Prelude.Int.{ℤ, pos, pos_part, leb_ℤ}
use dro_asms.Result.{Result, ok, err}
use dro_asms.Economy.Defs.{
  Db, PostgresError, balance_of, max_bigint, ensure_account, update_account, statement,
}
use dro_asms.Economy.Transfer.{
  Receipt, debit_transfer, move, receipt_of, book_transfer, with_rows, pay, pay_unless_limited,
  pay_unless_throttled, cooldown, check_limit, LimitCheck, within, overflows, exceeds,
  fn_transfer_currency, gateway_transfer,
}
use dro_asms.Economy.Accounts.{
  same_key, balance_of-ensure_account, has_account-ensure_account, has_account-update_debit,
  balance_of-update_credit, balance_of-update_transfer,
}

-- A ledger as a function from a guild and a member to a balance.
abbrev pub Balances : Type 0
Balances = ℕ → ℕ → ℕ

abbrev pub balances : Db → Balances
balances db h m = balance_of h m db.accounts

-- `n` moves from one member of a guild to another.
abbrev pub moved : ℕ → ℕ → ℕ → ℕ → Balances → Balances
moved g initiator target n before h m =
    if same_key h m g initiator
    then before h m - n
    else if same_key h m g target
    then before h m + n
    else before h m

pub balances-with_rows :
    (g i t : ℕ) (db : Db) (h m : ℕ) → balances (with_rows g i t db) h m ≡ balances db h m
balances-with_rows g i t db h m =
    balance_of-ensure_account db.now h m g t (ensure_account db.now g i db.accounts)
    ∙ balance_of-ensure_account db.now h m g i db.accounts

pub balances-book_transfer :
    (g i t n : ℕ) (reason : Option String) (db : Db) (h m : ℕ)
    → (i == t) ≡ false
    → balances (book_transfer g i t n reason (with_rows g i t db)) h m
      ≡ moved g i t n (balances db) h m
unfolding move
balances-book_transfer g i t n reason db h m apart =
    let now = db.now in
    let one = ensure_account now g i db.accounts in
    let two = ensure_account now g t one in
    let paid = update_account g i (debit_transfer now n) two in
    ground (
      arith,
      balance_of-ensure_account now h m g i db.accounts,
      balance_of-ensure_account now h m g t one,
      balance_of-update_transfer now n h m g i two,
      has_account-update_debit now n g t g i two,
      has_account-ensure_account now g t g t one,
      balance_of-update_credit now n h m g t paid,
    )

abbrev Funded : ℕ → ℕ → ℕ → ℕ → Db → Type 0
Funded g i t n db = (n ≤ balances db g i) × (balances db g t + n ≤ max_bigint)

limit_cases {κ} :
    {A : Type 0} (P : A → Type κ) (c : LimitCheck) (w o : A) (x : ℕ → A)
    → P w
    → P o
    → ((limit : ℕ) → P (x limit))
    → P (elim c [ within ↦ w | overflows ↦ o | exceeds limit ↦ x limit ])
limit_cases P within w o x pw po px = pw
limit_cases P overflows w o x pw po px = po
limit_cases P (exceeds limit) w o x pw po px = px limit

module _ {κ} (g i t : ℕ) (reason : Option String) (P : Result Receipt PostgresError × Db → Type κ)
    (fails : (e : PostgresError) (after : Db) → P (err e, after)) where
  abbrev Paid : ℕ → Db → Type κ
  Paid n db = P (ok (receipt_of g i t n db), book_transfer g i t n reason db)

  pay-cases : (n : ℕ) (db : Db) → (Funded g i t n db → Paid n db) → P (pay g i t n reason db)
  unfolding pay
  pay-cases n db p =
      if_cases P (ltb (balance_of g i db.accounts) n) (λ _. fails _ db)
        (λ enough.
          if_cases P (ltb max_bigint (balance_of g t db.accounts + n)) (λ _. fails _ db)
            (λ small. p (ground (arith, enough), ground (arith, small))))

  pay_unless_throttled-cases :
      (n : ℕ) (db : Db)
      → (Funded g i t n db → Paid n db)
      → P (pay_unless_throttled g i t n reason db)
  unfolding pay_unless_throttled pay_unless_limited
  pay_unless_throttled-cases n db p =
      option_cases P (cooldown g i db) _ _
        (λ _.
          limit_cases P (check_limit g i n db) _ _ _ (pay-cases n db p) (fails _ db)
            (λ limit. fails _ _))
        (λ until _. fails _ db)

  fn_transfer_currency-cases :
      (amount : ℤ) (db : Db)
      → ((i == t) ≡ false
          → leb_ℤ amount (pos 0) ≡ false
          → Funded g i t (pos_part amount) (with_rows g i t db)
          → Paid (pos_part amount) (with_rows g i t db))
      → P (fn_transfer_currency g i t amount reason db)
  unfolding fn_transfer_currency
  fn_transfer_currency-cases amount db p =
      if_cases P (i == t) (λ _. fails _ db)
        (λ apart.
          if_cases P (leb_ℤ amount (pos 0)) (λ _. fails _ db)
            (λ positive.
              pay_unless_throttled-cases (pos_part amount) (with_rows g i t db) (p apart positive)))

-- Where the gateway or the service returns an error, the database is as it was.
module _ {κ} (g i t : ℕ) (amount : ℤ) (reason : Option String) (db : Db)
    (P : Result Receipt PostgresError × Db → Type κ)
    (fails : (e : PostgresError) → P (err e, db)) where
  abbrev pub Pays : Type κ
  Pays =
      (i == t) ≡ false
      → leb_ℤ amount (pos 0) ≡ false
      → Funded g i t (pos_part amount) (with_rows g i t db)
      → P (
        ok (receipt_of g i t (pos_part amount) (with_rows g i t db)),
        book_transfer g i t (pos_part amount) reason (with_rows g i t db),
      )

  pub gateway_transfer-cases : Pays → P (gateway_transfer g i t amount reason db)
  unfolding gateway_transfer
  gateway_transfer-cases p = if_ind P (ltb max_bigint (pos_part amount)) (fails _) (
      fn_transfer_currency-cases g i t reason (λ out. P (statement (λ _. out) db)) (λ e _. fails e)
        amount db p)
