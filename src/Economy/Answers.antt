-- ===== src/Economy/Answers.antt =====
-- What the transfer service answers without an event pool.
use Prim.Native.String.{String}
use dro_asms.Prelude.{
  ℕ, ◌+◌, ◌≡◌, refl, ap, ◌∙◌, false, Option, none, some, ltb, ◌==◌, if◌then◌else◌, inl, inr,
  Bool-cases,
}
use dro_asms.Prelude.Int.{ℤ, pos, pos_part, leb_ℤ}
use dro_asms.Result.{Result, ok, err}
use dro_asms.Economy.Defs.{
  Db, PostgresError, statement, balance_of, max_bigint, throttled_until, daily_limit_exceeded,
  out_of_range,
}
use dro_asms.Economy.Transfer.{
  Receipt, fn_record_throttle, is_government, cooldown, check_limit, LimitCheck, within, overflows,
  exceeds, with_rows, pay, pay_unless_limited, pay_unless_throttled, fn_transfer_currency,
  gateway_transfer,
}
use dro_asms.Economy.Service.{
  TransferError, transfer_validation, insufficient_balance, transfer_throttle, other_transfer_error,
  Outcome, Settings, handle_postgres_error, execute_transfer, transfer_now, transfer_currency,
  reason_of,
}
use dro_asms.Economy.Moves.{balances, balances-with_rows}
use dro_asms.Economy.Refinement.{finish}
use dro_asms.Economy.Cooldown.{until_at-rows}

abbrev pub error_of : Result Outcome TransferError → Option TransferError
error_of (ok x) = none
error_of (err e) = some e

-- What stands in the way of paying `n`, in the order in which it is looked at.
abbrev pub obstacle_to_pay : ℕ → ℕ → ℕ → ℕ → Db → Option TransferError
obstacle_to_pay g i t n db =
    if ltb (balances db g i) n
    then some insufficient_balance
    else if ltb max_bigint (balances db g t + n)
    then some other_transfer_error
    else none

abbrev pub obstacle_by_limit : LimitCheck → Option TransferError → Option TransferError
obstacle_by_limit within rest = rest
obstacle_by_limit overflows rest = some other_transfer_error
obstacle_by_limit (exceeds limit) rest = some transfer_throttle

abbrev pub obstacle_by_cooldown : Option ℕ → Option TransferError → Option TransferError
obstacle_by_cooldown none rest = rest
obstacle_by_cooldown (some until) rest = some transfer_throttle

abbrev pub obstacle : ℕ → ℕ → ℕ → ℤ → Db → Option TransferError
obstacle g i t amount db =
    if i == t
    then some transfer_validation
    else if leb_ℤ amount (pos 0)
    then some transfer_validation
    else if ltb max_bigint (pos_part amount)
    then some other_transfer_error
    else obstacle_by_cooldown (cooldown g i db) (
        obstacle_by_limit (check_limit g i (pos_part amount) db)
          (obstacle_to_pay g i t (pos_part amount) db))

-- The error of the service, from the outcome of the function.
abbrev answer_of : Db → Result Receipt PostgresError × Db → Option TransferError
answer_of db out = error_of (finish db (statement (λ _. out) db)).0

answer-pay :
    (start : Db) (g i t n : ℕ) (reason : Option String) (db : Db)
    → answer_of start (pay g i t n reason db) ≡ obstacle_to_pay g i t n db
unfolding pay handle_postgres_error
answer-pay start g i t n reason db = elim (Bool-cases (ltb (balance_of g i db.accounts) n)) [
  | inl poor ↦ rw poor
  | inr rich ↦ elim (Bool-cases (ltb max_bigint (balance_of g t db.accounts + n))) [
    | inl big ↦ rw (rich, big)
    | inr small ↦ rw (rich, small)
  ]
]

answer-check :
    (start : Db) (g i t n : ℕ) (reason : Option String) (db : Db) (c : LimitCheck)
    → answer_of start (elim c [
      | within ↦ pay g i t n reason db
      | overflows ↦ (err out_of_range, db)
      | exceeds limit ↦ (err (daily_limit_exceeded limit), fn_record_throttle g i db)
    ])
      ≡ obstacle_by_limit c (obstacle_to_pay g i t n db)
unfolding handle_postgres_error
answer-check start g i t n reason db within = answer-pay start g i t n reason db
answer-check start g i t n reason db overflows = refl
answer-check start g i t n reason db (exceeds limit) = refl

answer-cooldown :
    (start : Db) (g i t n : ℕ) (reason : Option String) (db : Db) (c : Option ℕ)
    → answer_of start (elim c [
      | none ↦ pay_unless_limited g i t n reason db
      | some until ↦ (err (throttled_until until), db)
    ])
      ≡ obstacle_by_cooldown c
          (obstacle_by_limit (check_limit g i n db) (obstacle_to_pay g i t n db))
unfolding handle_postgres_error pay_unless_limited
answer-cooldown start g i t n reason db none =
    answer-check start g i t n reason db (check_limit g i n db)
answer-cooldown start g i t n reason db (some until) = refl

cooldown-with_rows : (g i t : ℕ) (db : Db) → cooldown g i (with_rows g i t db) ≡ cooldown g i db
unfolding cooldown is_government
cooldown-with_rows g i t db = let same = until_at-rows db.now g i g i t db.accounts in rw same

obstacle-with_rows :
    (g i t n : ℕ) (db : Db)
    → obstacle_to_pay g i t n (with_rows g i t db) ≡ obstacle_to_pay g i t n db
obstacle-with_rows g i t n db =
    rw (balances-with_rows g i t db g i, balances-with_rows g i t db g t)

limit-with_rows :
    (g i t n : ℕ) (db : Db) → check_limit g i n (with_rows g i t db) ≡ check_limit g i n db
unfolding check_limit is_government
limit-with_rows g i t n db = refl

answer-fn_transfer_currency :
    (g i t : ℕ) (amount : ℤ) (reason : Option String) (db : Db)
    → (i == t) ≡ false
    → leb_ℤ amount (pos 0) ≡ false
    → answer_of db (fn_transfer_currency g i t amount reason db)
      ≡ obstacle_by_cooldown (cooldown g i db) (
          obstacle_by_limit
            (check_limit g i (pos_part amount) db)
            (obstacle_to_pay g i t (pos_part amount) db))
unfolding fn_transfer_currency pay_unless_throttled
answer-fn_transfer_currency g i t amount reason db apart positive =
    let n = pos_part amount in
    let rows = with_rows g i t db in
    let chosen : fn_transfer_currency g i t amount reason db
        ≡ pay_unless_throttled g i t n reason rows =
      rw (apart, positive) in
    ap (answer_of db) chosen
    ∙ answer-cooldown db g i t n reason rows (cooldown g i rows)
    ∙ ap
        (λ c.
          obstacle_by_cooldown c
            (obstacle_by_limit (check_limit g i n rows) (obstacle_to_pay g i t n rows)))
        (cooldown-with_rows g i t db)
    ∙ ap
        (λ c.
          obstacle_by_cooldown (cooldown g i db)
            (obstacle_by_limit c (obstacle_to_pay g i t n rows)))
        (limit-with_rows g i t n db)
    ∙ ap (λ o. obstacle_by_cooldown (cooldown g i db) (obstacle_by_limit (check_limit g i n db) o))
        (obstacle-with_rows g i t n db)

-- Without an event pool, a transfer fails exactly where an obstacle stands in its way, with the
-- error of the first one, all of them read in the database as it was: the same member twice; an
-- amount that is not positive, or that does not fit the column; a cooldown; the daily limit; a
-- balance below the amount; a new balance that does not fit the column. Without an obstacle it
-- goes through.
pub transfer_answers :
    (settings : Settings) (g i t : ℕ) (amount : ℤ) (reason : Option String)
    (expires_hours : Option ℕ) (db : Db)
    → settings.event_pool_enabled ≡ false
    → error_of (transfer_currency settings g i t amount reason expires_hours db).0
      ≡ obstacle g i t amount db
unfolding transfer_currency transfer_now execute_transfer gateway_transfer handle_postgres_error
transfer_answers settings g i t amount reason expires_hours db immediate =
    elim (Bool-cases (i == t)) [
      | inl same ↦ rw same
      | inr apart ↦ elim (Bool-cases (leb_ℤ amount (pos 0))) [
        | inl negative ↦ rw (apart, negative)
        | inr positive ↦
            let asked = reason_of reason in
            let now : transfer_currency settings g i t amount reason expires_hours db
                ≡ transfer_now g i t amount asked db =
              rw (apart, positive, immediate) in
            ap (λ o. error_of o.0) now ∙ elim (Bool-cases (ltb max_bigint (pos_part amount))) [
              | inl big ↦
                  let refused : gateway_transfer g i t amount asked db ≡ (err out_of_range, db) =
                    rw big in
                  ap (λ o. error_of (finish db o).0) refused ∙ rw (apart, positive, big)
              | inr small ↦
                  let sent : gateway_transfer g i t amount asked db
                      ≡ statement (fn_transfer_currency g i t amount asked) db =
                    rw small in
                  ap (λ o. error_of (finish db o).0) sent
                  ∙ answer-fn_transfer_currency g i t amount asked db apart positive
                  ∙ rw (apart, positive, small)
            ]
      ]
    ]
