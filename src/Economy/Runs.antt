-- ===== src/Economy/Runs.antt =====
-- Sequences of transfers, adjustments and enquiries, and what holds after each.
use Prim.Native.String.{String}
use dro_asms.Prelude.{
  ℕ, zero, suc, ◌+◌, ◌≡◌, ◌≤◌, false, Bool, not, Option, List, [], ◌∷◌, ◌==◌, ltb, if_ind, if_cases,
}
use dro_asms.Prelude.Int.{ℤ, pos, negsuc, pos_part, leb_ℤ}
use dro_asms.Prelude.Texts.{eqb_text}
use dro_asms.Result.{Result, ok, err, result_cases}
use dro_asms.Economy.Defs.{
  Db, PostgresError, max_bigint, balance_of, update_account, credit, debit, ensure_account,
  adjustment_grant, adjustment_deduct,
}
use dro_asms.Economy.Transfer.{book_transfer, with_rows}
use dro_asms.Pool.Defs.{PendingTransfer}
use dro_asms.Economy.Service.{
  TransferError, other_transfer_error, Outcome, transfer_id, Settings, reason_of, expiry,
  execute_transfer, create_pending_transfer, leave_pending, transfer_now, transfer_currency,
}
use dro_asms.Economy.Adjust.{
  Adjustment, AdjustmentError, book_adjustment, with_admin_rows, grant, deduct, fn_adjust_balance,
  fits, gateway_adjust, is_zero, run_adjustment, adjust_balance, fetch_balance,
}
use dro_asms.Economy.Moves.{balances, gateway_transfer-cases}
use dro_asms.Economy.Refinement.{finish}

pub data Event : Type 0 where
  request_transfer : Settings → (g initiator target : ℕ) → ℤ → Option String → Option ℕ → Event
  adjust : (g admin target : ℕ) → ℤ → String → (can_adjust : Bool) → Event
  look : (g m : ℕ) → Event
  wait : ℕ → Event

-- `strip` is `str.strip`.
module _ (strip : String → String) where
  unfoldable pub handle : Event → Db → Db
  handle (request_transfer settings g i t amount reason hours) db =
      (transfer_currency settings g i t amount reason hours db).1
  handle (adjust g admin target amount reason can_adjust) db =
      (adjust_balance strip g admin target amount reason can_adjust db).1
  handle (look g m) db = (fetch_balance g m db).1
  handle (wait n) db = record db { now = db.now + n }

  unfoldable pub run : List Event → Db → Db
  unfolding handle
  run [] db = db
  run (e ∷ es) db = run es (handle e db)

-- What has to keep a property of the database for every request to keep it.
pub record Kept (Q : Db → Type 0) : Type 0 where
  pub pays :
      (g i t n : ℕ) (reason : Option String) (db : Db)
      → (i == t) ≡ false
      → n ≤ balances (with_rows g i t db) g i
      → Q db
      → Q (book_transfer g i t n reason (with_rows g i t db))
  pub waits :
      (p : PendingTransfer) (next : ℕ) (db : Db)
      → Q db
      → Q (record db { pending_transfers = p ∷ db.pending_transfers; next_transfer = next })
  pub grants :
      (g admin t n : ℕ) (reason : String) (db : Db)
      → Q db
      → Q (
          book_adjustment g admin t n adjustment_grant reason
            (update_account g t (credit db.now n) (with_admin_rows g admin t db).accounts)
            (with_admin_rows g admin t db))
  pub deducts :
      (g admin t n : ℕ) (reason : String) (db : Db)
      → ltb (balance_of g t (with_admin_rows g admin t db).accounts) n ≡ false
      → Q db
      → Q (
          book_adjustment g admin t n adjustment_deduct reason
            (update_account g t (debit db.now n) (with_admin_rows g admin t db).accounts)
            (with_admin_rows g admin t db))
  pub looks :
      (g m : ℕ) (db : Db)
      → Q db
      → Q (record db { accounts = ensure_account db.now g m db.accounts })
  pub later : (n : ℕ) (db : Db) → Q db → Q (record db { now = db.now + n })

-- A raised statement, and what the service makes of an outcome, as functions of the outcome.
abbrev settle : Db → Result Adjustment PostgresError × Db → Db
settle db out =
    let answer : Result Adjustment PostgresError × Db = elim out.0 [
      | err e ↦ (err e, db)
      | ok v ↦ (ok v, out.1)
    ] in
    answer.1

module _ (Q : Db → Type 0) (k : Kept Q) where
  transfer_now-Kept :
      (g i t : ℕ) (amount : ℤ) (reason : Option String) (db : Db)
      → Q db
      → Q (transfer_now g i t amount reason db).1
  unfolding transfer_now execute_transfer
  transfer_now-Kept g i t amount reason db a =
      gateway_transfer-cases g i t amount reason db (λ out. Q (finish db out).1) (λ e. a)
        (λ apart positive funded. k.pays g i t (pos_part amount) reason db apart funded.0 a)

  leave_pending-Kept :
      (g i t : ℕ) (amount : ℤ) (expires_at : Option ℕ) (db : Db)
      → Q db
      → Q (leave_pending g i t amount expires_at db).1
  unfolding leave_pending create_pending_transfer
  leave_pending-Kept g i t amount expires_at db a =
      let P : Result ℕ PostgresError × Db → Type 0 = λ out.
        let answer : Result Outcome TransferError × Db = elim out.0 [
          | err e ↦ (err other_transfer_error, out.1)
          | ok k ↦ (ok (transfer_id k), out.1)
        ] in
        Q answer.1 in
      if_ind P (ltb max_bigint (pos_part amount)) a
        (if_ind P (i == t) a (if_ind P (leb_ℤ amount (pos 0)) a (k.waits _ _ db a)))

  transfer_currency-Kept :
      (settings : Settings) (g i t : ℕ) (amount : ℤ) (reason : Option String) (hours : Option ℕ)
      (db : Db)
      → Q db
      → Q (transfer_currency settings g i t amount reason hours db).1
  unfolding transfer_currency
  transfer_currency-Kept settings g i t amount reason hours db a =
      let P : Result Outcome TransferError × Db → Type 0 = λ out. Q out.1 in
      if_ind P (i == t) a (
        if_ind P (leb_ℤ amount (pos 0)) a (
          if_ind P settings.event_pool_enabled
            (leave_pending-Kept g i t amount (expiry db.now hours settings.default_expires_hours) db
              a)
            (transfer_now-Kept g i t amount (reason_of reason) db a)))

  grant-Kept :
      (g admin t n : ℕ) (reason : String) (db : Db)
      → Q db
      → Q (settle db (grant g admin t n reason (with_admin_rows g admin t db)))
  unfolding grant
  grant-Kept g admin t n reason db a =
      if_ind {A = Result Adjustment PostgresError × Db} (λ out. Q (settle db out))
        (ltb max_bigint (balance_of g t (with_admin_rows g admin t db).accounts + n)) a
        (k.grants g admin t n reason db a)

  deduct-Kept :
      (g admin t n : ℕ) (reason : String) (db : Db)
      → Q db
      → Q (settle db (deduct g admin t n reason (with_admin_rows g admin t db)))
  unfolding deduct
  deduct-Kept g admin t n reason db a =
      if_cases {A = Result Adjustment PostgresError × Db} (λ out. Q (settle db out))
        (ltb (balance_of g t (with_admin_rows g admin t db).accounts) n) (λ _. a)
        (λ enough. k.deducts g admin t n reason db enough a)

  fn_adjust_balance-Kept :
      (g admin t : ℕ) (amount : ℤ) (reason : String) (db : Db)
      → Q db
      → Q (settle db (fn_adjust_balance g admin t amount reason db))
  unfolding fn_adjust_balance
  fn_adjust_balance-Kept g admin t (pos zero) reason db a =
      if_ind {A = Result Adjustment PostgresError × Db} (λ out. Q (settle db out))
        (eqb_text reason "") a a
  fn_adjust_balance-Kept g admin t (pos (suc n)) reason db a =
      if_ind {A = Result Adjustment PostgresError × Db} (λ out. Q (settle db out))
        (eqb_text reason "") a (grant-Kept g admin t (suc n) reason db a)
  fn_adjust_balance-Kept g admin t (negsuc n) reason db a =
      let P : Result Adjustment PostgresError × Db → Type 0 = λ out. Q (settle db out) in
      if_ind P (ltb max_bigint (suc n)) a
        (if_ind P (eqb_text reason "") a (deduct-Kept g admin t (suc n) reason db a))

  gateway_adjust-Kept :
      (g admin t : ℕ) (amount : ℤ) (reason : String) (db : Db)
      → Q db
      → Q (gateway_adjust g admin t amount reason db).1
  unfolding gateway_adjust
  gateway_adjust-Kept g admin t amount reason db a =
      if_ind {A = Result Adjustment PostgresError × Db} (λ out. Q out.1) (fits amount)
        (fn_adjust_balance-Kept g admin t amount reason db a) a

  run_adjustment-Kept :
      (g admin t : ℕ) (amount : ℤ) (reason : String) (db : Db)
      → Q db
      → Q (run_adjustment g admin t amount reason db).1
  unfolding run_adjustment
  run_adjustment-Kept g admin t amount reason db a =
      let kept = gateway_adjust-Kept g admin t amount reason db a in
      result_cases {B = Result Adjustment AdjustmentError × Db} (λ out. Q out.1)
        (gateway_adjust g admin t amount reason db).0 _ _ (λ _ _. kept) (λ _ _. kept)

  adjust_balance-Kept :
      (strip : String → String) (g admin t : ℕ) (amount : ℤ) (reason : String) (can : Bool)
      (db : Db)
      → Q db
      → Q (adjust_balance strip g admin t amount reason can db).1
  unfolding adjust_balance
  adjust_balance-Kept strip g admin t amount reason can db a =
      let P : Result Adjustment AdjustmentError × Db → Type 0 = λ out. Q out.1 in
      if_ind P (not can) a (
        if_ind P (eqb_text (strip reason) "") a
          (if_ind P (is_zero amount) a (run_adjustment-Kept g admin t amount reason db a)))

  handle-Kept : (strip : String → String) (e : Event) (db : Db) → Q db → Q (handle strip e db)
  unfolding handle fetch_balance
  handle-Kept strip (request_transfer settings g i t amount reason hours) db a =
      transfer_currency-Kept settings g i t amount reason hours db a
  handle-Kept strip (adjust g admin t amount reason can) db a =
      adjust_balance-Kept strip g admin t amount reason can db a
  handle-Kept strip (look g m) db a = k.looks g m db a
  handle-Kept strip (wait n) db a = k.later n db a

  pub run-Kept : (strip : String → String) (es : List Event) (db : Db) → Q db → Q (run strip es db)
  unfolding run
  run-Kept strip [] db a = a
  run-Kept strip (e ∷ es) db a = run-Kept strip es (handle strip e db) (handle-Kept strip e db a)
