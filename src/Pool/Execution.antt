-- ===== src/Pool/Execution.antt =====
-- Executions of a transfer in sequences of the coordinator's events.
use mathlib.Core.Path.{subst}
use dro_asms.Prelude.{
  ℕ, ◌≡◌, refl, sym, true, Option, none, some, List, [], ◌∷◌, arith, All, option_cases,
}
use dro_asms.Prelude.Dict.{lookup}
use dro_asms.Pool.Defs.{
  completed, rejected, checking, approved, PendingTransfer, sleeping, Coordinator, find_pending,
  update_row, marked, approve_row, update_status, approved_row, execute_row, execute_transfer,
  handle_check_approved, retry_checks,
}
use dro_asms.Pool.Closed.{
  Event, all_checks_passed, check_approved, retry_due, Spares, Closed, unapproved, Closed-marked,
  handle, run, Closed-run,
}
use dro_asms.Pool.Retries.{find-update_row}

approved_row_id :
    (t : ℕ) (rows : List PendingTransfer) (p : PendingTransfer)
    → approved_row t rows ≡ some p
    → p.transfer_id ≡ t
unfolding approved_row find_pending
approved_row_id t [] p h = ground arith
approved_row_id t (q ∷ ps) p h = ground (arith, approved_row_id t ps p)

reopened :
    (t now : ℕ) (rows : List PendingTransfer) (p : PendingTransfer)
    → find_pending t rows ≡ some p
    → approved_row t (update_row t (approve_row now) (update_row t (marked checking now) rows))
      ≡ some (marked approved now p)
unfolding approved_row
reopened t now rows p found = ground (
  arith,
  find-update_row t (approve_row now) (update_row t (marked checking now) rows)
      (marked checking now p) (λ q. ground arith)
      (find-update_row t (marked checking now) rows p (λ q. refl) found),
)

module _ {L : Type 0} (transfer_currency : ℕ → ℕ → ℕ → ℕ → L → Option L) where
  skipped :
      (t : ℕ) (w : Coordinator L)
      → approved_row t w.rows ≡ none
      → execute_transfer transfer_currency t w ≡ w
  unfolding execute_transfer
  skipped t w h = rw (h, execute_transfer)

  executed :
      (t : ℕ) (w : Coordinator L) (p : PendingTransfer)
      → approved_row t w.rows ≡ some p
      → execute_transfer transfer_currency t w ≡ execute_row transfer_currency p w
  unfolding execute_transfer
  executed t w p e = rw (execute_transfer, e)

  execute_row-Closed :
      (p : PendingTransfer) (w : Coordinator L)
      → Closed p.transfer_id (execute_row transfer_currency p w).rows
  unfolding execute_row update_status
  execute_row-Closed p w =
      option_cases (λ (out : Coordinator L). Closed p.transfer_id out.rows)
        (transfer_currency p.guild_id p.initiator_id p.target_id p.amount w.ledger) _ _
        (λ e. Closed-marked p.transfer_id w.now rejected w.rows refl)
        (λ l e. Closed-marked p.transfer_id w.now completed w.rows refl)

  -- Once an approved transfer has been executed, whether it was paid or its payment failed, it is
  -- never executed again, whatever happens to the coordinator: check results, approvals by the
  -- database and approval events of this and other transfers, retries of other transfers, cleanups
  -- and new transfers. Only a retry of its own checks, and a new transfer of the same number, are
  -- excepted.
  pub executed_once :
      (t : ℕ) (w : Coordinator L) (p : PendingTransfer) (es : List Event)
      → approved_row t w.rows ≡ some p
      → All (Spares t) es
      → let w1 = run transfer_currency es (execute_transfer transfer_currency t w) in
        execute_transfer transfer_currency t w1 ≡ w1
  executed_once t w p es e s =
      let done : execute_transfer transfer_currency t w ≡ execute_row transfer_currency p w =
        executed t w p e in
      let closed : Closed t (execute_transfer transfer_currency t w).rows =
        subst (λ k. Closed k (execute_transfer transfer_currency t w).rows)
          (approved_row_id t w.rows p e)
          (subst (λ out. Closed p.transfer_id out.rows) (sym done) (execute_row-Closed p w)) in
      skipped t (run transfer_currency es (execute_transfer transfer_currency t w)) (
        unapproved t (run transfer_currency es (execute_transfer transfer_currency t w)).rows
          (Closed-run transfer_currency t es (execute_transfer transfer_currency t w) s closed))

  -- A retry of the checks that is due goes by no status: whatever status the transfer has, also
  -- where it is completed and paid, and where its checks pass after that, the transfer is paid.
  pub retry_pays_again :
      (t d : ℕ) (w : Coordinator L) (p : PendingTransfer) (l : L)
      → w.running ≡ true
      → find_pending t w.rows ≡ some p
      → lookup t w.retry_tasks ≡ some (sleeping d)
      → transfer_currency p.guild_id p.initiator_id p.target_id p.amount w.ledger ≡ some l
      → (run transfer_currency (retry_due t ∷ all_checks_passed t ∷ check_approved t ∷ []) w).ledger
        ≡ l
  unfolding run handle retry_checks update_status handle_check_approved execute_transfer execute_row
  retry_pays_again t d w p l on found asleep pays =
      ground (arith, on, asleep, pays, reopened t w.now w.rows p found)
