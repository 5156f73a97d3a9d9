-- ===== src/Pool/Tests.antt =====
-- The coordinator on small tables.
use dro_asms.Prelude.{List, ℕ, ◌-◌, ◌≡◌, refl, true, Option, some, [], ◌∷◌, ◌++◌, map, keep}
use dro_asms.Prelude.Int.{pos}
use dro_asms.Pool.Defs.{
  Status, checking, approved, completed, PendingTransfer, sleeping, Coordinator, record_check,
  all_passed, expired_notice, find_pending, approved_row, update_status, execute_row,
  execute_transfer, handle_check_result, cleanup_expired,
}
use dro_asms.Pool.Checks.{Message, recorded, store_lem}
use dro_asms.Pool.Closed.{
  Event, check_result, all_checks_passed, check_approved, retry_due, cleanup, run,
}
use dro_asms.Pool.Execution.{executed_once, retry_pays_again}
use dro_asms.Pool.Retries.{Failed, handle_check_result-Failed}
use dro_asms.Pool.Cleanup.{is_due, Settles, Pairwise, cleanup_notifies}

abbrev transfer : ℕ → Status → ℕ → PendingTransfer
transfer t s tries = record {
  transfer_id = t;
  guild_id = 7;
  initiator_id = 1;
  target_id = 2;
  amount = 5;
  status = s;
  retry_count = tries;
  expires_at = some 50;
  updated_at = 0;
}

-- Transfer 3 lacks one result, and transfer 4 is approved.
abbrev coordinator : Coordinator ℕ
coordinator = record {
  running = true;
  check_store = (3, (("balance", pos 1) ∷ ("cooldown", pos 0) ∷ [])) ∷ [];
  retry_tasks = [];
  rows = transfer 3 checking 9 ∷ transfer 4 approved 0 ∷ [];
  ledger = 100;
  denied = [];
  now = 60;
}

abbrev pay : ℕ → ℕ → ℕ → ℕ → ℕ → Option ℕ
pay g i j amount l = some (l - amount)

paid : (execute_transfer pay 4 coordinator).ledger ≡ 95
unfolding execute_transfer execute_row approved_row find_pending update_status
paid = refl

-- After the execution of transfer 4, the approvals come once more.
abbrev afterwards : List Event
afterwards =
    check_approved 4
    ∷ all_checks_passed 4
    ∷ check_approved 4
    ∷ check_result 3 "daily_limit" (pos 1)
    ∷ retry_due 3
    ∷ cleanup
    ∷ check_approved 4
    ∷ []

executed_once_example :
    let w1 = run pay afterwards (execute_transfer pay 4 coordinator) in
    execute_transfer pay 4 w1 ≡ w1
unfolding approved_row find_pending
executed_once_example =
    executed_once pay 4 coordinator (transfer 4 approved 0) afterwards refl
      (tt, (tt, (tt, (tt, (refl, (tt, (tt, tt)))))))

-- A transfer that is completed while a retry of its checks waits.
abbrev completed_early : Coordinator ℕ
completed_early = record coordinator {
  rows = transfer 5 completed 1 ∷ [];
  retry_tasks = (5, sleeping 2) ∷ [];
  ledger = 95;
}

retry_pays_again_example :
    (run pay (retry_due 5 ∷ all_checks_passed 5 ∷ check_approved 5 ∷ []) completed_early).ledger
    ≡ 90
unfolding find_pending
retry_pays_again_example =
    retry_pays_again pay 5 2 completed_early (transfer 5 completed 1) 90 refl refl refl refl

handle_check_result-Failed_example :
    Failed 3
      (transfer 3 checking 9)
      coordinator
      (handle_check_result 3 "daily_limit" (pos 1) coordinator)
unfolding record_check all_passed find_pending
handle_check_result-Failed_example =
    handle_check_result-Failed 3 "daily_limit" (pos 1) coordinator (transfer 3 checking 9) refl refl
      refl refl

-- The second result of the balance replaces the first.
abbrev messages : List Message
messages =
    (3, "balance", pos 0)
    ∷ (4, "cooldown", pos 1)
    ∷ (3, "cooldown", pos 1)
    ∷ (3, "balance", pos 1)
    ∷ []

store_lem_example :
    ((record_check 3 "daily_limit" (pos 1) (recorded messages [])).0 ≡ true)
    × (all_passed 3 (record_check 3 "daily_limit" (pos 1) (recorded messages [])).1 ≡ true)
store_lem_example = store_lem messages 3 3 "daily_limit" (pos 1)

cleanup_notifies_example :
    Pairwise (Settles 60) (coordinator).rows (cleanup_expired coordinator).rows
    × ((cleanup_expired coordinator).denied
        ≡ [] ++ map expired_notice (keep (is_due 60) (coordinator).rows))
cleanup_notifies_example = cleanup_notifies coordinator (refl, (refl, tt))
