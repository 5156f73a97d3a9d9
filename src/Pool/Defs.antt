-- ===== src/Pool/Defs.antt =====
-- The check results that the coordinator has received (cython_ext/transfer_pool_core.py), the rows
-- of economy.pending_transfers, and what the coordinator does with them. A transaction denied event
-- that is sent is appended to a list. Failures of the database and the locks are left out: the events
-- of one transfer are handled one after the other.
use Prim.Native.String.{String}
use dro_asms.Prelude.{
  ℕ, ◌+◌, ◌^◌, min, Bool, true, false, ◌&&◌, Option, none, some, List, [], ◌∷◌, ◌++◌, map, keep,
  ltb, leb, ◌==◌, if◌then◌else◌,
}
use dro_asms.Prelude.Int.{ℤ, pos, eqb_ℤ}
use dro_asms.Prelude.Dict.{Dict, lookup, insert, erase}
use dro_asms.Prelude.Texts.{TextDict, text_lookup, text_insert}

-- `class TransferCheckStateStore`
abbrev pub Store : Type 0
Store = Dict (TextDict ℤ)

abbrev pub state_of : ℕ → Store → TextDict ℤ
state_of t s = elim (lookup t s) [ none ↦ [] | some d ↦ d ]

abbrev pub has_check : String → TextDict ℤ → Bool
has_check n d = elim (text_lookup n d) [ none ↦ false | some r ↦ true ]

-- `state.get(name) == 1`
abbrev pub passed_check : String → TextDict ℤ → Bool
passed_check n d = elim (text_lookup n d) [ none ↦ false | some r ↦ eqb_ℤ r (pos 1) ]

abbrev pub every_required : (String → Bool) → Bool
every_required p = p "balance" && (p "cooldown" && p "daily_limit")

unfoldable pub record_check : ℕ → String → ℤ → Store → Bool × Store
record_check t name r s =
    let d = text_insert name r (state_of t s) in (every_required (λ n. has_check n d), insert t d s)

unfoldable pub all_passed : ℕ → Store → Bool
all_passed t s = every_required λ n. passed_check n (state_of t s)

pub data Status : Type 0 where
  pending checking approved completed rejected : Status

abbrev pub is_approved : Status → Bool
is_approved approved = true
is_approved _ = false

-- `status IN ('pending', 'checking')`
abbrev pub is_open : Status → Bool
is_open pending = true
is_open checking = true
is_open _ = false

abbrev pub is_rejected : Status → Bool
is_rejected rejected = true
is_rejected _ = false

pub record PendingTransfer : Type 0 where
  pub transfer_id : ℕ
  pub guild_id : ℕ
  pub initiator_id : ℕ
  pub target_id : ℕ
  pub amount : ℕ
  pub status : Status
  pub retry_count : ℕ
  pub expires_at : Option ℕ
  pub updated_at : ℕ

-- The entry of a transfer in `_retry_tasks`: it runs after the delay unless it is cancelled.
pub data Task : Type 0 where
  sleeping : (delay_seconds : ℕ) → Task
  cancelled : Task

pub data Reason : Type 0 where
  transfer_checks_failed transfer_checks_expired : Reason

pub record Coordinator (L : Type 0) : Type 0 where
  pub running : Bool
  pub check_store : Store
  pub retry_tasks : Dict Task
  pub rows : List PendingTransfer
  pub ledger : L
  -- the transactions denied that were notified
  pub denied : List (ℕ × Reason)
  -- the clock
  pub now : ℕ

unfoldable pub find_pending : ℕ → List PendingTransfer → Option PendingTransfer
find_pending t [] = none
find_pending t (p ∷ ps) =
    let rest = find_pending t ps in if p.transfer_id == t then some p else rest

-- `UPDATE … WHERE transfer_id = t`
abbrev pub update_row :
    ℕ → (PendingTransfer → PendingTransfer) → List PendingTransfer → List PendingTransfer
update_row t f = map λ p. if p.transfer_id == t then f p else p

-- fn_update_pending_transfer_status
abbrev pub marked : Status → ℕ → PendingTransfer → PendingTransfer
marked s now p = record p { status = s; updated_at = now }

-- `task.cancel()`, where the transfer has a task
abbrev pub cancelled_in : ℕ → Dict Task → Dict Task
cancelled_in t tasks = elim (lookup t tasks) [ none ↦ tasks | some task ↦ insert t cancelled tasks ]

abbrev pub retried : ℕ → PendingTransfer → PendingTransfer
retried now p = record p { retry_count = p.retry_count + 1; updated_at = now }

abbrev pub is_checking : Status → Bool
is_checking checking = true
is_checking _ = false

-- The UPDATE of _check_and_approve_transfer, for a transfer all of whose checks have passed.
abbrev pub approve_row : ℕ → PendingTransfer → PendingTransfer
approve_row now p = if is_checking p.status then marked approved now p else p

-- `… AND status = 'approved' FOR UPDATE`
unfoldable pub approved_row : ℕ → List PendingTransfer → Option PendingTransfer
approved_row t rows = elim (find_pending t rows) [
  | none ↦ none
  | some p ↦ if is_approved p.status then some p else none
]

-- `expires_at IS NOT NULL AND expires_at < now`
abbrev pub has_expired : ℕ → PendingTransfer → Bool
has_expired now p = elim p.expires_at [ none ↦ false | some e ↦ ltb e now ]

abbrev pub expire_row : ℕ → PendingTransfer → PendingTransfer
expire_row now p = if has_expired now p && is_open p.status then marked rejected now p else p

abbrev pub expired_notice : PendingTransfer → ℕ × Reason
expired_notice p = (p.transfer_id, transfer_checks_expired)

-- The rows that the update is taken to have changed.
abbrev pub just_rejected : ℕ → PendingTransfer → Bool
just_rejected now p = has_expired now p && (is_rejected p.status && p.updated_at == now)

module _ {L : Type 0} where
  unfoldable pub update_status : ℕ → Status → Coordinator L → Coordinator L
  update_status t s w = record w { rows = update_row t (marked s w.now) w.rows }

  abbrev pub cancel_task : ℕ → Coordinator L → Coordinator L
  cancel_task t w = record w { retry_tasks = cancelled_in t w.retry_tasks }

  abbrev pub deny : ℕ → Reason → Coordinator L → Coordinator L
  deny t reason w = record w { denied = w.denied ++ ((t, reason) ∷ []) }

  abbrev pub give_up : ℕ → Coordinator L → Coordinator L
  give_up t w = deny t transfer_checks_failed (update_status t rejected w)

  abbrev pub try_again : ℕ → PendingTransfer → Coordinator L → Coordinator L
  try_again t p w = record w {
    rows = update_row t (retried w.now) w.rows;
    retry_tasks = insert t (sleeping (min (2 ^ p.retry_count) 300)) w.retry_tasks;
  }

  unfoldable pub retry_pending : ℕ → PendingTransfer → Coordinator L → Coordinator L
  retry_pending t p w = if leb 10 p.retry_count then give_up t w else try_again t p w

  unfoldable pub schedule_retry : ℕ → Coordinator L → Coordinator L
  schedule_retry t w =
      let w1 = cancel_task t w in
      elim (find_pending t w1.rows) [ none ↦ w1 | some p ↦ retry_pending t p w1 ]

  unfoldable pub handle_check_result : ℕ → String → ℤ → Coordinator L → Coordinator L
  handle_check_result t name r w =
      let (received, s) = record_check t name r w.check_store in
      let w1 = record w { check_store = s } in
      if w.running
      then if received then if all_passed t s then w1 else schedule_retry t w1 else w1
      else w

  -- `_retry_checks`, whatever the status of the row is. The check functions that it calls are the
  -- database's: their approval is `approve_row`, and their results are handled after it. That a
  -- result is handled while it still runs, which cancels it, is left out.
  unfoldable pub retry_checks : ℕ → Coordinator L → Coordinator L
  retry_checks t w =
      let w1 = update_status t checking w in
      record w1 { check_store = erase t w1.check_store; retry_tasks = erase t w1.retry_tasks }

  -- The transfer of the money as the gateway makes it: `none` is an error, after which the
  -- transaction is rolled back.
  unfoldable pub execute_row :
      (ℕ → ℕ → ℕ → ℕ → L → Option L) → PendingTransfer → Coordinator L → Coordinator L
  execute_row transfer_currency p w =
      elim (transfer_currency p.guild_id p.initiator_id p.target_id p.amount w.ledger) [
        | none ↦ update_status p.transfer_id rejected w
        | some l ↦ update_status p.transfer_id completed (record w { ledger = l })
      ]

  unfoldable pub execute_transfer :
      (ℕ → ℕ → ℕ → ℕ → L → Option L) → ℕ → Coordinator L → Coordinator L
  execute_transfer transfer_currency t w = elim (approved_row t w.rows) [
    | none ↦ w
    | some p ↦ execute_row transfer_currency p w
  ]

  unfoldable pub handle_check_approved :
      (ℕ → ℕ → ℕ → ℕ → L → Option L) → ℕ → Coordinator L → Coordinator L
  handle_check_approved transfer_currency t w =
      if w.running then execute_transfer transfer_currency t w else w

  unfoldable pub cleanup_expired : Coordinator L → Coordinator L
  cleanup_expired w =
      let rows = map (expire_row w.now) w.rows in
      record w {
        rows = rows;
        denied = w.denied ++ map expired_notice (keep (just_rejected w.now) rows);
      }
