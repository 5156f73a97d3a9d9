-- ===== src/Economy/Service.antt =====
-- `class TransferService`, and the gateway PendingTransferGateway where the service has an event
-- pool. The metadata that a caller gives is left out: only the reason goes into it.
use Prim.Native.String.{String}
use dro_asms.Prelude.{
  ℕ, suc, ◌+◌, ◌*◌, Bool, ◌&&◌, Option, none, some, ◌∷◌, ltb, ◌==◌, if◌then◌else◌,
}
use dro_asms.Prelude.Int.{ℤ, pos, pos_part, leb_ℤ}
use dro_asms.Prelude.Texts.{eqb_text}
use dro_asms.Result.{Result, ok, err}
use dro_asms.Pool.Defs.{pending}
use dro_asms.Economy.Defs.{
  Db, PostgresError, distinct_members, not_positive, out_of_range, sqlstate, mentions, max_bigint,
}
use dro_asms.Economy.Transfer.{Receipt, gateway_transfer}

pub data TransferError : Type 0 where
  transfer_validation insufficient_balance transfer_throttle other_transfer_error : TransferError

-- `context["error_type"]`
pub data ErrorType : Type 0 where
  insufficient_balance_type throttle_type : ErrorType

pub data MappedError : Type 0 where
  business_logic : ErrorType → MappedError
  validation database : MappedError

pub data Outcome : Type 0 where
  receipt : Receipt → Outcome
  transfer_id : ℕ → Outcome

pub record Settings : Type 0 where
  pub event_pool_enabled : Bool
  pub default_expires_hours : ℕ

unfoldable pub handle_postgres_error : PostgresError → MappedError
handle_postgres_error e =
    if eqb_text (sqlstate e) "P0001" && mentions e "insufficient"
    then business_logic insufficient_balance_type
    else if eqb_text (sqlstate e) "P0001" && mentions e "throttle"
    then business_logic throttle_type
    else if eqb_text (sqlstate e) "22023"
    then validation
    else database

-- The exception that `transfer_currency` raises for an error.
abbrev pub raised : MappedError → TransferError
raised validation = transfer_validation
raised (business_logic insufficient_balance_type) = insufficient_balance
raised (business_logic throttle_type) = transfer_throttle
raised database = other_transfer_error

-- A transaction is started before the gateway is called; it is committed where the gateway returns
-- a value and rolled back where it returns an error.
unfoldable pub execute_transfer :
    ℕ → ℕ → ℕ → ℤ → Option String → Db → Result Receipt MappedError × Db
execute_transfer g initiator target amount reason db =
    let (gateway_result, committed) = gateway_transfer g initiator target amount reason db in
    elim gateway_result [
      | err cause ↦ (err (handle_postgres_error cause), db)
      | ok record_of ↦ (ok record_of, committed)
    ]

-- `fn_create_pending_transfer`
unfoldable pub create_pending_transfer : ℕ → ℕ → ℕ → ℤ → Option ℕ → Db → Result ℕ PostgresError × Db
create_pending_transfer g initiator target amount expires_at db =
    if ltb max_bigint (pos_part amount)
    then (err out_of_range, db)
    else if initiator == target
    then (err distinct_members, db)
    else if leb_ℤ amount (pos 0)
    then (err not_positive, db)
    else (
      ok db.next_transfer,
      record db {
        pending_transfers =
            record {
              transfer_id = db.next_transfer;
              guild_id = g;
              initiator_id = initiator;
              target_id = target;
              amount = pos_part amount;
              status = pending;
              retry_count = 0;
              expires_at = expires_at;
              updated_at = db.now;
            }
            ∷ db.pending_transfers;
        next_transfer = suc db.next_transfer;
      },
    )

-- `expires_at`, in seconds: the hours asked for, or else the default where it is above 0.
abbrev pub expiry : ℕ → Option ℕ → ℕ → Option ℕ
expiry now (some hours) default = some (now + hours * 3600)
expiry now none default = if ltb 0 default then some (now + default * 3600) else none

-- The reason as the transaction's row has it: an empty one is none.
abbrev pub reason_of : Option String → Option String
reason_of none = none
reason_of (some r) = if eqb_text r "" then none else some r

unfoldable pub leave_pending : ℕ → ℕ → ℕ → ℤ → Option ℕ → Db → Result Outcome TransferError × Db
leave_pending g initiator target amount expires_at db =
    let (created, after) = create_pending_transfer g initiator target amount expires_at db in
    elim created [ err e ↦ (err other_transfer_error, after) | ok k ↦ (ok (transfer_id k), after) ]

unfoldable pub transfer_now : ℕ → ℕ → ℕ → ℤ → Option String → Db → Result Outcome TransferError × Db
transfer_now g initiator target amount reason db =
    let (base_result, after) = execute_transfer g initiator target amount reason db in
    elim base_result [ err e ↦ (err (raised e), after) | ok r ↦ (ok (receipt r), after) ]

unfoldable pub transfer_currency :
    Settings → ℕ → ℕ → ℕ → ℤ → Option String → Option ℕ → Db → Result Outcome TransferError × Db
transfer_currency settings g initiator target amount reason expires_hours db =
    if initiator == target
    then (err transfer_validation, db)
    else if leb_ℤ amount (pos 0)
    then (err transfer_validation, db)
    else if settings.event_pool_enabled
    then leave_pending g initiator target amount
        (expiry db.now expires_hours settings.default_expires_hours) db
    else transfer_now g initiator target amount (reason_of reason) db
