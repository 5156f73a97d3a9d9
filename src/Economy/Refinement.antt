-- ===== src/Economy/Refinement.antt =====
-- The transfer service against an abstract ledger, which has nothing but a balance for each member
-- of a guild.
use Prim.Native.String.{String}
use dro_asms.Prelude.{ℕ, ◌≡◌, ◌≢◌, ◌≤◌, ◌<◌, false, some, true, ◌∷◌}
use dro_asms.Prelude.Int.{ℤ, pos, pos_part}
use dro_asms.Result.{Result, ok, err}
use dro_asms.Pool.Defs.{PendingTransfer, pending}
use dro_asms.Economy.Defs.{Db, PostgresError}
use dro_asms.Economy.Transfer.{Receipt}
use dro_asms.Economy.Service.{
  TransferError, Outcome, receipt, transfer_id, Settings, MappedError, handle_postgres_error,
  raised,
}
use dro_asms.Economy.Moves.{Balances, balances, moved}

-- A step of the abstract ledger: `n` moves between two members of a guild, the first of whom has it.
pub data Step (g i t n : ℕ) (before after : Balances) : Type 0 where
  moves :
      i ≢ t
      → 0 < n
      → n ≤ before g i
      → ((h m : ℕ) → after h m ≡ moved g i t n before h m)
      → Step g i t n before after

-- A new pending transfer of this amount between these members, to be checked.
abbrev pub Asks : (g i t : ℕ) → (amount : ℤ) → PendingTransfer → Type 0
Asks g i t amount p =
    (p.guild_id ≡ g)
    × (p.initiator_id ≡ i)
    × (p.target_id ≡ t)
    × (pos p.amount ≡ amount)
    × (p.status ≡ pending)
    × (p.retry_count ≡ 0)

-- An outcome of the service, by what it does to the ledger and to the pending transfers.
pub data Implements (settings : Settings) (g i t : ℕ) (amount : ℤ) (db : Db)
    : Result Outcome TransferError × Db → Type 0 where
  refused : (e : TransferError) → Implements settings g i t amount db (err e, db)
  left_pending :
      (p : PendingTransfer) (after : Db)
      → settings.event_pool_enabled ≡ true
      → p.transfer_id ≡ db.next_transfer
      → Asks g i t amount p
      → after.pending_transfers ≡ p ∷ db.pending_transfers
      → ((h m : ℕ) → balances after h m ≡ balances db h m)
      → after.transactions ≡ db.transactions
      → Implements settings g i t amount db (ok (transfer_id p.transfer_id), after)
  paid :
      (r : Receipt) (after : Db)
      → settings.event_pool_enabled ≡ false
      → Step g i t (pos_part amount) (balances db) (balances after)
      → r.initiator_balance ≡ balances after g i
      → r.target_balance ≡ some (balances after g t)
      → after.pending_transfers ≡ db.pending_transfers
      → Implements settings g i t amount db (ok (receipt r), after)

-- `transfer_now`, as what it does to the gateway's answer.
abbrev pub finish : Db → Result Receipt PostgresError × Db → Result Outcome TransferError × Db
finish db out =
    let base : Result Receipt MappedError × Db = elim out.0 [
      | err cause ↦ (err (handle_postgres_error cause), db)
      | ok r ↦ (ok r, out.1)
    ] in
    elim base.0 [ err e ↦ (err (raised e), base.1) | ok r ↦ (ok (receipt r), base.1) ]
