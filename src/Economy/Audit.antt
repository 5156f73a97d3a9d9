-- ===== src/Economy/Audit.antt =====
-- Where the balances come from.
use Prim.Native.String.{String}
use dro_asms.Prelude.{◌+◌, ap, ◌∙◌, List}
use dro_asms.Economy.Defs.{Db}
use dro_asms.Economy.Accounts.{balance_of-ensure_account}
use dro_asms.Economy.Log.{spent, Audited, book_transfer-Audited, granted, deducted}
use dro_asms.Economy.Runs.{Event, run, Kept, run-Kept}

Audited-Kept : Kept Audited
Audited-Kept = record {
  pays = book_transfer-Audited;
  waits = λ p next db a. a;
  grants = granted;
  deducts = deducted;
  looks = λ g m db a h k.
      ap (λ b. b + spent h k db.transactions) (balance_of-ensure_account db.now h k g m db.accounts)
      ∙ a h k;
  later = λ n db a. a;
}

-- After any sequence of transfers, adjustments and enquiries, every member's balance in every
-- guild is the sum of the transfers and grants to the member less the sum of the member's
-- transfers and deductions, as the list of transactions has them, where this holds at first (as
-- for empty tables). So no money comes or goes but by an adjustment that is on the list.
pub run-Audited :
    (strip : String → String) (es : List Event) (db : Db) → Audited db → Audited (run strip es db)
run-Audited strip es db a = run-Kept Audited Audited-Kept strip es db a
