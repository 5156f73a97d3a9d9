-- ===== src/Economy/Tests.antt =====
-- Transfers and adjustments on a small database.
use Prim.Native.String.{String}
use dro_asms.Prelude.{◌≡◌, refl, true, false, none, some, List, [], ◌∷◌}
use dro_asms.Prelude.Int.{pos, negsuc}
use dro_asms.Economy.Defs.{Db, find_account}
use dro_asms.Economy.Transfer.{cooldown}
use dro_asms.Economy.Service.{Settings, transfer_currency}
use dro_asms.Economy.Log.{Audited, received, spent}
use dro_asms.Economy.Runs.{Event, request_transfer, adjust, look, wait, run}
use dro_asms.Economy.Audit.{run-Audited}
use dro_asms.Economy.Cooldown.{Unthrottled, never_on_cooldown}
use dro_asms.Economy.Answers.{error_of, obstacle, transfer_answers}

abbrev strip : String → String
strip s = s

-- Empty tables, and a limit of 100 a day.
abbrev db : Db
db = record {
  accounts = [];
  transactions = [];
  next_transaction = 1;
  notices = [];
  government_accounts = [];
  daily_limit = some (pos 100);
  pending_transfers = [];
  next_transfer = 1;
  now = 1000;
}

db-Audited : Audited db
unfolding find_account received spent
db-Audited h m = refl

db-Unthrottled : Unthrottled db
unfolding find_account
db-Unthrottled h m = refl

abbrev settings : Settings
settings = record { event_pool_enabled = false; default_expires_hours = 24 }

abbrev events : List Event
events =
    adjust 1 9 20 (pos 500) "start" true
    ∷ request_transfer settings 1 20 30 (pos 80) (some "rent") none
    ∷ request_transfer settings 1 20 30 (pos 80) (some "more") none
    ∷ look 1 40
    ∷ adjust 1 9 30 (negsuc 9) "fee" true
    ∷ wait 5
    ∷ []

run-Audited_example : Audited (run strip events db)
run-Audited_example = run-Audited strip events db db-Audited

never_on_cooldown_example : cooldown 1 20 (run strip events db) ≡ none
never_on_cooldown_example = never_on_cooldown strip events db 1 20 db-Unthrottled

-- After the first two events, 80 more are above the limit.
transfer_answers_example :
    error_of (transfer_currency settings 1 20 30 (pos 80) none none (run strip events db)).0
    ≡ obstacle 1 20 30 (pos 80) (run strip events db)
transfer_answers_example =
    transfer_answers settings 1 20 30 (pos 80) none none (run strip events db) refl
