-- ===== src/Council/Tests.antt =====
-- Runs of the council's service on small worlds, and its theorems at concrete inputs.
use dro_asms.Prelude.{length, ℕ, suc, ◌<◌, ◌≡◌, refl, false, none, List, [], ◌∷◌, arith, length}
use dro_asms.Prelude.Int.{pos}
use dro_asms.Result.{ok}
use dro_asms.Departments.Defs.{load_departments, missing}
use dro_asms.Council.Defs.{
  Status, in_progress, rejected, executed, Choice, approve, reject, Row, VoteTotals, CouncilConfig,
}
use dro_asms.Council.Gateway.{
  count_votes, is_reject, is_abstain, pid, find, unvoted, count_active, count_votes, fetch_proposal,
  fetch_snapshot, fetch_config, upsert_vote, mark_status, fetch_tally,
}
use dro_asms.Council.Service.{
  Services, completed, W, vote, vote_fetched, vote_transaction, evaluate, pass_and_execute,
  attempt_execution, pay, settle, status_after, compute_totals,
}
use dro_asms.Council.Invariant.{RowValid, IsValid}
use dro_asms.Council.Voting.{Holds, Decision}
use dro_asms.Council.Decisions.{votes_with, approvals, majority, vote_decides}
use dro_asms.Council.Frame.{Unharmed, vote_frame}
use dro_asms.Council.Finality.{rejection_sound, stale_vote_pays}
use dro_asms.Council.Settled.{Stays}
use dro_asms.Council.Runs.{here, next, cast, Reach-IsValid, Reach-Stays}

-- A ledger that counts the transfers.
abbrev counting : Services
counting = record {
  Ledger = ℕ;
  transfer_currency = λ g source target amt reason n. (completed n, suc n);
  registry = load_departments missing;
  fetch_state_council_config = λ g. none;
}

-- Proposal 0 of guild 7, of the three members 11, 12 and 13, with the votes given.
abbrev proposal_row : Status → List (ℕ × Choice) → Row
proposal_row s d = record {
  proposal = record {
    proposal_id = 0;
    guild_id = 7;
    proposer_id = pos 11;
    target_id = pos 40;
    amount = pos 5;
    description = none;
    attachment_url = none;
    snapshot_n = 3;
    threshold_t = 2;
    deadline_at = 100;
    status = s;
    reminder_sent = false;
    created_at = 0;
    updated_at = 0;
    target_department_id = none;
  };
  execution_tx_id = none;
  execution_error = none;
  snapshot = 11 ∷ 12 ∷ 13 ∷ [];
  votes = d;
}

abbrev config : CouncilConfig
config = record {
  guild_id = 7;
  council_role_id = 1;
  council_account_member_id = pos 9;
  created_at = 0;
  updated_at = 0;
}

abbrev world_of : Row → W counting
world_of r = record {
  db = record { rows = r ∷ []; configs = (7, config) ∷ []; role_ids = []; now = 10; next_id = 1 };
  ledger = 0;
  events = [];
}

abbrev open_row : Row
open_row = proposal_row in_progress ((11, approve) ∷ [])

-- The second approval of three passes the proposal and pays once.
vote_passes :
    let w = (vote counting 0 12 approve (world_of open_row)).1 in
    (w.ledger ≡ 1) × (status_after counting 0 w ≡ executed)
unfolding vote vote_fetched vote_transaction evaluate pass_and_execute attempt_execution pay settle
    status_after compute_totals upsert_vote mark_status fetch_proposal fetch_snapshot fetch_config
    fetch_tally
vote_passes = (refl, refl)

alone : (r : Row) → pid r ≡ 0 → RowValid r → IsValid (world_of r).db
unfolding count_active find
alone r key valid = record {
  rows_valid = (valid, tt);
  unique = (refl, tt);
  below = (omega arith, tt);
  at_most_five = λ g. ground arith;
}

open-IsValid : IsValid (world_of open_row).db
open-IsValid = alone open_row refl (ground arith)

abbrev one_rejection : Row
one_rejection = proposal_row in_progress ((11, reject) ∷ [])

rejecting-IsValid : IsValid (world_of one_rejection).db
rejecting-IsValid = alone one_rejection refl (ground arith)

vote_decides_example :
    (t : VoteTotals) × (s : Status) × ((vote counting 0 12 approve (world_of open_row)).0
      ≡ ok (t, s))
    × (t.approve ≡ approvals (votes_with 12 approve open_row))
    × (t.reject ≡ count_votes is_reject (votes_with 12 approve open_row))
    × (t.abstain ≡ count_votes is_abstain (votes_with 12 approve open_row))
    × (t.threshold_t ≡ majority open_row)
    × (t.snapshot_n ≡ length (open_row).snapshot)
    × (t.remaining_unvoted ≡ length (unvoted (open_row).snapshot (votes_with 12 approve open_row)))
    × Decision
        (majority open_row)
        t.approve
        t.remaining_unvoted
        s
        ((vote counting 0 12 approve (world_of open_row)).1.ledger ≡ 0)
    × Holds
        (λ u. u ≡ s)
        0
        (votes_with 12 approve open_row)
        (vote counting 0 12 approve (world_of open_row)).1.db
unfolding find
vote_decides_example =
    vote_decides counting 12 approve (world_of open_row) open-IsValid open_row refl refl refl refl

-- The vote passes proposal 0; there is no proposal 1.
vote_frame_example :
    Unharmed counting (world_of open_row) (vote counting 0 12 approve (world_of open_row))
    × (find 1 (vote counting 0 12 approve (world_of open_row)).1.db.rows ≡ none)
unfolding find
vote_frame_example = vote_frame counting 0 12 approve (world_of open_row) 1 (ground arith)

abbrev rejecting_votes : List (ℕ × Choice)
rejecting_votes = (11, reject) ∷ (12, reject) ∷ []

rejection_sound_example : approvals ((13, approve) ∷ rejecting_votes) < majority one_rejection
unfolding find vote vote_fetched vote_transaction evaluate compute_totals upsert_vote fetch_proposal
    fetch_snapshot fetch_tally
rejection_sound_example =
    rejection_sound counting 12 reject (world_of one_rejection) rejecting-IsValid one_rejection refl
      refl refl refl
      (compute_totals 0 (one_rejection).proposal
        (upsert_vote 0 12 reject (world_of one_rejection).db))
      ((13, approve) ∷ rejecting_votes) refl (ground arith) (ground arith) (λ k c h. ground arith)

-- The row as it is after another vote has passed and paid the proposal.
abbrev paid_row : Row
paid_row = proposal_row executed ((11, approve) ∷ (12, approve) ∷ [])

stale_vote_pays_example :
    (vote_fetched counting (open_row).proposal 13 approve (world_of paid_row)).1.ledger ≡ 1
unfolding find fetch_config count_votes
stale_vote_pays_example =
    stale_vote_pays counting (open_row).proposal 13 approve (world_of paid_row) paid_row config refl
      refl refl (omega arith) refl refl

Reach-IsValid_example : IsValid (vote counting 0 12 approve (world_of open_row)).1.db
Reach-IsValid_example =
    Reach-IsValid counting (next here (cast 0 12 approve (world_of open_row))) open-IsValid

abbrev rejected_row : Row
rejected_row = proposal_row rejected rejecting_votes

rejected-IsValid : IsValid (world_of rejected_row).db
rejected-IsValid = alone rejected_row refl (ground arith)

Reach-Stays_example :
    Stays 0 rejected rejecting_votes (vote counting 0 13 approve (world_of rejected_row)).1.db
unfolding find
Reach-Stays_example =
    Reach-Stays 0 rejected rejecting_votes counting refl rejected-IsValid
      (rejected_row, refl, refl, refl) (next here (cast 0 13 approve (world_of rejected_row)))
