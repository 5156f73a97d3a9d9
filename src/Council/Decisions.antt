-- ===== src/Council/Decisions.antt =====
-- `CouncilService.vote` against the rule of the council.
use mathlib.Core.Path.{subst}
use dro_asms.Prelude.{ℕ, ◌+◌, ◌-◌, ◌/◌, ◌≡◌, refl, ap, ◌∙◌, true, some, arith, length, elem, ==_iff}
use dro_asms.Prelude.Dict.{Dict, insert}
use dro_asms.Result.{ok}
use dro_asms.Council.Defs.{
  Status, in_progress, is_in_progress, Choice, Proposal, VoteTotals, Row, Db,
}
use dro_asms.Council.Gateway.{
  pid, is_approve, is_reject, is_abstain, count_votes, unvoted, find, upsert_vote, vote_row,
  fetch_proposal, fetch_snapshot, fetch_votes,
}
use dro_asms.Council.Service.{
  Services, valid_choice, W, write, compute_totals, evaluate, vote_transaction, vote_fetched, vote,
}
use dro_asms.Council.Votes.{length-unvoted, Distinct-insert, VotersIn-insert}
use dro_asms.Council.Rows.{find-update, All-find}
use dro_asms.Council.Invariant.{RowValid, IsValid, vote_row-KeepsKey}
use dro_asms.Council.Voting.{Holds, Decision, evaluate-decides}

-- The votes after one more.
abbrev pub votes_with : ℕ → Choice → Row → Dict Choice
votes_with voter c r = insert voter c r.votes

abbrev pub approvals : Dict Choice → ℕ
approvals d = count_votes is_approve d

-- A strict majority of the members.
abbrev pub majority : Row → ℕ
majority r = length r.snapshot / 2 + 1

pub find-upsert_vote :
    (k voter : ℕ) (c : Choice) (db : Db) (r : Row)
    → find k db.rows ≡ some r
    → find k (upsert_vote k voter c db).rows ≡ some (vote_row voter c r)
unfolding upsert_vote
find-upsert_vote k voter c db r found =
    find-update k (vote_row voter c) (vote_row-KeepsKey voter c) k db.rows
    ∙ rw ((==_iff k k).1 refl, found)

pub totals_of :
    (k : ℕ) (p : Proposal) (db : Db) (r : Row)
    → find k db.rows ≡ some r
    → (compute_totals k p db).approve ≡ approvals r.votes
unfolding compute_totals
totals_of k p db r found = rw (found, fetch_votes)

rejections_of :
    (k : ℕ) (p : Proposal) (db : Db) (r : Row)
    → find k db.rows ≡ some r
    → (compute_totals k p db).reject ≡ count_votes is_reject r.votes
unfolding compute_totals
rejections_of k p db r found = rw (found, fetch_votes)

abstentions_of :
    (k : ℕ) (p : Proposal) (db : Db) (r : Row)
    → find k db.rows ≡ some r
    → (compute_totals k p db).abstain ≡ count_votes is_abstain r.votes
unfolding compute_totals
abstentions_of k p db r found = rw (found, fetch_votes)

remaining_of :
    (k : ℕ) (p : Proposal) (db : Db) (r : Row)
    → find k db.rows ≡ some r
    → (compute_totals k p db).remaining_unvoted ≡ p.snapshot_n - length r.votes
unfolding compute_totals
remaining_of k p db r found = rw (found, fetch_votes)

pub fetch_proposal_lem :
    (k : ℕ) (db : Db) (r : Row) → find k db.rows ≡ some r → fetch_proposal k db ≡ some r.proposal
unfolding fetch_proposal
fetch_proposal_lem k db r found = rw (found, fetch_proposal)

pub fetch_snapshot_lem :
    (k : ℕ) (db : Db) (r : Row) → find k db.rows ≡ some r → fetch_snapshot k db ≡ r.snapshot
unfolding fetch_snapshot
fetch_snapshot_lem k db r found = rw (found, fetch_snapshot)

pub in_progress_true : (s : Status) → s ≡ in_progress → is_in_progress s ≡ true
in_progress_true s h = rw h

module _ (voter : ℕ) (c : Choice) (db : Db) (v : IsValid db) (r : Row)
    (found : find (pid r) db.rows ≡ some r) (member : elem voter r.snapshot ≡ true)
    (valid : valid_choice c ≡ true) where
  pub row : RowValid r
  row = All-find RowValid (pid r) db.rows v.rows_valid found

  -- The totals after the vote: `max(0, …)` never cuts the number of those who have not voted.
  remaining_unvoted :
      (compute_totals (pid r) r.proposal (upsert_vote (pid r) voter c db)).remaining_unvoted
      ≡ length (unvoted r.snapshot (votes_with voter c r))
  remaining_unvoted = omega (
    arith,
    remaining_of (pid r) r.proposal (upsert_vote (pid r) voter c db) (vote_row voter c r)
        (find-upsert_vote (pid r) voter c db r found),
    length-unvoted r.snapshot (votes_with voter c r) row.members
        (Distinct-insert voter c r.votes row.one_vote)
        (VotersIn-insert r.snapshot voter c r.votes member valid row.voters),
    row.size,
  )

  threshold : r.proposal.threshold_t ≡ majority r
  threshold = omega (arith, row.size, row.majority)

module _ (env : Services) (voter : ℕ) (c : Choice) (w : W env) (v : IsValid w.db) (r : Row)
    (found : find (pid r) w.db.rows ≡ some r) (going : r.proposal.status ≡ in_progress)
    (member : elem voter r.snapshot ≡ true) (valid : valid_choice c ≡ true) where
  vote_steps : vote env (pid r) voter c w ≡ vote_transaction env r.proposal voter c w
  unfolding vote vote_fetched
  vote_steps = rw (
    valid,
    fetch_proposal_lem (pid r) w.db r found,
    in_progress_true r.proposal.status going,
    fetch_snapshot_lem (pid r) w.db r found,
    member,
  )

  after_vote : W env
  after_vote = write env (upsert_vote (pid r) voter c) w

  -- The proposal that is decided: a vote on a proposal in progress, by a member of its snapshot and
  -- for a valid choice, is stored in the place of the member's earlier one. The totals returned
  -- count the approvals, rejections and abstentions after it and the members that have not voted,
  -- and have the strict majority and the number of the members. The status returned, which is the one
  -- stored, passes the proposal with the approval of a strict majority, rejects it when those who
  -- have not voted could not make up one, and else leaves it in progress; unless it passes, the
  -- ledger is as it was.
  pub vote_decides :
      (t : VoteTotals) × (s : Status) × ((vote env (pid r) voter c w).0 ≡ ok (t, s))
      × (t.approve ≡ approvals (votes_with voter c r))
      × (t.reject ≡ count_votes is_reject (votes_with voter c r))
      × (t.abstain ≡ count_votes is_abstain (votes_with voter c r))
      × (t.threshold_t ≡ majority r)
      × (t.snapshot_n ≡ length r.snapshot)
      × (t.remaining_unvoted ≡ length (unvoted r.snapshot (votes_with voter c r)))
      × Decision
          (majority r)
          t.approve
          t.remaining_unvoted
          s
          ((vote env (pid r) voter c w).1.ledger ≡ w.ledger)
      × Holds (λ u. u ≡ s) (pid r) (votes_with voter c r) (vote env (pid r) voter c w).1.db
  unfolding vote_transaction after_vote compute_totals
  vote_decides =
      let t = compute_totals (pid r) r.proposal after_vote.db in
      let stored = find-upsert_vote (pid r) voter c w.db r found in
      let decided =
        evaluate-decides env r.proposal t after_vote (vote_row voter c r) stored going in
      let same = threshold voter c w.db v r found member valid in
      (
        t,
        (evaluate env r.proposal t after_vote).0,
        ap (λ x. x.0) vote_steps,
        totals_of (pid r) r.proposal after_vote.db (vote_row voter c r) stored,
        rejections_of (pid r) r.proposal after_vote.db (vote_row voter c r) stored,
        abstentions_of (pid r) r.proposal after_vote.db (vote_row voter c r) stored,
        same,
        (row voter c w.db v r found member valid).size,
        remaining_unvoted voter c w.db v r found member valid,
        subst
            (λ n.
              Decision n t.approve t.remaining_unvoted (evaluate env r.proposal t after_vote).0
                ((vote env (pid r) voter c w).1.ledger ≡ w.ledger))
            same (rw vote_steps decided.0),
        rw vote_steps decided.1,
      )
