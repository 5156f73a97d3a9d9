-- ===== src/Council/Finality.antt =====
-- Early rejections, and votes that are under way at once.
use dro_asms.Prelude.{ℕ, ◌≤◌, ◌<◌, ◌≡◌, refl, true, none, some, arith, elem, leb, le→leb}
use dro_asms.Prelude.Dict.{Dict}
use dro_asms.Result.{ok}
use dro_asms.Council.Defs.{
  in_progress, passed, rejected, is_in_progress, Choice, CouncilConfig, Proposal, VoteTotals, Row,
}
use dro_asms.Council.Gateway.{pid, find, upsert_vote, vote_row, fetch_config, mark_status}
use dro_asms.Council.Service.{
  Services, TransferOutcome, completed, queued, transfer_error, other_exception, valid_choice, W,
  write, compute_totals, attempt_execution, pay, settle, reason_of, pass_and_execute, evaluate,
  vote_transaction, vote_fetched, vote,
}
use dro_asms.Council.Votes.{
  Extends, Distinct, VotersIn, approvals_bounded, Distinct-insert, VotersIn-insert, length-unvoted,
}
use dro_asms.Council.Voting.{Decision-rejected}
use dro_asms.Council.Invariant.{IsValid}
use dro_asms.Council.Decisions.{
  votes_with, approvals, majority, row, vote_decides, fetch_snapshot_lem, find-upsert_vote,
  totals_of,
}

module _ (env : Services) (voter : ℕ) (c : Choice) (w : W env) (v : IsValid w.db) (r : Row)
    (found : find (pid r) w.db.rows ≡ some r) (going : r.proposal.status ≡ in_progress)
    (member : elem voter r.snapshot ≡ true) (valid : valid_choice c ≡ true) where
  -- An early rejection is final in substance: if a vote returns that the proposal is rejected, then
  -- however the members that have not voted would vote (`final` is any set of votes by members
  -- that contains those cast), there is no majority of approvals.
  pub rejection_sound :
      (t : VoteTotals) (final : Dict Choice)
      → (vote env (pid r) voter c w).0 ≡ ok (t, rejected)
      → Distinct final
      → VotersIn r.snapshot final
      → Extends final (votes_with voter c r)
      → approvals final < majority r
  rejection_sound t final h one_each voters holds =
      let (t', s, returned, approve_is, _, _, _, _, rest_is, decision, stored) =
        vote_decides env voter c w v r found going member valid in
      let valid_row = row voter c w.db v r found member valid in
      omega (
        arith,
        approve_is,
        rest_is,
        Decision-rejected (majority r) t'.approve t'.remaining_unvoted s
            ((vote env (pid r) voter c w).1.ledger ≡ w.ledger) decision (cc (returned, h)),
        approvals_bounded r.snapshot final (votes_with voter c r) valid_row.members one_each
            (Distinct-insert voter c r.votes valid_row.one_vote) voters holds,
        length-unvoted r.snapshot (votes_with voter c r) valid_row.members
            (Distinct-insert voter c r.votes valid_row.one_vote)
            (VotersIn-insert r.snapshot voter c r.votes member valid valid_row.voters),
      )

settle-ledger :
    (env : Services) (p : Proposal) (o : TransferOutcome) (w : W env)
    → (settle env p o w).1.ledger ≡ w.ledger
unfolding settle
settle-ledger env p (completed tx) w = refl
settle-ledger env p (queued id) w = refl
settle-ledger env p (transfer_error s) w = refl
settle-ledger env p (other_exception s) w = refl

module _ (env : Services) (p : Proposal) (cfg : CouncilConfig)
    (to_member : p.target_department_id ≡ none) where
  -- The ledger after the transfer of the proposal's amount to its target.
  abbrev paid : env.Ledger → env.Ledger
  paid l =
      (env.transfer_currency p.guild_id cfg.council_account_member_id p.target_id p.amount
        (reason_of p.description) l).1

  -- An execution with a configuration and no department calls for the transfer.
  attempt_execution_pays :
      (w : W env)
      → fetch_config p.guild_id w.db ≡ some cfg
      → (attempt_execution env p w).1.ledger ≡ paid w.ledger
  unfolding attempt_execution pay
  attempt_execution_pays w configured =
      let call : TransferOutcome × env.Ledger =
        env.transfer_currency p.guild_id cfg.council_account_member_id p.target_id p.amount
          (reason_of p.description) w.ledger in
      rw (configured, to_member, attempt_execution)
        (settle-ledger env p call.0 (record w { ledger = call.1 }))

  pass_and_execute_pays :
      (w : W env)
      → fetch_config p.guild_id w.db ≡ some cfg
      → (pass_and_execute env p w).1.ledger ≡ paid w.ledger
  unfolding pass_and_execute fetch_config mark_status
  pass_and_execute_pays w configured =
      attempt_execution_pays (write env (mark_status p.proposal_id passed none none) w) configured

module _ (env : Services) (p : Proposal) (voter : ℕ) (c : Choice) (w : W env) (r : Row)
    (cfg : CouncilConfig) (fetched_going : is_in_progress p.status ≡ true)
    (found : find p.proposal_id w.db.rows ≡ some r) (member : elem voter r.snapshot ≡ true)
    (enough : p.threshold_t ≤ approvals (votes_with voter c r))
    (configured : fetch_config p.guild_id w.db ≡ some cfg)
    (to_member : p.target_department_id ≡ none) where
  -- `vote` goes by the status that it fetched before its transaction, with no lock on the row. If
  -- that was in progress and the approvals suffice, the council pays, whatever status the row has
  -- by then: also where another vote has passed and paid the proposal in between.
  pub stale_vote_pays :
      (vote_fetched env p voter c w).1.ledger
      ≡ (env.transfer_currency p.guild_id cfg.council_account_member_id p.target_id p.amount
          (reason_of p.description)
          w.ledger).1
  unfolding vote_fetched vote_transaction evaluate
  stale_vote_pays =
      let w1 : W env = write env (upsert_vote p.proposal_id voter c) w in
      let totals = compute_totals p.proposal_id p w1.db in
      let stored : find p.proposal_id w1.db.rows ≡ some (vote_row voter c r) =
        find-upsert_vote p.proposal_id voter c w.db r found in
      let pass : leb p.threshold_t totals.approve ≡ true =
        le→leb p.threshold_t totals.approve
          (omega (arith, enough, totals_of p.proposal_id p w1.db (vote_row voter c r) stored)) in
      rw (fetched_going, fetch_snapshot_lem p.proposal_id w.db r found, member, pass)
        (pass_and_execute_pays env p cfg to_member w1
          (unfold fetch_config upsert_vote in configured))
