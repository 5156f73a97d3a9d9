-- ===== src/Council/Frame.antt =====
-- What a call of `CouncilService.vote` leaves as it is.
use dro_asms.Prelude.{
  ℕ, ◌≡◌, ◌≢◌, refl, ◌∙◌, false, List, [], ◌∷◌, arith, elem, ◌==◌, if_ind, option_cases,
}
use dro_asms.Result.{Result, ok, err}
use dro_asms.Council.Defs.{Status, is_in_progress, Choice, Proposal, VoteTotals, Row}
use dro_asms.Council.Gateway.{
  pid, find, update, mark_row, mark_status, vote_row, upsert_vote, fetch_proposal, fetch_snapshot,
}
use dro_asms.Council.Service.{
  Services, Error, W, write, compute_totals, valid_choice, vote_transaction, vote_fetched, vote,
}
use dro_asms.Council.Safety.{evaluate-Keeps}
use dro_asms.Council.Settled.{fetched_pid}

find-update_other :
    (j k : ℕ) (f : Row → Row) (rows : List Row)
    → ((r : Row) → pid (f r) ≡ pid r)
    → (j == k) ≡ false
    → find j (update k f rows) ≡ find j rows
unfolding find update
find-update_other j k f [] same h = refl
find-update_other j k f (r ∷ rows) same h =
    ground (arith, same r, h, find-update_other j k f rows same h)

-- With an error the world is the one before.
abbrev pub Unharmed :
    (env : Services) (w : W env) → Result (VoteTotals × Status) Error × W env → Type 0
Unharmed env w (err e, after) = after ≡ w
Unharmed env w (ok answer, after) = Unit

-- Also, the row of proposal `j` is the one before.
abbrev Framed :
    (env : Services) (j : ℕ) (w : W env) → Result (VoteTotals × Status) Error × W env → Type 0
Framed env j w out = Unharmed env w out × (find j out.1.db.rows ≡ find j w.db.rows)

vote_transaction_rows :
    (env : Services) (p : Proposal) (voter : ℕ) (c : Choice) (w : W env) (j : ℕ)
    → (j == p.proposal_id) ≡ false
    → find j (vote_transaction env p voter c w).1.db.rows ≡ find j w.db.rows
unfolding vote_transaction mark_status upsert_vote
vote_transaction_rows env p voter c w j other =
    let w1 : W env = write env (upsert_vote p.proposal_id voter c) w in
    evaluate-Keeps env p (λ db. find j db.rows ≡ find j w.db.rows)
      (λ s tx e db settled h.
        find-update_other j p.proposal_id (mark_row s tx e db.now) db.rows (λ r. refl) other ∙ h)
      (compute_totals p.proposal_id p w1.db) w1
      (find-update_other j p.proposal_id (vote_row voter c) w.db.rows (λ r. refl) other)

vote_transaction-Framed :
    (env : Services) (p : Proposal) (voter : ℕ) (c : Choice) (w : W env) (j : ℕ)
    → (j == p.proposal_id) ≡ false
    → Framed env j w (vote_transaction env p voter c w)
unfolding vote_transaction
vote_transaction-Framed env p voter c w j other =
    (tt, vote_transaction_rows env p voter c w j other)

vote_fetched-Framed :
    (env : Services) (p : Proposal) (voter : ℕ) (c : Choice) (w : W env) (j : ℕ)
    → (j == p.proposal_id) ≡ false
    → Framed env j w (vote_fetched env p voter c w)
unfolding vote_fetched
vote_fetched-Framed env p voter c w j other =
    let P = Framed env j w in
    if_ind P (is_in_progress p.status)
      (if_ind P (elem voter (fetch_snapshot p.proposal_id w.db))
        (vote_transaction-Framed env p voter c w j other) (refl, refl))
      (tt, refl)

-- Whatever the proposal, the voter, the choice and the world: a call of `vote` that returns an error
-- has changed nothing at all, neither the tables nor the ledger nor the events, since no error is
-- returned once a vote is stored, however its execution goes; and no call changes another proposal
-- than its own, with its votes and marks, not even where its own is passed and executed.
pub vote_frame :
    (env : Services) (k voter : ℕ) (c : Choice) (w : W env) (j : ℕ)
    → j ≢ k
    → Unharmed env w (vote env k voter c w)
      × (find j (vote env k voter c w).1.db.rows ≡ find j w.db.rows)
unfolding vote
vote_frame env k voter c w j other =
    if_ind (Framed env j w) (valid_choice c)
      (option_cases (Framed env j w) (fetch_proposal k w.db) _ _ (λ absent. (refl, refl))
        (λ p found.
          vote_fetched-Framed env p voter c w j
            (ground (arith, other, fetched_pid k w.db p found))))
      (refl, refl)
