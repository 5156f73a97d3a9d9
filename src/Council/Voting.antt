-- ===== src/Council/Voting.antt =====
-- One vote: its totals, its decision, and what it writes.
use dro_asms.Prelude.{
  ℕ, ◌+◌, ◌≤◌, ◌<◌, ◌⊎◌, ◌≡◌, refl, sym, ◌∙◌, true, false, Option, none, some, leb, ltb, leb→le,
  leb→lt, ltb→lt, ltb→le, ◌==◌, ==_iff, Bool-cases, inl, inr, if◌then◌else◌,
}
use dro_asms.Prelude.Dict.{Dict}
use dro_asms.Council.Defs.{
  Status, in_progress, passed, rejected, is_in_progress, Choice, ErrorText, Proposal, VoteTotals,
  Row, Db,
}
use dro_asms.Council.Gateway.{find, mark_status, mark_row, fetch_proposal}
use dro_asms.Council.Service.{Services, W, write, status_after, pass_and_execute, evaluate}
use dro_asms.Council.Rows.{find-update, map_row}
use dro_asms.Council.Invariant.{mark_row-KeepsKey}
use dro_asms.Council.Safety.{has_passed, has_passed-settled, attempt_execution-Keeps}

-- The row of proposal `k` has a status with the property, and holds the votes `d`.
abbrev pub Holds : (Status → Type 0) → ℕ → Dict Choice → Db → Type 0
Holds Q k d db = (r : Row) × (find k db.rows ≡ some r) × Q r.proposal.status × (r.votes ≡ d)

==_refl : (k : ℕ) → (k == k) ≡ true
==_refl k = (==_iff k k).1 refl

pub find-mark_status :
    (j k : ℕ) (s : Status) (tx : Option ℕ) (e : Option ErrorText) (db : Db)
    → is_in_progress s ≡ false
    → find j (mark_status k s tx e db).rows
      ≡ (if j == k then map_row (mark_row s tx e db.now) (find j db.rows) else find j db.rows)
unfolding mark_status
find-mark_status j k s tx e db h =
    find-update k (mark_row s tx e db.now) (mark_row-KeepsKey s tx e db.now h) j db.rows

-- A mark gives the row that it is for its status, and leaves the votes.
pub mark_status-Holds :
    (Q : Status → Type 0) (k : ℕ) (d : Dict Choice) (s : Status) (tx : Option ℕ)
    (e : Option ErrorText) (db : Db) (r : Row)
    → is_in_progress s ≡ false
    → Q s
    → find k db.rows ≡ some r
    → r.votes ≡ d
    → Holds Q k d (mark_status k s tx e db)
mark_status-Holds Q k d s tx e db r h q found dv =
    (mark_row s tx e db.now r, find-mark_status k k s tx e db h ∙ rw (==_refl k, found), q, dv)

pub status_after_lem :
    (env : Services) (k : ℕ) (w : W env) (r : Row)
    → find k w.db.rows ≡ some r
    → status_after env k w ≡ r.proposal.status
unfolding status_after fetch_proposal
status_after_lem env k w r found = rw (found, fetch_proposal, status_after)

abbrev Passed : Status → Type 0
Passed s = has_passed s ≡ true

module _ (env : Services) (p : Proposal) (w : W env) (r : Row)
    (found : find p.proposal_id w.db.rows ≡ some r) where
  pass_and_execute-Holds : Holds Passed p.proposal_id r.votes (pass_and_execute env p w).1.db
  unfolding pass_and_execute
  pass_and_execute-Holds =
      attempt_execution-Keeps env p (Holds Passed p.proposal_id r.votes)
        (λ s tx e db h t.
          mark_status-Holds Passed p.proposal_id r.votes s tx e db t.0 (has_passed-settled s h) h
            t.1 t.3)
        (write env (mark_status p.proposal_id passed none none) w)
        (mark_status-Holds Passed p.proposal_id r.votes passed none none w.db r refl refl found
          refl)

  -- What is read back after the execution is what is stored, and says that it has passed.
  pass_and_execute-decides :
      let (s, w') = pass_and_execute env p w in
      Passed s × Holds (λ t. t ≡ s) p.proposal_id r.votes w'.db
  unfolding pass_and_execute
  pass_and_execute-decides =
      let stored : Holds Passed p.proposal_id r.votes (pass_and_execute env p w).1.db =
        pass_and_execute-Holds in
      let read : (pass_and_execute env p w).0 ≡ stored.0.proposal.status =
        status_after_lem env p.proposal_id (pass_and_execute env p w).1 stored.0 stored.1 in
      (rw read stored.2, (stored.0, stored.1, sym read, stored.3))

-- The decision that the totals call for, and whether a transfer may have been called for (`same` is
-- that the ledger is as it was): to pass with `threshold` approvals, to reject where the members
-- who have not voted are too few for that, and else to go on.
abbrev pub Decision : ℕ → ℕ → ℕ → Status → Type 0 → Type 0
Decision threshold approvals remaining s same =
    (threshold ≤ approvals) × (has_passed s ≡ true)
    ⊎ (approvals < threshold) × (approvals + remaining < threshold) × (s ≡ rejected) × same
    ⊎ (approvals < threshold) × (threshold ≤ approvals + remaining) × (s ≡ in_progress) × same

-- Only totals that leave no way to pass call for a rejection.
pub Decision-rejected :
    (threshold approvals remaining : ℕ) (s : Status) (same : Type 0)
    → Decision threshold approvals remaining s same
    → s ≡ rejected
    → approvals + remaining < threshold
Decision-rejected th a rem s same (inl (pass, h)) e = cc
Decision-rejected th a rem s same (inr (inl (few, hopeless, h, l))) e = hopeless
Decision-rejected th a rem s same (inr (inr (few, reachable, h, l))) e = cc

module _ (env : Services) (p : Proposal) (t : VoteTotals) (w : W env) (r : Row)
    (found : find p.proposal_id w.db.rows ≡ some r) (going : r.proposal.status ≡ in_progress) where
  -- `evaluate` takes that decision and stores it.
  pub evaluate-decides :
      let (s, w') = evaluate env p t w in
      Decision p.threshold_t t.approve t.remaining_unvoted s (w'.ledger ≡ w.ledger)
      × Holds (λ u. u ≡ s) p.proposal_id r.votes w'.db
  unfolding evaluate
  evaluate-decides = elim (Bool-cases (leb p.threshold_t t.approve)) [
    | inl pass ↦ rw pass (
      inl (leb→le p.threshold_t t.approve pass, (pass_and_execute-decides env p w r found).0),
      (pass_and_execute-decides env p w r found).1,
    )
    | inr fail ↦ elim (Bool-cases (ltb (t.approve + t.remaining_unvoted) p.threshold_t)) [
      | inl hopeless ↦
          rw (fail, hopeless)
            (
              inr (
                  inl (
                    leb→lt p.threshold_t t.approve fail,
                    ltb→lt (t.approve + t.remaining_unvoted) p.threshold_t hopeless,
                    refl,
                    refl,
                  )),
              mark_status-Holds (λ u. u ≡ rejected) p.proposal_id r.votes rejected none none w.db r
                  refl refl found refl,
            )
      | inr reachable ↦
          rw (fail, reachable)
            (
              inr (
                  inr (
                    leb→lt p.threshold_t t.approve fail,
                    ltb→le (t.approve + t.remaining_unvoted) p.threshold_t reachable,
                    refl,
                    refl,
                  )),
              (r, found, going, refl),
            )
    ]
  ]
