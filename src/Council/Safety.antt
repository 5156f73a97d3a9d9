-- ===== src/Council/Safety.antt =====
-- Lemmas on the operations of the council's service and the invariant of its tables.
use Prim.Native.String.{String}
use dro_asms.Prelude.{
  Bool, arith, ℕ, ◌+◌, ◌≡◌, refl, true, false, Option, none, List, [], ◌∷◌, elem, leb, ltb,
  Bool-cases, Option-cases, inl, inr, if_ind,
}
use dro_asms.Prelude.Int.{ℤ, pos, leb_ℤ, eqb_ℤ}
use dro_asms.Result.{Result}
use dro_asms.Council.Defs.{
  Status, passed, executed, execution_failed, rejected, expired, is_in_progress, Choice, ErrorText,
  Proposal, VoteTotals, Db,
}
use dro_asms.Council.Gateway.{
  upsert_config, fetch_config, fetch_proposal, fetch_snapshot, count_active_by_guild,
  create_proposal, cancel_proposal, list_due_proposals, mark_status, upsert_vote,
}
use dro_asms.Council.Service.{
  Services, valid_choice, TransferOutcome, completed, queued, transfer_error, other_exception,
  Error, W, is_empty, no_target, write, reason_of, set_config, submit_proposal,
  create_transfer_proposal, cancel, settle, pay, target_account, attempt_execution,
  pass_and_execute, evaluate, compute_totals, vote_transaction, vote_fetched, vote, expire_one,
  expire_each, expire_due_proposals,
}
use dro_asms.Council.Invariant.{
  IsValid, create_proposal-IsValid, cancel_proposal-IsValid, mark_status-IsValid,
  upsert_vote-IsValid,
}

-- The statuses of a proposal that has passed, whatever became of its execution.
abbrev pub has_passed : Status → Bool
has_passed passed = true
has_passed executed = true
has_passed execution_failed = true
has_passed _ = false

pub has_passed-settled : (s : Status) → has_passed s ≡ true → is_in_progress s ≡ false
has_passed-settled s h = ground arith

-- The execution of a proposal writes to the tables by `mark_status` alone, and only a status of
-- one that has passed: what such marks keep, it keeps.
module _ (env : Services) (p : Proposal) (P : Db → Type 0)
    (marks : (s : Status) (tx : Option ℕ) (e : Option ErrorText) (db : Db)
      → has_passed s ≡ true
      → P db
      → P (mark_status p.proposal_id s tx e db)) where
  settle-Keeps : (o : TransferOutcome) (w : W env) → P w.db → P (settle env p o w).1.db
  unfolding settle
  settle-Keeps (completed tx) w h = marks _ _ _ w.db refl h
  settle-Keeps (queued id) w h = marks _ _ _ w.db refl h
  settle-Keeps (transfer_error s) w h = marks _ _ _ w.db refl h
  settle-Keeps (other_exception s) w h = h

  pay-Keeps : (source target : ℤ) (w : W env) → P w.db → P (pay env p source target w).1.db
  unfolding pay
  pay-Keeps source target w h =
      let call : TransferOutcome × env.Ledger =
        env.transfer_currency p.guild_id source target p.amount (reason_of p.description)
          w.ledger in
      settle-Keeps call.0 (record w { ledger = call.1 }) h

  pub attempt_execution-Keeps : (w : W env) → P w.db → P (attempt_execution env p w).1.db
  unfolding attempt_execution
  attempt_execution-Keeps w h = elim (Option-cases (fetch_config p.guild_id w.db)) [
    | inl absent ↦ rw (absent, attempt_execution) (marks _ _ _ w.db refl h)
    | inr (cfg, found) ↦ elim (Option-cases (target_account env p p.target_department_id)) [
      | inl unknown ↦ rw (found, unknown, attempt_execution) (marks _ _ _ w.db refl h)
      | inr (target, known) ↦
          rw (found, known, attempt_execution) (pay-Keeps cfg.council_account_member_id target w h)
    ]
  ]

  pub pass_and_execute-Keeps : (w : W env) → P w.db → P (pass_and_execute env p w).1.db
  unfolding pass_and_execute
  pass_and_execute-Keeps w h =
      attempt_execution-Keeps (write env (mark_status p.proposal_id passed none none) w)
        (marks passed none none w.db refl h)

-- A vote's decision and an expiry write by `mark_status` alone, and never a status in progress.
module _ (env : Services) (p : Proposal) (P : Db → Type 0)
    (marks : (s : Status) (tx : Option ℕ) (e : Option ErrorText) (db : Db)
      → is_in_progress s ≡ false
      → P db
      → P (mark_status p.proposal_id s tx e db)) where
  pass-Keeps : (w : W env) → P w.db → P (pass_and_execute env p w).1.db
  pass-Keeps =
      pass_and_execute-Keeps env p P (λ s tx e db h. marks s tx e db (has_passed-settled s h))

  pub evaluate-Keeps : (t : VoteTotals) (w : W env) → P w.db → P (evaluate env p t w).1.db
  unfolding evaluate
  evaluate-Keeps t w h = elim (Bool-cases (leb p.threshold_t t.approve)) [
    | inl pass ↦ rw pass (pass-Keeps w h)
    | inr fail ↦ elim (Bool-cases (ltb (t.approve + t.remaining_unvoted) p.threshold_t)) [
      | inl hopeless ↦ rw (fail, hopeless) (marks rejected none none w.db refl h)
      | inr open_still ↦ rw (fail, open_still) h
    ]
  ]

  pub expire_one-Keeps : (w : W env) → P w.db → P (expire_one env p w).1.db
  unfolding expire_one
  expire_one-Keeps w h =
      elim (Bool-cases (leb p.threshold_t (compute_totals p.proposal_id p w.db).approve)) [
        | inl pass ↦ rw pass (pass-Keeps w h)
        | inr late ↦ rw late (marks expired none none w.db refl h)
      ]

module _ (env : Services) where
  vote_transaction-IsValid :
      (p : Proposal) (voter : ℕ) (c : Choice) (w : W env)
      → elem voter (fetch_snapshot p.proposal_id w.db) ≡ true
      → valid_choice c ≡ true
      → IsValid w.db
      → IsValid (vote_transaction env p voter c w).1.db
  unfolding vote_transaction
  vote_transaction-IsValid p voter c w m h v =
      let w1 : W env = write env (upsert_vote p.proposal_id voter c) w in
      evaluate-Keeps env p IsValid (mark_status-IsValid p.proposal_id)
        (compute_totals p.proposal_id p w1.db) w1
        (upsert_vote-IsValid p.proposal_id voter c w.db m h v)

  pub vote_fetched-IsValid :
      (p : Proposal) (voter : ℕ) (c : Choice) (w : W env)
      → valid_choice c ≡ true
      → IsValid w.db
      → IsValid (vote_fetched env p voter c w).1.db
  unfolding vote_fetched
  vote_fetched-IsValid p voter c w h v = elim (Bool-cases (is_in_progress p.status)) [
    | inl going ↦ elim (Bool-cases (elem voter (fetch_snapshot p.proposal_id w.db))) [
      | inl member ↦ rw (going, member) (vote_transaction-IsValid p voter c w member h v)
      | inr stranger ↦ rw (going, stranger) v
    ]
    | inr settled ↦ rw settled v
  ]

  pub vote-IsValid :
      (k voter : ℕ) (c : Choice) (w : W env) → IsValid w.db → IsValid (vote env k voter c w).1.db
  unfolding vote
  vote-IsValid k voter c w v = elim (Bool-cases (valid_choice c)) [
    | inl valid ↦ elim (Option-cases (fetch_proposal k w.db)) [
      | inl absent ↦ rw (valid, absent, vote) v
      | inr (p, found) ↦ rw (valid, found, vote) (vote_fetched-IsValid p voter c w valid v)
    ]
    | inr invalid ↦ rw invalid v
  ]

  pub expire_each-IsValid :
      (ps : List Proposal) (w : W env) → IsValid w.db → IsValid (expire_each env ps w).1.db
  unfolding expire_each
  expire_each-IsValid [] w v = v
  expire_each-IsValid (p ∷ ps) w v =
      expire_each-IsValid ps (expire_one env p w).1
        (expire_one-Keeps env p IsValid (mark_status-IsValid p.proposal_id) w v)

  pub expire_due_proposals-IsValid :
      (w : W env) → IsValid w.db → IsValid (expire_due_proposals env w).1.db
  unfolding expire_due_proposals
  expire_due_proposals-IsValid w v = expire_each-IsValid (list_due_proposals w.db) w v

  pub cancel-IsValid : (k : ℕ) (w : W env) → IsValid w.db → IsValid (cancel env k w).1.db
  unfolding cancel
  cancel-IsValid k w v = elim (Option-cases (fetch_proposal k w.db)) [
    | inl absent ↦ rw (absent, cancel) v
    | inr (p, found) ↦ elim (Bool-cases (cancel_proposal k w.db).0) [
      | inl done ↦ rw (found, done, cancel) (cancel_proposal-IsValid k w.db v)
      | inr refused ↦ rw (found, refused, cancel) (cancel_proposal-IsValid k w.db v)
    ]
  ]

  pub set_config-IsValid :
      (g role : ℕ) (w : W env) → IsValid w.db → IsValid (set_config env g role w).1.db
  unfolding set_config upsert_config
  set_config-IsValid g role w v = record {
    rows_valid = v.rows_valid;
    unique = v.unique;
    below = v.below;
    at_most_five = v.at_most_five;
  }

module _ (env : Services) (g : ℕ) (proposer target amt : ℤ) (desc url : Option String)
    (members : List ℕ) (dept : Option String) (w : W env) (v : IsValid w.db) where
  submit_proposal-IsValid :
      IsValid (submit_proposal env g proposer target amt desc url members dept w).1.db
  unfolding submit_proposal
  submit_proposal-IsValid =
      let made : Option Proposal × Db =
        create_proposal g proposer target amt desc url members dept w.db in
      let kept : IsValid made.1 =
        create_proposal-IsValid g proposer target amt desc url members dept w.db v in
      elim (Bool-cases (leb 5 (count_active_by_guild g w.db))) [
        | inl full ↦ rw full v
        | inr room ↦ elim (Option-cases made.0) [
          | inl refused ↦ rw (room, refused) kept
          | inr (p, new) ↦ rw (room, new) kept
        ]
      ]

  pub create_transfer_proposal-IsValid :
      IsValid (create_transfer_proposal env g proposer target amt desc url members dept w).1.db
  unfolding create_transfer_proposal
  create_transfer_proposal-IsValid =
      let P : Result Proposal Error × W env → Type 0 = λ r. IsValid r.1.db in
      if_ind P (leb_ℤ amt (pos 0)) v (
        if_ind P (eqb_ℤ proposer target) v (
          if_ind P (is_empty env members) v
            (if_ind P (no_target env target dept) v submit_proposal-IsValid)))
