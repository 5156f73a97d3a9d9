-- ===== src/Assembly/Ballots.antt =====
-- A vote that has been cast.
use Prim.Native.String.{String}
use dro_asms.Prelude.{
  ℕ, suc, ◌+◌, ◌≡◌, refl, ap, ◌∙◌, Bool, false, ◌||◌, Option, none, some, List, [], ◌∷◌, ◌++◌,
  arith, leb, ltb, elem, if_ind, if_cases, option_cases,
}
use dro_asms.Prelude.Dict.{lookup, contains, lookup-insert}
use dro_asms.Prelude.Texts.{eqb_text}
use dro_asms.Result.{Result, ok, err}
use dro_asms.Assembly.Defs.{
  Status, passed, rejected, timed_out, cancelled, is_in_progress, Choice, Proposal, Row, Db, Summon,
  pid, find, update, set_status, add_vote, create_proposal, new_row, votes_in, fetch_proposal,
  fetch_votes, fetch_snapshot, mark_status, is_nil, is_open, cancel_proposal, upsert_vote,
  list_due_proposals, remind, mark_reminded, count_active_by_guild, mark_summon_delivered,
  insert_summon, upsert_config,
}
use dro_asms.Assembly.Service.{
  AssemblyError, vote_already_exists, World, VoteTotals, with_db, submit_proposal, cancel,
  parse_choice, compute_totals, evaluate, vote_transaction, vote_fetched, vote, expire_one,
  expire_each, expire_due_proposals, create_summon,
}
use dro_asms.Assembly.Runs.{
  Event, configure, propose, withdraw, cast, expire, reminded, summon, delivered, wait, handle, run,
}

votes-update :
    (k j : ℕ) (f : Row → Row) (rows : List Row)
    → ((s : Row) → pid (f s) ≡ pid s)
    → ((s : Row) → (f s).votes ≡ s.votes)
    → votes_in (find k (update j f rows)) ≡ votes_in (find k rows)
unfolding find update
votes-update k j f [] same kept = refl
votes-update k j f (s ∷ rows) same kept =
    ground (arith, same s, kept s, votes-update k j f rows same kept)

ballot-append :
    (k voter : ℕ) (c : Choice) (rows : List Row) (r : Row)
    → lookup voter (votes_in (find k rows)) ≡ some c
    → lookup voter (votes_in (find k (rows ++ (r ∷ [])))) ≡ some c
unfolding find
ballot-append k voter c [] r e = ground arith
ballot-append k voter c (s ∷ rows) r e = ground (arith, ballot-append k voter c rows r)

votes-add_vote :
    (k j v : ℕ) (c : Choice) (rows : List Row) (voter : ℕ) (b : Choice)
    → contains v (votes_in (find j rows)) ≡ false
    → lookup voter (votes_in (find k rows)) ≡ some b
    → lookup voter (votes_in (find k (update j (add_vote v c) rows))) ≡ some b
unfolding find update
votes-add_vote k j v c [] voter b n e = e
votes-add_vote k j v c (s ∷ rows) voter b n e =
    ground (arith, n, e, lookup-insert voter v c s.votes, votes-add_vote k j v c rows voter b)

module _ (k voter : ℕ) (b : Choice) where
  abbrev Cast : Db → Type 0
  Cast db = lookup voter (fetch_votes k db) ≡ some b

  mark_status_keeps : (j : ℕ) (s : Status) (db : Db) → Cast db → Cast (mark_status j s db)
  unfolding fetch_votes mark_status
  mark_status_keeps j s db e =
      ap (lookup voter) (votes-update k j (set_status db.now s) db.rows (λ r. refl) (λ r. refl)) ∙ e

  evaluate_keeps : (p : Proposal) (w : World) → Cast w.db → Cast (evaluate p w).1.db
  unfolding evaluate
  evaluate_keeps p w e =
      let P : (VoteTotals × Status) × World → Type 0 = λ out. Cast out.1.db in
      let t = compute_totals p w.db in
      if_ind P (leb p.threshold_t t.approve) (mark_status_keeps p.proposal_id passed w.db e) (
        if_ind P (ltb (t.approve + t.remaining_unvoted) p.threshold_t)
          (mark_status_keeps p.proposal_id rejected w.db e) e)

  vote_transaction_keeps :
      (p : Proposal) (v : ℕ) (c : Choice) (w : World)
      → Cast w.db
      → Cast (vote_transaction p v c w).1.db
  unfolding vote_transaction upsert_vote fetch_votes
  vote_transaction_keeps p v c w e =
      let Answer : Option Db → Type 0 = λ o.
        let out : Result (VoteTotals × Status) AssemblyError × World = elim o [
          | none ↦ (err vote_already_exists, w)
          | some d ↦ (ok (evaluate p (with_db d w)).0, (evaluate p (with_db d w)).1)
        ] in
        Cast out.1.db in
      let after : Db = record w.db { rows = update p.proposal_id (add_vote v c) w.db.rows } in
      if_cases Answer (contains v (votes_in (find p.proposal_id w.db.rows))) (λ _. e)
        (λ fresh.
          evaluate_keeps p (with_db after w)
            (votes-add_vote k p.proposal_id v c w.db.rows voter b fresh e))

  vote_keeps : (j v : ℕ) (choice : String) (w : World) → Cast w.db → Cast (vote j v choice w).1.db
  unfolding vote vote_fetched
  vote_keeps j v choice w e =
      let P : Result (VoteTotals × Status) AssemblyError × World → Type 0 = λ out. Cast out.1.db in
      option_cases P (parse_choice choice) _ _ (λ _. e)
        (λ c _.
          option_cases P (fetch_proposal j w.db) _ _ (λ _. e)
            (λ p _.
              if_ind P (is_in_progress p.status)
                (if_ind P (elem v (fetch_snapshot p.proposal_id w.db))
                  (vote_transaction_keeps p v c w e) e)
                e))

  cancel_keeps : (j : ℕ) (w : World) → Cast w.db → Cast (cancel j w).1.db
  unfolding cancel cancel_proposal
  cancel_keeps j w e =
      let P : Bool × World → Type 0 = λ out. Cast out.1.db in
      let closed : Cast (cancel_proposal j w.db).1 =
        if_ind {A = Bool × Db} (λ out. Cast out.1) (is_open (find j w.db.rows))
          (mark_status_keeps j cancelled w.db e) e in
      option_cases P (fetch_proposal j w.db) _ _ (λ _. e)
        (λ p _. if_ind P (cancel_proposal j w.db).0 closed e)

  submit_proposal_keeps :
      (g proposer : ℕ) (title description : Option String) (members : List ℕ) (hours : ℕ)
      (w : World)
      → Cast w.db
      → Cast (submit_proposal g proposer title description members hours w).1.db
  unfolding submit_proposal create_proposal fetch_votes
  submit_proposal_keeps g proposer title description members hours w e =
      let P : Result Proposal AssemblyError × World → Type 0 = λ out. Cast out.1.db in
      let made = create_proposal g proposer title description members hours w.db in
      let kept : Cast made.1 =
        if_ind {A = Option Proposal × Db} (λ out. Cast out.1) (leb 5 (count_active_by_guild g w.db))
          e
          (ballot-append k voter b w.db.rows
            (new_row g proposer title description members hours w.db) e) in
      if_ind P (is_nil members) e (
        if_ind P (leb 5 (count_active_by_guild g w.db)) e
          (option_cases P made.0 _ _ (λ _. e) (λ p _. kept)))

  expire_each_keeps :
      (ps : List Proposal) (changed : ℕ) (w : World)
      → Cast w.db
      → Cast (expire_each ps changed w).1.db
  unfolding expire_each expire_one
  expire_each_keeps [] changed w e = e
  expire_each_keeps (p ∷ ps) changed w e = expire_each_keeps ps (suc changed) (expire_one p w) (
      if_ind {A = World} (λ out. Cast out.db) (leb p.threshold_t (compute_totals p w.db).approve)
        (mark_status_keeps p.proposal_id passed w.db e)
        (mark_status_keeps p.proposal_id timed_out w.db e))

  handle_keeps : (ev : Event) (w : World) → Cast w.db → Cast (handle ev w).db
  unfolding handle upsert_config create_summon insert_summon mark_summon_delivered
      expire_due_proposals mark_reminded fetch_votes
  handle_keeps (configure g c) w e = e
  handle_keeps (propose g proposer title description members hours) w e =
      submit_proposal_keeps g proposer title description members hours w e
  handle_keeps (withdraw j) w e = cancel_keeps j w e
  handle_keeps (cast j v choice) w e = vote_keeps j v choice w e
  handle_keeps expire w e = expire_each_keeps (list_due_proposals w.db) 0 w e
  handle_keeps (reminded j) w e =
      ap (lookup voter) (votes-update k j (remind w.db.now) w.db.rows (λ r. refl) (λ r. refl)) ∙ e
  handle_keeps (summon g by target kind words) w e =
      if_ind {A = Result Summon AssemblyError × World} (λ out. Cast out.1.db)
        (eqb_text kind "member" || eqb_text kind "official") e e
  handle_keeps (delivered j) w e = e
  handle_keeps (wait n) w e = e

  run_keeps : (es : List Event) (w : World) → Cast w.db → Cast (run es w).db
  unfolding run
  run_keeps [] w e = e
  run_keeps (ev ∷ es) w e = run_keeps es (handle ev w) (handle_keeps ev w e)

-- A vote that has been cast stays as it is after any sequence of requests, the voter's own further
-- votes included.
pub ballot_stays :
    (es : List Event) (w : World) (k voter : ℕ) (c : Choice)
    → lookup voter (fetch_votes k w.db) ≡ some c
    → lookup voter (fetch_votes k (run es w).db) ≡ some c
ballot_stays es w k voter c e = run_keeps k voter c es w e
