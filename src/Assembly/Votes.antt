-- ===== src/Assembly/Votes.antt =====
-- A vote and the status that it leads to.
use Prim.Native.String.{String}
use mathlib.Core.Path.{subst}
use dro_asms.Prelude.{
  ℕ, ◌+◌, ◌-◌, ◌≡◌, refl, sym, ap, true, Option, none, some, List, length, arith, leb, ltb, elem,
  if_ind, if_cases, option_cases, Option-cases, inl, inr,
}
use dro_asms.Prelude.Dict.{insert, contains}
use dro_asms.Result.{Result, ok, err}
use dro_asms.Assembly.Defs.{
  Status, in_progress, passed, rejected, timed_out, cancelled, is_in_progress, Choice, Row, Db, pid,
  find, update, set_status, add_vote, proposal_in, votes_in, fetch_proposal, fetch_votes,
  fetch_snapshot, mark_status, upsert_vote, is_approve, count_votes, tally_of, fetch_tally,
}
use dro_asms.Assembly.Service.{
  AssemblyError, vote_already_exists, proposal_not_found, World, VoteTotals, with_db, parse_choice,
  compute_totals, evaluate, vote_transaction, vote_fetched, vote,
}
use dro_asms.Assembly.Rows.{find-update_same, update-update, find_id}
use dro_asms.Assembly.Standing.{RowFits, Fits, IsValid, updated-IsValid, judge}

still_open : (s : Status) → is_in_progress s ≡ true → s ≡ in_progress
still_open in_progress e = refl
still_open passed e = ground arith
still_open rejected e = ground arith
still_open timed_out e = ground arith
still_open cancelled e = ground arith

settled-IsValid :
    (k : ℕ) (s : Status) (f : Row → Row) (db : Db) (r : Row)
    → ((x : Row) → pid (f x) ≡ pid x)
    → find k db.rows ≡ some r
    → RowFits (set_status db.now s (f r))
    → IsValid db
    → IsValid (mark_status k s (record db { rows = update k f db.rows }))
unfolding mark_status
settled-IsValid k s f db r same e fits v =
    subst (λ rows. IsValid (record db { rows = rows }))
      (sym (update-update k f (set_status db.now s) db.rows same))
      (updated-IsValid k (λ x. set_status db.now s (f x)) db r same e fits v)

-- `t` are the totals with the new vote.
judge-IsValid :
    (t : VoteTotals) (w : World) (r : Row) (voter : ℕ) (c : Choice)
    → t.approve ≡ count_votes is_approve (insert voter c r.votes)
    → t.remaining_unvoted ≡ r.proposal.snapshot_n - length (insert voter c r.votes)
    → is_in_progress r.proposal.status ≡ true
    → find (pid r) w.db.rows ≡ some r
    → IsValid w.db
    → IsValid
        (judge t r.proposal
          (with_db (record w.db { rows = update (pid r) (add_vote voter c) w.db.rows }) w)).1.db
judge-IsValid t w r voter c same_a same_r progressing e v =
    let P : (VoteTotals × Status) × World → Type 0 = λ out. IsValid out.1.db in
    if_cases P (leb r.proposal.threshold_t t.approve)
      (λ enough.
        settled-IsValid (pid r) passed (add_vote voter c) w.db r (λ x. refl) e
          (ground (arith, same_a, enough)) v)
      (λ few.
        if_cases P (ltb (t.approve + t.remaining_unvoted) r.proposal.threshold_t)
          (λ hopeless.
            settled-IsValid (pid r) rejected (add_vote voter c) w.db r (λ x. refl) e
              (ground (arith, same_a, same_r, hopeless)) v)
          (λ undecided.
            updated-IsValid (pid r) (add_vote voter c) w.db r (λ x. refl) e
              (subst
                (λ s.
                  Fits s (count_votes is_approve (insert voter c r.votes))
                    (r.proposal.snapshot_n - length (insert voter c r.votes)) r.proposal.threshold_t
                    (length (insert voter c r.votes)))
                (sym (still_open r.proposal.status progressing))
                (ground (arith, same_a, few), ground (arith, same_a, same_r, undecided)))
              v))

vote_transaction-IsValid :
    (r : Row) (voter : ℕ) (c : Choice) (w : World)
    → is_in_progress r.proposal.status ≡ true
    → find (pid r) w.db.rows ≡ some r
    → IsValid w.db
    → IsValid (vote_transaction r.proposal voter c w).1.db
unfolding vote_transaction upsert_vote evaluate compute_totals fetch_tally tally_of fetch_votes
vote_transaction-IsValid r voter c w progressing e v =
    let Answer : Option Db → Type 0 = λ o.
      let out : Result (VoteTotals × Status) AssemblyError × World = elim o [
        | none ↦ (err vote_already_exists, w)
        | some d ↦ (ok (evaluate r.proposal (with_db d w)).0, (evaluate r.proposal (with_db d w)).1)
      ] in
      IsValid out.1.db in
    let after : Db = record w.db { rows = update (pid r) (add_vote voter c) w.db.rows } in
    let found = find-update_same (pid r) (add_vote voter c) w.db.rows r (λ s. refl) e in
    if_ind Answer (contains voter (fetch_votes (pid r) w.db)) v (
      judge-IsValid (compute_totals r.proposal after) w r voter c
        (ap (λ o. count_votes is_approve (votes_in o)) found)
        (ap (λ o. r.proposal.snapshot_n - length (votes_in o)) found) progressing e v)

vote_fetched-IsValid :
    (r : Row) (voter : ℕ) (c : Choice) (w : World)
    → find (pid r) w.db.rows ≡ some r
    → IsValid w.db
    → IsValid (vote_fetched r.proposal voter c w).1.db
unfolding vote_fetched
vote_fetched-IsValid r voter c w e v =
    let P : Result (VoteTotals × Status) AssemblyError × World → Type 0 = λ out. IsValid out.1.db in
    if_cases P (is_in_progress r.proposal.status)
      (λ progressing.
        if_ind P (elem voter (fetch_snapshot (pid r) w.db))
          (vote_transaction-IsValid r voter c w progressing e v) v)
      (λ settled. v)

-- A row that is found is found under its own number.
pub find_own :
    (k : ℕ) (rows : List Row) (r : Row) → find k rows ≡ some r → find (pid r) rows ≡ some r
find_own k rows r e =
    let own : pid r ≡ k = ground (arith, find_id k rows r e) in
    subst (λ j. find j rows ≡ some r) (sym own) e

pub vote-IsValid :
    (k voter : ℕ) (choice : String) (w : World)
    → IsValid w.db
    → IsValid (vote k voter choice w).1.db
unfolding vote fetch_proposal
vote-IsValid k voter choice w v =
    let P : Result (VoteTotals × Status) AssemblyError × World → Type 0 = λ out. IsValid out.1.db in
    option_cases P (parse_choice choice) _ _ (λ _. v)
      (λ c _.
        let Q : Option Row → Type 0 = λ o.
          let out : Result (VoteTotals × Status) AssemblyError × World = elim (proposal_in o) [
            | none ↦ (err proposal_not_found, w)
            | some p ↦ vote_fetched p voter c w
          ] in
          IsValid out.1.db in
        elim (Option-cases (find k w.db.rows)) [
          | inl e ↦ subst Q (sym e) v
          | inr (r, e) ↦
              subst Q (sym e) (vote_fetched-IsValid r voter c w (find_own k w.db.rows r e) v)
        ])
