-- ===== src/Assembly/Changes.antt =====
-- New proposals, cancelled ones, and those whose time has run out.
use Prim.Native.String.{String}
use mathlib.Core.Path.{subst}
use mathlib.Core.Option
use dro_asms.Prelude.{
  ℕ, suc, ◌≡◌, refl, sym, ap, ◌∙◌, Bool, true, false, ◌&&◌, Option, some, List, [], ◌∷◌, length,
  arith, All, ◌==◌, leb, if_ind, if_cases, option_cases, Option-cases, inl, inr,
}
use dro_asms.Prelude.Dict.{Dict}
use dro_asms.Prelude.Exclusive.{any, Exclusive}
use dro_asms.Result.{Result}
use dro_asms.Assembly.Defs.{
  Status, passed, timed_out, cancelled, is_in_progress, Choice, Proposal, Row, Db, pid, find,
  set_status, new_row, create_proposal, proposal_in, votes_in, fetch_proposal, fetch_votes,
  mark_status, is_nil, is_open, cancel_proposal, is_approve, count_votes, tally_of, fetch_tally,
  list_due_proposals, is_due, count_active_by_guild,
}
use dro_asms.Assembly.Service.{
  AssemblyError, World, submit_proposal, cancel, compute_totals, expire_one, expire_each,
  expire_due_proposals,
}
use dro_asms.Assembly.Rows.{
  same_id, find-update_other, proposals_where, proposals_where-Exclusive, IsFetched, All-IsFetched,
}
use dro_asms.Assembly.Standing.{IsValid, updated-IsValid, new_row-Fits, inserted-IsValid}
use dro_asms.Assembly.Votes.{find_own}

no_votes : (d : Dict Choice) → is_nil d ≡ true → length d ≡ 0
no_votes [] e = refl
no_votes (x ∷ d) e = ground arith

cancel_proposal-IsValid : (k : ℕ) (db : Db) → IsValid db → IsValid (cancel_proposal k db).1
unfolding cancel_proposal mark_status
cancel_proposal-IsValid k db v =
    if_cases {A = Bool × Db} (λ out. IsValid out.1) (is_open (find k db.rows))
      (λ openly. elim (Option-cases (find k db.rows)) [
        | inl e ↦
            let closed : is_open (find k db.rows) ≡ false = ap is_open e in
            ground (arith, closed, openly)
        | inr (r, e) ↦
            let both : (is_in_progress r.proposal.status && is_nil r.votes) ≡ true =
              sym (ap is_open e) ∙ openly in
            updated-IsValid k (set_status db.now cancelled) db r (λ x. refl) e
              (no_votes r.votes (ground (arith, both))) v
      ])
      (λ shut. v)

pub cancel-IsValid : (k : ℕ) (w : World) → IsValid w.db → IsValid (cancel k w).1.db
unfolding cancel
cancel-IsValid k w v =
    let P : Bool × World → Type 0 = λ out. IsValid out.1.db in
    option_cases P (fetch_proposal k w.db) _ _ (λ _. v)
      (λ p _. if_ind P (cancel_proposal k w.db).0 (cancel_proposal-IsValid k w.db v) v)

create_proposal-IsValid :
    (g proposer : ℕ) (title description : Option String) (x : ℕ) (members : List ℕ) (hours : ℕ)
    (db : Db)
    → IsValid db
    → IsValid (create_proposal g proposer title description (x ∷ members) hours db).1
unfolding create_proposal new_row
create_proposal-IsValid g proposer title description x members hours db v =
    if_ind {A = Option Proposal × Db} (λ out. IsValid out.1) (leb 5 (count_active_by_guild g db)) v
      (inserted-IsValid db (new_row g proposer title description (x ∷ members) hours db) refl
        (new_row-Fits g proposer title description x members hours db) v)

pub submit_proposal-IsValid :
    (g proposer : ℕ) (title description : Option String) (members : List ℕ) (hours : ℕ) (w : World)
    → IsValid w.db
    → IsValid (submit_proposal g proposer title description members hours w).1.db
unfolding submit_proposal
submit_proposal-IsValid g proposer title description [] hours w v = v
submit_proposal-IsValid g proposer title description (x ∷ members) hours w v =
    let P : Result Proposal AssemblyError × World → Type 0 = λ out. IsValid out.1.db in
    let made = create_proposal g proposer title description (x ∷ members) hours w.db in
    if_ind P (leb 5 (count_active_by_guild g w.db)) v (
      option_cases P made.0 _ _ (λ _. v)
        (λ p _. create_proposal-IsValid g proposer title description x members hours w.db v))

expire_row-IsValid :
    (r : Row) (w : World)
    → find (pid r) w.db.rows ≡ some r
    → IsValid w.db
    → IsValid (expire_one r.proposal w).db
unfolding expire_one compute_totals fetch_tally tally_of fetch_votes mark_status
expire_row-IsValid r w e v =
    let counted : count_votes is_approve (votes_in (find (pid r) w.db.rows))
        ≡ count_votes is_approve r.votes =
      ap (λ o. count_votes is_approve (votes_in o)) e in
    if_cases {A = World} (λ out. IsValid out.db)
      (leb r.proposal.threshold_t (count_votes is_approve (votes_in (find (pid r) w.db.rows))))
      (λ enough.
        updated-IsValid (pid r) (set_status w.db.now passed) w.db r (λ x. refl) e
          (ground (arith, counted, enough)) v)
      (λ few.
        updated-IsValid (pid r) (set_status w.db.now timed_out) w.db r (λ x. refl) e
          (ground (arith, counted, few)) v)

expire_one-IsValid :
    (p : Proposal) (w : World) → IsFetched w.db.rows p → IsValid w.db → IsValid (expire_one p w).db
expire_one-IsValid p w fetched v = elim (Option-cases (find p.proposal_id w.db.rows)) [
  | inl e ↦ ground (arith, sym (ap proposal_in e) ∙ fetched)
  | inr (r, e) ↦
      let own : r.proposal ≡ p =
        Option.some-injective r.proposal p (sym (ap proposal_in e) ∙ fetched) in
      subst (λ q. IsValid (expire_one q w).db) own
        (expire_row-IsValid r w (find_own p.proposal_id w.db.rows r e) v)
]

-- The proposals still to come are found as before.
IsFetched-after :
    (p : Proposal) (ps : List Proposal) (w : World)
    → any (same_id p) ps ≡ false
    → All (IsFetched w.db.rows) ps
    → All (IsFetched (expire_one p w).db.rows) ps
unfolding expire_one mark_status
IsFetched-after p [] w e a = tt
IsFetched-after p (q ∷ ps) w e a = (
  (let apart : (q.proposal_id == p.proposal_id) ≡ false = ground (arith, e) in
      let kept : (s : Status) → IsFetched (mark_status p.proposal_id s w.db).rows q = λ s.
        ap proposal_in (
          find-update_other q.proposal_id p.proposal_id (set_status w.db.now s) w.db.rows
            (λ r. refl) apart)
        ∙ a.0 in
      if_ind {A = World} (λ out. IsFetched out.db.rows q)
        (leb p.threshold_t (compute_totals p w.db).approve) (kept passed) (kept timed_out)),
  IsFetched-after p ps w (ground (arith, e)) a.1,
)

expire_each-IsValid :
    (ps : List Proposal) (changed : ℕ) (w : World)
    → Exclusive same_id ps
    → All (IsFetched w.db.rows) ps
    → IsValid w.db
    → IsValid (expire_each ps changed w).1.db
unfolding expire_each
expire_each-IsValid [] changed w d a v = v
expire_each-IsValid (p ∷ ps) changed w d a v =
    expire_each-IsValid ps (suc changed) (expire_one p w) d.1 (IsFetched-after p ps w d.0 a.1)
      (expire_one-IsValid p w a.0 v)

pub expire_due_proposals-IsValid :
    (w : World) → IsValid w.db → IsValid (expire_due_proposals w).1.db
unfolding expire_due_proposals list_due_proposals
expire_due_proposals-IsValid w v =
    let q = is_due w.db.now in
    expire_each-IsValid (proposals_where q w.db.rows) 0 w
      (proposals_where-Exclusive q w.db.rows v.keyed) (All-IsFetched q w.db.rows v.keyed) v
