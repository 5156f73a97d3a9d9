-- ===== src/Council/Settled.antt =====
-- Lemmas on a settled proposal under the operations of the service.
use mathlib.Core.Option
use mathlib.Core.Path.{subst}
use dro_asms.Prelude.{
  ℕ, ◌≡◌, refl, sym, ap, ◌∙◌, ◌≢◌, Bool, true, false, ◌&&◌, Option, none, some, List, [], ◌∷◌, map,
  arith, keep, All, elem, leb, length, ◌==◌, ==_iff, Bool-cases, Option-cases, inl, inr, if_ind,
  ne→==, ==→ne,
}
use dro_asms.Prelude.Dict.{Dict}
use dro_asms.Council.Defs.{Status, is_in_progress, Choice, ErrorText, Proposal, VoteTotals, Row, Db}
use dro_asms.Council.Gateway.{
  pid, find, update, cancel_row, cancel_proposal, vote_row, remind_row, upsert_vote, mark_reminded,
  mark_status, fetch_proposal, fetch_snapshot, list_due_proposals,
}
use dro_asms.Council.Service.{
  Services, Error, valid_choice, W, write, cancel, vote_transaction, vote_fetched, vote,
  compute_totals, expire_each, expire_one, expire_due_proposals,
}
use dro_asms.Council.Rows.{KeepsKey, find-update, find-pid, UniqueIds}
use dro_asms.Council.Invariant.{cancel_row-KeepsKey, vote_row-KeepsKey, remind_row-KeepsKey}
use dro_asms.Council.Safety.{evaluate-Keeps, expire_one-Keeps}
use dro_asms.Result.{Result}
use dro_asms.Council.Decisions.{fetch_proposal_lem}
use dro_asms.Council.Voting.{Holds, find-mark_status}

find-none :
    (k : ℕ) (r : Row) (rs : List Row) → find k (r ∷ rs) ≡ none → (k ≢ pid r) × (find k rs ≡ none)
unfolding find
find-none k r rs h = ground arith

fetch_absent : (k : ℕ) (db : Db) → find k db.rows ≡ none → fetch_proposal k db ≡ none
unfolding fetch_proposal
fetch_absent k db h = rw (h, fetch_proposal)

fetched_status :
    (k : ℕ) (db : Db) (p : Proposal) (r : Row)
    → fetch_proposal k db ≡ some p
    → find k db.rows ≡ some r
    → p.status ≡ r.proposal.status
fetched_status k db p r fetched found =
    ap (λ q. q.status)
      (Option.some-injective p r.proposal (sym fetched ∙ fetch_proposal_lem k db r found))

pub fetched_pid :
    (k : ℕ) (db : Db) (p : Proposal) → fetch_proposal k db ≡ some p → p.proposal_id ≡ k
fetched_pid k db p fetched = elim (Option-cases (find k db.rows)) [
  | inl absent ↦ cc (fetched, fetch_absent k db absent)
  | inr (r, found) ↦
      ap (λ q. q.proposal_id)
        (Option.some-injective p r.proposal (sym fetched ∙ fetch_proposal_lem k db r found))
      ∙ find-pid k db.rows found
]

-- The row of `k` has the status `s` and the votes `d`.
abbrev pub Stays : ℕ → Status → Dict Choice → Db → Type 0
Stays k s d db = Holds (λ u. u ≡ s) k d db

module _ (k : ℕ) (s : Status) (d : Dict Choice) (done : is_in_progress s ≡ false) where
  Stays-update :
      (j : ℕ) (f : Row → Row) (db : Db)
      → KeepsKey f
      → ((r : Row)
          → is_in_progress r.proposal.status ≡ false
          → ((f r).proposal.status ≡ r.proposal.status) × ((f r).votes ≡ r.votes))
      → Stays k s d db
      → Stays k s d (record db { rows = update j f db.rows })
  Stays-update j f db keeps same (r, found, is_s, is_d) = elim (Bool-cases (k == j)) [
    | inl e ↦ (
      f r,
      find-update j f keeps k db.rows ∙ rw (e, found),
      (same r (rw is_s done)).0 ∙ is_s,
      (same r (rw is_s done)).1 ∙ is_d,
    )
    | inr ne ↦ (r, find-update j f keeps k db.rows ∙ rw ne found, is_s, is_d)
  ]

  Stays-update_ne :
      (j : ℕ) (f : Row → Row) (db : Db)
      → KeepsKey f
      → k ≢ j
      → Stays k s d db
      → Stays k s d (record db { rows = update j f db.rows })
  Stays-update_ne j f db keeps ne (r, found, is_s, is_d) =
      (r, find-update j f keeps k db.rows ∙ rw (ne→== k j ne) found, is_s, is_d)

  Stays-mark_status :
      (j : ℕ) (t : Status) (tx : Option ℕ) (e : Option ErrorText) (db : Db)
      → k ≢ j
      → is_in_progress t ≡ false
      → Stays k s d db
      → Stays k s d (mark_status j t tx e db)
  Stays-mark_status j t tx e db ne h (r, found, is_s, is_d) =
      (r, find-mark_status k j t tx e db h ∙ rw (ne→== k j ne) found, is_s, is_d)

  Stays-cancel_proposal : (j : ℕ) (db : Db) → Stays k s d db → Stays k s d (cancel_proposal j db).1
  unfolding cancel_proposal
  Stays-cancel_proposal j db h = elim (Option-cases (find j db.rows)) [
    | inl absent ↦ rw (absent, cancel_proposal) h
    | inr (r, found) ↦
        rw (found, cancel_proposal)
          (if_ind {A = Bool × Db} (λ x. Stays k s d x.1) (length r.votes == 0)
            (Stays-update j (cancel_row db.now) db (cancel_row-KeepsKey db.now)
              (λ r' settled. rw settled (refl, refl)) h)
            h)
  ]

  pub Stays-mark_reminded : (j : ℕ) (db : Db) → Stays k s d db → Stays k s d (mark_reminded j db)
  unfolding mark_reminded
  Stays-mark_reminded j db h =
      Stays-update j (remind_row db.now) db (remind_row-KeepsKey db.now) (λ r _. (refl, refl)) h

  Stays-upsert_vote :
      (j voter : ℕ) (c : Choice) (db : Db)
      → k ≢ j
      → Stays k s d db
      → Stays k s d (upsert_vote j voter c db)
  unfolding upsert_vote
  Stays-upsert_vote j voter c db ne h =
      Stays-update_ne j (vote_row voter c) db (vote_row-KeepsKey voter c) ne h

  -- A due proposal is in progress, so it is another one.
  abbrev Others : List Row → Type 0
  Others rs = All (λ p. k ≢ p.proposal_id) (map (λ r. r.proposal) rs)

  due_absent : (q : Row → Bool) (rs : List Row) → find k rs ≡ none → Others (keep q rs)
  unfolding find
  due_absent q [] h = tt
  due_absent q (r ∷ rs) h =
      let rest = due_absent q rs (find-none k r rs h).1 in
      if_ind Others (q r) ((find-none k r rs h).0, rest) rest

  due-Others :
      (q : Row → Bool) (rs : List Row) (r : Row)
      → ((x : Row) → q x ≡ true → is_in_progress x.proposal.status ≡ true)
      → UniqueIds rs
      → find k rs ≡ some r
      → r.proposal.status ≡ s
      → Others (keep q rs)
  unfolding find
  due-Others q [] r active u found is_s = tt
  due-Others q (x ∷ rs) r active u found is_s = elim (Bool-cases (k == pid x)) [
    | inl e ↦
        let rest = due_absent q rs (rw ((==_iff k (pid x)).0 e) u.0) in
        let same : x ≡ r = Option.some-injective x r (rw e at found) in
        elim (Bool-cases (q x)) [
          | inl due ↦ cc (active x due, same, is_s, done)
          | inr not_due ↦ rw not_due rest
        ]
    | inr ne ↦
        let rest = due-Others q rs r active u.1 (rw ne at found) is_s in
        if_ind Others (q x) (==→ne k (pid x) ne, rest) rest
  ]

  module _ (env : Services) where
    pub Stays-cancel : (j : ℕ) (w : W env) → Stays k s d w.db → Stays k s d (cancel env j w).1.db
    unfolding cancel
    Stays-cancel j w h = elim (Option-cases (fetch_proposal j w.db)) [
      | inl absent ↦ rw (absent, cancel) h
      | inr (p, found) ↦ elim (Bool-cases (cancel_proposal j w.db).0) [
        | inl yes_done ↦ rw (found, yes_done, cancel) (Stays-cancel_proposal j w.db h)
        | inr refused ↦ rw (found, refused, cancel) (Stays-cancel_proposal j w.db h)
      ]
    ]

    Stays-vote_transaction :
        (p : Proposal) (voter : ℕ) (c : Choice) (w : W env)
        → k ≢ p.proposal_id
        → Stays k s d w.db
        → Stays k s d (vote_transaction env p voter c w).1.db
    unfolding vote_transaction
    Stays-vote_transaction p voter c w ne h =
        let w1 : W env = write env (upsert_vote p.proposal_id voter c) w in
        evaluate-Keeps env p (Stays k s d)
          (λ t tx e db settled q. Stays-mark_status p.proposal_id t tx e db ne settled q)
          (compute_totals p.proposal_id p w1.db) w1
          (Stays-upsert_vote p.proposal_id voter c w.db ne h)

    -- What was fetched is the row itself, so a vote on the settled proposal stops at its status.
    Stays-vote_fetched :
        (p : Proposal) (voter : ℕ) (c : Choice) (w : W env)
        → fetch_proposal p.proposal_id w.db ≡ some p
        → Stays k s d w.db
        → Stays k s d (vote_fetched env p voter c w).1.db
    unfolding vote_fetched
    Stays-vote_fetched p voter c w fetched h = elim (Bool-cases (k == p.proposal_id)) [
      | inl e ↦
          let same : k ≡ p.proposal_id = (==_iff k p.proposal_id).0 e in
          let row_found : find p.proposal_id w.db.rows ≡ some h.0 = rw (← same) (h.1) in
          let stopped : is_in_progress p.status ≡ false =
            rw (fetched_status p.proposal_id w.db p h.0 fetched row_found, h.2) done in
          rw stopped h
      | inr ne ↦
          let Q : Result (VoteTotals × Status) Error × W env → Type 0 = λ x. Stays k s d x.1.db in
          if_ind Q (is_in_progress p.status)
            (if_ind Q (elem voter (fetch_snapshot p.proposal_id w.db))
              (Stays-vote_transaction p voter c w (==→ne k p.proposal_id ne) h) h)
            h
    ]

    pub Stays-vote :
        (j voter : ℕ) (c : Choice) (w : W env)
        → Stays k s d w.db
        → Stays k s d (vote env j voter c w).1.db
    unfolding vote
    Stays-vote j voter c w h = elim (Bool-cases (valid_choice c)) [
      | inl valid ↦ elim (Option-cases (fetch_proposal j w.db)) [
        | inl absent ↦ rw (valid, absent, vote) h
        | inr (p, found) ↦
            rw (valid, found, vote)
              (Stays-vote_fetched p voter c w
                (subst (λ m. fetch_proposal m w.db ≡ some p) (sym (fetched_pid j w.db p found))
                  found)
                h)
      ]
      | inr invalid ↦ rw invalid h
    ]

    Stays-expire_each :
        (ps : List Proposal) (w : W env)
        → All (λ p. k ≢ p.proposal_id) ps
        → Stays k s d w.db
        → Stays k s d (expire_each env ps w).1.db
    unfolding expire_each
    Stays-expire_each [] w ne h = h
    Stays-expire_each (p ∷ ps) w ne h = Stays-expire_each ps (expire_one env p w).1 ne.1 (
        expire_one-Keeps env p (Stays k s d)
          (λ t tx e db settled q. Stays-mark_status p.proposal_id t tx e db ne.0 settled q) w h)

    pub Stays-expire_due_proposals :
        (w : W env)
        → UniqueIds w.db.rows
        → Stays k s d w.db
        → Stays k s d (expire_due_proposals env w).1.db
    unfolding expire_due_proposals list_due_proposals
    Stays-expire_due_proposals w u (r, found, is_s, is_d) =
        Stays-expire_each
          (map (λ x. x.proposal)
            (keep (λ x. is_in_progress x.proposal.status && leb x.proposal.deadline_at w.db.now)
              w.db.rows))
          w
          (due-Others (λ x. is_in_progress x.proposal.status && leb x.proposal.deadline_at w.db.now)
            w.db.rows r (λ x due. ground arith) u found is_s)
          (r, found, is_s, is_d)
