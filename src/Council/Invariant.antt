-- ===== src/Council/Invariant.antt =====
-- The invariant of the council's tables, and lemmas on the writes of the gateway.
use dro_asms.Prelude.{
  ℕ, suc, ◌+◌, ◌/◌, ◌≤◌, ◌<◌, ◌≡◌, refl, ap, sym, ◌&&◌, true, false, Option, some, List, [], ◌∷◌,
  arith, length, elem, All, leb, leb→lt, Bool-cases, Option-cases, inl, inr, ◌==◌, if◌then◌else◌,
}
use Prim.Native.String.{String}
use dro_asms.Prelude.Int.{ℤ}
use dro_asms.Council.Defs.{Status, is_in_progress, Choice, ErrorText, Row, Db}
use dro_asms.Council.Gateway.{
  pid, find, update, count_active, new_row, insert_row, create_proposal, cancel_proposal,
  cancel_row, cancel_found, mark_status, mark_row, upsert_vote, vote_row, mark_reminded, remind_row,
  fetch_snapshot,
}
use dro_asms.Council.Service.{valid_choice}
use dro_asms.Council.Votes.{NoRepeat, Distinct, VotersIn, Distinct-insert, VotersIn-insert}
use dro_asms.Council.Snapshot.{members-NoRepeat, members_fixed}
use dro_asms.Council.Rows.{
  KeepsKey, count_active-update, UniqueIds, UniqueIds-update, All-update, All-append, Below,
  Below-find, UniqueIds-append, count_active-append,
}

-- The snapshot has `snapshot_n` members, each once, and the threshold is a strict majority of
-- them; each voter is a member, with one vote for one of the three choices.
pub record RowValid (r : Row) : Type 0 where
  pub size : r.proposal.snapshot_n ≡ length r.snapshot
  pub majority : r.proposal.threshold_t ≡ r.proposal.snapshot_n / 2 + 1
  pub members : NoRepeat r.snapshot
  pub one_vote : Distinct r.votes
  pub voters : VotersIn r.snapshot r.votes

Below-suc : (n : ℕ) (rs : List Row) → Below n rs → Below (suc n) rs
Below-suc n [] b = tt
Below-suc n (r ∷ rs) b = (omega arith, Below-suc n rs b.1)

-- Each row is valid, keys are unique and below the next one, and no guild has more than five
-- proposals in progress.
pub record IsValid (db : Db) : Type 0 where
  pub rows_valid : All RowValid db.rows
  pub unique : UniqueIds db.rows
  pub below : Below db.next_id db.rows
  pub at_most_five : (g : ℕ) → count_active g db.rows ≤ 5

module _ (k : ℕ) (f : Row → Row) (db : Db) (keeps : KeepsKey f) (v : IsValid db) where
  -- A change of the rows with one key keeps the invariant, if it keeps that row's.
  pub update-IsValid :
      ((r : Row) → find k db.rows ≡ some r → RowValid r → RowValid (f r))
      → IsValid (record db { rows = update k f db.rows })
  update-IsValid h = record {
    rows_valid = All-update RowValid k f db.rows v.unique h v.rows_valid;
    unique = UniqueIds-update k f db.rows keeps v.unique;
    below =
        All-update (λ r. pid r < db.next_id) k f db.rows v.unique (λ r _ b. rw (keeps.same_id r) b)
          v.below;
    at_most_five = λ g. omega (arith, count_active-update k f keeps g db.rows, v.at_most_five g);
  }

pub mark_row-KeepsKey :
    (s : Status) (tx : Option ℕ) (e : Option ErrorText) (t : ℕ)
    → is_in_progress s ≡ false
    → KeepsKey (mark_row s tx e t)
mark_row-KeepsKey s tx e t h = record {
  same_id = λ r. refl;
  same_guild = λ r. refl;
  not_revived = λ r q. cc;
}

pub cancel_row-KeepsKey : (t : ℕ) → KeepsKey (cancel_row t)
cancel_row-KeepsKey t = record {
  same_id = λ r. ground arith;
  same_guild = λ r. ground arith;
  not_revived = λ r q. ground arith;
}

pub vote_row-KeepsKey : (voter : ℕ) (c : Choice) → KeepsKey (vote_row voter c)
vote_row-KeepsKey voter c = record {
  same_id = λ r. refl;
  same_guild = λ r. refl;
  not_revived = λ r q. q;
}

pub remind_row-KeepsKey : (t : ℕ) → KeepsKey (remind_row t)
remind_row-KeepsKey t = record {
  same_id = λ r. refl;
  same_guild = λ r. refl;
  not_revived = λ r q. q;
}

pub mark_status-IsValid :
    (k : ℕ) (s : Status) (tx : Option ℕ) (e : Option ErrorText) (db : Db)
    → is_in_progress s ≡ false
    → IsValid db
    → IsValid (mark_status k s tx e db)
unfolding mark_status
mark_status-IsValid k s tx e db h v =
    update-IsValid k (mark_row s tx e db.now) db (mark_row-KeepsKey s tx e db.now h) v (λ r _ q.
      record {
        size = q.size;
        majority = q.majority;
        members = q.members;
        one_vote = q.one_vote;
        voters = q.voters;
      })

pub mark_reminded-IsValid : (k : ℕ) (db : Db) → IsValid db → IsValid (mark_reminded k db)
unfolding mark_reminded
mark_reminded-IsValid k db v =
    update-IsValid k (remind_row db.now) db (remind_row-KeepsKey db.now) v (λ r _ q. record {
      size = q.size;
      majority = q.majority;
      members = q.members;
      one_vote = q.one_vote;
      voters = q.voters;
    })

cancel_row-RowValid : (t : ℕ) (r : Row) → RowValid r → RowValid (cancel_row t r)
cancel_row-RowValid t r q = ground arith

cancel_found-IsValid : (k : ℕ) (r : Row) (db : Db) → IsValid db → IsValid (cancel_found k r db).1
cancel_found-IsValid k r db v = elim (Bool-cases (length r.votes == 0)) [
  | inl unvoted ↦ rw unvoted (
      update-IsValid k (cancel_row db.now) db (cancel_row-KeepsKey db.now) v
        (λ s _ q. cancel_row-RowValid db.now s q))
  | inr voted ↦ rw voted v
]

pub cancel_proposal-IsValid : (k : ℕ) (db : Db) → IsValid db → IsValid (cancel_proposal k db).1
unfolding cancel_proposal
cancel_proposal-IsValid k db v = elim (Option-cases (find k db.rows)) [
  | inl absent ↦ rw (absent, cancel_proposal) v
  | inr (r, found) ↦ rw (found, cancel_proposal) (cancel_found-IsValid k r db v)
]

pub upsert_vote-IsValid :
    (k voter : ℕ) (c : Choice) (db : Db)
    → elem voter (fetch_snapshot k db) ≡ true
    → valid_choice c ≡ true
    → IsValid db
    → IsValid (upsert_vote k voter c db)
unfolding upsert_vote fetch_snapshot
upsert_vote-IsValid k voter c db m h v =
    update-IsValid k (vote_row voter c) db (vote_row-KeepsKey voter c) v (λ r found q. record {
      size = q.size;
      majority = q.majority;
      members = q.members;
      one_vote = Distinct-insert voter c r.votes q.one_vote;
      voters = VotersIn-insert r.snapshot voter c r.votes (ground arith) h q.voters;
    })

insert_row-IsValid :
    (r : Row) (db : Db)
    → RowValid r
    → pid r ≡ db.next_id
    → count_active r.proposal.guild_id db.rows < 5
    → IsValid db
    → IsValid (insert_row r db)
insert_row-IsValid r db q key few v = record {
  rows_valid = All-append RowValid db.rows r v.rows_valid q;
  unique = UniqueIds-append db.rows r (rw key (Below-find db.next_id db.rows v.below)) v.unique;
  below =
      All-append (λ s. pid s < suc db.next_id) db.rows r (Below-suc db.next_id db.rows v.below)
        (omega arith);
  at_most_five = λ g. rw (count_active-append g db.rows r) (insert_row_limit g);
}
  where
    insert_row_limit :
        (g : ℕ)
        → count_active g db.rows
            + (if g == r.proposal.guild_id && is_in_progress r.proposal.status then 1 else 0)
          ≤ 5
    insert_row_limit g = ground (arith, v.at_most_five g)

new_row-RowValid :
    (g : ℕ) (proposer target amt : ℤ) (desc url : Option String) (members : List ℕ)
    (dept : Option String) (db : Db)
    → RowValid (new_row g proposer target amt desc url members dept db)
unfolding new_row
new_row-RowValid g proposer target amt desc url members dept db = record {
  size = ap length (sym (members_fixed members));
  majority = refl;
  members = rw (members_fixed members) (members-NoRepeat members);
  one_vote = tt;
  voters = tt;
}

pub create_proposal-IsValid :
    (g : ℕ) (proposer target amt : ℤ) (desc url : Option String) (members : List ℕ)
    (dept : Option String) (db : Db)
    → IsValid db
    → IsValid (create_proposal g proposer target amt desc url members dept db).1
unfolding create_proposal
create_proposal-IsValid g proposer target amt desc url members dept db v =
    elim (Bool-cases (leb 5 (count_active g db.rows))) [
      | inl full ↦ rw full v
      | inr room ↦ rw room (
          insert_row-IsValid (new_row g proposer target amt desc url members dept db) db
            (new_row-RowValid g proposer target amt desc url members dept db) refl
            (leb→lt 5 (count_active g db.rows) room) v)
    ]
