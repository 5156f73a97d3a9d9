-- ===== src/Assembly/Standing.antt =====
-- What the status of a proposal says of its votes, under the service's operations.
use Prim.Native.String.{String}
use dro_asms.Prelude.{
  ℕ, suc, ◌+◌, ◌-◌, ◌≡◌, refl, ◌≤◌, ◌<◌, false, Option, some, List, [], ◌∷◌, ◌++◌, length, arith,
  All, leb, ltb, if◌then◌else◌,
}
use dro_asms.Prelude.Exclusive.{any, Exclusive, Exclusive-append_one}
use dro_asms.Council.Gateway.{from_keys}
use dro_asms.Assembly.Defs.{
  Status, in_progress, passed, rejected, timed_out, cancelled, Proposal, Row, Db, pid, find, update,
  new_row, is_approve, count_votes,
}
use dro_asms.Assembly.Service.{World, VoteTotals, publish, settle, vote_cast}
use dro_asms.Assembly.Rows.{
  same_pid, All-update, Exclusive-update, All-update_each, All-append, All-weaken, length-from_keys,
}

-- `approvals` and `remaining` votes against the `threshold`.
abbrev pub Fits : Status → (approvals remaining threshold total : ℕ) → Type 0
Fits in_progress a r t n = (a < t) × (t ≤ a + r)
Fits passed a r t n = t ≤ a
Fits rejected a r t n = a + r < t
Fits timed_out a r t n = a < t
Fits cancelled a r t n = n ≡ 0

abbrev pub RowFits : Row → Type 0
RowFits r =
    Fits r.proposal.status (count_votes is_approve r.votes) (r.proposal.snapshot_n - length r.votes)
      r.proposal.threshold_t (length r.votes)

abbrev pub IsBelow : ℕ → Row → Type 0
IsBelow n r = pid r < n

-- Every status fits the votes, and the numbers of the proposals are distinct ones that were given.
pub record IsValid (db : Db) : Type 0 where
  pub fitting : All RowFits db.rows
  pub keyed : Exclusive same_pid db.rows
  pub below : All (IsBelow db.next_id) db.rows

same_pid_symmetric : (r s : Row) → same_pid r s ≡ same_pid s r
same_pid_symmetric r s = ground arith

unused_pid :
    (r : Row) (n : ℕ) (rows : List Row)
    → pid r ≡ n
    → All (IsBelow n) rows
    → any (same_pid r) rows ≡ false
unused_pid r n [] e a = refl
unused_pid r n (s ∷ rows) e a = ground (arith, unused_pid r n rows e a.1)

pub updated-IsValid :
    (k : ℕ) (f : Row → Row) (db : Db) (r : Row)
    → ((s : Row) → pid (f s) ≡ pid s)
    → find k db.rows ≡ some r
    → RowFits (f r)
    → IsValid db
    → IsValid (record db { rows = update k f db.rows })
updated-IsValid k f db r same e fits v = record {
  fitting = All-update RowFits k f db.rows r e (λ _. fits) v.fitting;
  keyed = Exclusive-update k f db.rows same v.keyed;
  below =
      All-update_each (IsBelow db.next_id) k f db.rows (λ s b. ground (arith, same s, b)) v.below;
}

pub new_row-Fits :
    (g proposer : ℕ) (title description : Option String) (x : ℕ) (members : List ℕ) (hours : ℕ)
    (db : Db)
    → RowFits (new_row g proposer title description (x ∷ members) hours db)
unfolding new_row from_keys count_votes
new_row-Fits g proposer title description x members hours db =
    let some_member : 1 ≤ length (from_keys (x ∷ []) members) = length-from_keys (x ∷ []) members in
    (ground arith, ground (arith, some_member))

pub inserted-IsValid :
    (db : Db) (r : Row)
    → pid r ≡ db.next_id
    → RowFits r
    → IsValid db
    → IsValid (record db { rows = db.rows ++ (r ∷ []); next_id = suc db.next_id })
inserted-IsValid db r e fits v = record {
  fitting = All-append RowFits db.rows r v.fitting fits;
  keyed =
      Exclusive-append_one same_pid db.rows r same_pid_symmetric v.keyed
        (unused_pid r db.next_id db.rows e v.below);
  below =
      All-append (IsBelow (suc db.next_id)) db.rows r
        (All-weaken (IsBelow db.next_id) (IsBelow (suc db.next_id)) db.rows
          (λ s b. ground (arith, b)) v.below)
        (ground (arith, e));
}

-- The body of `evaluate`, for given totals.
abbrev pub judge : VoteTotals → Proposal → World → (VoteTotals × Status) × World
judge t p w =
    if leb p.threshold_t t.approve
    then ((t, passed), settle p passed w)
    else if ltb (t.approve + t.remaining_unvoted) p.threshold_t
    then ((t, rejected), settle p rejected w)
    else ((t, in_progress), publish (vote_cast p.guild_id p.proposal_id) w)
