-- ===== src/Council/Gateway.antt =====
-- db/gateway/council_governance.py, each operation with the function of fn_council.sql that it
-- calls. A read is a function of the database, a write returns the new one.
use Prim.Native.String.{String}
use dro_asms.Prelude.{
  ℕ, suc, ◌+◌, ◌*◌, ◌/◌, Bool, true, false, ◌&&◌, not, Option, none, some, List, [], ◌∷◌, ◌++◌, map,
  length, elem, keep, leb, ◌==◌, if◌then◌else◌,
}
use dro_asms.Prelude.Int.{ℤ}
use dro_asms.Prelude.Dict.{Dict, lookup, contains, insert}
use dro_asms.Council.Defs.{
  Status, in_progress, cancelled, is_in_progress, Choice, approve, reject, abstain, ErrorText,
  CouncilConfig, Proposal, Tally, Row, Db,
}

abbrev pub pid : Row → ℕ
pid r = r.proposal.proposal_id

-- `list(dict.fromkeys(xs))`: each value where it stands first. `INSERT … ON CONFLICT DO NOTHING`
-- of a list does the same to a new snapshot.
unfoldable pub from_keys : List ℕ → List ℕ → List ℕ
from_keys seen [] = seen
from_keys seen (x ∷ xs) = from_keys (if elem x seen then seen else seen ++ (x ∷ [])) xs

-- `SELECT … WHERE proposal_id = $1`
unfoldable pub find : ℕ → List Row → Option Row
find k [] = none
find k (r ∷ rs) = let rest = find k rs in if k == pid r then some r else rest

-- `UPDATE … WHERE proposal_id = $1`
unfoldable pub update : ℕ → (Row → Row) → List Row → List Row
update k f [] = []
update k f (r ∷ rs) = (if k == pid r then f r else r) ∷ update k f rs

-- `COUNT(*) … WHERE guild_id = $1 AND status = '進行中'`
unfoldable pub count_active : ℕ → List Row → ℕ
count_active g [] = 0
count_active g (r ∷ rs) =
    (if g == r.proposal.guild_id && is_in_progress r.proposal.status then 1 else 0)
    + count_active g rs

-- fn_fetch_tally: `COUNT(*) … GROUP BY choice` and the sum of the counts.
abbrev pub is_approve : Choice → Bool
is_approve approve = true
is_approve _ = false

abbrev pub is_reject : Choice → Bool
is_reject reject = true
is_reject _ = false

abbrev pub is_abstain : Choice → Bool
is_abstain abstain = true
is_abstain _ = false

unfoldable pub count_votes : (Choice → Bool) → Dict Choice → ℕ
count_votes p [] = 0
count_votes p ((k, c) ∷ d) = (if p c then 1 else 0) + count_votes p d

unfoldable pub tally_of : Dict Choice → Tally
unfolding count_votes
tally_of d = record {
  approve = count_votes is_approve d;
  reject = count_votes is_reject d;
  abstain = count_votes is_abstain d;
  total_voted = length d;
}

unfoldable pub upsert_config : ℕ → ℕ → ℤ → Db → CouncilConfig × Db
upsert_config g role account db =
    let cfg : CouncilConfig = record {
      guild_id = g;
      council_role_id = role;
      council_account_member_id = account;
      created_at = elim (lookup g db.configs) [ none ↦ db.now | some old ↦ old.created_at ];
      updated_at = db.now;
    } in
    (cfg, record db { configs = insert g cfg db.configs })

unfoldable pub fetch_config : ℕ → Db → Option CouncilConfig
fetch_config g db = lookup g db.configs

unfoldable pub get_council_role_ids : ℕ → Db → List ℕ
get_council_role_ids g db = elim (lookup g db.role_ids) [ none ↦ [] | some ids ↦ ids ]

-- The rows that fn_create_proposal inserts. The threshold is `v_n / 2 + 1`, the deadline is in 72
-- hours, and the snapshot is inserted with `ON CONFLICT DO NOTHING`.
unfoldable pub new_row :
    ℕ → ℤ → ℤ → ℤ → Option String → Option String → List ℕ → Option String → Db → Row
unfolding from_keys
new_row g proposer target amt desc url members dept db =
    let ids = from_keys [] members in
    record {
      proposal = record {
        proposal_id = db.next_id;
        guild_id = g;
        proposer_id = proposer;
        target_id = target;
        amount = amt;
        description = desc;
        attachment_url = url;
        snapshot_n = length ids;
        threshold_t = length ids / 2 + 1;
        deadline_at = db.now + 72 * 3600;
        status = in_progress;
        reminder_sent = false;
        created_at = db.now;
        updated_at = db.now;
        target_department_id = dept;
      };
      execution_tx_id = none;
      execution_error = none;
      snapshot = from_keys [] ids;
      votes = [];
    }

abbrev pub insert_row : Row → Db → Db
insert_row r db = record db { rows = db.rows ++ (r ∷ []); next_id = suc db.next_id }

-- fn_create_proposal raises when the guild has five active proposals (`none`).
unfoldable pub create_proposal :
    ℕ
    → ℤ
    → ℤ
    → ℤ
    → Option String
    → Option String
    → List ℕ
    → Option String
    → Db
    → Option Proposal × Db
unfolding new_row count_active
create_proposal g proposer target amt desc url members dept db =
    let r = new_row g proposer target amt desc url members dept db in
    if leb 5 (count_active g db.rows) then (none, db) else (some r.proposal, insert_row r db)

unfoldable pub fetch_proposal : ℕ → Db → Option Proposal
unfolding find
fetch_proposal k db = elim (find k db.rows) [ none ↦ none | some r ↦ some r.proposal ]

unfoldable pub fetch_snapshot : ℕ → Db → List ℕ
unfolding find
fetch_snapshot k db = elim (find k db.rows) [ none ↦ [] | some r ↦ r.snapshot ]

unfoldable pub fetch_votes : ℕ → Db → Dict Choice
unfolding find
fetch_votes k db = elim (find k db.rows) [ none ↦ [] | some r ↦ r.votes ]

unfoldable pub fetch_tally : ℕ → Db → Tally
unfolding tally_of fetch_votes
fetch_tally k db = tally_of (fetch_votes k db)

unfoldable pub count_active_by_guild : ℕ → Db → ℕ
unfolding count_active
count_active_by_guild g db = count_active g db.rows

-- fn_attempt_cancel_proposal: only while it is in progress and nobody has voted.
abbrev pub cancel_row : ℕ → Row → Row
cancel_row t r =
    let p = r.proposal in
    if is_in_progress p.status
    then record r { proposal = record p { status = cancelled; updated_at = t } }
    else r

abbrev pub cancel_found : ℕ → Row → Db → Bool × Db
cancel_found k r db =
    if length r.votes == 0
    then (
      is_in_progress r.proposal.status,
      record db { rows = update k (cancel_row db.now) db.rows },
    )
    else (false, db)

unfoldable pub cancel_proposal : ℕ → Db → Bool × Db
unfolding find update
cancel_proposal k db = elim (find k db.rows) [ none ↦ (false, db) | some r ↦ cancel_found k r db ]

abbrev pub mark_row : Status → Option ℕ → Option ErrorText → ℕ → Row → Row
mark_row s tx e t r =
    let p = r.proposal in
    record r {
      proposal = record p { status = s; updated_at = t };
      execution_tx_id = tx;
      execution_error = e;
    }

unfoldable pub mark_status : ℕ → Status → Option ℕ → Option ErrorText → Db → Db
unfolding update
mark_status k s tx e db = record db { rows = update k (mark_row s tx e db.now) db.rows }

abbrev pub vote_row : ℕ → Choice → Row → Row
vote_row voter c r = record r { votes = insert voter c r.votes }

unfoldable pub upsert_vote : ℕ → ℕ → Choice → Db → Db
unfolding update
upsert_vote k voter c db = record db { rows = update k (vote_row voter c) db.rows }

unfoldable pub list_due_proposals : Db → List Proposal
list_due_proposals db =
    map (λ r. r.proposal)
      (keep (λ r. is_in_progress r.proposal.status && leb r.proposal.deadline_at db.now) db.rows)

-- `deadline_at - 24 hours <= now`, with no subtraction.
unfoldable pub list_reminder_candidates : Db → List Proposal
list_reminder_candidates db =
    map (λ r. r.proposal)
      (keep
        (λ r.
          is_in_progress r.proposal.status
          && not r.proposal.reminder_sent
          && leb r.proposal.deadline_at (db.now + 24 * 3600))
        db.rows)

unfoldable pub list_active_proposals : Db → List Proposal
list_active_proposals db =
    map (λ r. r.proposal) (keep (λ r. is_in_progress r.proposal.status) db.rows)

abbrev pub remind_row : ℕ → Row → Row
remind_row t r =
    let p = r.proposal in record r { proposal = record p { reminder_sent = true; updated_at = t } }

unfoldable pub mark_reminded : ℕ → Db → Db
unfolding update
mark_reminded k db = record db { rows = update k (remind_row db.now) db.rows }

-- The snapshot members with no vote.
abbrev pub unvoted : List ℕ → Dict Choice → List ℕ
unvoted snapshot d = keep (λ m. not (contains m d)) snapshot

unfoldable pub list_unvoted_members : ℕ → Db → List ℕ
unfolding find
list_unvoted_members k db = elim (find k db.rows) [
  | none ↦ []
  | some r ↦ unvoted r.snapshot r.votes
]
