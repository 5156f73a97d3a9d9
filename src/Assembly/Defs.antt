-- ===== src/Assembly/Defs.antt =====
-- The tables of the supreme assembly and the gateway's statements. A proposal stands with its
-- snapshot and its votes, in the order in which they were cast. A proposal's number is a primary
-- key: an UPDATE writes one row.
use Prim.Native.String.{String}
use dro_asms.Prelude.{
  ℕ, suc, ◌+◌, ◌*◌, ◌/◌, Bool, true, false, not, ◌&&◌, Option, none, some, List, [], ◌∷◌, ◌++◌, map,
  keep, take, length, leb, ◌==◌, if◌then◌else◌,
}
use dro_asms.Prelude.Dict.{Dict, insert, lookup, contains}
use dro_asms.Council.Gateway.{from_keys}

-- 進行中, 已通過, 已否決, 已逾時 and 已撤案
pub data Status : Type 0 where
  in_progress passed rejected timed_out cancelled : Status

abbrev pub is_in_progress : Status → Bool
is_in_progress in_progress = true
is_in_progress _ = false

pub data Choice : Type 0 where
  approve reject abstain : Choice

pub record Proposal : Type 0 where
  pub proposal_id : ℕ
  pub guild_id : ℕ
  pub proposer_id : ℕ
  pub title : Option String
  pub description : Option String
  pub snapshot_n : ℕ
  pub threshold_t : ℕ
  pub deadline_at : ℕ
  pub status : Status
  pub reminder_sent : Bool
  pub created_at : ℕ
  pub updated_at : ℕ

pub record Row : Type 0 where
  pub proposal : Proposal
  pub snapshot : List ℕ
  pub votes : Dict Choice

pub record Tally : Type 0 where
  pub approve : ℕ
  pub reject : ℕ
  pub abstain : ℕ
  pub total_voted : ℕ

pub record Config : Type 0 where
  pub speaker_role_id : ℕ
  pub member_role_id : ℕ

pub record Summon : Type 0 where
  pub summon_id : ℕ
  pub guild_id : ℕ
  pub invoked_by : ℕ
  pub target_id : ℕ
  pub target_kind : String
  pub note : Option String
  pub delivered_at : Option ℕ
  pub created_at : ℕ

pub record Db : Type 0 where
  pub configs : Dict Config
  pub rows : List Row
  pub next_id : ℕ
  pub summons : List Summon
  pub next_summon : ℕ
  pub now : ℕ

abbrev pub pid : Row → ℕ
pid r = r.proposal.proposal_id

unfoldable pub find : ℕ → List Row → Option Row
find k [] = none
find k (r ∷ rs) = let rest = find k rs in if pid r == k then some r else rest

unfoldable pub update : ℕ → (Row → Row) → List Row → List Row
update k f [] = []
update k f (r ∷ rs) = let rest = update k f rs in if pid r == k then f r ∷ rs else r ∷ rest

abbrev pub set_status : ℕ → Status → Row → Row
set_status now s r = record r { proposal = record r.proposal { status = s; updated_at = now } }

abbrev pub add_vote : ℕ → Choice → Row → Row
add_vote voter c r = record r { votes = insert voter c r.votes }

unfoldable pub upsert_config : ℕ → Config → Db → Db
upsert_config g c db = record db { configs = insert g c db.configs }

unfoldable pub fetch_config : ℕ → Db → Option Config
fetch_config g db = lookup g db.configs

abbrev pub is_active_in : ℕ → Row → Bool
is_active_in g r = (r.proposal.guild_id == g) && is_in_progress r.proposal.status

unfoldable pub count_active_by_guild : ℕ → Db → ℕ
count_active_by_guild g db = length (keep (is_active_in g) db.rows)

unfoldable pub new_row : ℕ → ℕ → Option String → Option String → List ℕ → ℕ → Db → Row
new_row g proposer title description members deadline_hours db =
    let ids = from_keys [] members in
    record {
      proposal = record {
        proposal_id = db.next_id;
        guild_id = g;
        proposer_id = proposer;
        title = title;
        description = description;
        snapshot_n = length ids;
        threshold_t = length ids / 2 + 1;
        deadline_at = db.now + deadline_hours * 3600;
        status = in_progress;
        reminder_sent = false;
        created_at = db.now;
        updated_at = db.now;
      };
      snapshot = ids;
      votes = [];
    }

-- `none` where the guild has five active proposals, which the gateway counts once more.
unfoldable pub create_proposal :
    ℕ → ℕ → Option String → Option String → List ℕ → ℕ → Db → Option Proposal × Db
create_proposal g proposer title description members deadline_hours db =
    if leb 5 (count_active_by_guild g db)
    then (none, db)
    else let r = new_row g proposer title description members deadline_hours db in
      (some r.proposal, record db { rows = db.rows ++ (r ∷ []); next_id = suc db.next_id })

abbrev pub proposal_in : Option Row → Option Proposal
proposal_in none = none
proposal_in (some r) = some r.proposal

abbrev pub snapshot_in : Option Row → List ℕ
snapshot_in none = []
snapshot_in (some r) = r.snapshot

abbrev pub votes_in : Option Row → Dict Choice
votes_in none = []
votes_in (some r) = r.votes

unfoldable pub fetch_proposal : ℕ → Db → Option Proposal
fetch_proposal k db = proposal_in (find k db.rows)

unfoldable pub fetch_snapshot : ℕ → Db → List ℕ
fetch_snapshot k db = snapshot_in (find k db.rows)

-- Also `fetch_votes_detail`.
unfoldable pub fetch_votes : ℕ → Db → Dict Choice
fetch_votes k db = votes_in (find k db.rows)

unfoldable pub mark_status : ℕ → Status → Db → Db
mark_status k s db = record db { rows = update k (set_status db.now s) db.rows }

abbrev pub is_nil : {A : Type 0} → List A → Bool
is_nil [] = true
is_nil (x ∷ xs) = false

abbrev pub is_open : Option Row → Bool
is_open none = false
is_open (some r) = is_in_progress r.proposal.status && is_nil r.votes

-- True where a row was written: the proposal has no votes and is in progress.
unfoldable pub cancel_proposal : ℕ → Db → Bool × Db
cancel_proposal k db =
    if is_open (find k db.rows) then (true, mark_status k cancelled db) else (false, db)

-- `none` where the voter has voted.
unfoldable pub upsert_vote : ℕ → ℕ → Choice → Db → Option Db
upsert_vote k voter c db =
    if contains voter (fetch_votes k db)
    then none
    else some (record db { rows = update k (add_vote voter c) db.rows })

abbrev pub is_approve : Choice → Bool
is_approve approve = true
is_approve _ = false

abbrev pub is_reject : Choice → Bool
is_reject reject = true
is_reject _ = false

abbrev pub is_abstain : Choice → Bool
is_abstain abstain = true
is_abstain _ = false

unfoldable pub count_votes : (Choice → Bool) → Dict Choice → ℕ
count_votes p [] = 0
count_votes p ((v, c) ∷ d) = (if p c then 1 else 0) + count_votes p d

unfoldable pub tally_of : Dict Choice → Tally
tally_of d = record {
  approve = count_votes is_approve d;
  reject = count_votes is_reject d;
  abstain = count_votes is_abstain d;
  total_voted = length d;
}

unfoldable pub fetch_tally : ℕ → Db → Tally
fetch_tally k db = tally_of (fetch_votes k db)

abbrev pub is_due : ℕ → Row → Bool
is_due now r = is_in_progress r.proposal.status && leb r.proposal.deadline_at now

unfoldable pub list_due_proposals : Db → List Proposal
list_due_proposals db = map (λ r. r.proposal) (keep (is_due db.now) db.rows)

abbrev pub remind : ℕ → Row → Row
remind now r = record r { proposal = record r.proposal { reminder_sent = true; updated_at = now } }

unfoldable pub mark_reminded : ℕ → Db → Db
mark_reminded k db = record db { rows = update k (remind db.now) db.rows }

-- In the order of the snapshot, which the query sorts by number.
unfoldable pub list_unvoted_members : ℕ → Db → List ℕ
list_unvoted_members k db = keep (λ m. not (contains m (fetch_votes k db))) (fetch_snapshot k db)

unfoldable pub list_active_proposals : Db → List Proposal
list_active_proposals db =
    map (λ r. r.proposal) (keep (λ r. is_in_progress r.proposal.status) db.rows)

abbrev pub new_summon : ℕ → ℕ → ℕ → String → Option String → Db → Summon
new_summon g by target kind note db = record {
  summon_id = db.next_summon;
  guild_id = g;
  invoked_by = by;
  target_id = target;
  target_kind = kind;
  note = note;
  delivered_at = none;
  created_at = db.now;
}

unfoldable pub insert_summon : Summon → Db → Db
insert_summon s db = record db { summons = s ∷ db.summons; next_summon = suc db.next_summon }

unfoldable pub mark_summon_delivered : ℕ → Db → Db
mark_summon_delivered k db = record db {
  summons =
      map (λ s. if s.summon_id == k then record s { delivered_at = some db.now } else s) db.summons;
}

-- The latest first, which is the order of the table here.
unfoldable pub list_summons : ℕ → (limit : ℕ) → Db → List Summon
list_summons g limit db = take limit (keep (λ s. s.guild_id == g) db.summons)
