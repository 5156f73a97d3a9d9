-- ===== src/Assembly/Service.antt =====
-- `class SupremeAssemblyService`: proposals, votes, deadlines and summons. The world is the tables
-- and the events published. Between two calls of the database nothing else runs. The account of the
-- assembly is left out.
use Prim.Native.String.{String}
use dro_asms.Prelude.{
  ℕ, suc, ◌+◌, ◌-◌, Bool, true, false, ◌||◌, Option, none, some, List, [], ◌∷◌, elem, leb, ltb,
  if◌then◌else◌,
}
use dro_asms.Prelude.Texts.{eqb_text}
use dro_asms.Result.{Result, ok, err}
use dro_asms.Assembly.Defs.{
  Status, in_progress, passed, rejected, timed_out, cancelled, is_in_progress, Choice, approve,
  reject, abstain, Proposal, Config, Summon, Db, is_nil, upsert_config, fetch_config,
  count_active_by_guild, create_proposal, fetch_proposal, fetch_snapshot, mark_status,
  cancel_proposal, upsert_vote, fetch_tally, list_due_proposals, new_summon, insert_summon,
}

pub data AssemblyError : Type 0 where
  not_configured no_members too_many_active proposal_not_found : AssemblyError
  not_in_snapshot vote_already_exists invalid_choice invalid_target_kind : AssemblyError

-- `SupremeAssemblyEvent`; the status goes with the kind.
pub data AssemblyEvent : Type 0 where
  proposal_created vote_cast : (guild_id proposal_id : ℕ) → AssemblyEvent
  proposal_status_changed : (guild_id proposal_id : ℕ) → Status → AssemblyEvent

pub record VoteTotals : Type 0 where
  pub approve : ℕ
  pub reject : ℕ
  pub abstain : ℕ
  pub threshold_t : ℕ
  pub snapshot_n : ℕ
  pub remaining_unvoted : ℕ

pub record World : Type 0 where
  pub db : Db
  pub events : List AssemblyEvent

abbrev pub publish : AssemblyEvent → World → World
publish e w = record w { events = e ∷ w.events }

abbrev pub with_db : Db → World → World
with_db d w = record w { db = d }

abbrev pub set_config : ℕ → Config → World → World
set_config g c w = with_db (upsert_config g c w.db) w

unfoldable pub get_config : ℕ → World → Result Config AssemblyError
get_config g w = elim (fetch_config g w.db) [ none ↦ err not_configured | some c ↦ ok c ]

unfoldable pub submit_proposal :
    ℕ
    → ℕ
    → Option String
    → Option String
    → List ℕ
    → ℕ
    → World
    → Result Proposal AssemblyError × World
submit_proposal g proposer title description members deadline_hours w =
    if is_nil members
    then (err no_members, w)
    else if leb 5 (count_active_by_guild g w.db)
    then (err too_many_active, w)
    else let (made, after) =
        create_proposal g proposer title description members deadline_hours w.db in
      elim made [
        | none ↦ (err too_many_active, w)
        | some p ↦ (ok p, publish (proposal_created p.guild_id p.proposal_id) (with_db after w))
      ]

unfoldable pub cancel : ℕ → World → Bool × World
cancel k w = elim (fetch_proposal k w.db) [
  | none ↦ (false, w)
  | some p ↦
      let (done, after) = cancel_proposal k w.db in
      if done
      then (true, publish (proposal_status_changed p.guild_id k cancelled) (with_db after w))
      else (false, w)
]

abbrev pub parse_choice : String → Option Choice
parse_choice s =
    if eqb_text s "approve"
    then some approve
    else if eqb_text s "reject"
    then some reject
    else if eqb_text s "abstain"
    then some abstain
    else none

unfoldable pub compute_totals : Proposal → Db → VoteTotals
compute_totals p d =
    let t = fetch_tally p.proposal_id d in
    record {
      approve = t.approve;
      reject = t.reject;
      abstain = t.abstain;
      threshold_t = p.threshold_t;
      snapshot_n = p.snapshot_n;
      remaining_unvoted = p.snapshot_n - t.total_voted;
    }

abbrev pub settle : Proposal → Status → World → World
settle p s w =
    publish (proposal_status_changed p.guild_id p.proposal_id s)
      (with_db (mark_status p.proposal_id s w.db) w)

unfoldable pub evaluate : Proposal → World → (VoteTotals × Status) × World
evaluate p w =
    let t = compute_totals p w.db in
    if leb p.threshold_t t.approve
    then ((t, passed), settle p passed w)
    else if ltb (t.approve + t.remaining_unvoted) p.threshold_t
    then ((t, rejected), settle p rejected w)
    else ((t, in_progress), publish (vote_cast p.guild_id p.proposal_id) w)

unfoldable pub vote_transaction :
    Proposal → ℕ → Choice → World → Result (VoteTotals × Status) AssemblyError × World
vote_transaction p voter c w = elim (upsert_vote p.proposal_id voter c w.db) [
  | none ↦ (err vote_already_exists, w)
  | some d ↦ let (answer, after) = evaluate p (with_db d w) in (ok answer, after)
]

unfoldable pub vote_fetched :
    Proposal → ℕ → Choice → World → Result (VoteTotals × Status) AssemblyError × World
vote_fetched p voter c w =
    if is_in_progress p.status
    then (if elem voter (fetch_snapshot p.proposal_id w.db)
        then vote_transaction p voter c w
        else (err not_in_snapshot, w))
    else (ok (compute_totals p w.db, p.status), w)

unfoldable pub vote : ℕ → ℕ → String → World → Result (VoteTotals × Status) AssemblyError × World
vote k voter choice w = elim (parse_choice choice) [
  | none ↦ (err invalid_choice, w)
  | some c ↦ elim (fetch_proposal k w.db) [
    | none ↦ (err proposal_not_found, w)
    | some p ↦ vote_fetched p voter c w
  ]
]

unfoldable pub expire_one : Proposal → World → World
expire_one p w =
    let t = compute_totals p w.db in
    if leb p.threshold_t t.approve then settle p passed w else settle p timed_out w

-- The loop over the proposals found due, with the number of those done.
unfoldable pub expire_each : List Proposal → ℕ → World → ℕ × World
expire_each [] changed w = (changed, w)
expire_each (p ∷ ps) changed w = expire_each ps (suc changed) (expire_one p w)

unfoldable pub expire_due_proposals : World → ℕ × World
expire_due_proposals w = expire_each (list_due_proposals w.db) 0 w

unfoldable pub create_summon :
    ℕ → ℕ → ℕ → String → Option String → World → Result Summon AssemblyError × World
create_summon g by target kind note w =
    if eqb_text kind "member" || eqb_text kind "official"
    then (let s = new_summon g by target kind note w.db in (ok s, with_db (insert_summon s w.db) w))
    else (err invalid_target_kind, w)
