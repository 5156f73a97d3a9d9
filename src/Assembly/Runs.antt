-- ===== src/Assembly/Runs.antt =====
-- Sequences of requests to the service, and the passing of time.
use Prim.Native.String.{String}
use dro_asms.Prelude.{ℕ, ◌+◌, refl, ◌||◌, Option, List, [], ◌∷◌, if_ind}
use dro_asms.Prelude.Texts.{eqb_text}
use dro_asms.Result.{Result}
use dro_asms.Assembly.Defs.{
  Db, Config, Summon, remind, mark_reminded, mark_summon_delivered, insert_summon, upsert_config,
}
use dro_asms.Assembly.Service.{
  AssemblyError, World, with_db, submit_proposal, cancel, vote, expire_due_proposals, create_summon,
  set_config,
}
use dro_asms.Assembly.Rows.{All-update_each, Exclusive-update}
use dro_asms.Assembly.Standing.{RowFits, IsBelow, IsValid}
use dro_asms.Assembly.Votes.{vote-IsValid}
use dro_asms.Assembly.Changes.{
  cancel-IsValid, submit_proposal-IsValid, expire_due_proposals-IsValid,
}

pub data Event : Type 0 where
  configure : (g : ℕ) → Config → Event
  propose :
      (g proposer : ℕ)
      → (title description : Option String) → (members : List ℕ) → (deadline_hours : ℕ) → Event
  withdraw : (k : ℕ) → Event
  cast : (k voter : ℕ) → (choice : String) → Event
  expire : Event
  reminded : (k : ℕ) → Event
  summon : (g by target : ℕ) → (kind : String) → (note : Option String) → Event
  delivered : (k : ℕ) → Event
  wait : ℕ → Event

unfoldable pub handle : Event → World → World
handle (configure g c) w = set_config g c w
handle (propose g proposer title description members hours) w =
    (submit_proposal g proposer title description members hours w).1
handle (withdraw k) w = (cancel k w).1
handle (cast k voter choice) w = (vote k voter choice w).1
handle expire w = (expire_due_proposals w).1
handle (reminded k) w = with_db (mark_reminded k w.db) w
handle (summon g by target kind words) w = (create_summon g by target kind words w).1
handle (delivered k) w = with_db (mark_summon_delivered k w.db) w
handle (wait n) w = with_db (record w.db { now = w.db.now + n }) w

unfoldable pub run : List Event → World → World
unfolding handle
run [] w = w
run (e ∷ es) w = run es (handle e w)

mark_reminded-IsValid : (k : ℕ) (db : Db) → IsValid db → IsValid (mark_reminded k db)
unfolding mark_reminded
mark_reminded-IsValid k db v = record {
  fitting = All-update_each RowFits k (remind db.now) db.rows (λ r f. f) v.fitting;
  keyed = Exclusive-update k (remind db.now) db.rows (λ r. refl) v.keyed;
  below = All-update_each (IsBelow db.next_id) k (remind db.now) db.rows (λ r b. b) v.below;
}

handle-IsValid : (e : Event) (w : World) → IsValid w.db → IsValid (handle e w).db
unfolding handle upsert_config create_summon insert_summon mark_summon_delivered
handle-IsValid (configure g c) w v = record {
  fitting = v.fitting;
  keyed = v.keyed;
  below = v.below;
}
handle-IsValid (propose g proposer title description members hours) w v =
    submit_proposal-IsValid g proposer title description members hours w v
handle-IsValid (withdraw k) w v = cancel-IsValid k w v
handle-IsValid (cast k voter choice) w v = vote-IsValid k voter choice w v
handle-IsValid expire w v = expire_due_proposals-IsValid w v
handle-IsValid (reminded k) w v = mark_reminded-IsValid k w.db v
handle-IsValid (summon g by target kind words) w v =
    if_ind {A = Result Summon AssemblyError × World} (λ out. IsValid out.1.db)
      (eqb_text kind "member" || eqb_text kind "official")
      (record { fitting = v.fitting; keyed = v.keyed; below = v.below }) v
handle-IsValid (delivered k) w v = record { fitting = v.fitting; keyed = v.keyed; below = v.below }
handle-IsValid (wait n) w v = record { fitting = v.fitting; keyed = v.keyed; below = v.below }

-- After any sequence of requests, each handled on its own, from a database where it holds: the
-- status of every proposal fits its votes. One that has passed has as many approvals as its
-- threshold; a rejected one can no longer get them from those who have not voted; one in progress
-- has fewer but can still get them; one whose time ran out has fewer; a cancelled one has no vote.
-- And the numbers of the proposals are distinct.
pub assembly-IsValid : (es : List Event) (w : World) → IsValid w.db → IsValid (run es w).db
unfolding run
assembly-IsValid [] w v = v
assembly-IsValid (e ∷ es) w v = assembly-IsValid es (handle e w) (handle-IsValid e w v)
