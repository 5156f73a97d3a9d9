-- ===== src/Assembly/Tests.antt =====
-- An assembly of three members with one proposal.
use dro_asms.Prelude.{◌≡◌, refl, none, some, false, List, [], ◌∷◌, arith}
use dro_asms.Prelude.Dict.{lookup}
use dro_asms.Assembly.Defs.{in_progress, approve, Row, find, fetch_votes, count_votes}
use dro_asms.Assembly.Service.{World}
use dro_asms.Assembly.Standing.{IsValid}
use dro_asms.Assembly.Runs.{Event, cast, withdraw, expire, wait, run, assembly-IsValid}
use dro_asms.Assembly.Ballots.{ballot_stays}

abbrev motion : Row
motion = record {
  proposal = record {
    proposal_id = 0;
    guild_id = 1;
    proposer_id = 11;
    title = some "Roads";
    description = none;
    snapshot_n = 3;
    threshold_t = 2;
    deadline_at = 500;
    status = in_progress;
    reminder_sent = false;
    created_at = 10;
    updated_at = 10;
  };
  snapshot = 11 ∷ 12 ∷ 13 ∷ [];
  votes = (11, approve) ∷ [];
}

abbrev world : World
world = record {
  db = record {
    configs = [];
    rows = motion ∷ [];
    next_id = 1;
    summons = [];
    next_summon = 0;
    now = 100;
  };
  events = [];
}

world-IsValid : IsValid world.db
unfolding count_votes
world-IsValid = record {
  fitting = ((ground arith, ground arith), tt);
  keyed = (refl, tt);
  below = (ground arith, tt);
}

abbrev requests : List Event
requests =
    cast 0 11 "reject"
    ∷ withdraw 0
    ∷ cast 0 20 "approve"
    ∷ cast 0 12 "approve"
    ∷ cast 0 13 "reject"
    ∷ wait 900
    ∷ expire
    ∷ []

assembly-IsValid_example : IsValid (run requests world).db
assembly-IsValid_example = assembly-IsValid requests world world-IsValid

ballot_stays_example : lookup 11 (fetch_votes 0 (run requests world).db) ≡ some approve
unfolding fetch_votes find
ballot_stays_example = ballot_stays requests world 0 11 approve refl
