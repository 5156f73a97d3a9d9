-- ===== src/Council/Service.antt =====
-- bot/services/council_service.py. A method takes the world and returns its `Result` and the new
-- world; publishing an event appends to the list of those published. `vote` and
-- `_attempt_execution` are cut where they branch, each part a function of its own.
use Prim.Native.String.{String}
use dro_asms.Prelude.{
  ℕ, ◌+◌, ◌-◌, Bool, true, false, ◌||◌, Option, none, some, List, [], ◌∷◌, ◌++◌, length, elem, ltb,
  leb, ⊤, if◌then◌else◌,
}
use dro_asms.Prelude.Int.{ℤ, pos, leb_ℤ, eqb_ℤ}
use dro_asms.Prelude.Texts.{eqb_text}
use dro_asms.Result.{Result, ok, err}
use dro_asms.Departments.Defs.{Department, Registry, get_by_id}
use dro_asms.Departments.Accounts.{derive_council_account_id, derive_department_account_id}
use dro_asms.Council.Defs.{
  Status, in_progress, passed, rejected, executed, execution_failed, expired, cancelled,
  is_in_progress, Choice, other_text, CouncilErrorCode, validation_invalid_amount,
  validation_self_target, validation_invalid_choice, validation_invalid_target,
  permission_no_members, proposal_not_found, proposal_limit_exceeded, voting_not_allowed,
  config_not_configured, execution_failed_code, execution_no_config, execution_department_not_found,
  execution_transfer_failed, unknown_error, ErrorText, missing_config, missing_department, raised,
  CouncilConfig, Proposal, VoteTotals, CouncilEvent, proposal_created, proposal_updated,
  proposal_cancelled, proposal_status_changed, Db,
}
use dro_asms.Council.Gateway.{
  fetch_config, upsert_config, get_council_role_ids, create_proposal, fetch_proposal,
  fetch_snapshot, fetch_tally, count_active_by_guild, cancel_proposal, mark_status, upsert_vote,
  list_due_proposals,
}

-- What `TransferService.transfer_currency` returns or raises.
pub data TransferOutcome : Type 0 where
  -- a TransferResult with its transaction, or the UUID of the event pool
  completed queued : ℕ → TransferOutcome
  -- a TransferError, or any other exception
  transfer_error other_exception : String → TransferOutcome

pub record StateCouncilConfig : Type 0 where
  pub internal_affairs_account_id : ℤ
  pub finance_account_id : ℤ
  pub security_account_id : ℤ
  pub central_bank_account_id : ℤ
  pub justice_account_id : Option ℤ
  pub welfare_account_id : Option ℤ

-- The other services that the council calls. `fetch_state_council_config` is `none` too where the
-- call raises, since the caller catches everything.
pub record Services : Type 1 where
  pub Ledger : Type 0
  pub transfer_currency : ℕ → ℤ → ℤ → ℤ → String → Ledger → TransferOutcome × Ledger
  pub registry : Registry
  pub fetch_state_council_config : ℕ → Option StateCouncilConfig

pub record World (L : Type 0) : Type 0 where
  pub db : Db
  pub ledger : L
  pub events : List CouncilEvent

abbrev pub Error : Type 0
Error = CouncilErrorCode

abbrev pub valid_choice : Choice → Bool
valid_choice (other_text s) = false
valid_choice _ = true

unfoldable pub compute_totals : ℕ → Proposal → Db → VoteTotals
unfolding fetch_tally
compute_totals k p db =
    let t = fetch_tally k db in
    record {
      approve = t.approve;
      reject = t.reject;
      abstain = t.abstain;
      threshold_t = p.threshold_t;
      snapshot_n = p.snapshot_n;
      remaining_unvoted = p.snapshot_n - t.total_voted;
    }

-- `name_to_account.get(dept.name)`
unfoldable pub account_by_name : StateCouncilConfig → String → Option ℤ
account_by_name c name =
    if eqb_text name "法務部"
    then elim c.justice_account_id [ none ↦ c.welfare_account_id | some a ↦ some a ]
    else if eqb_text name "內政部"
    then some c.internal_affairs_account_id
    else if eqb_text name "財政部"
    then some c.finance_account_id
    else if eqb_text name "國土安全部"
    then some c.security_account_id
    else if eqb_text name "中央銀行"
    then some c.central_bank_account_id
    else none

abbrev pub reason_of : Option String → String
reason_of none = "council_proposal"
reason_of (some d) = if eqb_text d "" then "council_proposal" else d

module _ (env : Services) where
  open env use {Ledger, transfer_currency, registry, fetch_state_council_config}

  abbrev pub W : Type 0
  W = World Ledger

  abbrev pub write : (Db → Db) → W → W
  write f w = record w { db = f w.db }

  abbrev pub publish : CouncilEvent → W → W
  publish e w = record w { events = w.events ++ (e ∷ []) }

  unfoldable pub set_config : ℕ → ℕ → W → Result CouncilConfig Error × W
  set_config g role w =
      let account : ℤ = elim (fetch_config g w.db) [
        | none ↦ pos (derive_council_account_id g)
        | some old ↦ old.council_account_member_id
      ] in
      let (cfg, db') = upsert_config g role account w.db in (ok cfg, record w { db = db' })

  unfoldable pub get_config : ℕ → W → Result CouncilConfig Error
  get_config g w = elim (fetch_config g w.db) [ none ↦ err config_not_configured | some c ↦ ok c ]

  unfoldable pub submit_proposal :
      ℕ
      → ℤ
      → ℤ
      → ℤ
      → Option String
      → Option String
      → List ℕ
      → Option String
      → W
      → Result Proposal Error × W
  submit_proposal g proposer target amt desc url members dept w =
      if leb 5 (count_active_by_guild g w.db)
      then (err proposal_limit_exceeded, w)
      else let (made, db') = create_proposal g proposer target amt desc url members dept w.db in
        elim made [
          | none ↦ (err unknown_error, record w { db = db' })
          | some p ↦ (
            ok p,
            publish
                (record {
                  guild_id = g;
                  proposal_id = p.proposal_id;
                  kind = proposal_created;
                  status = p.status;
                })
                (record w { db = db' }),
          )
        ]

  abbrev pub no_target : ℤ → Option String → Bool
  no_target target none = leb_ℤ target (pos 0)
  no_target target (some d) = false

  abbrev pub is_empty : List ℕ → Bool
  is_empty [] = true
  is_empty (x ∷ xs) = false

  unfoldable pub create_transfer_proposal :
      ℕ
      → ℤ
      → ℤ
      → ℤ
      → Option String
      → Option String
      → List ℕ
      → Option String
      → W
      → Result Proposal Error × W
  create_transfer_proposal g proposer target amt desc url members dept w =
      if leb_ℤ amt (pos 0)
      then (err validation_invalid_amount, w)
      else if eqb_ℤ proposer target
      then (err validation_self_target, w)
      else if is_empty members
      then (err permission_no_members, w)
      else if no_target target dept
      then (err validation_invalid_target, w)
      else submit_proposal g proposer target amt desc url members dept w

  unfoldable pub cancel : ℕ → W → Result Bool Error × W
  cancel k w = elim (fetch_proposal k w.db) [
    | none ↦ (ok false, w)
    | some p ↦
        let (done, db') = cancel_proposal k w.db in
        if done
        then (
          ok true,
          publish
              (record {
                guild_id = p.guild_id;
                proposal_id = k;
                kind = proposal_cancelled;
                status = cancelled;
              })
              (record w { db = db' }),
        )
        else (ok false, record w { db = db' })
  ]

  -- The end of `_attempt_execution`: the mark that records how the transfer went. An exception
  -- that is no TransferError leaves through the decorator, with no mark.
  unfoldable pub settle : Proposal → TransferOutcome → W → Result ⊤ Error × W
  settle p (completed tx) w = (ok tt, write (mark_status p.proposal_id executed (some tx) none) w)
  settle p (queued id) w = (ok tt, write (mark_status p.proposal_id executed (some id) none) w)
  settle p (transfer_error s) w = (
    err execution_transfer_failed,
    write (mark_status p.proposal_id execution_failed none (some (raised s))) w,
  )
  settle p (other_exception s) w = (err execution_failed_code, w)

  unfoldable pub pay : Proposal → ℤ → ℤ → W → Result ⊤ Error × W
  pay p source target w =
      let (outcome, l) =
        transfer_currency p.guild_id source target p.amount (reason_of p.description) w.ledger in
      settle p outcome (record w { ledger = l })

  abbrev pub department_account : Proposal → Department → ℤ
  department_account p d =
      let derived = pos (derive_department_account_id registry p.guild_id d.name) in
      elim (fetch_state_council_config p.guild_id) [
        | none ↦ derived
        | some c ↦ elim (account_by_name c d.name) [ none ↦ derived | some a ↦ a ]
      ]

  -- `target_account_id`; `none` is a department that the registry does not have.
  abbrev pub target_account : Proposal → Option String → Option ℤ
  target_account p none = some p.target_id
  target_account p (some i) = elim (get_by_id registry i) [
    | none ↦ none
    | some d ↦ some (department_account p d)
  ]

  abbrev missing_text : Option String → ErrorText
  missing_text none = missing_config
  missing_text (some i) = missing_department i

  unfoldable pub attempt_execution : Proposal → W → Result ⊤ Error × W
  attempt_execution p w = elim (fetch_config p.guild_id w.db) [
    | none ↦ (
      err execution_no_config,
      write (mark_status p.proposal_id execution_failed none (some missing_config)) w,
    )
    | some cfg ↦ elim (target_account p p.target_department_id) [
      | none ↦ (
        err execution_department_not_found,
        write
            (mark_status p.proposal_id execution_failed none
              (some (missing_text p.target_department_id)))
            w,
      )
      | some target ↦ pay p cfg.council_account_member_id target w
    ]
  ]

  -- `updated.status if updated is not None else "已通過"`
  unfoldable pub status_after : ℕ → W → Status
  status_after k w = elim (fetch_proposal k w.db) [ none ↦ passed | some q ↦ q.status ]

  -- Mark as passed, execute at once, and read the status back.
  unfoldable pub pass_and_execute : Proposal → W → Status × W
  pass_and_execute p w =
      let (r, w') = attempt_execution p (write (mark_status p.proposal_id passed none none) w) in
      (status_after p.proposal_id w', w')

  -- The three branches that follow a vote inside its transaction.
  unfoldable pub evaluate : Proposal → VoteTotals → W → Status × W
  evaluate p t w =
      if leb p.threshold_t t.approve
      then pass_and_execute p w
      else if ltb (t.approve + t.remaining_unvoted) p.threshold_t
      then (rejected, write (mark_status p.proposal_id rejected none none) w)
      else (in_progress, w)

  abbrev pub vote_event : Proposal → Status → CouncilEvent
  vote_event p s = record {
    guild_id = p.guild_id;
    proposal_id = p.proposal_id;
    kind = if is_in_progress s then proposal_updated else proposal_status_changed;
    status = s;
  }

  -- The transaction of `vote`, on the proposal as it was fetched before it began.
  unfoldable pub vote_transaction :
      Proposal → ℕ → Choice → W → Result (VoteTotals × Status) Error × W
  vote_transaction p voter c w =
      let w1 = write (upsert_vote p.proposal_id voter c) w in
      let totals = compute_totals p.proposal_id p w1.db in
      let (s, w2) = evaluate p totals w1 in (ok (totals, s), publish (vote_event p s) w2)

  -- What `vote` does with the proposal that it fetched.
  unfoldable pub vote_fetched : Proposal → ℕ → Choice → W → Result (VoteTotals × Status) Error × W
  vote_fetched p voter c w =
      if is_in_progress p.status
      then if elem voter (fetch_snapshot p.proposal_id w.db)
        then vote_transaction p voter c w
        else (err voting_not_allowed, w)
      else (ok (compute_totals p.proposal_id p w.db, p.status), w)

  unfoldable pub vote : ℕ → ℕ → Choice → W → Result (VoteTotals × Status) Error × W
  vote k voter c w =
      if valid_choice c
      then elim (fetch_proposal k w.db) [
        | none ↦ (err proposal_not_found, w)
        | some p ↦ vote_fetched p voter c w
      ]
      else (err validation_invalid_choice, w)

  -- One proposal of `expire_due_proposals`.
  unfoldable pub expire_one : Proposal → W → Status × W
  expire_one p w =
      if leb p.threshold_t (compute_totals p.proposal_id p w.db).approve
      then pass_and_execute p w
      else (expired, write (mark_status p.proposal_id expired none none) w)

  -- The loop, with the events that it collects.
  unfoldable pub expire_each : List Proposal → W → List CouncilEvent × W
  expire_each [] w = ([], w)
  expire_each (p ∷ ps) w =
      let (s, w1) = expire_one p w in
      let (es, w2) = expire_each ps w1 in
      (
        record {
          guild_id = p.guild_id;
          proposal_id = p.proposal_id;
          kind = proposal_status_changed;
          status = s;
        }
            ∷ es,
        w2,
      )

  unfoldable pub expire_due_proposals : W → ℕ × W
  expire_due_proposals w =
      let due = list_due_proposals w.db in
      let (es, w') = expire_each due w in (length due, record w' { events = w'.events ++ es })

  -- A user's roles against the council's list of roles and its older single role.
  abbrev pub shares : List ℕ → List ℕ → Bool
  shares [] ys = false
  shares (x ∷ xs) ys = elem x ys || shares xs ys

  abbrev pub single_role : Option CouncilConfig → List ℕ → Bool
  single_role none roles = false
  single_role (some c) roles = elem c.council_role_id roles

  unfoldable pub check_council_permission : ℕ → List ℕ → W → Result Bool Error
  check_council_permission g roles w =
      let ids = get_council_role_ids g w.db in
      let single = single_role (fetch_config g w.db) roles in
      ok (if is_empty ids then single else shares ids roles || single)
