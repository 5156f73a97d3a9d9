-- ===== src/Council/Defs.antt =====
-- The council's data: cython_ext/council_governance_models.py, infra/events/council_events.py and
-- the error classes of bot/services/council_errors.py. Identifiers that are only compared are
-- numbers; `datetime` is a number of seconds.
use Prim.Native.String.{String}
use dro_asms.Prelude.{ℕ, Bool, true, false, Option, List}
use dro_asms.Prelude.Int.{ℤ}
use dro_asms.Prelude.Dict.{Dict}

-- The status texts 進行中, 已通過, 已否決, 已執行, 執行失敗, 已逾時 and 已撤案.
pub data Status : Type 0 where
  in_progress passed rejected executed execution_failed expired cancelled : Status

abbrev pub is_in_progress : Status → Bool
is_in_progress in_progress = true
is_in_progress _ = false

-- The text of a vote: one of the three that the code knows, or any other.
pub data Choice : Type 0 where
  approve reject abstain : Choice
  other_text : String → Choice

pub data CouncilErrorCode : Type 0 where
  config_not_configured : CouncilErrorCode
  validation_invalid_amount validation_self_target validation_invalid_choice : CouncilErrorCode
  validation_invalid_target permission_no_members : CouncilErrorCode
  proposal_not_found proposal_limit_exceeded voting_not_allowed : CouncilErrorCode
  execution_failed_code execution_no_config execution_department_not_found : CouncilErrorCode
  execution_transfer_failed unknown_error : CouncilErrorCode

-- What `mark_status` writes to `execution_error`, and what `str(exc)` carries.
pub data ErrorText : Type 0 where
  missing_config : ErrorText
  missing_department : String → ErrorText
  raised : String → ErrorText

pub record CouncilConfig : Type 0 where
  pub guild_id : ℕ
  pub council_role_id : ℕ
  pub council_account_member_id : ℤ
  pub created_at : ℕ
  pub updated_at : ℕ

pub record Proposal : Type 0 where
  pub proposal_id : ℕ
  pub guild_id : ℕ
  pub proposer_id : ℤ
  pub target_id : ℤ
  pub amount : ℤ
  pub description : Option String
  pub attachment_url : Option String
  pub snapshot_n : ℕ
  pub threshold_t : ℕ
  pub deadline_at : ℕ
  pub status : Status
  pub reminder_sent : Bool
  pub created_at : ℕ
  pub updated_at : ℕ
  pub target_department_id : Option String

pub record Tally : Type 0 where
  pub approve : ℕ
  pub reject : ℕ
  pub abstain : ℕ
  pub total_voted : ℕ

pub record VoteTotals : Type 0 where
  pub approve : ℕ
  pub reject : ℕ
  pub abstain : ℕ
  pub threshold_t : ℕ
  pub snapshot_n : ℕ
  pub remaining_unvoted : ℕ

pub data CouncilEventKind : Type 0 where
  proposal_created proposal_updated proposal_cancelled proposal_status_changed : CouncilEventKind

pub record CouncilEvent : Type 0 where
  pub guild_id : ℕ
  pub proposal_id : ℕ
  pub kind : CouncilEventKind
  pub status : Status

-- A row of governance.proposals with the rows of governance.proposal_snapshots and
-- governance.votes that refer to it. A voter has one vote at most (the primary key).
pub record Row : Type 0 where
  pub proposal : Proposal
  pub execution_tx_id : Option ℕ
  pub execution_error : Option ErrorText
  pub snapshot : List ℕ
  pub votes : Dict Choice

-- The tables of the schema `governance` that the council uses, the database's clock, and the next
-- identifier that `gen_random_uuid` will give.
pub record Db : Type 0 where
  pub rows : List Row
  pub configs : Dict CouncilConfig
  pub role_ids : Dict (List ℕ)
  pub now : ℕ
  pub next_id : ℕ
