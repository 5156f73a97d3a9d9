-- ===== src/Council/Runs.antt =====
-- Sequences of calls of the council's service, one after another.
use Prim.Native.String.{String}
use dro_asms.Prelude.{
  ℕ, ◌≡◌, ◌∙◌, false, Option, List, leb, Bool-cases, Option-cases, inl, inr, if_ind,
}
use dro_asms.Prelude.Int.{ℤ, pos, leb_ℤ, eqb_ℤ}
use dro_asms.Result.{Result}
use dro_asms.Prelude.Dict.{Dict}
use dro_asms.Council.Defs.{Status, is_in_progress, Choice, Proposal, Row, Db}
use dro_asms.Council.Gateway.{
  upsert_config, count_active_by_guild, mark_reminded, create_proposal, new_row, insert_row,
  count_active,
}
use dro_asms.Council.Service.{
  Services, Error, is_empty, no_target, W, write, set_config, submit_proposal,
  create_transfer_proposal, cancel, vote, expire_due_proposals,
}
use dro_asms.Council.Rows.{find-append}
use dro_asms.Council.Invariant.{IsValid, mark_reminded-IsValid}
use dro_asms.Council.Safety.{
  create_transfer_proposal-IsValid, vote-IsValid, cancel-IsValid, expire_due_proposals-IsValid,
  set_config-IsValid,
}
use dro_asms.Council.Settled.{
  Stays, Stays-cancel, Stays-vote, Stays-expire_due_proposals, Stays-mark_reminded,
}

-- One call of the service, by anyone and with any arguments, or something that happens around it:
-- time passes, or the ledger changes by other means.
pub data Step (env : Services) : W env → W env → Type 0 where
  configure : (g role : ℕ) (w : W env) → Step env w (set_config env g role w).1
  propose :
      (g : ℕ) (proposer target amt : ℤ) (desc url : Option String) (members : List ℕ)
      (dept : Option String) (w : W env)
      → Step env w (create_transfer_proposal env g proposer target amt desc url members dept w).1
  withdraw : (k : ℕ) (w : W env) → Step env w (cancel env k w).1
  cast : (k voter : ℕ) (c : Choice) (w : W env) → Step env w (vote env k voter c w).1
  expire : (w : W env) → Step env w (expire_due_proposals env w).1
  remind : (k : ℕ) (w : W env) → Step env w (write env (mark_reminded k) w)
  pass_time : (t : ℕ) (w : W env) → Step env w (write env (λ db. record db { now = t }) w)
  other_ledger : (l : env.Ledger) (w : W env) → Step env w (record w { ledger = l })

pub data Reach (env : Services) (w : W env) : W env → Type 0 where
  here : Reach env w w
  next : {u t : W env} → Reach env w u → Step env u t → Reach env w t

Step-IsValid : (env : Services) {w u : W env} → Step env w u → IsValid w.db → IsValid u.db
Step-IsValid env (configure g role w) v = set_config-IsValid env g role w v
Step-IsValid env (propose g a b c d e f h w) v =
    create_transfer_proposal-IsValid env g a b c d e f h w v
Step-IsValid env (withdraw k w) v = cancel-IsValid env k w v
Step-IsValid env (cast k voter c w) v = vote-IsValid env k voter c w v
Step-IsValid env (expire w) v = expire_due_proposals-IsValid env w v
Step-IsValid env (remind k w) v = mark_reminded-IsValid k w.db v
Step-IsValid env (pass_time t w) v = record {
  rows_valid = v.rows_valid;
  unique = v.unique;
  below = v.below;
  at_most_five = v.at_most_five;
}
Step-IsValid env (other_ledger l w) v = v

-- The invariant of the council's tables holds after any sequence of steps from where it holds: at
-- most five proposals of a guild are in progress, each threshold is a strict majority of a
-- snapshot without repetition, and all votes are valid, by members, one for each.
pub Reach-IsValid : (env : Services) {w u : W env} → Reach env w u → IsValid w.db → IsValid u.db
Reach-IsValid env here v = v
Reach-IsValid env (next r st) v = Step-IsValid env st (Reach-IsValid env r v)

module _ (k : ℕ) (s : Status) (d : Dict Choice) (env : Services) where
  Stays-insert_row : (r : Row) (db : Db) → Stays k s d db → Stays k s d (insert_row r db)
  Stays-insert_row r db (q, found, is_s, is_d) = (q, find-append k db.rows r ∙ rw found, is_s, is_d)

  module _ (g : ℕ) (proposer target amt : ℤ) (desc url : Option String) (members : List ℕ)
      (dept : Option String) where
    Stays-create_proposal :
        (db : Db)
        → Stays k s d db
        → Stays k s d (create_proposal g proposer target amt desc url members dept db).1
    unfolding create_proposal
    Stays-create_proposal db h =
        if_ind {A = Option Proposal × Db} (λ x. Stays k s d x.1) (leb 5 (count_active g db.rows)) h
          (Stays-insert_row (new_row g proposer target amt desc url members dept db) db h)

    Stays-submit_proposal :
        (w : W env)
        → Stays k s d w.db
        → Stays k s d (submit_proposal env g proposer target amt desc url members dept w).1.db
    unfolding submit_proposal
    Stays-submit_proposal w h =
        let made : Option Proposal × Db =
          create_proposal g proposer target amt desc url members dept w.db in
        let kept : Stays k s d made.1 = Stays-create_proposal w.db h in
        elim (Bool-cases (leb 5 (count_active_by_guild g w.db))) [
          | inl full ↦ rw full h
          | inr room ↦ elim (Option-cases made.0) [
            | inl refused ↦ rw (room, refused) kept
            | inr (p, new) ↦ rw (room, new) kept
          ]
        ]

    Stays-create_transfer_proposal :
        (w : W env)
        → Stays k s d w.db
        → Stays k s d
            (create_transfer_proposal env g proposer target amt desc url members dept w).1.db
    unfolding create_transfer_proposal
    Stays-create_transfer_proposal w h =
        let P : Result Proposal Error × W env → Type 0 = λ x. Stays k s d x.1.db in
        if_ind P (leb_ℤ amt (pos 0)) h (
          if_ind P (eqb_ℤ proposer target) h (
            if_ind P (is_empty env members) h
              (if_ind P (no_target env target dept) h (Stays-submit_proposal w h))))

  Stays-set_config :
      (g role : ℕ) (w : W env) → Stays k s d w.db → Stays k s d (set_config env g role w).1.db
  unfolding set_config upsert_config
  Stays-set_config g role w h = h

  Step-Stays :
      {w u : W env}
      → is_in_progress s ≡ false
      → Step env w u
      → IsValid w.db
      → Stays k s d w.db
      → Stays k s d u.db
  Step-Stays done (configure g role w) v h = Stays-set_config g role w h
  Step-Stays done (propose g a b c e f i j w) v h =
      Stays-create_transfer_proposal g a b c e f i j w h
  Step-Stays done (withdraw j w) v h = Stays-cancel k s d done env j w h
  Step-Stays done (cast j voter c w) v h = Stays-vote k s d done env j voter c w h
  Step-Stays done (expire w) v h = Stays-expire_due_proposals k s d done env w v.unique h
  Step-Stays done (remind j w) v h = Stays-mark_reminded k s d done j w.db h
  Step-Stays done (pass_time t w) v h = h
  Step-Stays done (other_ledger l w) v h = h

  -- A settled proposal is settled for good: from a state that satisfies the invariant, whatever
  -- sequence of steps follows, it keeps its status and its votes.
  pub Reach-Stays :
      {w u : W env}
      → is_in_progress s ≡ false
      → IsValid w.db
      → Stays k s d w.db
      → Reach env w u
      → Stays k s d u.db
  Reach-Stays done v h here = h
  Reach-Stays done v h (next r st) =
      Step-Stays done st (Reach-IsValid env r v) (Reach-Stays done v h r)
