-- ===== src/Permissions/Defs.antt =====
-- The five checkers and the methods of `class PermissionService`. A checker gets what the services
-- answer to its questions; the answers of the state council are computed here from its
-- configuration. `E` is the type of the services' errors. Role 0 stands for a role that is not set.
use Prim.Native.String.{String}
use dro_asms.Prelude.{
  ℕ, Bool, true, false, not, ◌&&◌, ◌||◌, Option, none, some, List, [], ◌∷◌, elem, ◌==◌,
  if◌then◌else◌,
}
use dro_asms.Prelude.Texts.{eqb_text, text_elem}
use dro_asms.Result.{Result, ok, err}

pub data Level : Type 0 where
  council_member proposal_owner leader department_head speaker member representative : Level

pub data Reason : Type 0 where
  no_council_role only_proposer no_state_council no_assembly_role no_homeland : Reason
  no_peoples_assembly_role leads_state_council heads_homeland : Reason
  is_speaker_role is_member_role is_representative_role : Reason
  unknown_operation : String → Reason
  heads_department : Option String → Reason

pub record PermissionResult : Type 0 where
  pub allowed : Bool
  pub reason : Option Reason
  pub permission_level : Option Level

abbrev pub denied : Reason → PermissionResult
denied why = record { allowed = false; reason = some why; permission_level = none }

abbrev pub granted : Level → Option Reason → PermissionResult
granted level why = record { allowed = true; reason = why; permission_level = some level }

-- `bool(set(xs) & set(ys))`
abbrev pub intersects : List ℕ → List ℕ → Bool
intersects [] ys = false
intersects (x ∷ xs) ys = elem x ys || intersects xs ys

abbrev pub has_role : ℕ → List ℕ → Bool
has_role role roles = not (role == 0) && elem role roles

abbrev pub is_user : Option ℕ → ℕ → Bool
is_user none user = false
is_user (some u) user = not (u == 0) && (u == user)

abbrev pub one_of : String → List String → Bool
one_of operation known = text_elem operation known

unfoldable pub council_operation : ℕ → String → Option ℕ → PermissionResult
council_operation user operation proposer =
    if one_of operation ("panel_access" ∷ "create_proposal" ∷ "vote" ∷ [])
    then granted council_member none
    else if eqb_text operation "cancel_proposal"
    then (if is_user proposer user then granted proposal_owner none else denied only_proposer)
    else denied (unknown_operation operation)

-- `council_role_id` of the configuration, and `get_council_role_ids`.
unfoldable pub council_roles : ℕ → List ℕ → ℕ → List ℕ → String → Option ℕ → PermissionResult
council_roles council_role_id role_ids user roles operation proposer =
    if intersects role_ids roles || has_role council_role_id roles
    then council_operation user operation proposer
    else denied no_council_role

unfoldable pub check_council :
    {E : Type 0}
    → Result ℕ E
    → Result (List ℕ) E
    → ℕ
    → List ℕ
    → String
    → Option ℕ
    → Result PermissionResult E
check_council (err e) role_ids user roles operation proposer = err e
check_council (ok role) (err e) user roles operation proposer = err e
check_council (ok role) (ok role_ids) user roles operation proposer =
    ok (council_roles role role_ids user roles operation proposer)

pub record LeaderConfig : Type 0 where
  pub leader_id : Option ℕ
  pub leader_role_id : Option ℕ

abbrev pub is_role : Option ℕ → List ℕ → Bool
is_role none roles = false
is_role (some r) roles = has_role r roles

-- `StateCouncilService.check_leader_permission`; no configuration is no leader.
unfoldable pub check_leader_permission : Option LeaderConfig → ℕ → List ℕ → Bool
check_leader_permission none user roles = false
check_leader_permission (some c) user roles =
    is_user c.leader_id user || is_role c.leader_role_id roles

-- The roles of a department: the list, and the single one of its configuration, if it has one.
pub record DepartmentRoles : Type 0 where
  pub role_ids : List ℕ
  pub role_id : Option ℕ

abbrev pub holds : Option ℕ → List ℕ → Bool
holds none roles = false
holds (some r) roles = elem r roles

-- `StateCouncilService.check_department_permission`
unfoldable pub check_department_permission :
    Option LeaderConfig → DepartmentRoles → ℕ → List ℕ → Bool
check_department_permission none d user roles = false
check_department_permission (some c) d user roles =
    if intersects d.role_ids roles
    then true
    else if holds d.role_id roles
    then true
    else check_leader_permission (some c) user roles

abbrev pub department_answer :
    Option LeaderConfig → (String → DepartmentRoles) → Option String → ℕ → List ℕ → Bool
department_answer config departments none user roles = false
department_answer config departments (some d) user roles =
    check_department_permission config (departments d) user roles

unfoldable pub check_state_council :
    Option LeaderConfig
    → (String → DepartmentRoles)
    → ℕ
    → List ℕ
    → (operation : String) → (department : Option String) → PermissionResult
check_state_council config departments user roles operation department =
    let leads = check_leader_permission config user roles in
    let heads = department_answer config departments department user roles in
    if leads
    then granted leader (some leads_state_council)
    else if heads
    then granted department_head (some (heads_department department))
    else denied no_state_council

abbrev pub homeland_result : PermissionResult → PermissionResult
homeland_result p = if not p.allowed then denied no_homeland else elim p.permission_level [
  | some leader ↦ granted leader (some leads_state_council)
  | _ ↦ granted department_head (some heads_homeland)
]

unfoldable pub check_homeland :
    Option LeaderConfig → (String → DepartmentRoles) → ℕ → List ℕ → String → PermissionResult
check_homeland config departments user roles operation =
    if one_of operation ("panel_access" ∷ "arrest" ∷ "release" ∷ "suspect_management" ∷ [])
    then homeland_result
        (check_state_council config departments user roles operation (some "國土安全部"))
    else denied (unknown_operation operation)

pub record AssemblyConfig : Type 0 where
  pub speaker_role_id : ℕ
  pub member_role_id : ℕ

unfoldable pub assembly_rule : Bool → Bool → String → PermissionResult
assembly_rule is_speaker is_member operation =
    if one_of operation ("panel_access" ∷ "create_proposal" ∷ [])
    then (if is_speaker
        then granted speaker (some is_speaker_role)
        else if is_member
        then granted member (some is_member_role)
        else denied no_assembly_role)
    else if eqb_text operation "vote"
    then (if is_member then granted member (some is_member_role) else denied no_assembly_role)
    else if eqb_text operation "summon"
    then (if is_speaker then granted speaker none else denied no_assembly_role)
    else denied no_assembly_role

unfoldable pub check_assembly :
    {E : Type 0} → Result AssemblyConfig E → List ℕ → String → Result PermissionResult E
check_assembly (err e) roles operation = err e
check_assembly (ok c) roles operation =
    ok (assembly_rule (elem c.speaker_role_id roles) (elem c.member_role_id roles) operation)

unfoldable pub peoples_rule : Bool → Bool → String → PermissionResult
peoples_rule is_speaker is_representative operation =
    if one_of operation ("panel_access" ∷ "create_proposal" ∷ "transfer" ∷ [])
    then (if is_speaker
        then granted speaker (some is_speaker_role)
        else if is_representative
        then granted representative (some is_representative_role)
        else denied no_peoples_assembly_role)
    else if eqb_text operation "vote"
    then (if is_representative
        then granted representative (some is_representative_role)
        else denied no_peoples_assembly_role)
    else if eqb_text operation "summon"
    then (if is_speaker
        then granted speaker (some is_speaker_role)
        else denied no_peoples_assembly_role)
    else denied (unknown_operation operation)

unfoldable pub check_peoples_assembly :
    {E : Type 0} → Result AssemblyConfig E → List ℕ → String → Result PermissionResult E
check_peoples_assembly (err e) roles operation = err e
check_peoples_assembly (ok c) roles operation =
    ok (peoples_rule (elem c.speaker_role_id roles) (elem c.member_role_id roles) operation)
