-- ===== src/Permissions/Rules.antt =====
-- The permission service and the checks of the council's and the state council's own services.
use Prim.Native.String.{String}
use dro_asms.Prelude.{
  ℕ, ◌≡◌, refl, sym, ap, ◌∙◌, Bool, true, false, ◌&&◌, ◌||◌, Option, none, some, List, [], ◌∷◌,
  elem, arith, ◌==◌, if_ind, if◌then◌else◌,
}
use dro_asms.Result.{ok, map_ok}
use dro_asms.Council.Defs.{CouncilConfig}
use dro_asms.Council.Gateway.{fetch_config, get_council_role_ids}
use dro_asms.Council.Service.{
  Services, get_config, check_council_permission, is_empty, shares, single_role, W,
}
use dro_asms.Permissions.Defs.{
  PermissionResult, intersects, has_role, council_roles, council_operation, check_council,
  LeaderConfig, DepartmentRoles, holds, check_leader_permission, check_department_permission,
  check_state_council, check_homeland, one_of, homeland_result, denied, unknown_operation,
  no_council_role, granted, leader, department_head, leads_state_council, heads_department,
  no_state_council,
}

module _ (env : Services) where
  intersects_lem : (ids roles : List ℕ) → intersects ids roles ≡ shares env ids roles
  intersects_lem [] roles = refl
  intersects_lem (x ∷ ids) roles = ap (λ b. elem x roles || b) (intersects_lem ids roles)

  panel_allowed :
      (user : ℕ) (proposer : Option ℕ) (b : Bool)
      → (if b
          then council_operation user "panel_access" proposer
          else denied no_council_role).allowed
        ≡ b
  unfolding council_operation
  panel_allowed user proposer true = refl
  panel_allowed user proposer false = refl

  allowed_lem :
      (c : CouncilConfig) (ids : List ℕ) (user : ℕ) (roles : List ℕ) (proposer : Option ℕ)
      → (c.council_role_id == 0) ≡ false
      → (council_roles c.council_role_id ids user roles "panel_access" proposer).allowed ≡ (
          if is_empty env ids
          then single_role env (some c) roles
          else shares env ids roles || single_role env (some c) roles)
  unfolding council_roles
  allowed_lem c [] user roles proposer set =
      panel_allowed user proposer (has_role c.council_role_id roles) ∙ ground (arith, set)
  allowed_lem c (x ∷ ids) user roles proposer set =
      panel_allowed user proposer (intersects (x ∷ ids) roles || has_role c.council_role_id roles)
      ∙ ground (arith, set, intersects_lem ids roles)

  -- In a guild whose council has a configuration with a role that is set, the permission service
  -- lets a member into the panel just where the council's service takes the member for one of the
  -- council, by the list of roles or by the single one.
  pub council_agrees :
      (g user : ℕ) (roles : List ℕ) (proposer : Option ℕ) (w : W env) (c : CouncilConfig)
      → fetch_config g w.db ≡ some c
      → (c.council_role_id == 0) ≡ false
      → map_ok
          (λ p. p.allowed)
          (check_council
            (map_ok (λ k. k.council_role_id) (get_config env g w))
            (ok (get_council_role_ids g w.db))
            user
            roles
            "panel_access"
            proposer)
        ≡ check_council_permission env g roles w
  unfolding get_config check_council_permission check_council map_ok
  council_agrees g user roles proposer w c e set =
      let ids = get_council_role_ids g w.db in
      let asked : get_config env g w ≡ ok c = rw (e, get_config) in
      ap
        (λ r.
          map_ok (λ p. p.allowed)
            (check_council (map_ok (λ k. k.council_role_id) r) (ok ids) user roles "panel_access"
              proposer))
        asked
      ∙ ap ok (allowed_lem c ids user roles proposer set)
      ∙ ap
          (λ o. ok (
            if is_empty env ids
            then single_role env o roles
            else shares env ids roles || single_role env o roles))
          (sym e)

leader_heads :
    (config : Option LeaderConfig) (d : DepartmentRoles) (user : ℕ) (roles : List ℕ)
    → check_leader_permission config user roles ≡ true
    → check_department_permission config d user roles ≡ true
unfolding check_leader_permission check_department_permission
leader_heads none d user roles e = e
leader_heads (some c) d user roles e =
    if_ind (λ b. b ≡ true) (intersects d.role_ids roles) refl
      (if_ind (λ b. b ≡ true) (holds d.role_id roles) refl e)

abbrev state_council_of : Bool → Bool → Option String → PermissionResult
state_council_of leads heads department =
    if leads
    then granted leader (some leads_state_council)
    else if heads
    then granted department_head (some (heads_department department))
    else denied no_state_council

homeland_rule :
    (known leads heads : Bool) (department : Option String) (operation : String)
    → (leads ≡ true → heads ≡ true)
    → ((if known
          then homeland_result (state_council_of leads heads department)
          else denied (unknown_operation operation)).allowed
        ≡ (known && heads))
      × ((if known
            then homeland_result (state_council_of leads heads department)
            else denied (unknown_operation operation)).permission_level
          ≡ (if known
              then (if leads then some leader else if heads then some department_head else none)
              else none))
homeland_rule false leads heads department operation h = (refl, refl)
homeland_rule true true true department operation h = (refl, refl)
homeland_rule true true false department operation h = (sym (h refl), refl)
homeland_rule true false true department operation h = (refl, refl)
homeland_rule true false false department operation h = (refl, refl)

-- The permission service lets a user act for homeland security just where the operation is one of
-- the four known ones and the state council's service lets the user into the department, and it
-- calls the user a leader just where that service does.
pub homeland_lem :
    (config : Option LeaderConfig) (departments : String → DepartmentRoles) (user : ℕ)
    (roles : List ℕ) (operation : String)
    → ((check_homeland config departments user roles operation).allowed ≡ (
        one_of operation ("panel_access" ∷ "arrest" ∷ "release" ∷ "suspect_management" ∷ [])
        && check_department_permission config (departments "國土安全部") user roles))
      × ((check_homeland config departments user roles operation).permission_level ≡ (
          if one_of operation ("panel_access" ∷ "arrest" ∷ "release" ∷ "suspect_management" ∷ [])
          then (if check_leader_permission config user roles
              then some leader
              else if check_department_permission config (departments "國土安全部") user roles
              then some department_head
              else none)
          else none))
unfolding check_homeland check_state_council
homeland_lem config departments user roles operation =
    homeland_rule
      (one_of operation ("panel_access" ∷ "arrest" ∷ "release" ∷ "suspect_management" ∷ []))
      (check_leader_permission config user roles)
      (check_department_permission config (departments "國土安全部") user roles) (some "國土安全部") operation
      (leader_heads config (departments "國土安全部") user roles)
