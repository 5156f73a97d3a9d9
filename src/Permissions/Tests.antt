-- ===== src/Permissions/Tests.antt =====
-- A guild whose council has role 3 and the further roles 5 and 6.
use dro_asms.Prelude.{ℕ, suc, ◌≡◌, refl, true, none, some, [], ◌∷◌}
use dro_asms.Prelude.Int.{pos}
use dro_asms.Result.{ok, map_ok}
use dro_asms.Departments.Defs.{load_departments, missing}
use dro_asms.Council.Defs.{CouncilConfig}
use dro_asms.Council.Gateway.{fetch_config, get_council_role_ids}
use dro_asms.Council.Service.{Services, completed, W, get_config, check_council_permission}
use dro_asms.Permissions.Defs.{
  LeaderConfig, DepartmentRoles, check_council, check_homeland, department_head,
  check_leader_permission, check_department_permission,
}
use dro_asms.Permissions.Rules.{council_agrees, homeland_lem}

abbrev counting : Services
counting = record {
  Ledger = ℕ;
  transfer_currency = λ g source target amt reason n. (completed n, suc n);
  registry = load_departments missing;
  fetch_state_council_config = λ g. none;
}

abbrev config : CouncilConfig
config = record {
  guild_id = 1;
  council_role_id = 3;
  council_account_member_id = pos 9;
  created_at = 0;
  updated_at = 0;
}

abbrev world : W counting
world = record {
  db = record {
    configs = (1, config) ∷ [];
    role_ids = (1, 5 ∷ 6 ∷ []) ∷ [];
    rows = [];
    next_id = 0;
    now = 0;
  };
  ledger = 0;
  events = [];
}

council_agrees_example :
    map_ok
      (λ p. p.allowed)
      (check_council
        (map_ok (λ k. k.council_role_id) (get_config counting 1 world))
        (ok (get_council_role_ids 1 world.db))
        20
        (6 ∷ [])
        "panel_access"
        none)
    ≡ check_council_permission counting 1 (6 ∷ []) world
unfolding fetch_config
council_agrees_example = council_agrees counting 1 20 (6 ∷ []) none world config refl refl

abbrev state_council : LeaderConfig
state_council = record { leader_id = some 40; leader_role_id = none }

abbrev homeland_roles : DepartmentRoles
homeland_roles = record { role_ids = 8 ∷ []; role_id = none }

homeland_lem_example :
    ((check_homeland (some state_council) (λ d. homeland_roles) 20 (8 ∷ []) "arrest").allowed
      ≡ true)
    × ((check_homeland
          (some state_council)
          (λ d. homeland_roles)
          20
          (8 ∷ [])
          "arrest").permission_level
        ≡ some department_head)
unfolding check_leader_permission check_department_permission
homeland_lem_example = homeland_lem (some state_council) (λ d. homeland_roles) 20 (8 ∷ []) "arrest"
