-- ===== src/Coordination/Policy/Tests.antt =====
-- danus/coordination/policy.py: concrete settings and rosters.
use danus.Base.{◌+◌, String, none, some, List, [], ◌∷◌, ◌==◌, ◌≡◌, refl, if◌then◌else◌}
use danus.Base.Assoc.{lookup, put}
use danus.Base.Names.{contains}
use danus.Base.Result.{ok, ◌>>=◌, ◌>>◌, require, or_raise}
use danus.Core.Verdict.{
  text, int, array, object, no_items, item, Fields, no_fields, field, get, keys, all_of, one_of,
}
use danus.Coordination.Policy.{
  legacy_config, is_reasoning, coordination_payload, config_of, bounded, reasoning_config,
  coordination_config, RoleText, role_pairs, part_pairs, pairs_from, as_dict, worker_names,
  effort_rank, rank_of, insert_worker, sort_workers, LaneRoster, explorer_lanes, roster_of,
  workers_of, roles_of, select_lane_roster,
}
use danus.Coordination.Policy.Settings.{
  IsWithin, reasoning_settings, coordination_config-IsWithin,
  coordination_config-coordination_payload,
}
use danus.Coordination.Policy.Rosters.{IsRoster, select_lane_roster-IsRoster}

abbrev payload : Fields
payload =
    field "mode" (text "reasoning_first_v1")
      (field "max_paid_workers" (int 3) (field "phase_timeout_seconds" (int 2700) no_fields))

-- Three workers, the second of the highest effort.
abbrev project : Fields
project =
    field "workers" (array (item (text "low") (item (text "max") (item (text "high") no_items))))
      (field "roles" (text "low:1,max:1,high:1") (field "coordination" (object payload) no_fields))

abbrev role_text : RoleText
role_text = record {
  parts = λ spec. "low:1" ∷ "max:1" ∷ "high:1" ∷ [];
  role_part = λ part.
      if part == "low:1"
      then some ("low", 1)
      else if part == "max:1"
      then some ("max", 1)
      else some ("high", 1);
  lower = λ t. t;
  decimal = λ n. "1";
}

payload_written : coordination_payload none 1 ≡ ok payload
unfolding coordination_payload ◌>>=◌ ◌>>◌ require
payload_written = refl

project_payload : get "coordination" project ≡ object payload
unfolding get
project_payload = refl

project_config : coordination_config project ≡ ok (reasoning_settings 3)
unfolding coordination_config config_of reasoning_config bounded get keys all_of one_of ◌>>=◌ ◌>>◌
    require
project_config = refl

coordination_config-coordination_payload_example :
    coordination_config project
    ≡ ok (if is_reasoning none then reasoning_settings (2 + 1) else legacy_config)
coordination_config-coordination_payload_example =
    coordination_config-coordination_payload none 1 payload project payload_written project_payload

coordination_config-IsWithin_example : IsWithin (reasoning_settings 3)
coordination_config-IsWithin_example =
    coordination_config-IsWithin project (reasoning_settings 3) project_config

abbrev roster : LaneRoster
roster = record {
  root = "max";
  critic = some "high";
  explorers = "low" ∷ [];
  lanes = ("max", "root") ∷ ("high", "critic") ∷ ("low", "explorer1") ∷ [];
}

project_roster : select_lane_roster role_text project (reasoning_settings 3) ≡ ok roster
unfolding select_lane_roster get worker_names contains role_pairs part_pairs pairs_from as_dict put
    all_of one_of sort_workers insert_worker rank_of effort_rank lookup roster_of explorer_lanes
    ◌>>=◌ ◌>>◌ require or_raise
project_roster = refl

select_lane_roster-IsRoster_example :
    (workers : List String) × (roles : String) × (pairs : List (String × String)) × (workers_of
        (get "workers" project)
      ≡ ok workers)
    × (roles_of (get "roles" project) ≡ ok roles)
    × (role_pairs role_text roles ≡ ok pairs)
    × IsRoster (rank_of role_text (as_dict [] pairs)) workers 3 roster
select_lane_roster-IsRoster_example =
    select_lane_roster-IsRoster role_text project (reasoning_settings 3) roster project_roster
