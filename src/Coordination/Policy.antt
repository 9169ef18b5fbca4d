-- ===== src/Coordination/Policy.antt =====
-- danus/coordination/policy.py: a project's coordination settings, and the choice of its paid lanes.
pub mod Settings
pub mod Rosters
mod Tests
use Prim.Native.String.{◌++◌ as ◌+++◌}
use danus.Base.{
  ℕ, zero, suc, ◌+◌, ◌-◌, String, Bool, true, false, not, ◌&&◌, ◌||◌, Option, none, some, List, [],
  ◌∷◌, ◌++◌, ◌==◌, leb, ltb, length, take, map, if◌then◌else◌,
}
use danus.Base.Assoc.{lookup, put}
use danus.Base.Names.{contains}
use danus.Base.Result.{Result, ok, err, ◌>>=◌, ◌>>◌, require, or_raise}
use danus.Core.Verdict.{
  Json, int, text, object, array, null, Items, no_items, item, Fields, no_fields, field, get, keys,
  all_of,
}

pub record CoordinationConfig : Type 0 where
  pub mode : String
  pub max_paid_workers : ℕ
  pub phase_timeout_seconds : ℕ

abbrev pub legacy_config : CoordinationConfig
legacy_config = record { mode = "legacy"; max_paid_workers = 0; phase_timeout_seconds = 0 }

-- `choice in {None, "reasoning-first", REASONING_FIRST_MODE}`
abbrev pub is_reasoning : Option String → Bool
is_reasoning none = true
is_reasoning (some c) = (c == "reasoning-first") || (c == "reasoning_first_v1")

abbrev pub is_legacy : Option String → Bool
is_legacy none = false
is_legacy (some c) = c == "legacy"

-- `active_explorers` is a number that is not negative.
unfoldable pub coordination_payload : Option String → ℕ → Result Fields
coordination_payload choice active_explorers = do
  require (leb active_explorers 2) "active_explorers must be 0, 1, or 2"
  if is_reasoning choice
      then ok (
          field "mode" (text "reasoning_first_v1") (
            field "max_paid_workers" (int (2 + active_explorers))
              (field "phase_timeout_seconds" (int 2700) no_fields)))
      else (require (is_legacy choice) "unsupported coordination mode"
          >> (require (leb active_explorers 0)
                "legacy coordination does not support active explorers"
              >> ok (field "mode" (text "legacy") no_fields)))

-- `value == word`, of any value
abbrev pub is_word : String → Json → Bool
is_word word (text t) = t == word
is_word word _ = false

-- `set(raw) == …`
abbrev pub has_keys : List String → Fields → Bool
has_keys expected raw = all_of expected (keys raw) && all_of (keys raw) expected

-- an int, not a bool, from 1 to a limit
unfoldable pub bounded : ℕ → String → Json → Result ℕ
bounded limit message (int n) = do require (leb 1 n && leb n limit) message; ok n
bounded limit message _ = err message

unfoldable pub reasoning_config : Fields → Result CoordinationConfig
unfolding get keys all_of bounded
reasoning_config raw = do
  require (is_word "reasoning_first_v1" (get "mode" raw)) "unsupported project coordination mode"
  require (has_keys ("mode" ∷ "max_paid_workers" ∷ "phase_timeout_seconds" ∷ []) raw)
      "reasoning-first coordination has an invalid field set"
  max_paid ← bounded 4 "max_paid_workers must be between 1 and 4" (get "max_paid_workers" raw)
  timeout ←
      bounded 2700 "phase_timeout_seconds must be between 1 and 2700"
        (get "phase_timeout_seconds" raw)
  ok (record {
    mode = "reasoning_first_v1";
    max_paid_workers = max_paid;
    phase_timeout_seconds = timeout;
  })

unfoldable pub config_of : Json → Result CoordinationConfig
unfolding get keys all_of reasoning_config
config_of null = ok legacy_config
config_of (object raw) =
    if is_word "legacy" (get "mode" raw)
    then (require (has_keys ("mode" ∷ []) raw) "legacy coordination accepts only the mode field"
        >> ok legacy_config)
    else reasoning_config raw
config_of _ = err "project coordination must be an object"

unfoldable pub coordination_config : Fields → Result CoordinationConfig
unfolding get config_of
coordination_config metadata = config_of (get "coordination" metadata)

-- What the roster uses of Python's text: `split(",")` and `strip`, the two groups of _ROLE_PART_RE,
-- the second as a number, `lower`, and the decimal form of a number.
pub record RoleText : Type 0 where
  pub parts : String → List String
  pub role_part : String → Option (String × ℕ)
  pub lower : String → String
  pub decimal : ℕ → String

-- the pairs of one part, from the index after `done` on, of which `count` are left
unfoldable pub pairs_from : RoleText → String → ℕ → ℕ → List (String × String)
pairs_from lib effort done zero = []
pairs_from lib effort zero (suc count) = (effort, effort) ∷ pairs_from lib effort 1 count
pairs_from lib effort (suc done) (suc count) =
    (effort +++ lib.decimal (suc (suc done)), effort) ∷ pairs_from lib effort (suc (suc done)) count

unfoldable pub part_pairs : RoleText → List String → Result (List (String × String))
unfolding pairs_from
part_pairs lib [] = ok []
part_pairs lib (part ∷ parts) = do
  rest ← part_pairs lib parts
  if part == ""
      then ok rest
      else (or_raise (lib.role_part part) "project roles are malformed" >>= λ role.
          ok (pairs_from lib role.0 0 role.1 ++ rest))

unfoldable pub role_pairs : RoleText → String → Result (List (String × String))
unfolding part_pairs
role_pairs lib spec = do
  pairs ← part_pairs lib (lib.parts spec)
  require (leb 1 (length pairs)) "project roles are empty"
  ok pairs

-- dict(pairs)
unfoldable pub as_dict : List (String × String) → List (String × String) → List (String × String)
unfolding put
as_dict d [] = d
as_dict d ((k, v) ∷ pairs) = as_dict (put k v d) pairs

-- non-empty texts, each once
unfoldable pub worker_names : Items → Result (List String)
unfolding contains
worker_names no_items = ok []
worker_names (item (text t) xs) = do
  rest ← worker_names xs
  require (not (t == "") && not (contains t rest)) "project roster metadata is malformed"
  ok (t ∷ rest)
worker_names (item _ xs) = err "project roster metadata is malformed"

-- _EFFORT_RANK, with each rank one higher, so that 0 stands for -1
abbrev pub effort_ranks : List (String × ℕ)
effort_ranks =
    ("none", 1)
    ∷ ("minimal", 2)
    ∷ ("low", 3)
    ∷ ("medium", 4)
    ∷ ("high", 5)
    ∷ ("xhigh", 6)
    ∷ ("max", 7)
    ∷ ("ultra", 8)
    ∷ []

-- `_EFFORT_RANK.get(effort, -1) + 1`
unfoldable pub effort_rank : String → ℕ
unfolding lookup
effort_rank effort = elim (lookup effort effort_ranks) [ none ↦ 0 | some rank ↦ rank ]

unfoldable pub rank_of : RoleText → List (String × String) → String → ℕ
unfolding lookup effort_rank
rank_of lib efforts worker = elim (lookup worker efforts) [
  | none ↦ 0
  | some effort ↦ effort_rank (lib.lower effort)
]

-- sorted(workers, key=…): by falling rank, and in the roster's order among equals
unfoldable pub insert_worker : (String → ℕ) → String → List String → List String
insert_worker rank w [] = w ∷ []
insert_worker rank w (v ∷ vs) =
    if leb (rank v) (rank w) then w ∷ v ∷ vs else v ∷ insert_worker rank w vs

unfoldable pub sort_workers : (String → ℕ) → List String → List String
unfolding insert_worker
sort_workers rank [] = []
sort_workers rank (w ∷ ws) = insert_worker rank w (sort_workers rank ws)

pub record LaneRoster : Type 0 where
  pub root : String
  pub critic : Option String
  pub explorers : List String
  pub lanes : List (String × String)

-- the loop over the explorers, from an index on
unfoldable pub explorer_lanes :
    RoleText → ℕ → List String → List (String × String) → List (String × String)
unfolding put
explorer_lanes lib i [] lanes = lanes
explorer_lanes lib i (e ∷ es) lanes =
    explorer_lanes lib (suc i) es (put e ("explorer" +++ lib.decimal i) lanes)

abbrev pub critic_lane : Option String → List (String × String) → List (String × String)
critic_lane none lanes = lanes
critic_lane (some c) lanes = put c "critic" lanes

-- the lanes of the workers in their order
unfoldable pub roster_of : RoleText → ℕ → List String → Result LaneRoster
unfolding explorer_lanes put
roster_of lib max_paid [] = err "project roster metadata is malformed"
roster_of lib max_paid (root ∷ []) =
    ok (record { root = root; critic = none; explorers = []; lanes = (root, "root") ∷ [] })
roster_of lib max_paid (root ∷ second ∷ others) =
    let critic = if ltb 1 max_paid then some second else none in
    let explorers = take (max_paid - 2) others in
    ok (record {
      root = root;
      critic = critic;
      explorers = explorers;
      lanes = explorer_lanes lib 1 explorers (critic_lane critic ((root, "root") ∷ []));
    })

abbrev pub workers_of : Json → Result (List String)
workers_of (array xs) = worker_names xs
workers_of _ = err "project roster metadata is malformed"

abbrev pub roles_of : Json → Result String
roles_of (text t) = ok t
roles_of _ = err "project roster metadata is malformed"

unfoldable pub select_lane_roster : RoleText → Fields → CoordinationConfig → Result LaneRoster
unfolding get worker_names role_pairs as_dict all_of sort_workers rank_of roster_of
select_lane_roster lib metadata config = do
  workers ← workers_of (get "workers" metadata)
  roles ← roles_of (get "roles" metadata)
  require (leb 1 (length workers)) "project roster metadata is malformed"
  pairs ← role_pairs lib roles
  let efforts = as_dict [] pairs
  require (all_of (map (λ p. p.0) efforts) workers && all_of workers (map (λ p. p.0) efforts))
      "project roles and worker roster disagree"
  require (leb config.max_paid_workers 2 || leb config.max_paid_workers (length workers))
      "reasoning-first roster has fewer workers than its protected paid lanes"
  roster_of lib config.max_paid_workers (sort_workers (rank_of lib efforts) workers)
