-- ===== src/Coordination/Policy/Rosters.antt =====
-- danus/coordination/policy.py: what the choice of the paid lanes gives.
use danus.Base.{
  ℕ, zero, suc, ◌+◌, ◌-◌, ◌≤◌, String, Bool, true, false, ◌||◌, none, some, List, [], ◌∷◌, ◌==◌,
  ◌≡◌, ◌∙◌, refl, sym, arith, leb, ltb, length, take, eq_iff, eq_refl, subst, Bool-cases, if_true,
  if_false, inl, inr, if◌then◌else◌,
}
use danus.Base.Assoc.{put}
use danus.Base.Names.{contains}
use danus.Base.Result.{ok, Holds, Holds-ok, Holds-err, >>=-eq-ok, >>-eq-ok, require-then-eq-ok}
use danus.Core.Verdict.{Fields, get}
use danus.Coordination.Policy.{
  CoordinationConfig, RoleText, role_pairs, as_dict, rank_of, insert_worker, sort_workers,
  LaneRoster, explorer_lanes, critic_lane, roster_of, workers_of, roles_of, select_lane_roster,
}

contains-insert_worker :
    (rank : String → ℕ) (x w : String) (ws : List String)
    → contains x (insert_worker rank w ws) ≡ (w == x) || contains x ws
unfolding contains insert_worker
contains-insert_worker rank x w [] = refl
contains-insert_worker rank x w (v ∷ vs) = ground (arith, contains-insert_worker rank x w vs)

contains-sort_workers :
    (rank : String → ℕ) (x : String) (ws : List String)
    → contains x (sort_workers rank ws) ≡ contains x ws
unfolding contains sort_workers
contains-sort_workers rank x [] = refl
contains-sort_workers rank x (w ∷ ws) =
    ground (
      arith,
      contains-insert_worker rank x w (sort_workers rank ws),
      contains-sort_workers rank x ws,
    )

-- Falling ranks.
abbrev IsFalling : (String → ℕ) → List String → Type 0
IsFalling rank [] = Unit
IsFalling rank (w ∷ ws) =
    ((x : String) → contains x ws ≡ true → rank x ≤ rank w) × IsFalling rank ws

within :
    (rank : String → ℕ) (v x : String) (vs : List String) (b : ℕ)
    → rank v ≤ b
    → ((y : String) → contains y vs ≡ true → rank y ≤ b)
    → (v == x) || contains x vs ≡ true
    → rank x ≤ b
within rank v x vs b h below e = elim (Bool-cases (v == x)) [
  | inl same ↦ subst (λ y. rank y ≤ b) (ground (arith, same, eq_iff v x)) h
  | inr other ↦ below x (ground (arith, e, other))
]

insert-IsFalling :
    (rank : String → ℕ) (w : String) (ws : List String)
    → IsFalling rank ws
    → IsFalling rank (insert_worker rank w ws)
unfolding insert_worker contains
insert-IsFalling rank w [] h = (λ x e. cc, tt)
insert-IsFalling rank w (v ∷ vs) h = elim (Bool-cases (leb (rank v) (rank w))) [
  | inl least ↦ subst (IsFalling rank) (sym (if_true _ _ least)) (
    λ x e.
        within rank v x vs (rank w) (ground (arith, least)) (λ y m. ground (arith, h.0 y m, least))
          e,
    h,
  )
  | inr most ↦ subst (IsFalling rank) (sym (if_false _ _ most)) (
    λ x e.
        within rank w x vs (rank v) (ground (arith, most)) h.0
          (sym (contains-insert_worker rank x w vs) ∙ e),
    insert-IsFalling rank w vs h.1,
  )
]

sort-IsFalling : (rank : String → ℕ) (ws : List String) → IsFalling rank (sort_workers rank ws)
unfolding sort_workers
sort-IsFalling rank [] = tt
sort-IsFalling rank (w ∷ ws) =
    insert-IsFalling rank w (sort_workers rank ws) (sort-IsFalling rank ws)

length-put-le : (k v : String) (m : List (String × String)) → length (put k v m) ≤ length m + 1
unfolding put
length-put-le k v [] = omega arith
length-put-le k v ((j, w) ∷ m) = ground (arith, length-put-le k v m)

length-explorer_lanes-le :
    (lib : RoleText) (i : ℕ) (es : List String) (lanes : List (String × String))
    → length (explorer_lanes lib i es lanes) ≤ length es + length lanes
unfolding explorer_lanes
length-explorer_lanes-le lib i [] lanes = omega arith
length-explorer_lanes-le lib i (e ∷ es) lanes =
    omega (arith, length-put-le e _ lanes, length-explorer_lanes-le lib (suc i) es (put e _ lanes))

length-take-le : (k : ℕ) (xs : List String) → length (take k xs) ≤ k
length-take-le zero xs = omega arith
length-take-le (suc k) [] = omega arith
length-take-le (suc k) (x ∷ xs) = omega (arith, length-take-le k xs)

-- The root has no lower rank than any worker, and the paid lanes are within the limit.
pub record IsRoster (rank : String → ℕ) (workers : List String) (max_paid : ℕ) (r : LaneRoster)
    : Type 0 where
  pub listed : contains r.root workers ≡ true
  pub strongest : (w : String) → contains w workers ≡ true → rank w ≤ rank r.root
  pub few : 1 ≤ max_paid → length r.lanes ≤ max_paid

roster-few :
    (lib : RoleText) (max_paid : ℕ) (second : String) (others : List String) (root : String)
    (t : Bool)
    → ltb 1 max_paid ≡ t
    → 1 ≤ max_paid
    → length (
        explorer_lanes lib 1
          (take (max_paid - 2) others)
          (critic_lane (if t then some second else none) ((root, "root") ∷ [])))
      ≤ max_paid
roster-few lib max_paid second others root true e h = ground (
  arith,
  e,
  length-take-le (max_paid - 2) others,
  length-put-le second "critic" ((root, "root") ∷ []),
  length-explorer_lanes-le lib 1 (take (max_paid - 2) others)
      (put second "critic" ((root, "root") ∷ [])),
)
roster-few lib max_paid second others root false e h = ground (
  arith,
  e,
  h,
  length-take-le (max_paid - 2) others,
  length-explorer_lanes-le lib 1 (take (max_paid - 2) others) ((root, "root") ∷ []),
)

roster_lem :
    (lib : RoleText) (rank : String → ℕ) (workers sorted : List String) (max_paid : ℕ)
    → ((x : String) → contains x sorted ≡ contains x workers)
    → IsFalling rank sorted
    → Holds (IsRoster rank workers max_paid) (roster_of lib max_paid sorted)
unfolding roster_of contains
roster_lem lib rank workers [] max_paid same h = Holds-err
roster_lem lib rank workers (root ∷ []) max_paid same h = Holds-ok (record {
  listed = sym (same root) ∙ ground (arith, eq_refl root);
  strongest = λ w m. within rank root w [] (rank root) (omega arith) h.0 (same w ∙ m);
  few = λ k. k;
})
roster_lem lib rank workers (root ∷ second ∷ others) max_paid same h = Holds-ok (record {
  listed = sym (same root) ∙ ground (arith, eq_refl root);
  strongest =
      λ w m. within rank root w (second ∷ others) (rank root) (omega arith) h.0 (same w ∙ m);
  few = roster-few lib max_paid second others root (ltb 1 max_paid) refl;
})

-- Let a project's paid lanes be chosen. The root is one of its workers, and no worker's effort ranks
-- higher than the root's, for the efforts that the roles give; there are no more lanes than the
-- configuration has paid workers, if it has any.
pub select_lane_roster-IsRoster :
    (lib : RoleText) (metadata : Fields) (config : CoordinationConfig) (r : LaneRoster)
    → select_lane_roster lib metadata config ≡ ok r
    → (workers : List String) × (roles : String) × (pairs : List (String × String)) × (workers_of
          (get "workers" metadata)
        ≡ ok workers)
      × (roles_of (get "roles" metadata) ≡ ok roles)
      × (role_pairs lib roles ≡ ok pairs)
      × IsRoster (rank_of lib (as_dict [] pairs)) workers config.max_paid_workers r
unfolding select_lane_roster
select_lane_roster-IsRoster lib metadata config r h =
    let (workers, named, rest) = >>=-eq-ok (workers_of (get "workers" metadata)) _ h in
    let (roles, written, rest2) = >>=-eq-ok (roles_of (get "roles" metadata)) _ rest in
    let (_, rest3) = require-then-eq-ok (leb 1 (length workers)) _ _ rest2 in
    let (pairs, parsed, rest4) = >>=-eq-ok (role_pairs lib roles) _ rest3 in
    let (_, rest5) = >>-eq-ok _ _ rest4 in
    let (_, rest6) = >>-eq-ok _ _ rest5 in
    let rank = rank_of lib (as_dict [] pairs) in
    (
      workers,
      roles,
      pairs,
      named,
      written,
      parsed,
      (roster_lem lib rank workers (sort_workers rank workers) config.max_paid_workers
            (λ x. contains-sort_workers rank x workers) (sort-IsFalling rank workers)).at
          r rest6,
    )
