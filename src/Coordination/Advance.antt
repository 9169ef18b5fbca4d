-- ===== src/Coordination/Advance.antt =====
-- danus/coordination/store.py: the end of a phase. When every required lane is terminal, the
-- generation advances, or a pending review opens the critic phase.
use danus.Base.{
  ℕ, ◌+◌, String, Bool, true, false, ◌&&◌, ◌||◌, not, Option, none, some, List, [], ◌∷◌, ◌++◌, ◌==◌,
  ◌=?◌, is_some, if◌then◌else◌, map,
}
use danus.Base.Assoc.{lookup}
use danus.Base.Result.{Result, ok, err, ◌>>=◌, ◌>>◌, require, or_raise}
use danus.Coordination.Rows.{
  Phase, reasoning, critic_review, owner_action_required, phase_eq, Slot, is_open, Review,
  not_confirmed, is_live, is_pending, is_active, is_overlay, Task, Store, Text, find_review,
  find_task, any, update_where,
}
use danus.Coordination.Binding.{validate_generation_task_row}

unfoldable pub has_overlay : Store → Bool
unfolding any
has_overlay s = any (λ c. is_overlay c.state) s.candidates

unfoldable pub live_review : Option Review → Result (Option Review)
live_review none = err "active obstacle review pointer is inconsistent"
live_review (some r) =
    if is_live r.state then ok (some r) else err "active obstacle review pointer is inconsistent"

unfoldable pub pointed_review : Option String → List Review → Result (Option Review)
unfolding live_review find_review
pointed_review none reviews = ok none
pointed_review (some id) reviews = live_review (find_review id reviews)

unfoldable pub active_review : Store → Result (Option Review)
unfolding pointed_review
active_review s = pointed_review s.project.active_review_id s.reviews

-- The tasks of a generation, in the order of the roster; an error if one of them is another lane's.
unfoldable pub assignments : Text → Store → ℕ → List (String × String) → Result (List (Option Task))
unfolding validate_generation_task_row find_task
assignments lib s generation [] = ok []
assignments lib s generation ((worker, lane) ∷ required) =
    elim (find_task worker generation s.tasks) [
      | none ↦ assignments lib s generation required >>= λ rest. ok (none ∷ rest)
      | some row ↦
          validate_generation_task_row lib s row
          >> require (row.lane == lane) "generation task lane conflicts with the protected roster"
          >> (assignments lib s generation required >>= λ rest. ok (some row ∷ rest))
    ]

unfoldable pub all {ℓ} : {A : Type ℓ} → (A → Bool) → List A → Bool
all p [] = true
all p (x ∷ xs) = p x && all p xs

unfoldable pub task_staging : Text → Store → ℕ → Result (List (Option Task))
unfolding assignments all
task_staging lib s generation = do
  rows ← assignments lib s generation s.lanes
  require
      (all (λ row. not (row.generation =? generation) || is_some (lookup row.worker s.lanes))
        s.tasks)
      "generation task includes a worker outside the paid roster"
  ok rows

abbrev pub is_frozen : Option Task → Bool
is_frozen none = false
is_frozen (some row) = is_some row.frozen_at

-- the INSERTs of the loop
unfoldable pub carried : Store → ℕ → ℕ → List (String × String) → Result (List Task)
unfolding find_task
carried s generation staged_at [] = ok []
carried s generation staged_at ((worker, lane) ∷ required) = do
  row ←
      or_raise (find_task worker generation s.tasks)
        "completed generation task disappeared during carry-forward"
  rest ← carried s generation staged_at required
  ok (
      record {
        worker = worker;
        generation = generation + 1;
        lane = lane;
        task = row.task;
        staged_at = staged_at;
        frozen_at = none;
      }
      ∷ rest)

unfoldable pub copy_forward : Text → Store → ℕ → ℕ → Result Store
unfolding task_staging carried any all
copy_forward lib s generation staged_at = do
  source ← task_staging lib s generation
  require (all is_frozen source)
      "completed generation has no exact frozen task set to carry forward"
  require (not (any (λ row. row.generation =? generation + 1) s.tasks))
      "automatic generation advance found conflicting future tasks"
  rows ← carried s generation staged_at s.lanes
  ok (record s { tasks = s.tasks ++ rows })

-- The lanes whose slot of this generation and phase is terminal.
unfoldable pub is_completed : ℕ → Phase → String → List Slot → Bool
unfolding any
is_completed generation phase lane slots =
    any
      (λ r.
        (r.generation =? generation)
        && phase_eq r.phase phase
        && not (is_open r.state)
        && (r.lane == lane))
      slots

abbrev pub required : Phase → Store → List String
required critic_review s = "critic" ∷ []
required _ s = map (λ p. p.1) s.lanes

unfoldable pub is_round_over : Store → Bool
unfolding all is_completed
is_round_over s =
    let p = s.project in
    all (λ lane. is_completed p.generation p.phase lane s.slots) (required p.phase s)

unfoldable pub open_critic_phase : Store → ℕ → Review → Result Store
open_critic_phase s now review = do
  require (is_pending review.state && (review.generation =? s.project.generation))
      "reasoning phase has a non-pending obstacle review"
  require (not (is_some s.project.recommendation_id)) "critic review phase transition lost its CAS"
  ok (record s {
    project = record s.project {
      phase = critic_review;
      phase_started_at = now;
      phase_deadline_at = now + s.phase_timeout;
      updated_at = now;
    };
  })

unfoldable pub next_generation : Text → Store → ℕ → Result Store
unfolding copy_forward
next_generation lib s now = do
  copied ← copy_forward lib s s.project.generation now
  require (not (is_some s.project.recommendation_id)) "generation advance lost its CAS"
  ok (record copied {
    project = record s.project {
      generation = s.project.generation + 1;
      phase = reasoning;
      phase_started_at = now;
      active_review_id = none;
      phase_deadline_at = now + s.phase_timeout;
      updated_at = now;
    };
  })

-- `UPDATE obstacle_reviews SET state='not_confirmed' … AND confirmation_entry_id IS NULL`
unfoldable pub close_unconfirmed : Store → ℕ → Option Review → Result Store
unfolding update_where
close_unconfirmed s now none = err "terminal critic review has no exact active review"
close_unconfirmed s now (some review) = do
  require (is_active review.state) "terminal critic review has no exact active review"
  require (not (is_some review.confirmation_entry_id))
      "unconfirmed critic review terminal transition lost its CAS"
  ok (record s {
    reviews =
        update_where (λ r. r.review_id == review.review_id)
          (λ r. record r { state = not_confirmed; terminal_at = some now }) s.reviews;
  })

unfoldable pub end_phase : Text → Store → ℕ → Phase → Option Review → Result Store
unfolding open_critic_phase next_generation close_unconfirmed
end_phase lib s now reasoning (some review) = open_critic_phase s now review
end_phase lib s now critic_review review =
    close_unconfirmed s now review >>= λ t. next_generation lib t now
end_phase lib s now _ review = next_generation lib s now

unfoldable pub advance_generation_if_ready : Text → Store → ℕ → Result (Bool × Store)
unfolding has_overlay is_round_over active_review end_phase
advance_generation_if_ready lib s now =
    if phase_eq s.project.phase owner_action_required || has_overlay s
    then ok (false, s)
    else if not (is_round_over s)
    then ok (false, s)
    else do review ← active_review s; t ← end_phase lib s now s.project.phase review; ok (true, t)
