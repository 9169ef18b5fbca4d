-- ===== src/Coordination/Evolution/Operations.antt =====
-- danus/coordination/store.py: each transaction on the slots lets the store evolve.
use danus.Base.{
  ℕ, ◌+◌, ◌≤◌, String, true, ◌&&◌, ◌||◌, not, Option, none, some, ◌≡◌, refl, arith, leb,
}
use danus.Base.Result.{Holds, Holds-bind, Holds-require, Holds-then, Holds-if, Holds-ok}
use danus.Coordination.Rows.{
  Slot, Phase, reasoning, critic_review, owner_action_required, phase_eq, Review, SlotState,
  prepared, active, ambiguous, terminal, is_open, is_prepared, Store, Text, find_slot,
}
use danus.Coordination.Transactions.{Transaction, terminalize_expired_prepared}
use danus.Coordination.Binding.{write_worker_state}
use danus.Coordination.Advance.{advance_generation_if_ready, has_overlay}
use danus.Coordination.Admit.{
  resume, claim_review, insert_slot, freeze, reserve, admit_new, open_count, lane_eligible,
  already_terminal, waiting_state,
}
use danus.Coordination.Slots.{end_review, finish}
use danus.Coordination.History.{Succeeds-refl}
use danus.Coordination.Evolution.{
  rank, find_slot-absent, Evolves, Evolves-same, Evolves-refl, Evolves-trans, Follows,
  set_slot-Evolves, append-Evolves,
}
use danus.Coordination.Evolution.Phases.{write-Evolves, advance-Evolves}

-- What a transaction commits is a later state of the store.
abbrev pub Commits : {A : Type 0} → Store → Transaction A → Type 0
Commits s = Holds (λ r. Evolves s r.1)

pub rank-le : (x : SlotState) → rank x ≤ 3
rank-le prepared = omega arith
rank-le active = omega arith
rank-le ambiguous = omega arith
rank-le terminal = omega arith

pub settle-Follows :
    (a : Slot) (now : ℕ) (text : String) → is_open a.state ≡ true → Follows a (finish now text a)
settle-Follows a now text h = record {
  id = refl;
  worker = refl;
  lane = refl;
  generation = refl;
  phase = refl;
  task = refl;
  prompt = λ p e. e;
  state = rank-le a.state;
  settled = λ e. cc (h, e);
}

module _ (lib : Text) (s : Store) (now : ℕ) where
  -- a write of the worker's state and an advance, after a first change
  pub wind_up :
      (u : Store) (worker lane state : String) (g : ℕ) (phase : Phase)
      → Evolves s u
      → Holds
          (λ r. Evolves s r.1)
          (advance_generation_if_ready lib (write_worker_state worker lane state g phase now u) now)
  wind_up u worker lane state g phase f = record {
    at = λ r e. Evolves-trans s u r.1 f (
        Evolves-trans u _ r.1 (write-Evolves worker lane state g phase now u)
          ((advance-Evolves lib _ now).at r e));
  }

  pub terminalize-Evolves :
      (slot : Slot)
      → find_slot slot.slot_id s.slots ≡ some slot
      → Holds (Evolves s) (terminalize_expired_prepared lib s slot now)
  unfolding terminalize_expired_prepared
  terminalize-Evolves slot here = Holds-require _ _ (λ is. Holds-then _ (λ _. Holds-bind _ (λ r e.
      Holds-ok (
        (wind_up _ slot.worker slot.lane "phase_expired_not_dispatched" slot.generation slot.phase (
            set_slot-Evolves slot.slot_id _ s slot here (λ r. refl) (λ r. omega arith)
              (settle-Follows slot now _ (ground (arith, is))))).at
          r e))))

  pub resume-Evolves :
      (worker lane : String) (row : Slot)
      → find_slot row.slot_id s.slots ≡ some row
      → Commits s (resume lib s worker lane now row)
  unfolding resume
  resume-Evolves worker lane row here =
      Holds-if (leb s.project.phase_deadline_at now && is_prepared row.state)
        (λ _.
          Holds-bind (terminalize_expired_prepared lib s row now)
            (λ t e. Holds-ok ((terminalize-Evolves row here).at t e)))
        (λ _.
          Holds-bind _
            (λ a e. Holds-ok (write-Evolves worker lane "admitted" row.generation row.phase now s)))

  insert-Evolves :
      (row : Slot) → open_count s + 1 ≤ s.max_paid_workers → Holds (Evolves s) (insert_slot row s)
  unfolding insert_slot
  insert-Evolves row room = Holds-require _ _ (λ new. Holds-require _ _ (λ _.
      Holds-require _ _ (λ _.
        Holds-ok (
          append-Evolves s row (find_slot-absent row.slot_id s.slots (ground (arith, new))) room))))

  claim-Evolves : (id : String) (r : Option Review) → Holds (Evolves s) (claim_review id now r s)
  unfolding claim_review
  claim-Evolves id none = Holds-ok (Evolves-refl s)
  claim-Evolves id (some r) =
      Holds-require _ _
        (λ _. Holds-ok (Evolves-same s _ refl refl refl (omega arith) (Succeeds-refl s.candidates)))

  freeze-Evolves : (worker : String) (g : ℕ) → Evolves s (freeze worker g now s)
  unfolding freeze
  freeze-Evolves worker g =
      Evolves-same s _ refl refl refl (omega arith) (Succeeds-refl s.candidates)

  pub end_review-Evolves :
      (id : String) (p : Phase) (r : Option String) → Holds (Evolves s) (end_review id now p r s)
  unfolding end_review
  end_review-Evolves id critic_review (some r) =
      Holds-require _ _
        (λ _. Holds-ok (Evolves-same s _ refl refl refl (omega arith) (Succeeds-refl s.candidates)))
  end_review-Evolves id critic_review none = Holds-ok (Evolves-refl s)
  end_review-Evolves id reasoning r = Holds-ok (Evolves-refl s)
  end_review-Evolves id owner_action_required r = Holds-ok (Evolves-refl s)

count-freeze :
    (s : Store) (worker : String) (g now : ℕ)
    → ((freeze worker g now s).slots ≡ s.slots)
      × ((freeze worker g now s).max_paid_workers ≡ s.max_paid_workers)
unfolding freeze
count-freeze s worker g now = (refl, refl)

module _ (lib : Text) (s : Store) (now : ℕ) where
  reserve-Evolves :
      (worker lane id : String) (r : Option Review)
      → open_count s + 1 ≤ s.max_paid_workers
      → Commits s (reserve lib s worker lane now id r)
  unfolding reserve
  reserve-Evolves worker lane id r room = Holds-bind _ (λ row _. Holds-then _ (λ _.
      Holds-require _ _ (λ _. Holds-bind _ (λ d _.
        let f = freeze worker s.project.generation now s in
        let (same, limit) = count-freeze s worker s.project.generation now in
        Holds-bind _ (λ t et. Holds-bind _ (λ u eu. Holds-bind _ (λ made _. Holds-bind _ (λ a _.
          Holds-ok (
            Evolves-trans s f _ (freeze-Evolves lib s now worker s.project.generation) (
              Evolves-trans f t _
                ((insert-Evolves lib f now _ (ground (arith, room, same, limit))).at t et)
                (Evolves-trans t u _ ((claim-Evolves lib t now id r).at u eu) (
                  write-Evolves worker lane "admitted" s.project.generation s.project.phase now
                    u))))))))))))

  pub admit_new-Evolves : (worker lane id : String) → Commits s (admit_new lib s worker lane now id)
  unfolding admit_new
  admit_new-Evolves worker lane id = Holds-bind _ (λ r _.
      Holds-if
        (not (lane_eligible s worker lane r)
          || phase_eq s.project.phase owner_action_required
          || has_overlay s
          || leb s.project.phase_deadline_at now)
        (λ _. Holds-ok (
          write-Evolves worker lane (waiting_state s now) s.project.generation s.project.phase now
            s))
        (λ _.
          Holds-if (already_terminal s worker || leb s.max_paid_workers (open_count s))
            (λ _. Holds-ok (
              write-Evolves worker lane "waiting_admission" s.project.generation s.project.phase now
                s))
            (λ room. reserve-Evolves worker lane id _ (ground (arith, room)))))
