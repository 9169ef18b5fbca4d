-- ===== src/Coordination/Admissions.antt =====
-- danus/coordination/store.py: who is admitted to a new slot, and to what.
pub mod Guards
use danus.Base.{
  ℕ, ◌<◌, String, Bool, true, false, ◌||◌, not, Option, none, some, List, [], ◌∷◌, ◌++◌, ◌⊎◌, inl,
  inr, Option-cases, ◌==◌, ◌≡◌, ◌≢◌, refl, subst, arith, leb, eq_refl, eq_iff, get_elem?,
}
use danus.Base.Assoc.{lookup}
use danus.Base.Result.{
  ok, Holds, Holds-ok, Holds-bind, Holds-require, Holds-then, Holds-if, or_raise-eq-ok,
}
use danus.Coordination.Rows.{
  Slot, Phase, critic_review, owner_action_required, phase_eq, Review, ReviewState, is_pending,
  is_active, prepared, terminal, Store, Text, find_slot, open_slot, any,
}
use danus.Coordination.Binding.{write_worker_state}
use danus.Coordination.Transactions.{Admission, admission}
use danus.Coordination.Advance.{has_overlay, active_review}
use danus.Coordination.Admit.{
  admit_new, admit, open_count, lane_of, may_review, waiting_state, lane_eligible, already_terminal,
  reserve, insert_slot, claim_review, freeze, new_slot,
}
use danus.Coordination.Searches.{
  IsPointed, active_review-IsPointed, any-eq-false, phase_eq_iff, phase_eq_refl, IsClear,
  IsClear-has_overlay, has_overlay-eq-false,
}
use danus.Coordination.Admissions.Guards.{
  MayReserve, lane_eligible-CanWork, already_terminal-undone, CanWork-lane_eligible,
  undone-already_terminal,
}

find_slot-append_new :
    (rows : List Slot) (row : Slot)
    → any (λ r. r.slot_id == row.slot_id) rows ≡ false
    → find_slot row.slot_id (rows ++ row ∷ []) ≡ some row
unfolding find_slot any
find_slot-append_new [] row e = ground (arith, eq_refl row.slot_id)
find_slot-append_new (r ∷ rows) row e = ground (arith, e, find_slot-append_new rows row)

insert_slot-find :
    (s : Store) (row : Slot)
    → Holds (λ t. find_slot row.slot_id t.slots ≡ some row) (insert_slot row s)
unfolding insert_slot
insert_slot-find s row = Holds-require _ _ (λ new. Holds-require _ _ (λ _.
    Holds-require _ _ (λ _. Holds-ok (find_slot-append_new s.slots row (ground (arith, new))))))

claim_review-slots :
    (id : String) (now : ℕ) (r : Option Review) (s : Store)
    → Holds (λ t. t.slots ≡ s.slots) (claim_review id now r s)
unfolding claim_review
claim_review-slots id now none s = Holds-ok refl
claim_review-slots id now (some r) s = Holds-require _ _ (λ _. Holds-ok refl)

pub admission-slot :
    (lib : Text) (s : Store) (row : Slot) (b : Bool)
    → Holds (λ a. (a.slot ≡ row) × (a.resumed ≡ b)) (admission lib s row b)
unfolding admission
admission-slot lib s row b = Holds-then _ (λ _. Holds-bind _ (λ d _. Holds-ok (refl, refl)))

pub write-slots :
    (worker lane state : String) (g : ℕ) (phase : Phase) (now : ℕ) (s : Store)
    → (write_worker_state worker lane state g phase now s).slots ≡ s.slots
unfolding write_worker_state
write-slots worker lane state g phase now s = refl

-- What an admission to a new slot is.
pub record IsReserved (s : Store) (worker id : String) (now : ℕ) (a : Admission) (t : Store)
    : Type 0 where
  pub fresh : a.resumed ≡ false
  pub stored : find_slot id t.slots ≡ some a.slot
  pub state : a.slot.state ≡ prepared
  pub holder : a.slot.worker ≡ worker
  pub generation : a.slot.generation ≡ s.project.generation
  pub phase : a.slot.phase ≡ s.project.phase

module _ (lib : Text) (s : Store) (worker : String) (now : ℕ) where
  IsReserved-of :
      (lane : String) (r : Option Review) {id : String} (task : String) (a b : Admission)
      (made : Slot) (u : Store)
      → a ≡ b
      → (a.slot ≡ made) × (a.resumed ≡ false)
      → find_slot id u.slots ≡ some made
      → made ≡ new_slot id s worker lane task now r
      → IsReserved s worker id now b
          (write_worker_state worker lane "admitted" s.project.generation s.project.phase now u)
  IsReserved-of lane r task a b made u eb is found e = record {
    fresh = ground (arith, eb, is);
    stored = ground (
      arith,
      eb,
      is,
      found,
      write-slots worker lane "admitted" s.project.generation s.project.phase now u,
    );
    state = ground (arith, eb, is, e);
    holder = ground (arith, eb, is, e);
    generation = ground (arith, eb, is, e);
    phase = ground (arith, eb, is, e);
  }

  reserve-IsReserved :
      (lane id : String) (r : Option Review)
      → Holds
          (λ r.
            ((a : Admission) → r.0 ≡ ok (some a) → IsReserved s worker id now a r.1)
            × (r.0 ≢ ok none))
          (reserve lib s worker lane now id r)
  unfolding reserve
  reserve-IsReserved lane id r = Holds-bind _ (λ row _. Holds-then _ (λ _. Holds-require _ _ (λ _.
      Holds-bind _ (λ d _. Holds-bind _ (λ t et. Holds-bind _ (λ u eu. Holds-bind _ (λ made em.
        Holds-bind _ (λ a ea. Holds-ok (
          (λ b eb.
              let new = new_slot id s worker lane row.task now r in
              let there =
                (insert_slot-find (freeze worker s.project.generation now s) new).at t et in
              let same = (claim_review-slots id now r t).at u eu in
              let is =
                (admission-slot lib
                    (write_worker_state worker lane "admitted" s.project.generation s.project.phase
                      now u)
                    made false).at
                  a ea in
              let found = or_raise-eq-ok _ _ made em in
              IsReserved-of lane r row.task a b made u (cc (eb)) is found
                (ground (arith, there, same, found))),
          λ e. cc (e),
        )))))))))

-- What an admission decides for a worker that has no slot: a new one exactly if it may.
abbrev pub Decides : Store → String → String → ℕ → Option Admission → Store → Type 0
Decides s worker id now r t =
    ((a : Admission) → r ≡ some a → MayReserve s worker now × IsReserved s worker id now a t)
    × (r ≡ none → (t.slots ≡ s.slots) × ¬ MayReserve s worker now)

module _ (lib : Text) (s : Store) (worker : String) (now : ℕ) where
  admit_new-Decides :
      (id : String)
      → Holds
          (λ r. (o : Option Admission) → r.0 ≡ ok o → Decides s worker id now o r.1)
          (admit_new lib s worker (lane_of s worker) now id)
  unfolding admit_new
  admit_new-Decides id = Holds-bind _ (λ r er.
      Holds-if
        (not (lane_eligible s worker (lane_of s worker) r)
          || phase_eq s.project.phase owner_action_required
          || has_overlay s
          || leb s.project.phase_deadline_at now)
        (λ barred. Holds-ok (λ o e. (
          (λ a ea. cc (e, ea)),
          λ _. (
            write-slots worker (lane_of s worker) (waiting_state s now) s.project.generation
                s.project.phase now s,
            λ may. absurd (
                ground (
                  arith,
                  barred,
                  may.early,
                  may.unasked,
                  phase_eq_iff s.project.phase owner_action_required,
                  CanWork-lane_eligible s worker r er may.can,
                  IsClear-has_overlay s may.clear,
                )),
          ),
        )))
        (λ free.
          Holds-if (already_terminal s worker || leb s.max_paid_workers (open_count s))
            (λ full. Holds-ok (λ o e. (
              (λ a ea. cc (e, ea)),
              λ _. (
                write-slots worker (lane_of s worker) "waiting_admission" s.project.generation
                    s.project.phase now s,
                λ may.
                    absurd
                      (ground (arith, full, may.room, undone-already_terminal s worker may.undone)),
              ),
            )))
            (λ room. record {
              at = λ x ex o e.
                  let (granted, some_slot) =
                    (reserve-IsReserved lib s worker now (lane_of s worker) id _).at x ex in
                  (
                    (λ a ea. (
                      record {
                        can = lane_eligible-CanWork s worker r er (ground (arith, free));
                        unasked = λ p. absurd (ground (arith, free, p));
                        clear = has_overlay-eq-false s (ground (arith, free));
                        early = ground (arith, free);
                        undone = already_terminal-undone s worker (ground (arith, room));
                        room = ground (arith, room);
                      },
                      granted a (cc (e, ea)),
                    )),
                    λ absent. absurd (some_slot (cc (e, absent))),
                  );
            })))

-- Let the admission return for a worker with no open slot. It gives a new slot exactly when the
-- worker may have one: it has a lane, and in the critic's review the critic's, with the review that
-- the project points at its own, of this generation, and pending or active; the owner is not being
-- asked, no candidate is in flight, the deadline has not come, the worker has no terminal slot of
-- this generation and phase, and fewer slots are open than workers are paid. A slot that is given is
-- stored under the new id, prepared, for this worker, generation and phase; if none is given, the
-- slots are unchanged.
pub admission_is_guarded :
    (lib : Text) (s t : Store) (worker id : String) (now : ℕ) (r : Option Admission)
    → open_slot worker s.slots ≡ none
    → admit lib s worker now id ≡ ok (ok r, t)
    → Decides s worker id now r t
unfolding admit
admission_is_guarded lib s t worker id now r idle h =
    (Holds-require {P = λ x. (o : Option Admission) → x.0 ≡ ok o → Decides s worker id now o x.1}
        (lib.is_identifier worker) "worker is not a bounded identifier"
        (λ _. subst (Holds _) (rw idle) (admit_new-Decides lib s worker now id))).at
      (ok r, t) h r refl
