-- ===== src/Coordination/Evolution/Runs.antt =====
-- danus/coordination/store.py: the transactions on a reserved slot, any sequence of transactions,
-- and what a slot keeps in it.
use danus.Base.{
  ℕ, ◌≤◌, String, true, ◌&&◌, Option, some, List, [], ◌∷◌, ◌≡◌, refl, subst, arith, leb, Bool-cases,
  Option-cases, inl, inr, eq_iff,
}
use danus.Base.Result.{
  Holds, Holds-ok, Holds-bind, Holds-require, Holds-then, Holds-if, or_raise-eq-ok,
}
use danus.Coordination.Rows.{
  Slot, SlotState, active, ambiguous, is_open, is_prepared, Store, Text, find_slot, open_slot,
}
use danus.Coordination.Transactions.{set_slot, terminalize_expired_prepared}
use danus.Coordination.Admit.{admit, lane_of}
use danus.Coordination.Slots.{
  pin_prompt, pin, start_work, dispatch, activate, mark_ambiguous, obscure, finish, release,
  complete, read_open,
}
use danus.Coordination.Evolution.{
  rank, IsKeyed, open_slot-find, Evolves-refl, Evolves-trans, Follows, Follows-refl,
  set_slot-Evolves,
}
use danus.Coordination.Evolution.Phases.{write-Evolves}
use danus.Coordination.Evolution.Operations.{
  Commits, settle-Follows, wind_up, terminalize-Evolves, resume-Evolves, admit_new-Evolves,
  end_review-Evolves,
}

-- A row that is read is open, and its id is the one asked for.
pub find_slot-id :
    (id : String) (rows : List Slot) (a : Slot) → find_slot id rows ≡ some a → a.slot_id ≡ id
unfolding find_slot
find_slot-id id [] a e = cc
find_slot-id id (r ∷ rows) a e = ground (arith, e, eq_iff r.slot_id id, find_slot-id id rows a)

pub read_open-lem :
    (id : String) (s : Store) (e : String)
    → Holds (λ a. (find_slot id s.slots ≡ some a) × (is_open a.state ≡ true)) (read_open id s e)
unfolding read_open
read_open-lem id s e =
    Holds-bind _ (λ a ea. Holds-require _ _ (λ is. Holds-ok (or_raise-eq-ok _ e a ea, is)))

pin-Follows : (text : String) (a : Slot) → is_open a.state ≡ true → Follows a (pin text a)
pin-Follows text a h = record {
  id = refl;
  worker = refl;
  lane = refl;
  generation = refl;
  phase = refl;
  task = refl;
  prompt = λ p e. ground (arith, e);
  state = omega arith;
  settled = λ e. cc (h, e);
}

moved-Follows :
    (a : Slot) (x : SlotState) (at : Option ℕ)
    → is_open a.state ≡ true
    → rank a.state ≤ rank x
    → Follows a (record a { state = x; activated_at = at })
moved-Follows a x at h up = record {
  id = refl;
  worker = refl;
  lane = refl;
  generation = refl;
  phase = refl;
  task = refl;
  prompt = λ p e. e;
  state = up;
  settled = λ e. cc (h, e);
}

start_work-Follows : (now : ℕ) (a : Slot) → is_open a.state ≡ true → Follows a (start_work now a)
start_work-Follows now a h = elim (Bool-cases (is_prepared a.state)) [
  | inl e ↦
      subst (Follows a) (ground (arith, e))
        (moved-Follows a active (some now) h (ground (arith, e)))
  | inr e ↦ subst (Follows a) (ground (arith, e)) (Follows-refl a)
]

obscure-Follows : (a : Slot) → is_open a.state ≡ true → Follows a (obscure a)
obscure-Follows a h =
    subst (Follows a) (ground (arith, h))
      (moved-Follows a ambiguous a.activated_at h (ground (arith, h)))

module _ (lib : Text) (s : Store) where
  pub pin_prompt-Evolves : (id text : String) → Commits s (pin_prompt lib s id text)
  unfolding pin_prompt
  pin_prompt-Evolves id text = Holds-require _ _ (λ _. Holds-require _ _ (λ _.
      Holds-require _ _ (λ _. Holds-bind _ (λ row er. Holds-then _ (λ _. Holds-require _ _ (λ _.
        Holds-bind _ (λ joined _. Holds-bind _ (λ a _. Holds-ok (
          let (here, is) = (read_open-lem id s _).at row er in
          set_slot-Evolves id (pin text) s row here (λ r. refl) (λ r. omega arith)
            (pin-Follows text row is))))))))))

  dispatch-Evolves :
      (id : String) (now : ℕ) (row : Slot)
      → find_slot id s.slots ≡ some row
      → is_open row.state ≡ true
      → Commits s (dispatch lib s id now row)
  unfolding dispatch
  dispatch-Evolves id now row here is = Holds-bind _ (λ joined _. Holds-bind _ (λ a _. Holds-ok (
      set_slot-Evolves id (start_work now) s row here (λ r. ground arith) (λ r. ground arith)
        (start_work-Follows now row is))))

  pub activate-Evolves : (id : String) (now : ℕ) → Commits s (activate lib s id now)
  unfolding activate
  activate-Evolves id now = Holds-require _ _ (λ _. Holds-bind _ (λ row er. Holds-then _ (λ _.
      Holds-require _ _ (λ _.
        let (here, is) = (read_open-lem id s _).at row er in
        Holds-if (is_prepared row.state && leb s.project.phase_deadline_at now)
          (λ _. Holds-bind (terminalize_expired_prepared lib s row now) (λ t e. Holds-ok (
            (terminalize-Evolves lib s now row
                (ground (arith, here, find_slot-id id s.slots row here))).at
              t e)))
          (λ _. dispatch-Evolves id now row here is)))))

  pub mark_ambiguous-Evolves : (id : String) (now : ℕ) → Commits s (mark_ambiguous lib s id now)
  unfolding mark_ambiguous
  mark_ambiguous-Evolves id now = Holds-require _ _ (λ _. Holds-bind _ (λ row er. Holds-then _ (λ _.
      let (here, is) = (read_open-lem id s _).at row er in
      Holds-ok (
        Evolves-trans s _ _
          (set_slot-Evolves id obscure s row here (λ r. ground arith) (λ r. ground arith)
            (obscure-Follows row is))
          (write-Evolves row.worker row.lane "ambiguous" row.generation row.phase now
            (set_slot id obscure s))))))

  release-Evolves :
      (id outcome : String) (now : ℕ) (row : Slot)
      → find_slot id s.slots ≡ some row
      → is_open row.state ≡ true
      → Commits s (release lib s id outcome now row)
  unfolding release
  release-Evolves id outcome now row here is = Holds-bind _ (λ t et. Holds-bind _ (λ r er.
      Holds-ok (
        (wind_up lib s now t row.worker row.lane "terminal" row.generation row.phase (
            Evolves-trans s (set_slot id (finish now outcome) s) t
              (set_slot-Evolves id (finish now outcome) s row here (λ r. refl) (λ r. omega arith)
                (settle-Follows row now outcome is))
              ((end_review-Evolves lib (set_slot id (finish now outcome) s) now id row.phase
                  row.review_id).at
                t et))).at
          r er)))

  pub complete-Evolves : (id outcome : String) (now : ℕ) → Commits s (complete lib s id outcome now)
  unfolding complete
  complete-Evolves id outcome now = Holds-require _ _ (λ _. Holds-require _ _ (λ _.
      Holds-require _ _ (λ _. Holds-bind _ (λ row er. Holds-then _ (λ _.
        Holds-if (is_open row.state)
          (λ is. release-Evolves id outcome now row (or_raise-eq-ok _ _ row er) is)
          (λ _. Holds-require _ _ (λ _. Holds-ok (Evolves-refl s))))))))

  pub admit-Evolves :
      (worker id : String) (now : ℕ) → IsKeyed s.slots → Commits s (admit lib s worker now id)
  unfolding admit
  admit-Evolves worker id now k = Holds-require _ _ (λ _.
      elim (Option-cases (open_slot worker s.slots)) [
        | inl e ↦
            subst (Commits s) (rw e) (admit_new-Evolves lib s now worker (lane_of s worker) id)
        | inr (row, e) ↦ subst (Commits s) (rw e) (
            resume-Evolves lib s now worker (lane_of s worker) row
              (open_slot-find worker s.slots row k e))
      ])
