-- ===== src/Coordination/OpenSlots.antt =====
-- danus/coordination/store.py: a slot that is still prepared at the deadline, and the admission of a
-- worker that holds a slot.
use danus.Base.{
  ℕ, ◌≤◌, ◌<◌, String, true, ◌&&◌, Option, none, some, ◌≡◌, refl, subst, arith, leb, eq_refl, ◌⊎◌,
  inl, inr,
}
use danus.Base.Result.{
  Result, ok, err, Holds, Holds-ok, Holds-bind, Holds-require, Holds-then, Holds-if,
}
use danus.Coordination.Rows.{
  Slot, prepared, terminal, is_prepared, Store, Text, find_slot, open_slot, SlotState,
}
use danus.Coordination.Binding.{write_worker_state}
use danus.Coordination.Transactions.{
  Admission, Transaction, transact, set_slot, terminalize_expired_prepared,
}
use danus.Coordination.Admit.{resume, admit, lane_of}
use danus.Coordination.Admissions.{admission-slot, write-slots}
use danus.Coordination.Slots.{activate}
use danus.Coordination.Evolution.{IsKeyed, open_slot-find, update_where-find, Evolves, Evolves-refl}
use danus.Coordination.Evolution.Operations.{wind_up}
use danus.Coordination.Evolution.Runs.{find_slot-id, read_open-lem}

-- The row of a slot that was never dispatched, once its phase is over.
abbrev pub expired : ℕ → Slot → Slot
expired now row = record row {
  state = terminal;
  terminal_at = some now;
  outcome = some "phase_deadline_known_not_dispatched";
}

set_slot-find :
    (s : Store) (row : Slot) (f : Slot → Slot)
    → ((r : Slot) → (f r).slot_id ≡ r.slot_id)
    → find_slot row.slot_id s.slots ≡ some row
    → find_slot row.slot_id (set_slot row.slot_id f s).slots ≡ some (f row)
unfolding set_slot
set_slot-find s row f keeps here =
    ground (
      arith,
      update_where-find row.slot_id row.slot_id f s.slots keeps row here,
      eq_refl row.slot_id,
    )

-- A row that is terminal stays as it is.
settled-find :
    (u t : Store) (id : String) (a : Slot)
    → Evolves u t
    → find_slot id u.slots ≡ some a
    → a.state ≡ terminal
    → find_slot id t.slots ≡ some a
settled-find u t id a f here over =
    let (b, there, follows) = f.slot id a here in
    ground (arith, there, follows.settled (ground (arith, over)))

terminalize-expired :
    (lib : Text) (s : Store) (row : Slot) (now : ℕ)
    → find_slot row.slot_id s.slots ≡ some row
    → Holds
        (λ t. find_slot row.slot_id t.slots ≡ some (expired now row))
        (terminalize_expired_prepared lib s row now)
unfolding terminalize_expired_prepared
terminalize-expired lib s row now here = Holds-require _ _ (λ _. Holds-then _ (λ _.
    let u = set_slot row.slot_id (expired now) s in
    Holds-bind _ (λ r e. Holds-ok (
      settled-find u r.1 row.slot_id (expired now row)
        ((wind_up lib u now u row.worker row.lane "phase_expired_not_dispatched" row.generation
            row.phase (Evolves-refl u)).at
          r e)
        (set_slot-find s row (expired now) (λ r. refl) here) refl))))

-- What a transaction's two ends say of the store that it leaves.
transact-cases :
    {A : Type 0} (P : Result A × Store → Type 0) (s : Store) (m : Transaction A)
    → Holds P m
    → ((e : String) → P (err e, s))
    → P (transact s m)
unfolding transact
transact-cases P s (ok r) h rolled = h.at r refl
transact-cases P s (err e) h rolled = rolled e

-- Let the slot of an id be prepared, and be activated at the phase's deadline or later. The call
-- raises, and the store that it leaves is either the one it found, or has the slot terminal, never
-- activated, with the outcome that it is known not to have been dispatched.
pub late_activation_raises :
    (lib : Text) (s : Store) (id : String) (now : ℕ) (row : Slot)
    → find_slot id s.slots ≡ some row
    → row.state ≡ prepared
    → s.project.phase_deadline_at ≤ now
    → let (r, t) = transact s (activate lib s id now) in
      ((e : String) × (r ≡ err e)) × ((t ≡ s) ⊎ (find_slot id t.slots ≡ some (expired now row)))
unfolding activate
late_activation_raises lib s id now row here is late =
    transact-cases
      (λ r.
        ((e : String) × (r.0 ≡ err e))
        × ((r.1 ≡ s) ⊎ (find_slot id r.1.slots ≡ some (expired now row))))
      s _
      (Holds-require _ _ (λ _. Holds-bind _ (λ a ea. Holds-then _ (λ _. Holds-require _ _ (λ _.
        let found = (read_open-lem id s _).at a ea in
        Holds-if (is_prepared a.state && leb s.project.phase_deadline_at now)
          (λ _. Holds-bind (terminalize_expired_prepared lib s a now) (λ t e. Holds-ok (
            (_, refl),
            inr (at_id a found.0 t ((terminalize-expired lib s a now (self a found.0)).at t e)),
          )))
          (λ on_time. absurd (ground (arith, on_time, late, here, is, found))))))))
      (λ e. ((e, refl), inl refl))
  where
    self : (a : Slot) → find_slot id s.slots ≡ some a → find_slot a.slot_id s.slots ≡ some a
    self a e = ground (arith, e, find_slot-id id s.slots a e)

    at_id :
        (a : Slot)
        → find_slot id s.slots ≡ some a
        → (t : Store) → find_slot a.slot_id t.slots ≡ some (expired now a)
        → find_slot id t.slots ≡ some (expired now row)
    at_id a e t h = ground (arith, e, here, h, find_slot-id id s.slots a e)

-- What an admission is that meets an open slot: a failure, which changes nothing; that very slot
-- again, with no slot changed, in time if it is prepared; or none, when the deadline of a prepared
-- slot has come, and then the slot is over.
abbrev pub HolderOutcome : Store → ℕ → Slot → Result (Option Admission) × Store → Type 0
HolderOutcome s now row (r, t) =
    (((e : String) × (r ≡ err e)) × (t ≡ s))
    ⊎ ((a : Admission) × (r ≡ ok (some a))
        × (a.slot ≡ row)
        × (a.resumed ≡ true)
        × (t.slots ≡ s.slots)
        × (row.state ≡ prepared → now < s.project.phase_deadline_at))
    ⊎ ((r ≡ ok none)
        × (row.state ≡ prepared)
        × (s.project.phase_deadline_at ≤ now)
        × (find_slot row.slot_id t.slots ≡ some (expired now row)))

is_prepared-eq : (x : SlotState) → is_prepared x ≡ true → x ≡ prepared
is_prepared-eq prepared h = refl
is_prepared-eq SlotState.active h = cc (h)
is_prepared-eq SlotState.ambiguous h = cc (h)
is_prepared-eq terminal h = cc (h)

resume-HolderOutcome :
    (lib : Text) (s : Store) (worker lane : String) (now : ℕ) (row : Slot)
    → find_slot row.slot_id s.slots ≡ some row
    → Holds (HolderOutcome s now row) (resume lib s worker lane now row)
unfolding resume
resume-HolderOutcome lib s worker lane now row here =
    Holds-if (leb s.project.phase_deadline_at now && is_prepared row.state)
      (λ late. Holds-bind (terminalize_expired_prepared lib s row now) (λ t e. Holds-ok (
        inr (
          inr (
            refl,
            is_prepared-eq row.state (ground (arith, late)),
            ground (arith, late),
            (terminalize-expired lib s row now here).at t e,
          )))))
      (λ on_time. Holds-bind _ (λ a e. Holds-ok (
        let u = write_worker_state worker lane "admitted" row.generation row.phase now s in
        let (slot, again) = (admission-slot lib u row true).at a e in
        inr (
          inl (
            a,
            refl,
            slot,
            again,
            write-slots worker lane "admitted" row.generation row.phase now s,
            λ is. ground (arith, on_time, is),
          )))))

-- Let a worker that has an open slot be admitted, where slot ids are distinct. Either the call fails
-- and changes nothing; or it returns that very slot, resumed, with every slot as it was, and only
-- before the deadline if the slot is prepared; or it returns none, the slot was prepared and the
-- deadline had come, and the slot is terminal, known not to have been dispatched.
pub admission_keeps_slot :
    (lib : Text) (s : Store) (worker id : String) (now : ℕ) (row : Slot)
    → IsKeyed s.slots
    → open_slot worker s.slots ≡ some row
    → HolderOutcome s now row (transact s (admit lib s worker now id))
unfolding admit
admission_keeps_slot lib s worker id now row keyed busy =
    transact-cases (HolderOutcome s now row) s _
      (Holds-require (lib.is_identifier worker) "worker is not a bounded identifier" (λ _.
        subst (Holds (HolderOutcome s now row)) (rw busy) (
          resume-HolderOutcome lib s worker (lane_of s worker) now row
            (open_slot-find worker s.slots row keyed busy))))
      (λ e. inl ((e, refl), refl))
