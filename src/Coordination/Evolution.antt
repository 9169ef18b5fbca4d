-- ===== src/Coordination/Evolution.antt =====
-- danus/coordination/store.py: how a slot, and the store, may change in a transaction.
pub mod Phases
pub mod Operations
pub mod Runs
pub mod Overlay
use danus.Base.{
  ℕ, suc, ◌+◌, ◌≤◌, ◌<◌, String, Bool, true, false, ◌&&◌, not, Option, none, some, List, [], ◌∷◌,
  ◌++◌, ◌==◌, count_p, count_p-append, one_if, if◌then◌else◌, ◌≡◌, refl, sym, subst, arith, eq_iff,
  eq_refl, leb,
}
use danus.Base.Result.{Holds}
use danus.Coordination.Rows.{
  Slot, SlotState, prepared, active, ambiguous, terminal, is_open, Store, find_slot, open_slot, any,
  update_where,
}
use danus.Coordination.History.{Succeeds, Succeeds-refl, Succeeds-trans}
use danus.Coordination.Transactions.{set_slot}
use danus.Coordination.Admit.{open_count}

-- How far a slot is: it never goes back.
abbrev pub rank : SlotState → ℕ
rank prepared = 0
rank active = 1
rank ambiguous = 2
rank terminal = 3

-- A later row of the same slot: its identity and its task stay, a pinned prompt stays, the state
-- goes forward only, and a terminal row does not change at all.
pub record Follows (a b : Slot) : Type 0 where
  pub id : b.slot_id ≡ a.slot_id
  pub worker : b.worker ≡ a.worker
  pub lane : b.lane ≡ a.lane
  pub generation : b.generation ≡ a.generation
  pub phase : b.phase ≡ a.phase
  pub task : b.task ≡ a.task
  pub prompt : (p : String) → a.prompt ≡ some p → b.prompt ≡ some p
  pub state : rank a.state ≤ rank b.state
  pub settled : is_open a.state ≡ false → b ≡ a

-- No slot id stands twice: it is the table's key.
abbrev pub IsKeyed : List Slot → Type 0
IsKeyed [] = Unit
IsKeyed (r ∷ rows) = (find_slot r.slot_id rows ≡ none) × IsKeyed rows

-- A later state of the store.
pub record Evolves (s t : Store) : Type 0 where
  pub limit : t.max_paid_workers ≡ s.max_paid_workers
  pub roster : t.lanes ≡ s.lanes
  pub slot :
      (id : String) (a : Slot)
      → find_slot id s.slots ≡ some a
      → (b : Slot) × (find_slot id t.slots ≡ some b) × Follows a b
  pub paid : open_count s ≤ s.max_paid_workers → open_count t ≤ s.max_paid_workers
  pub keyed : IsKeyed s.slots → IsKeyed t.slots
  pub candidates : Succeeds s.candidates t.candidates
  pub before : s.project.generation ≤ t.project.generation

pub Follows-refl : (a : Slot) → Follows a a
Follows-refl a = record {
  id = refl;
  worker = refl;
  lane = refl;
  generation = refl;
  phase = refl;
  task = refl;
  prompt = λ p e. e;
  state = omega arith;
  settled = λ e. refl;
}

pub Follows-trans : (a b c : Slot) → Follows a b → Follows b c → Follows a c
Follows-trans a b c f g = record {
  id = cc (f.id, g.id);
  worker = cc (f.worker, g.worker);
  lane = cc (f.lane, g.lane);
  generation = cc (f.generation, g.generation);
  phase = cc (f.phase, g.phase);
  task = cc (f.task, g.task);
  prompt = λ p e. g.prompt p (f.prompt p e);
  state = omega (arith, f.state, g.state);
  settled = λ e. ground (arith, f.settled e, g.settled, e);
}

module _ (s t : Store) (same : t.slots ≡ s.slots) (roster : t.lanes ≡ s.lanes) where
  pub Evolves-same :
      t.max_paid_workers ≡ s.max_paid_workers
      → s.project.generation ≤ t.project.generation
      → Succeeds s.candidates t.candidates
      → Evolves s t
  Evolves-same limit before candidates = record {
    limit = limit;
    roster = roster;
    slot = λ id a e. (a, ground (arith, same, e), Follows-refl a);
    paid = λ h. ground (arith, same, h);
    keyed = subst IsKeyed (sym same);
    candidates = candidates;
    before = before;
  }

pub Evolves-refl : (s : Store) → Evolves s s
Evolves-refl s = Evolves-same s s refl refl refl (omega arith) (Succeeds-refl s.candidates)

pub update_where-find :
    (id j : String) (f : Slot → Slot) (rows : List Slot)
    → ((r : Slot) → (f r).slot_id ≡ r.slot_id)
    → (a : Slot) → find_slot j rows ≡ some a
    → find_slot j (update_where (λ r. r.slot_id == id) f rows) ≡ some (if id == j then f a else a)
unfolding find_slot update_where
update_where-find id j f [] h a e = cc
update_where-find id j f (r ∷ rows) h a e = ground (
  arith,
  h r,
  e,
  eq_iff r.slot_id j,
  eq_iff r.slot_id id,
  eq_iff id j,
  update_where-find id j f rows h a,
)

update_where-count :
    (p q : Slot → Bool) (f : Slot → Slot) (rows : List Slot)
    → ((r : Slot) → one_if (q (f r)) ≤ one_if (q r))
    → count_p q (update_where p f rows) ≤ count_p q rows
unfolding update_where
update_where-count p q f [] h = omega arith
update_where-count p q f (r ∷ rows) h = ground (arith, h r, update_where-count p q f rows h)

find_slot-append_none :
    (id : String) (rows : List Slot) (row : Slot)
    → find_slot id rows ≡ none
    → row.slot_id == id ≡ false
    → find_slot id (rows ++ row ∷ []) ≡ none
unfolding find_slot
find_slot-append_none id [] row e h = ground (arith, h)
find_slot-append_none id (r ∷ rows) row e h =
    ground (arith, e, h, find_slot-append_none id rows row)

append-IsKeyed :
    (rows : List Slot) (row : Slot)
    → find_slot row.slot_id rows ≡ none
    → IsKeyed rows
    → IsKeyed (rows ++ row ∷ [])
unfolding find_slot
append-IsKeyed [] row e k = (refl, tt)
append-IsKeyed (r ∷ rows) row e k = (
  find_slot-append_none r.slot_id rows row k.0
      (ground (arith, e, eq_iff r.slot_id row.slot_id, eq_iff row.slot_id r.slot_id)),
  append-IsKeyed rows row (ground (arith, e)) k.1,
)

update_where-find_none :
    (id j : String) (f : Slot → Slot) (rows : List Slot)
    → ((r : Slot) → (f r).slot_id ≡ r.slot_id)
    → find_slot j rows ≡ none
    → find_slot j (update_where (λ r. r.slot_id == id) f rows) ≡ none
unfolding find_slot update_where
update_where-find_none id j f [] h e = e
update_where-find_none id j f (r ∷ rows) h e =
    ground (arith, h r, e, update_where-find_none id j f rows h)

update_where-IsKeyed :
    (id : String) (f : Slot → Slot) (rows : List Slot)
    → ((r : Slot) → (f r).slot_id ≡ r.slot_id)
    → IsKeyed rows
    → IsKeyed (update_where (λ r. r.slot_id == id) f rows)
unfolding update_where
update_where-IsKeyed id f [] h k = k
update_where-IsKeyed id f (r ∷ rows) h k = (
  ground (arith, h r, update_where-find_none id r.slot_id f rows h k.0),
  update_where-IsKeyed id f rows h k.1,
)

-- A lane's open slot is the row of its id.
pub open_slot-find :
    (worker : String) (rows : List Slot) (a : Slot)
    → IsKeyed rows
    → open_slot worker rows ≡ some a
    → find_slot a.slot_id rows ≡ some a
unfolding open_slot find_slot
open_slot-find worker [] a k e = cc
open_slot-find worker (r ∷ rows) a k e =
    ground
      (arith, k, e, open_slot-find worker rows a k.1, eq_refl r.slot_id, eq_iff r.slot_id a.slot_id)

pub find_slot-absent :
    (id : String) (rows : List Slot)
    → any (λ r. r.slot_id == id) rows ≡ false
    → find_slot id rows ≡ none
unfolding find_slot any
find_slot-absent id [] e = refl
find_slot-absent id (r ∷ rows) e = ground (arith, e, find_slot-absent id rows)

find_slot-append :
    (id : String) (rows : List Slot) (row a : Slot)
    → find_slot id rows ≡ some a
    → find_slot id (rows ++ row ∷ []) ≡ some a
unfolding find_slot
find_slot-append id [] row a e = cc
find_slot-append id (r ∷ rows) row a e = ground (arith, e, find_slot-append id rows row a)

chosen-Follows :
    (id j : String) (f : Slot → Slot) (rows : List Slot) (row a : Slot)
    → find_slot id rows ≡ some row
    → find_slot j rows ≡ some a
    → Follows row (f row)
    → (b : Bool) → (b ≡ true → id ≡ j)
    → Follows a (if b then f a else a)
chosen-Follows id j f rows row a here there follows false h = Follows-refl a
chosen-Follows id j f rows row a here there follows true h =
    subst (λ r. Follows r (f r)) (ground (arith, h refl, here, there)) follows

pub set_slot-Evolves :
    (id : String) (f : Slot → Slot) (s : Store) (row : Slot)
    → find_slot id s.slots ≡ some row
    → ((r : Slot) → (f r).slot_id ≡ r.slot_id)
    → ((r : Slot) → one_if (is_open (f r).state) ≤ one_if (is_open r.state))
    → Follows row (f row)
    → Evolves s (set_slot id f s)
unfolding set_slot
set_slot-Evolves id f s row here keeps closes follows = record {
  keyed = update_where-IsKeyed id f s.slots keeps;
  limit = refl;
  roster = refl;
  slot = λ j a e. (
    if id == j then f a else a,
    update_where-find id j f s.slots keeps a e,
    chosen-Follows id j f s.slots row a here e follows (id == j) (ground (arith, eq_iff id j)),
  );
  paid = λ h.
      omega (
        arith,
        h,
        update_where-count (λ r. r.slot_id == id) (λ r. is_open r.state) f s.slots closes,
      );
  candidates = Succeeds-refl s.candidates;
  before = omega arith;
}

pub Evolves-trans : (s t u : Store) → Evolves s t → Evolves t u → Evolves s u
Evolves-trans s t u f g = record {
  limit = cc (f.limit, g.limit);
  roster = cc (f.roster, g.roster);
  slot = λ id a e.
      let (b, there, ab) = f.slot id a e in
      let (c, last, bc) = g.slot id b there in (c, last, Follows-trans a b c ab bc);
  paid = λ h. ground (arith, f.limit, f.paid h, g.paid);
  keyed = λ k. g.keyed (f.keyed k);
  candidates = Succeeds-trans s.candidates t.candidates u.candidates f.candidates g.candidates;
  before = omega (arith, f.before, g.before);
}

-- A row is added while fewer than the paid workers have one.
pub append-Evolves :
    (s : Store) (row : Slot)
    → find_slot row.slot_id s.slots ≡ none
    → open_count s + 1 ≤ s.max_paid_workers
    → Evolves s (record s { slots = s.slots ++ row ∷ [] })
append-Evolves s row new room = record {
  limit = refl;
  roster = refl;
  slot = λ id a e. (a, find_slot-append id s.slots row a e, Follows-refl a);
  keyed = append-IsKeyed s.slots row new;
  paid = λ h. ground (arith, room, count_p-append (λ r. is_open r.state) s.slots (row ∷ []));
  candidates = Succeeds-refl s.candidates;
  before = omega arith;
}
