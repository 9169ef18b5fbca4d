-- ===== src/Verify/Scheduler/Accounts.antt =====
-- danus/verify/scheduler.py: the books that the scheduler keeps of its callers. Each number, key
-- and flight of `Core` is matched with the count of the callers that stand behind it.
pub mod Follow
pub mod Lead
pub mod End
pub mod Kept
pub mod Runs
use danus.Base.{
  ℕ, String, ◌≡◌, Bool, true, false, ◌&&◌, Option, none, some, List, ◌==◌, ◌=?◌, length, get_elem?,
  count_p, one_if, is_some,
}
use danus.Base.Assoc.{lookup}
use danus.Verify.Scheduler.State.{Flight, Core, Caller, follower, waiting, working}
use danus.Verify.Scheduler.Moves.{is_queued_state, is_running_state}

module _ {V : Type 0} where
  -- Tests on a caller.
  abbrev pub holds_slot : Caller V → Bool
  holds_slot (working f k t) = true
  holds_slot _ = false

  abbrev pub waits : Caller V → Bool
  waits (follower f k t) = true
  waits (waiting f k t) = true
  waits _ = false

  abbrev pub queues : Caller V → Bool
  queues (waiting f k t) = true
  queues _ = false

  abbrev pub queues_for : String → Caller V → Bool
  queues_for key (waiting f k t) = k == key
  queues_for key _ = false

  abbrev pub works_for : String → Caller V → Bool
  works_for key (working f k t) = k == key
  works_for key _ = false

  abbrev pub leads_key : String → Caller V → Bool
  leads_key key (waiting f k t) = k == key
  leads_key key (working f k t) = k == key
  leads_key key _ = false

  abbrev pub follows : ℕ → Caller V → Bool
  follows g (follower f k t) = f =? g
  follows g _ = false

  abbrev pub queues_on : ℕ → Caller V → Bool
  queues_on g (waiting f k t) = f =? g
  queues_on g _ = false

  abbrev pub works_on : ℕ → Caller V → Bool
  works_on g (working f k t) = f =? g
  works_on g _ = false

  -- leads flight `g` under the key
  abbrev pub leads : String → ℕ → Caller V → Bool
  leads key g (waiting f k t) = (k == key) && (f =? g)
  leads key g (working f k t) = (k == key) && (f =? g)
  leads key g _ = false

  abbrev pub joined_of : Option (Flight V) → ℕ
  joined_of none = 0
  joined_of (some fl) = fl.joined_waiters

  abbrev pub queued_of : Option (Flight V) → Bool
  queued_of none = false
  queued_of (some fl) = is_queued_state fl.state

  abbrev pub running_of : Option (Flight V) → Bool
  running_of none = false
  running_of (some fl) = is_running_state fl.state

-- the active key points to flight `g`
abbrev pub points_to : ℕ → Option ℕ → Bool
points_to g none = false
points_to g (some f) = f =? g

abbrev pub runs : String → Option String → Bool
runs key none = false
runs key (some k) = k == key

module _ {V : Type 0} where
  pub record Accounts (m : Core V) (cs : List (Caller V)) : Type 0 where
    pub waiters : m.total_waiters ≡ count_p waits cs
    pub slot : one_if (is_some m.running_key) ≡ count_p holds_slot cs
    pub slot_key : (k : String) → one_if (runs k m.running_key) ≡ count_p (works_for k) cs
    pub depth : length m.queue ≡ count_p queues cs
    pub places : (k : String) → count_p (λ j. j == k) m.queue ≡ count_p (queues_for k) cs
    pub keys : (k : String) → one_if (is_some (lookup k m.active)) ≡ count_p (leads_key k) cs
    pub owners :
        (k : String) (f : ℕ) → one_if (points_to f (lookup k m.active)) ≡ count_p (leads k f) cs
    pub joined : (f : ℕ) → joined_of (get_elem? m.flights f) ≡ count_p (follows f) cs
    pub queued_flights :
        (f : ℕ) → one_if (queued_of (get_elem? m.flights f)) ≡ count_p (queues_on f) cs
    pub running_flights :
        (f : ℕ) → one_if (running_of (get_elem? m.flights f)) ≡ count_p (works_on f) cs
