-- ===== src/Verify/Scheduler/Moves.antt =====
-- danus/verify/scheduler.py: what a critical section does to the queue, the active keys, the
-- flights and the waiter count, one function for each way a caller enters or leaves.
use danus.Base.{
  ℕ, ◌+◌, ◌-◌, String, Bool, true, false, Option, none, some, List, [], ◌∷◌, ◌++◌, ◌==◌, ◌=?◌,
  length, set, if◌then◌else◌,
}
use danus.Base.Assoc.{lookup, erase, put}
use danus.Verify.Scheduler.State.{
  Flight, FlightState, queued, running, completed, failed, Error, Core,
}

-- `self._queue.remove(key)`: the first occurrence
unfoldable pub remove : String → List String → List String
remove key [] = []
remove key (k ∷ q) = if k == key then q else k ∷ remove key q

-- `flight.state == "queued"`, and the other states
abbrev pub is_queued_state : FlightState → Bool
is_queued_state queued = true
is_queued_state _ = false

abbrev pub is_running_state : FlightState → Bool
is_running_state running = true
is_running_state _ = false

-- `flight.state in {"completed", "failed"}`
abbrev pub is_over : FlightState → Bool
is_over completed = true
is_over failed = true
is_over _ = false

-- `if self._active.get(key) is flight: del self._active[key]`
unfoldable pub delete_own : ℕ → String → Option ℕ → List (String × ℕ) → List (String × ℕ)
delete_own f key none active = active
delete_own f key (some g) active = if g =? f then erase key active else active

-- `if self._running_key == key: self._running_key = None`
unfoldable pub release_key : String → Option String → Option String
release_key key none = none
release_key key (some k) = if k == key then none else some k

module _ {V : Type 0} where
  abbrev pub new_flight : String → FlightState → Flight V
  new_flight key state = record {
    key = key;
    state = state;
    joined_waiters = 0;
    result = none;
    error = none;
  }

  -- a duplicate joins a flight
  unfoldable pub join_flight : ℕ → Flight V → Core V → Core V
  join_flight f fl m = record m {
    flights = set m.flights f (record fl { joined_waiters = fl.joined_waiters + 1 });
    total_waiters = m.total_waiters + 1;
  }

  -- the `finally` of a follower
  unfoldable pub leave_flight : ℕ → Flight V → Core V → Core V
  leave_flight f fl m = record m {
    flights = set m.flights f (record fl { joined_waiters = fl.joined_waiters - 1 });
    total_waiters = m.total_waiters - 1;
  }

  -- a new key finds the slot free
  unfoldable pub launch_now : String → Core V → Core V
  launch_now key m = record m {
    flights = m.flights ++ new_flight key running ∷ [];
    active = put key (length m.flights) m.active;
    running_key = some key;
  }

  -- a new key queues
  unfoldable pub enqueue : String → Core V → Core V
  enqueue key m = record m {
    flights = m.flights ++ new_flight key queued ∷ [];
    queue = m.queue ++ key ∷ [];
    active = put key (length m.flights) m.active;
    total_waiters = m.total_waiters + 1;
  }

  -- the head of the queue takes the slot
  unfoldable pub promote : ℕ → Flight V → String → List String → Core V → Core V
  promote f fl key rest m = record m {
    flights = set m.flights f (record fl { state = running });
    queue = rest;
    running_key = some key;
    total_waiters = m.total_waiters - 1;
  }

  -- a queued leader gives up
  unfoldable pub retire : ℕ → Flight V → String → Error → Core V → Core V
  unfolding delete_own
  retire f fl key error m = record m {
    flights = set m.flights f (record fl { state = failed; error = some error });
    queue = remove key m.queue;
    active = delete_own f key (lookup key m.active) m.active;
    total_waiters = m.total_waiters - 1;
  }

  -- the running leader ends, with its flight's last form
  unfoldable pub land : ℕ → Flight V → String → Core V → Core V
  unfolding release_key
  land f ended key m = record m {
    flights = set m.flights f ended;
    active = erase key m.active;
    running_key = release_key key m.running_key;
  }
