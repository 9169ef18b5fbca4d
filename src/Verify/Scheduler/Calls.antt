-- ===== src/Verify/Scheduler/Calls.antt =====
-- danus/verify/scheduler.py: `execute`, one function for each of its critical sections. Between
-- two of them the caller holds no lock; `now` and `started` are readings of the clock.
use danus.Base.{
  ℕ, suc, ◌+◌, ◌-◌, String, Bool, true, false, Option, none, some, List, [], ◌∷◌, ◌++◌, ◌⊎◌, inl,
  inr, ◌==◌, leb, length, get_elem?, one_if, is_some, if◌then◌else◌,
}
use danus.Base.Assoc.{lookup, erase}
use danus.Verify.Scheduler.State.{
  Reason, per_key_waiters_full, total_waiters_full, distinct_queue_full, queue_wait_timeout, Error,
  rejected, not_an_object, not_json, copy_error, FlightState, queued, running, completed, failed,
  Flight, CacheEntry, Counters, Scheduler, launched, coalesced, cache_hit, invalid_key, refused,
  work_failed, interrupted, corrupt_entry, assertion, Caller, follower, waiting, working, over,
  returned, raised, Ended, Codec, Work, value, error,
}
use danus.Verify.Scheduler.Cache.{purge_expired, cache_result}
use danus.Verify.Scheduler.Moves.{
  is_queued_state, is_over, join_flight, leave_flight, launch_now, enqueue, promote, retire, land,
}

-- A critical section's result: the scheduler, and where the caller stands then.
abbrev pub Outcome : Type 0 → Type 0
Outcome V = Scheduler V × Caller V

-- `self._running_key is None and not self._queue`
unfoldable pub is_free : Option String → List String → Bool
is_free none [] = true
is_free _ _ = false

-- `self._queue and self._queue[0] == key`, with the slot free: the rest of the queue
unfoldable pub next_in_line : String → Option String → List String → Option (List String)
next_in_line key none (k ∷ rest) = if k == key then some rest else none
next_in_line key _ _ = none

module _ {V : Type 0} where
  -- `_reject_locked`
  unfoldable pub reject : Scheduler V → Scheduler V
  reject s = record s { counters = record c { rejected_calls = suc c.rejected_calls } }
    where
      open s use {counters as c}

  unfoldable pub refuse : Scheduler V → String → Reason → Outcome V
  unfolding reject
  refuse s key reason = (reject s, over (raised key (refused reason)))

  -- The branch `if flight is not None`: an exact duplicate joins.
  unfoldable pub join : Scheduler V → String → ℕ → ℕ → Option (Flight V) → Outcome V
  unfolding refuse join_flight
  join s key now f none = (s, over (raised key assertion))
  join s key now f (some fl) =
      if leb s.limits.max_waiters_per_key fl.joined_waiters
      then refuse s key per_key_waiters_full
      else if leb s.limits.max_total_waiters s.total_waiters
      then refuse s key total_waiters_full
      else (
        record s {
          core = join_flight f fl s.core;
          counters = record c { coalesced = suc c.coalesced };
        },
        follower f key now,
      )
    where
      open s use {counters as c}

  -- The branch `else`: a new key leads its own flight. A refusal deletes the active key again, and
  -- the flight, to which nothing refers then, is not kept.
  unfoldable pub lead : Scheduler V → String → ℕ → Outcome V
  unfolding refuse launch_now enqueue is_free
  lead s key now =
      if is_free s.running_key s.queue
      then (
        record s {
          core = launch_now key s.core;
          counters = record c { launched = suc c.launched };
        },
        working (length s.flights) key now,
      )
      else if leb s.limits.max_distinct_queue (length s.queue)
      then refuse s key distinct_queue_full
      else if leb s.limits.max_total_waiters s.total_waiters
      then refuse s key total_waiters_full
      else (record s { core = enqueue key s.core }, waiting (length s.flights) key now)
    where
      open s use {counters as c}

  unfoldable pub join_or_lead : Scheduler V → String → ℕ → Option ℕ → Outcome V
  unfolding join lead
  join_or_lead s key now none = lead s key now
  join_or_lead s key now (some f) = join s key now f (get_elem? s.flights f)

  -- A cache hit: the entry moves to the end, and its bytes must decode to an object.
  unfoldable pub decoded : Codec V → Option V → String → Ended V
  decoded codec none key = raised key corrupt_entry
  decoded codec (some v) key =
      if codec.is_object v
      then returned (record { value = v; source = cache_hit; key = key; wait_ms = 0 })
      else raised key corrupt_entry

  unfoldable pub hit : Codec V → Scheduler V → String → CacheEntry → Outcome V
  unfolding decoded
  hit codec s key entry = (
    record s {
      cache = erase key s.cache ++ (key, entry) ∷ [];
      counters = record c { cache_hits = suc c.cache_hits };
    },
    over (decoded codec (codec.loads entry.encoded) key),
  )
    where
      open s use {counters as c}

  unfoldable pub hit_or_miss : Codec V → Scheduler V → String → ℕ → Option CacheEntry → Outcome V
  unfolding hit join_or_lead
  hit_or_miss codec s key now (some entry) = hit codec s key entry
  hit_or_miss codec s key now none = join_or_lead s key now (lookup key s.active)

  -- `self._counters.submitted += 1` and the purge
  unfoldable pub submit : Scheduler V → ℕ → Scheduler V
  unfolding purge_expired
  submit s now =
      purge_expired now (record s { counters = record c { submitted = suc c.submitted } })
    where
      open s use {counters as c}

  -- `execute` up to its first wait, return or raise
  unfoldable pub admit : Codec V → Scheduler V → String → ℕ → Outcome V
  unfolding submit hit_or_miss
  admit codec s key now =
      if key == ""
      then (s, over (raised key invalid_key))
      else let t = submit s now in hit_or_miss codec t key now (lookup key t.cache)

  -- What a follower returns or raises, once the flight is over.
  unfoldable pub conclude : FlightState → Option V → Option Error → String → ℕ → Ended V
  conclude failed result (some e) key wait =
      raised key (work_failed (copy_error e) coalesced key wait)
  conclude failed result none key wait = raised key assertion
  conclude completed (some v) e key wait =
      returned (record { value = v; source = coalesced; key = key; wait_ms = wait })
  conclude completed none e key wait = raised key assertion
  conclude queued result e key wait = raised key assertion
  conclude running result e key wait = raised key assertion

  -- A follower wakes: it waits on, or concludes and leaves the flight.
  unfoldable pub wake_follower : Scheduler V → ℕ → String → ℕ → ℕ → Option (Flight V) → Outcome V
  unfolding conclude leave_flight
  wake_follower s f key joined now none = (s, over (raised key assertion))
  wake_follower s f key joined now (some fl) =
      if is_over fl.state
      then (
        record s { core = leave_flight f fl s.core },
        over (conclude fl.state fl.result fl.error key (now - joined)),
      )
      else (s, follower f key joined)

  -- A follower's wait raises: only its waiter slot is given back.
  unfoldable pub interrupt_follower :
      Scheduler V → ℕ → String → Error → Option (Flight V) → Outcome V
  unfolding leave_flight
  interrupt_follower s f key e none = (s, over (raised key assertion))
  interrupt_follower s f key e (some fl) =
      (record s { core = leave_flight f fl s.core }, over (raised key (interrupted e)))

  unfoldable pub promote_or_wait :
      Scheduler V → ℕ → Flight V → String → ℕ → Option (List String) → Outcome V
  unfolding promote
  promote_or_wait s f fl key joined none = (s, waiting f key joined)
  promote_or_wait s f fl key joined (some rest) = (
    record s {
      core = promote f fl key rest s.core;
      counters = record c { launched = suc c.launched };
    },
    working f key joined,
  )
    where
      open s use {counters as c}

  -- A queued leader wakes: it times out, takes the slot, or waits on.
  unfoldable pub wake_waiting : Scheduler V → ℕ → String → ℕ → ℕ → Option (Flight V) → Outcome V
  unfolding promote_or_wait retire next_in_line refuse
  wake_waiting s f key joined now none = (s, over (raised key assertion))
  wake_waiting s f key joined now (some fl) =
      if leb (joined + s.limits.queue_wait) now
      then refuse (record s { core = retire f fl key (rejected queue_wait_timeout) s.core }) key
          queue_wait_timeout
      else promote_or_wait s f fl key joined (next_in_line key s.running_key s.queue)

  -- A queued leader's wait raises: only a flight that is still queued is retired.
  unfoldable pub interrupt_waiting :
      Scheduler V → ℕ → String → Error → Option (Flight V) → Outcome V
  unfolding retire
  interrupt_waiting s f key e none = (s, over (raised key assertion))
  interrupt_waiting s f key e (some fl) =
      if is_queued_state fl.state
      then (record s { core = retire f fl key e s.core }, over (raised key (interrupted e)))
      else (s, over (raised key (interrupted e)))

  -- What the leader publishes of `work()`: the canonical bytes and the dict that they stand for.
  unfoldable pub reread : Codec V → List ℕ → Option V → (List ℕ × V) ⊎ Error
  reread codec encoded none = inr not_json
  reread codec encoded (some v) = if codec.is_object v then inl (encoded, v) else inr not_an_object

  unfoldable pub encode : Codec V → Option (List ℕ) → (List ℕ × V) ⊎ Error
  unfolding reread
  encode codec none = inr not_json
  encode codec (some encoded) = reread codec encoded (codec.loads encoded)

  unfoldable pub publication : Codec V → Work V → (List ℕ × V) ⊎ Error
  unfolding encode
  publication codec (error e) = inr e
  publication codec (value v) =
      if codec.is_object v then encode codec (codec.dumps v) else inr not_an_object

  -- The `except` section of the leader.
  unfoldable pub land_failed : Scheduler V → ℕ → Flight V → String → ℕ → Error → Outcome V
  unfolding land
  land_failed s f fl key wait e = (
    record s {
      core = land f (record fl { state = failed; error = some e }) key s.core;
      counters = record c { failed_calls = suc c.failed_calls };
    },
    over (raised key (work_failed e launched key wait)),
  )
    where
      open s use {counters as c}

  -- The terminal section of the leader, after the cache has the result.
  unfoldable pub land_completed : Scheduler V → ℕ → Flight V → String → ℕ → V → Outcome V
  unfolding land
  land_completed s f fl key wait v = (
    record s {
      core = land f (record fl { state = completed; result = some v }) key s.core;
      counters = record c { completed_calls = suc c.completed_calls };
    },
    over (returned (record { value = v; source = launched; key = key; wait_ms = wait })),
  )
    where
      open s use {counters as c}

  unfoldable pub land_result :
      Scheduler V → ℕ → Flight V → String → ℕ → ℕ → (List ℕ × V) ⊎ Error → Outcome V
  unfolding land_completed land_failed cache_result purge_expired
  land_result s f fl key wait now (inr e) = land_failed s f fl key wait e
  land_result s f fl key wait now (inl (encoded, v)) =
      land_completed (cache_result key encoded now (purge_expired now s)) f fl key wait v

  -- The leader's work is over: `started` was read before the work, `now` is read after it.
  unfoldable pub finish :
      Codec V → Scheduler V → ℕ → String → ℕ → ℕ → ℕ → Work V → Option (Flight V) → Outcome V
  unfolding land_result publication
  finish codec s f key joined started now work none = (s, over (raised key assertion))
  finish codec s f key joined started now work (some fl) =
      land_result s f fl key (started - joined) now (publication codec work)

-- `snapshot`, less the constants and the limits that it repeats.
pub record Snapshot : Type 0 where
  pub running_now : ℕ
  pub distinct_queue_depth : ℕ
  pub active_keys : ℕ
  pub waiting_clients : ℕ
  pub cache_entries : ℕ
  pub cached_bytes : ℕ
  pub counts : Counters

module _ {V : Type 0} where
  unfoldable pub report : Scheduler V → Snapshot
  report s = record {
    running_now = one_if (is_some s.running_key);
    distinct_queue_depth = length s.queue;
    active_keys = length s.active;
    waiting_clients = s.total_waiters;
    cache_entries = length s.cache;
    cached_bytes = s.cache_bytes;
    counts = s.counters;
  }

  unfoldable pub snapshot : ℕ → Scheduler V → Scheduler V × Snapshot
  unfolding purge_expired report
  snapshot now s = let t = purge_expired now s in (t, report t)
