-- ===== src/Verify/Scheduler/Tests.antt =====
-- Runs of the scheduler, and its theorems at concrete inputs.
use danus.Base.{
  ℕ, ◌≤◌, ◌+◌, String, ◌≡◌, ◌≢◌, ◌↔◌, ◌==◌, refl, true, Option, none, some, List, [], ◌∷◌, length,
  get_elem?, count_p, is_some,
}
use danus.Base.Assoc.{lookup, erase, put}
use danus.Verify.Scheduler.State.{
  Limits, post_init, Codec, value, follower, waiting, working, over, returned, raised, launched,
  coalesced, cache_hit, Receipt, corrupt_entry, queued, refused, distinct_queue_full,
  queue_wait_timeout,
}
use danus.Verify.Scheduler.Cache.{
  bytes, evict, live_at, expired_bytes, expired_count, old_size, replaced,
}
use danus.Verify.Scheduler.Moves.{new_flight, remove}
use danus.Verify.Scheduler.Calls.{
  admit, finish, wake_follower, wake_waiting, interrupt_waiting, next_in_line, is_free,
}
use danus.Verify.Scheduler.System.{System, Event, call, enter, wake, ends, run, step, section}
use danus.Verify.Scheduler.Accounts.{
  holds_slot, waits, queues, queues_for, leads_key, follows, queues_on, works_on, joined_of,
}
use danus.Verify.Scheduler.Safety.{
  after, one_paid_verifier, one_leader_per_key, counts_are_exact, no_orphaned_flight, limits_hold,
}
use danus.Verify.Scheduler.Reuse.Sections.{IsPaid}
use danus.Verify.Scheduler.Reuse.{hits_come_from_leaders}

abbrev load_one : List ℕ → Option ℕ
load_one [] = none
load_one (n ∷ _) = some n

-- A codec for results that are numbers.
abbrev numbers : Codec ℕ
numbers = record { is_object = λ _. true; dumps = λ n. some (n ∷ []); loads = load_one }

abbrev small : Limits
small = record {
  max_distinct_queue = 1;
  queue_wait = 100;
  max_waiters_per_key = 1;
  max_total_waiters = 2;
  cache_max_entries = 1;
  cache_max_bytes = 10;
  cache_ttl = 50;
}

small_accepted : post_init 1000 small ≡ none
unfolding post_init
small_accepted = refl

-- Two callers of "a", one of "b" and one of "c": "a" runs, its duplicate follows, "b" queues, and
-- "c" finds the queue full.
abbrev crowd : List (Event ℕ)
crowd =
    call "a" ∷ call "a" ∷ call "b" ∷ call "c" ∷ enter 0 0 ∷ enter 1 1 ∷ enter 2 2 ∷ enter 3 3 ∷ []

-- The work for "a" ends, and its follower wakes.
abbrev done : List (Event ℕ)
done =
    call "a"
    ∷ call "a"
    ∷ call "b"
    ∷ enter 0 0
    ∷ enter 1 1
    ∷ enter 2 2
    ∷ ends 0 3 9 (value 7)
    ∷ wake 1 10
    ∷ []

-- A test that names `trace` runs the scheduler.
trace : List (Event ℕ) → System ℕ
unfolding run step section admit finish wake_follower wake_waiting interrupt_waiting lookup erase
    put evict live_at expired_bytes expired_count bytes old_size replaced next_in_line is_free
    remove
trace es = after numbers small es

done_callers :
    (trace done).callers
    ≡ over (returned (record { value = 7; source = launched; key = "a"; wait_ms = 3 }))
      ∷ over (returned (record { value = 7; source = coalesced; key = "a"; wait_ms = 9 }))
      ∷ waiting 1 "b" 2
      ∷ []
unfolding trace
done_callers = refl

crowd_callers :
    (trace crowd).callers
    ≡ working 0 "a" 0
      ∷ follower 0 "a" 1
      ∷ waiting 1 "b" 2
      ∷ over (raised "c" (refused distinct_queue_full))
      ∷ []
unfolding trace
crowd_callers = refl

-- The queued "b" gives up at its deadline.
late_callers :
    (trace (call "a" ∷ call "b" ∷ enter 0 0 ∷ enter 1 1 ∷ wake 1 101 ∷ [])).callers
    ≡ working 0 "a" 0 ∷ over (raised "b" (refused queue_wait_timeout)) ∷ []
unfolding trace
late_callers = refl

one_paid_verifier_example :
    (count_p holds_slot (after numbers small crowd).callers ≤ 1)
    × ((is_some (after numbers small crowd).scheduler.running_key ≡ true)
        ↔ (count_p holds_slot (after numbers small crowd).callers ≡ 1))
one_paid_verifier_example = one_paid_verifier numbers small crowd

one_leader_per_key_example :
    (count_p (leads_key "a") (after numbers small crowd).callers ≤ 1)
    × ((is_some (lookup "a" (after numbers small crowd).scheduler.active) ≡ true)
        ↔ (count_p (leads_key "a") (after numbers small crowd).callers ≡ 1))
one_leader_per_key_example = one_leader_per_key numbers small crowd "a"

counts_are_exact_example :
    let y = after numbers small crowd in
    (y.scheduler.total_waiters ≡ count_p waits y.callers)
    × (length y.scheduler.queue ≡ count_p queues y.callers)
    × ((k : String) → count_p (λ j. j == k) y.scheduler.queue ≡ count_p (queues_for k) y.callers)
    × ((f : ℕ) → joined_of (get_elem? y.scheduler.flights f) ≡ count_p (follows f) y.callers)
counts_are_exact_example = counts_are_exact numbers small crowd

no_orphaned_flight_example :
    count_p (queues_on 1) (after numbers small crowd).callers
      + count_p (works_on 1) (after numbers small crowd).callers
    ≡ 1
unfolding trace
no_orphaned_flight_example = no_orphaned_flight numbers small crowd 1 (new_flight "b" queued) refl

limits_hold_example :
    let s = (after numbers small crowd).scheduler in
    (length s.queue ≤ 1)
    × (s.total_waiters ≤ 2)
    × ((f : ℕ) → joined_of (get_elem? s.flights f) ≤ 1)
    × (length s.cache ≤ 1)
    × (s.cache_bytes ≤ 10)
    × (s.cache_bytes ≡ bytes s.cache)
limits_hold_example = limits_hold numbers small crowd

-- A second caller of "a" comes when the first has its result.
abbrev reused : List (Event ℕ)
reused = call "a" ∷ enter 0 0 ∷ ends 0 3 9 (value 7) ∷ call "a" ∷ enter 1 20 ∷ []

reused_callers :
    (trace reused).callers
    ≡ over (returned (record { value = 7; source = launched; key = "a"; wait_ms = 3 }))
      ∷ over (returned (record { value = 7; source = cache_hit; key = "a"; wait_ms = 0 }))
      ∷ []
unfolding trace
reused_callers = refl

hits_come_from_leaders_example :
    ((i : ℕ) (r : Receipt ℕ)
      → get_elem? (after numbers small reused).callers i ≡ some (over (returned r))
      → r.source ≡ cache_hit
      → IsPaid numbers (after numbers small reused).callers r.key r.value)
    × ((i : ℕ) (k : String)
        → get_elem? (after numbers small reused).callers i ≢ some (over (raised k corrupt_entry)))
hits_come_from_leaders_example = hits_come_from_leaders numbers small reused
