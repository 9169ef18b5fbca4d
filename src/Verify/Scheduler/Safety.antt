-- ===== src/Verify/Scheduler/Safety.antt =====
-- danus/verify/scheduler.py: what holds after any events, in whatever order the threads run.
use danus.Base.{
  ℕ, ◌+◌, ◌≤◌, String, ◌≡◌, ◌↔◌, ◌==◌, not, one_if, true, some, List, get_elem?, count_p, length,
  is_some, arith,
}
use danus.Base.Assoc.{lookup}
use danus.Verify.Scheduler.State.{Limits, Flight, Codec}
use danus.Verify.Scheduler.Cache.{bytes}
use danus.Verify.Scheduler.Moves.{is_over}
use danus.Verify.Scheduler.System.{System, Event, run, start}
use danus.Verify.Scheduler.Accounts.{
  holds_slot, waits, queues, queues_for, leads_key, follows, queues_on, works_on, joined_of,
}
use danus.Verify.Scheduler.Accounts.Runs.{IsBalanced, run-IsBalanced, start-IsBalanced}
use danus.Verify.Scheduler.Bounds.{Within, run-Within, start-Within}

-- Where the events lead from a fresh scheduler.
abbrev pub after : {V : Type 0} → Codec V → Limits → List (Event V) → System V
after codec l es = run codec (start l) es

module _ {V : Type 0} (codec : Codec V) (l : Limits) (es : List (Event V)) where
  pub balanced : IsBalanced (after codec l es)
  balanced = run-IsBalanced codec (start l) es (start-IsBalanced l)

  pub within : Within l (after codec l es).scheduler
  within = run-Within codec (start l) es (start-Within l)

  -- After any events from a fresh scheduler at most one caller runs the paid verifier, and one
  -- does exactly when a running key is set.
  pub one_paid_verifier :
      (count_p holds_slot (after codec l es).callers ≤ 1)
      × ((is_some (after codec l es).scheduler.running_key ≡ true)
          ↔ (count_p holds_slot (after codec l es).callers ≡ 1))
  one_paid_verifier = ground (arith, balanced.slot)

  -- After any events a key has at most one leader, queued or running, and it has one exactly when
  -- the key is active: every other caller of the key joins, hits the cache or is refused.
  pub one_leader_per_key :
      (k : String)
      → (count_p (leads_key k) (after codec l es).callers ≤ 1)
        × ((is_some (lookup k (after codec l es).scheduler.active) ≡ true)
            ↔ (count_p (leads_key k) (after codec l es).callers ≡ 1))
  one_leader_per_key k = ground (arith, balanced.keys k)

  -- After any events the waiter count is the number of callers that wait, the queue is as long as
  -- there are queued leaders and holds each key once for each of them, and the waiters of a flight
  -- are the callers that follow it. So no decrement of a count falls below zero.
  pub counts_are_exact :
      let y = after codec l es in
      (y.scheduler.total_waiters ≡ count_p waits y.callers)
      × (length y.scheduler.queue ≡ count_p queues y.callers)
      × ((k : String) → count_p (λ j. j == k) y.scheduler.queue ≡ count_p (queues_for k) y.callers)
      × ((f : ℕ) → joined_of (get_elem? y.scheduler.flights f) ≡ count_p (follows f) y.callers)
  counts_are_exact = (balanced.waiters, balanced.depth, balanced.places, balanced.joined)

  -- After any events a flight that is not over has exactly one leader, queued or running on it,
  -- and one that is over has none: a follower never waits on a flight that nobody will end.
  pub no_orphaned_flight :
      (f : ℕ) (fl : Flight V)
      → get_elem? (after codec l es).scheduler.flights f ≡ some fl
      → count_p (queues_on f) (after codec l es).callers
          + count_p (works_on f) (after codec l es).callers
        ≡ one_if (not (is_over fl.state))
  no_orphaned_flight f fl e =
      ground (arith, e, balanced.queued_flights f, balanced.running_flights f)

  -- After any events the queue, the waiters, the followers of each flight, the cache's entries and
  -- its bytes are within the limits, and the byte count is the sum of the entries' sizes.
  pub limits_hold :
      let s = (after codec l es).scheduler in
      (length s.queue ≤ l.max_distinct_queue)
      × (s.total_waiters ≤ l.max_total_waiters)
      × ((f : ℕ) → joined_of (get_elem? s.flights f) ≤ l.max_waiters_per_key)
      × (length s.cache ≤ l.cache_max_entries)
      × (s.cache_bytes ≤ l.cache_max_bytes)
      × (s.cache_bytes ≡ bytes s.cache)
  limits_hold = (
    within.calls.depth, within.calls.waiters, within.calls.joined, within.results.few,
    within.results.small, within.results.exact,
  )
