-- ===== src/Verify/Scheduler/Accounts/Follow.antt =====
-- danus/verify/scheduler.py: joining and leaving a flight keep the books.
use danus.Base.{
  ℕ, ◌+◌, ◌-◌, String, ◌≡◌, Bool, some, List, get_elem?, set, count_p, one_if, count_p-set,
  get_elem?-set, arith,
}
use danus.Verify.Scheduler.State.{Flight, Core, Caller, calling, follower, over, Ended}
use danus.Verify.Scheduler.Moves.{join_flight, leave_flight}
use danus.Verify.Scheduler.Accounts.{
  Accounts, waits, holds_slot, works_for, queues, queues_for, leads_key, leads, follows, queues_on,
  works_on,
}

module _ {V : Type 0} {m : Core V} {cs : List (Caller V)} (v : Accounts m cs) (i : ℕ) where
  module _ (k : String) (t f : ℕ) (fl : Flight V) (h : get_elem? cs i ≡ some (calling k))
      (e : get_elem? m.flights f ≡ some fl) where
    exchange_join_flight :
        (p : Caller V → Bool)
        → count_p p (set cs i (follower f k t)) + one_if (p (calling k))
          ≡ count_p p cs + one_if (p (follower f k t))
    exchange_join_flight p = count_p-set p cs i _ _ h

    -- A caller joins flight `f`.
    pub join_flight-Accounts : Accounts (join_flight f fl m) (set cs i (follower f k t))
    unfolding join_flight
    join_flight-Accounts = record {
      waiters = omega (arith, exchange_join_flight waits, v.waiters);
      slot = omega (arith, exchange_join_flight holds_slot, v.slot);
      slot_key = λ j. omega (arith, exchange_join_flight (works_for j), v.slot_key j);
      depth = omega (arith, exchange_join_flight queues, v.depth);
      places = λ j. omega (arith, exchange_join_flight (queues_for j), v.places j);
      keys = λ j. omega (arith, exchange_join_flight (leads_key j), v.keys j);
      owners = λ j g. omega (arith, exchange_join_flight (leads j g), v.owners j g);
      joined = λ g. ground (
        arith,
        exchange_join_flight (follows g),
        v.joined g,
        get_elem?-set m.flights f fl (record fl { joined_waiters = fl.joined_waiters + 1 }) g e,
      );
      queued_flights = λ g. ground (
        arith,
        exchange_join_flight (queues_on g),
        v.queued_flights g,
        get_elem?-set m.flights f fl (record fl { joined_waiters = fl.joined_waiters + 1 }) g e,
      );
      running_flights = λ g. ground (
        arith,
        exchange_join_flight (works_on g),
        v.running_flights g,
        get_elem?-set m.flights f fl (record fl { joined_waiters = fl.joined_waiters + 1 }) g e,
      );
    }

  module _ (k : String) (t f : ℕ) (fl : Flight V) (r : Ended V)
      (h : get_elem? cs i ≡ some (follower f k t)) (e : get_elem? m.flights f ≡ some fl) where
    exchange_leave_flight :
        (p : Caller V → Bool)
        → count_p p (set cs i (over r)) + one_if (p (follower f k t))
          ≡ count_p p cs + one_if (p (over r))
    exchange_leave_flight p = count_p-set p cs i _ _ h

    -- A follower of flight `f` ends.
    pub leave_flight-Accounts : Accounts (leave_flight f fl m) (set cs i (over r))
    unfolding leave_flight
    leave_flight-Accounts = record {
      waiters = omega (arith, exchange_leave_flight waits, v.waiters);
      slot = omega (arith, exchange_leave_flight holds_slot, v.slot);
      slot_key = λ j. omega (arith, exchange_leave_flight (works_for j), v.slot_key j);
      depth = omega (arith, exchange_leave_flight queues, v.depth);
      places = λ j. omega (arith, exchange_leave_flight (queues_for j), v.places j);
      keys = λ j. omega (arith, exchange_leave_flight (leads_key j), v.keys j);
      owners = λ j g. omega (arith, exchange_leave_flight (leads j g), v.owners j g);
      joined = λ g. ground (
        arith,
        exchange_leave_flight (follows g),
        v.joined g,
        get_elem?-set m.flights f fl (record fl { joined_waiters = fl.joined_waiters - 1 }) g e,
      );
      queued_flights = λ g. ground (
        arith,
        exchange_leave_flight (queues_on g),
        v.queued_flights g,
        get_elem?-set m.flights f fl (record fl { joined_waiters = fl.joined_waiters - 1 }) g e,
      );
      running_flights = λ g. ground (
        arith,
        exchange_leave_flight (works_on g),
        v.running_flights g,
        get_elem?-set m.flights f fl (record fl { joined_waiters = fl.joined_waiters - 1 }) g e,
      );
    }
