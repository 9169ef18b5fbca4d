-- ===== src/Verify/Scheduler/Accounts/Lead.antt =====
-- danus/verify/scheduler.py: a new leader, in the slot or in the queue, keeps the books.
use danus.Base.{
  ℕ, ◌+◌, String, ◌≡◌, Bool, none, some, List, [], ◌∷◌, ◌==◌, eq_iff, get_elem?, set, length,
  length-append, count_p, one_if, count_p-set, count_p-append, get_elem?-append, get_elem?_end,
  arith,
}
use danus.Base.Assoc.{lookup, lookup-put}
use danus.Verify.Scheduler.State.{Core, Caller, calling, waiting, working, queued, running}
use danus.Verify.Scheduler.Moves.{launch_now, enqueue, new_flight}
use danus.Verify.Scheduler.Accounts.{
  Accounts, waits, holds_slot, works_for, queues, queues_for, leads_key, leads, follows, queues_on,
  works_on,
}

module _ {V : Type 0} {m : Core V} {cs : List (Caller V)} (v : Accounts m cs) (i : ℕ) where
  module _ (k : String) (t : ℕ) (h : get_elem? cs i ≡ some (calling k))
      (fresh : lookup k m.active ≡ none) (free : m.running_key ≡ none) where
    exchange_launch_now :
        (p : Caller V → Bool)
        → count_p p (set cs i (working (length m.flights) k t)) + one_if (p (calling k))
          ≡ count_p p cs + one_if (p (working (length m.flights) k t))
    exchange_launch_now p = count_p-set p cs i _ _ h

    -- A new key takes the free slot.
    pub launch_now-Accounts : Accounts (launch_now k m) (set cs i (working (length m.flights) k t))
    unfolding launch_now
    launch_now-Accounts = record {
      waiters = omega (arith, exchange_launch_now waits, v.waiters);
      slot = ground (arith, exchange_launch_now holds_slot, v.slot, free);
      slot_key = λ j. ground (arith, exchange_launch_now (works_for j), v.slot_key j, free);
      depth = omega (arith, exchange_launch_now queues, v.depth);
      places = λ j. omega (arith, exchange_launch_now (queues_for j), v.places j);
      keys = λ j. ground (
        arith,
        exchange_launch_now (leads_key j),
        v.keys j,
        lookup-put k j (length m.flights) m.active,
        eq_iff k j,
        fresh,
      );
      owners = λ j g. ground (
        arith,
        exchange_launch_now (leads j g),
        v.owners j g,
        lookup-put k j (length m.flights) m.active,
        eq_iff k j,
        fresh,
      );
      joined = λ g. ground (
        arith,
        exchange_launch_now (follows g),
        v.joined g,
        get_elem?-append m.flights (new_flight k running) g,
        get_elem?_end m.flights,
      );
      queued_flights = λ g. ground (
        arith,
        exchange_launch_now (queues_on g),
        v.queued_flights g,
        get_elem?-append m.flights (new_flight k running) g,
        get_elem?_end m.flights,
      );
      running_flights = λ g. ground (
        arith,
        exchange_launch_now (works_on g),
        v.running_flights g,
        get_elem?-append m.flights (new_flight k running) g,
        get_elem?_end m.flights,
      );
    }

  module _ (k : String) (t : ℕ) (h : get_elem? cs i ≡ some (calling k))
      (fresh : lookup k m.active ≡ none) where
    exchange_enqueue :
        (p : Caller V → Bool)
        → count_p p (set cs i (waiting (length m.flights) k t)) + one_if (p (calling k))
          ≡ count_p p cs + one_if (p (waiting (length m.flights) k t))
    exchange_enqueue p = count_p-set p cs i _ _ h

    -- A new key goes to the end of the queue.
    pub enqueue-Accounts : Accounts (enqueue k m) (set cs i (waiting (length m.flights) k t))
    unfolding enqueue
    enqueue-Accounts = record {
      waiters = omega (arith, exchange_enqueue waits, v.waiters);
      slot = omega (arith, exchange_enqueue holds_slot, v.slot);
      slot_key = λ j. omega (arith, exchange_enqueue (works_for j), v.slot_key j);
      depth = ground (arith, exchange_enqueue queues, v.depth, length-append m.queue (k ∷ []));
      places = λ j. ground (
        arith,
        exchange_enqueue (queues_for j),
        v.places j,
        count_p-append (λ x. x == j) m.queue (k ∷ []),
      );
      keys = λ j. ground (
        arith,
        exchange_enqueue (leads_key j),
        v.keys j,
        lookup-put k j (length m.flights) m.active,
        eq_iff k j,
        fresh,
      );
      owners = λ j g. ground (
        arith,
        exchange_enqueue (leads j g),
        v.owners j g,
        lookup-put k j (length m.flights) m.active,
        eq_iff k j,
        fresh,
      );
      joined = λ g. ground (
        arith,
        exchange_enqueue (follows g),
        v.joined g,
        get_elem?-append m.flights (new_flight k queued) g,
        get_elem?_end m.flights,
      );
      queued_flights = λ g. ground (
        arith,
        exchange_enqueue (queues_on g),
        v.queued_flights g,
        get_elem?-append m.flights (new_flight k queued) g,
        get_elem?_end m.flights,
      );
      running_flights = λ g. ground (
        arith,
        exchange_enqueue (works_on g),
        v.running_flights g,
        get_elem?-append m.flights (new_flight k queued) g,
        get_elem?_end m.flights,
      );
    }
