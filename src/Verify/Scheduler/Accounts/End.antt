-- ===== src/Verify/Scheduler/Accounts/End.antt =====
-- danus/verify/scheduler.py: the head of the queue that takes the slot, a queued leader that gives up, and a running
-- leader that ends keep the books.
use danus.Base.{
  ℕ, ◌+◌, ◌<◌, String, ◌≡◌, Bool, true, refl, Option, none, some, List, [], ◌∷◌, ◌==◌, eq_iff,
  eq_refl, get_elem?, set, length, count_p, one_if, count_p-set, get_elem?-set, arith,
}
use danus.Base.Assoc.{lookup-erase}
use danus.Verify.Scheduler.State.{
  Flight, Core, Caller, waiting, working, over, Ended, running, failed, Error,
}
use danus.Verify.Scheduler.Moves.{remove, release_key, promote, retire, land, is_over}
use danus.Verify.Scheduler.Accounts.{
  Accounts, waits, holds_slot, works_for, queues, queues_for, leads_key, leads, follows, queues_on,
  works_on, runs,
}

length-remove :
    (k : String) (q : List String)
    → 0 < count_p (λ x. x == k) q
    → length (remove k q) + 1 ≡ length q
unfolding remove
length-remove k [] h = absurd (omega arith)
length-remove k (x ∷ q) h = ground (arith, length-remove k q)

-- The queue without its first `k` has one `k` less, and as many of any other key.
count_p-remove :
    (k j : String) (q : List String)
    → 0 < count_p (λ x. x == k) q
    → count_p (λ x. x == j) (remove k q) + one_if (k == j) ≡ count_p (λ x. x == j) q
unfolding remove
count_p-remove k j [] h = absurd (omega arith)
count_p-remove k j (x ∷ q) h =
    ground (arith, count_p-remove k j q, eq_iff x k, eq_iff x j, eq_iff k j)

release_key-eq-none : (k : String) (o : Option String) → runs k o ≡ true → release_key k o ≡ none
unfolding release_key
release_key-eq-none k none h = refl
release_key-eq-none k (some x) h = ground arith

runs_unique : (k j : String) (o : Option String) → runs k o ≡ true → runs j o ≡ (k == j)
runs_unique k j none h = ground arith
runs_unique k j (some x) h = ground (arith, eq_iff x k, eq_iff x j, eq_iff k j)

module _ {V : Type 0} {m : Core V} {cs : List (Caller V)} (v : Accounts m cs) (i : ℕ) where
  module _ (k : String) (t f : ℕ) (fl : Flight V) (rest : List String)
      (h : get_elem? cs i ≡ some (waiting f k t)) (e : get_elem? m.flights f ≡ some fl)
      (free : m.running_key ≡ none) (line : m.queue ≡ k ∷ rest) where
    exchange_promote :
        (p : Caller V → Bool)
        → count_p p (set cs i (working f k t)) + one_if (p (waiting f k t))
          ≡ count_p p cs + one_if (p (working f k t))
    exchange_promote p = count_p-set p cs i _ _ h

    -- The head of the queue takes the slot.
    pub promote-Accounts : Accounts (promote f fl k rest m) (set cs i (working f k t))
    unfolding promote
    promote-Accounts = record {
      waiters = omega (arith, exchange_promote waits, v.waiters);
      slot = ground (arith, exchange_promote holds_slot, v.slot, free);
      slot_key = λ j. ground (arith, exchange_promote (works_for j), v.slot_key j, free);
      depth = ground (arith, exchange_promote queues, v.depth, line);
      places = λ j. ground (arith, exchange_promote (queues_for j), v.places j, line);
      keys = λ j. omega (arith, exchange_promote (leads_key j), v.keys j);
      owners = λ j g. omega (arith, exchange_promote (leads j g), v.owners j g);
      joined = λ g. ground (
        arith,
        exchange_promote (follows g),
        v.joined g,
        get_elem?-set m.flights f fl (record fl { state = running }) g e,
      );
      queued_flights = λ g. ground (
        arith,
        exchange_promote (queues_on g),
        v.queued_flights g,
        get_elem?-set m.flights f fl (record fl { state = running }) g e,
      );
      running_flights = λ g. ground (
        arith,
        exchange_promote (works_on g),
        v.running_flights g,
        get_elem?-set m.flights f fl (record fl { state = running }) g e,
        exchange_promote (queues_on f),
        v.queued_flights f,
      );
    }

  module _ (k : String) (t f : ℕ) (fl : Flight V) (x : Error) (r : Ended V)
      (h : get_elem? cs i ≡ some (waiting f k t)) (e : get_elem? m.flights f ≡ some fl) where
    exchange_retire :
        (p : Caller V → Bool)
        → count_p p (set cs i (over r)) + one_if (p (waiting f k t))
          ≡ count_p p cs + one_if (p (over r))
    exchange_retire p = count_p-set p cs i _ _ h

    -- A queued leader ends, with its flight.
    pub retire-Accounts : Accounts (retire f fl k x m) (set cs i (over r))
    unfolding retire
    retire-Accounts = record {
      waiters = omega (arith, exchange_retire waits, v.waiters);
      slot = omega (arith, exchange_retire holds_slot, v.slot);
      slot_key = λ j. omega (arith, exchange_retire (works_for j), v.slot_key j);
      depth = ground (
        arith,
        exchange_retire queues,
        v.depth,
        length-remove k m.queue,
        exchange_retire (queues_for k),
        v.places k,
        eq_refl k,
      );
      places = λ j. ground (
        arith,
        exchange_retire (queues_for j),
        v.places j,
        count_p-remove k j m.queue,
        exchange_retire (queues_for k),
        v.places k,
        eq_refl k,
      );
      keys = λ j. ground (
        arith,
        exchange_retire (leads_key j),
        v.keys j,
        exchange_retire (leads k f),
        v.owners k f,
        eq_refl k,
        lookup-erase k j m.active,
        eq_iff k j,
      );
      owners = λ j g. ground (
        arith,
        exchange_retire (leads j g),
        v.owners j g,
        exchange_retire (leads k f),
        v.owners k f,
        eq_refl k,
        lookup-erase k j m.active,
        eq_iff k j,
      );
      joined = λ g. ground (
        arith,
        exchange_retire (follows g),
        v.joined g,
        get_elem?-set m.flights f fl (record fl { state = failed; error = some x }) g e,
      );
      queued_flights = λ g. ground (
        arith,
        exchange_retire (queues_on g),
        v.queued_flights g,
        get_elem?-set m.flights f fl (record fl { state = failed; error = some x }) g e,
      );
      running_flights = λ g. ground (
        arith,
        exchange_retire (works_on g),
        v.running_flights g,
        get_elem?-set m.flights f fl (record fl { state = failed; error = some x }) g e,
        exchange_retire (queues_on f),
        v.queued_flights f,
      );
    }

  module _ (k : String) (t f : ℕ) (fl ended : Flight V) (r : Ended V)
      (h : get_elem? cs i ≡ some (working f k t)) (e : get_elem? m.flights f ≡ some fl)
      (done : is_over ended.state ≡ true) (same : ended.joined_waiters ≡ fl.joined_waiters) where
    exchange_land :
        (p : Caller V → Bool)
        → count_p p (set cs i (over r)) + one_if (p (working f k t))
          ≡ count_p p cs + one_if (p (over r))
    exchange_land p = count_p-set p cs i _ _ h

    -- The running leader ends, with its flight.
    pub land-Accounts : Accounts (land f ended k m) (set cs i (over r))
    unfolding land
    land-Accounts = record {
      waiters = omega (arith, exchange_land waits, v.waiters);
      slot = ground (
        arith,
        exchange_land holds_slot,
        v.slot,
        exchange_land (works_for k),
        v.slot_key k,
        eq_refl k,
        release_key-eq-none k m.running_key,
      );
      slot_key = λ j. ground (
        arith,
        exchange_land (works_for j),
        v.slot_key j,
        exchange_land (works_for k),
        v.slot_key k,
        eq_refl k,
        release_key-eq-none k m.running_key,
        runs_unique k j m.running_key,
      );
      depth = omega (arith, exchange_land queues, v.depth);
      places = λ j. omega (arith, exchange_land (queues_for j), v.places j);
      keys = λ j. ground (
        arith,
        exchange_land (leads_key j),
        v.keys j,
        exchange_land (leads_key k),
        v.keys k,
        eq_refl k,
        lookup-erase k j m.active,
        eq_iff k j,
      );
      owners = λ j g. ground (
        arith,
        exchange_land (leads j g),
        v.owners j g,
        exchange_land (leads_key k),
        v.keys k,
        eq_refl k,
        lookup-erase k j m.active,
        eq_iff k j,
        exchange_land (leads k f),
        v.owners k f,
      );
      joined = λ g. ground (
        arith,
        exchange_land (follows g),
        v.joined g,
        get_elem?-set m.flights f fl ended g e,
        done,
        same,
      );
      queued_flights = λ g. ground (
        arith,
        exchange_land (queues_on g),
        v.queued_flights g,
        get_elem?-set m.flights f fl ended g e,
        done,
        same,
        exchange_land (works_on f),
        v.running_flights f,
      );
      running_flights = λ g. ground (
        arith,
        exchange_land (works_on g),
        v.running_flights g,
        get_elem?-set m.flights f fl ended g e,
        done,
        same,
      );
    }
