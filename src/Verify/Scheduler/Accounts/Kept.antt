-- ===== src/Verify/Scheduler/Accounts/Kept.antt =====
-- danus/verify/scheduler.py: every critical section keeps the books.
use danus.Base.{
  ℕ, ◌+◌, String, ◌≡◌, refl, Bool, true, false, Option, none, some, List, [], ◌∷◌, inl, inr, ◌⊎◌,
  eq_iff, leb, length, get_elem?, set, set_self, count_p, one_if, count_p-set, count_p-get_elem?,
  if◌then◌else◌, arith,
}
use danus.Base.Assoc.{lookup}
use danus.Verify.Scheduler.State.{
  Flight, Scheduler, Error, Caller, calling, follower, waiting, over, Ended, working, Work, Codec,
  CacheEntry,
}
use danus.Verify.Scheduler.Moves.{is_queued_state, is_over}
use danus.Verify.Scheduler.Cache.{cache_result, purge_expired}
use danus.Verify.Scheduler.Calls.{
  Outcome, join, is_free, lead, join_or_lead, hit_or_miss, wake_follower, interrupt_follower,
  next_in_line, promote_or_wait, wake_waiting, interrupt_waiting, land_result, finish,
}
use danus.Verify.Scheduler.Accounts.{
  Accounts, waits, holds_slot, works_for, queues, queues_for, leads_key, leads, follows, queues_on,
  works_on,
}
use danus.Verify.Scheduler.Accounts.Follow.{join_flight-Accounts, leave_flight-Accounts}
use danus.Verify.Scheduler.Accounts.Lead.{launch_now-Accounts, enqueue-Accounts}
use danus.Verify.Scheduler.Accounts.End.{promote-Accounts, retire-Accounts, land-Accounts}

-- The books are right after a section of caller `i`.
pub record Kept {V : Type 0} (cs : List (Caller V)) (i : ℕ) (r : Outcome V) : Type 0 where
  pub books : Accounts r.0.core (set cs i r.1)

pub Kept-if :
    {V : Type 0} {cs : List (Caller V)} {i : ℕ} (b : Bool) {x y : Outcome V}
    → (b ≡ true → Kept cs i x)
    → (b ≡ false → Kept cs i y)
    → Kept cs i (if b then x else y)
Kept-if true hx hy = hx refl
Kept-if false hx hy = hy refl

pub next_in_line-eq-some :
    (key : String) (running : Option String) (q rest : List String)
    → next_in_line key running q ≡ some rest
    → (running ≡ none) × (q ≡ key ∷ rest)
unfolding next_in_line
next_in_line-eq-some key none (k ∷ q) rest h = ground (arith, eq_iff k key)
next_in_line-eq-some key none [] rest h = ground arith
next_in_line-eq-some key (some k) q rest h = ground arith

is_free-eq-true :
    (running : Option String) (q : List String) → is_free running q ≡ true → running ≡ none
unfolding is_free
is_free-eq-true none [] h = refl
is_free-eq-true none (k ∷ q) h = refl
is_free-eq-true (some k) q h = ground arith

module _ {V : Type 0} where
  -- Caching touches no flight, key, queue or waiter.
  pub cache_result-core :
      (key : String) (encoded : List ℕ) (now : ℕ) (s : Scheduler V)
      → (cache_result key encoded now s).core ≡ s.core
  unfolding cache_result
  cache_result-core key encoded now s = ground arith

module _ {V : Type 0} (s : Scheduler V) {cs : List (Caller V)} (v : Accounts s.core cs)
    (i : ℕ) where
  pub stay : (c : Caller V) → get_elem? cs i ≡ some c → Kept cs i (s, c)
  stay c h = record { books = rw (set_self cs i c h) v }

  -- A caller that has taken nothing ends.
  pub give_up :
      (k : String) (r : Ended V)
      → get_elem? cs i ≡ some (calling k)
      → Accounts s.core (set cs i (over r))
  give_up k r h = record {
    waiters = omega (arith, exchange waits, v.waiters);
    slot = omega (arith, exchange holds_slot, v.slot);
    slot_key = λ j. omega (arith, exchange (works_for j), v.slot_key j);
    depth = omega (arith, exchange queues, v.depth);
    places = λ j. omega (arith, exchange (queues_for j), v.places j);
    keys = λ j. omega (arith, exchange (leads_key j), v.keys j);
    owners = λ j g. omega (arith, exchange (leads j g), v.owners j g);
    joined = λ g. omega (arith, exchange (follows g), v.joined g);
    queued_flights = λ g. omega (arith, exchange (queues_on g), v.queued_flights g);
    running_flights = λ g. omega (arith, exchange (works_on g), v.running_flights g);
  }
    where
      exchange :
          (p : Caller V → Bool)
          → count_p p (set cs i (over r)) + one_if (p (calling k))
            ≡ count_p p cs + one_if (p (over r))
      exchange p = count_p-set p cs i _ _ h

  module _ (k : String) (now : ℕ) (h : get_elem? cs i ≡ some (calling k)) where
    join-Kept :
        (f : ℕ) (o : Option (Flight V)) → get_elem? s.flights f ≡ o → Kept cs i (join s k now f o)
    unfolding join
    join-Kept f none e = record { books = give_up k _ h }
    join-Kept f (some fl) e =
        Kept-if (leb s.limits.max_waiters_per_key fl.joined_waiters)
          (λ _. record { books = give_up k _ h })
          (λ _.
            Kept-if (leb s.limits.max_total_waiters s.total_waiters)
              (λ _. record { books = give_up k _ h })
              (λ _. record { books = join_flight-Accounts v i k now f fl h e }))

    lead-Kept : lookup k s.active ≡ none → Kept cs i (lead s k now)
    unfolding lead
    lead-Kept fresh =
        Kept-if (is_free s.running_key s.queue)
          (λ free. record {
            books = launch_now-Accounts v i k now h fresh (is_free-eq-true _ _ free);
          })
          (λ _.
            Kept-if (leb s.limits.max_distinct_queue (length s.queue))
              (λ _. record { books = give_up k _ h })
              (λ _.
                Kept-if (leb s.limits.max_total_waiters s.total_waiters)
                  (λ _. record { books = give_up k _ h })
                  (λ _. record { books = enqueue-Accounts v i k now h fresh })))

    join_or_lead-Kept : (o : Option ℕ) → lookup k s.active ≡ o → Kept cs i (join_or_lead s k now o)
    unfolding join_or_lead
    join_or_lead-Kept none e = lead-Kept e
    join_or_lead-Kept (some f) e = join-Kept f _ refl

    pub hit_or_miss-Kept :
        (codec : Codec V) (o : Option CacheEntry) → Kept cs i (hit_or_miss codec s k now o)
    unfolding hit_or_miss
    hit_or_miss-Kept codec none = join_or_lead-Kept _ refl
    hit_or_miss-Kept codec (some entry) = record { books = give_up k _ h }

  module _ (f : ℕ) (k : String) (t : ℕ) (h : get_elem? cs i ≡ some (follower f k t)) where
    pub wake_follower-Kept :
        (now : ℕ) (o : Option (Flight V))
        → get_elem? s.flights f ≡ o
        → Kept cs i (wake_follower s f k t now o)
    unfolding wake_follower
    wake_follower-Kept now none e =
        absurd (ground (arith, count_p-get_elem? (follows f) cs i _ h, v.joined f))
    wake_follower-Kept now (some fl) e =
        Kept-if (is_over fl.state)
          (λ _. record { books = leave_flight-Accounts v i k t f fl _ h e }) (λ _. stay _ h)

    pub interrupt_follower-Kept :
        (x : Error) (o : Option (Flight V))
        → get_elem? s.flights f ≡ o
        → Kept cs i (interrupt_follower s f k x o)
    unfolding interrupt_follower
    interrupt_follower-Kept x none e =
        absurd (ground (arith, count_p-get_elem? (follows f) cs i _ h, v.joined f))
    interrupt_follower-Kept x (some fl) e = record {
      books = leave_flight-Accounts v i k t f fl _ h e;
    }

  module _ (f : ℕ) (k : String) (t : ℕ) (h : get_elem? cs i ≡ some (waiting f k t)) where
    promote_or_wait-Kept :
        (fl : Flight V) (o : Option (List String))
        → get_elem? s.flights f ≡ some fl
        → next_in_line k s.running_key s.queue ≡ o
        → Kept cs i (promote_or_wait s f fl k t o)
    unfolding promote_or_wait
    promote_or_wait-Kept fl none e n = stay _ h
    promote_or_wait-Kept fl (some rest) e n =
        let p = next_in_line-eq-some k _ _ rest n in
        record { books = promote-Accounts v i k t f fl rest h e p.0 p.1 }

    pub wake_waiting-Kept :
        (now : ℕ) (o : Option (Flight V))
        → get_elem? s.flights f ≡ o
        → Kept cs i (wake_waiting s f k t now o)
    unfolding wake_waiting
    wake_waiting-Kept now none e =
        absurd (ground (arith, count_p-get_elem? (queues_on f) cs i _ h, v.queued_flights f))
    wake_waiting-Kept now (some fl) e =
        Kept-if (leb (t + s.limits.queue_wait) now)
          (λ _. record { books = retire-Accounts v i k t f fl _ _ h e })
          (λ _. promote_or_wait-Kept fl _ e refl)

    pub interrupt_waiting-Kept :
        (x : Error) (o : Option (Flight V))
        → get_elem? s.flights f ≡ o
        → Kept cs i (interrupt_waiting s f k x o)
    unfolding interrupt_waiting
    interrupt_waiting-Kept x none e =
        absurd (ground (arith, count_p-get_elem? (queues_on f) cs i _ h, v.queued_flights f))
    interrupt_waiting-Kept x (some fl) e =
        Kept-if (is_queued_state fl.state)
          (λ _. record { books = retire-Accounts v i k t f fl x _ h e })
          (λ n.
            absurd
              (ground (arith, n, e, count_p-get_elem? (queues_on f) cs i _ h, v.queued_flights f)))

  module _ (f : ℕ) (k : String) (t : ℕ) (h : get_elem? cs i ≡ some (working f k t)) where
    land_result-Kept :
        (fl : Flight V) (wait now : ℕ) (r : (List ℕ × V) ⊎ Error)
        → get_elem? s.flights f ≡ some fl
        → Kept cs i (land_result s f fl k wait now r)
    unfolding land_result
    land_result-Kept fl wait now (inr x) e = record {
      books = land-Accounts v i k t f fl _ _ h e refl refl;
    }
    land_result-Kept fl wait now (inl (encoded, y)) e = record {
      books =
          rw (cache_result-core k encoded now (purge_expired now s))
            (land-Accounts v i k t f fl _ _ h e refl refl);
    }

    pub finish-Kept :
        (codec : Codec V) (started now : ℕ) (w : Work V) (o : Option (Flight V))
        → get_elem? s.flights f ≡ o
        → Kept cs i (finish codec s f k t started now w o)
    unfolding finish
    finish-Kept codec started now w none e =
        absurd (ground (arith, count_p-get_elem? (works_on f) cs i _ h, v.running_flights f))
    finish-Kept codec started now w (some fl) e = land_result-Kept fl _ now _ e
