-- ===== src/Verify/Scheduler/Bounds.antt =====
-- danus/verify/scheduler.py: the limits hold in every state that the calls can reach.
use danus.Base.{
  ℕ, ◌+◌, ◌≤◌, String, ◌≡◌, refl, ◌∙◌, subst, set, Bool, true, false, ◌⊎◌, inl, inr, Option, none,
  some, List, [], ◌∷◌, ◌++◌, ◌==◌, leb, length, length-append, get_elem?, get_elem?-set,
  get_elem?-append, if◌then◌else◌, arith,
}
use danus.Base.Assoc.{lookup}
use danus.Verify.Scheduler.State.{
  Limits, Counters, Error, Flight, Core, Scheduler, Caller, calling, follower, waiting, working,
  Codec, Work, CacheEntry, queued, running,
}
use danus.Verify.Scheduler.Cache.{bytes, purge_expired, cache_result}
use danus.Verify.Scheduler.Cache.Bounds.{Fits, purge-Fits, cache_result-Fits, touch-Fits}
use danus.Verify.Scheduler.Moves.{
  remove, is_queued_state, is_over, new_flight, leave_flight, promote, retire, land,
}
use danus.Verify.Scheduler.Calls.{
  Outcome, join, is_free, lead, join_or_lead, hit_or_miss, submit, admit, wake_follower,
  interrupt_follower, next_in_line, promote_or_wait, wake_waiting, interrupt_waiting, land_result,
  finish, snapshot,
}
use danus.Verify.Scheduler.System.{
  System, Event, enter, wake, interrupt, ends, section, move, run, start, run_induction,
}
use danus.Verify.Scheduler.Accounts.{joined_of}
use danus.Verify.Scheduler.Accounts.Kept.{next_in_line-eq-some, cache_result-core}

-- The queue, the waiters and each flight's followers are within the limits.
pub record Bounded {V : Type 0} (l : Limits) (m : Core V) : Type 0 where
  pub depth : length m.queue ≤ l.max_distinct_queue
  pub waiters : m.total_waiters ≤ l.max_total_waiters
  pub joined : (f : ℕ) → joined_of (get_elem? m.flights f) ≤ l.max_waiters_per_key

-- So is the cache, whose byte count is exact; and the limits are those of the start.
pub record Within {V : Type 0} (l : Limits) (s : Scheduler V) : Type 0 where
  pub same : s.limits ≡ l
  pub calls : Bounded l s.core
  pub results : Fits l s.cache_bytes s.cache

length-remove-le : (k : String) (q : List String) → length (remove k q) ≤ length q
unfolding remove
length-remove-le k [] = omega arith
length-remove-le k (x ∷ q) = ground (arith, length-remove-le k q)

module _ {V : Type 0} {l : Limits} {m : Core V} (b : Bounded l m) where
  -- A flight may change in all but its followers.
  module _ (f : ℕ) (fl gl : Flight V) (e : get_elem? m.flights f ≡ some fl) where
    joined_set :
        gl.joined_waiters ≤ l.max_waiters_per_key
        → (g : ℕ) → joined_of (get_elem? (set m.flights f gl) g) ≤ l.max_waiters_per_key
    joined_set h g = ground (arith, h, b.joined g, get_elem?-set m.flights f fl gl g e)

  joined_new :
      (fl : Flight V)
      → fl.joined_waiters ≡ 0
      → (g : ℕ) → joined_of (get_elem? (m.flights ++ fl ∷ []) g) ≤ l.max_waiters_per_key
  joined_new fl h g = ground (arith, h, b.joined g, get_elem?-append m.flights fl g)

module _ {V : Type 0} where
  limits-cache_result :
      (k : String) (encoded : List ℕ) (now : ℕ) (s : Scheduler V)
      → (cache_result k encoded now s).limits ≡ s.limits
  unfolding cache_result
  limits-cache_result k encoded now s = ground arith

module _ {V : Type 0} {l : Limits} where
  Within-if :
      (t : Bool) (x y : Outcome V)
      → (t ≡ true → Within l x.0)
      → (t ≡ false → Within l y.0)
      → Within l (if t then x else y).0
  Within-if true x y hx hy = hx refl
  Within-if false x y hx hy = hy refl

module _ {V : Type 0} {l : Limits} {s : Scheduler V} (w : Within l s) where
  -- a limit that the state tests is one of the start
  under : (limit : Limits → ℕ) {n : ℕ} → n ≤ limit s.limits → n ≤ limit l
  under limit {n} h = subst (λ k. n ≤ limit k) w.same h

  module _ (k : String) (now : ℕ) where
    join-Within :
        (f : ℕ) (o : Option (Flight V)) → get_elem? s.flights f ≡ o → Within l (join s k now f o).0
    unfolding join
    join-Within f none e = w
    join-Within f (some fl) e =
        Within-if (leb s.limits.max_waiters_per_key fl.joined_waiters) _ _
          (λ _. record { same = w.same; calls = w.calls; results = w.results })
          (λ room.
            Within-if (leb s.limits.max_total_waiters s.total_waiters) _ _
              (λ _. record { same = w.same; calls = w.calls; results = w.results })
              (λ space. record {
                same = w.same;
                calls = record {
                  depth = w.calls.depth;
                  waiters = under (λ x. x.max_total_waiters) (ground (arith, space));
                  joined =
                      joined_set w.calls f fl _ e
                        (under (λ x. x.max_waiters_per_key) (ground (arith, room)));
                };
                results = w.results;
              }))

    lead-Within : Within l (lead s k now).0
    unfolding lead
    lead-Within =
        Within-if (is_free s.running_key s.queue) _ _
          (λ _. record {
            same = w.same;
            calls = record {
              depth = w.calls.depth;
              waiters = w.calls.waiters;
              joined = joined_new w.calls (new_flight k running) refl;
            };
            results = w.results;
          })
          (λ _.
            Within-if (leb s.limits.max_distinct_queue (length s.queue)) _ _
              (λ _. record { same = w.same; calls = w.calls; results = w.results })
              (λ room.
                Within-if (leb s.limits.max_total_waiters s.total_waiters) _ _
                  (λ _. record { same = w.same; calls = w.calls; results = w.results })
                  (λ space. record {
                    same = w.same;
                    calls = record {
                      depth =
                          under (λ x. x.max_distinct_queue)
                            (ground (arith, room, length-append s.queue (k ∷ [])));
                      waiters = under (λ x. x.max_total_waiters) (ground (arith, space));
                      joined = joined_new w.calls (new_flight k queued) refl;
                    };
                    results = w.results;
                  })))

    join_or_lead-Within : (o : Option ℕ) → Within l (join_or_lead s k now o).0
    unfolding join_or_lead
    join_or_lead-Within none = lead-Within
    join_or_lead-Within (some f) = join-Within f _ refl

    hit_or_miss-Within :
        (codec : Codec V) (o : Option CacheEntry)
        → lookup k s.cache ≡ o
        → Within l (hit_or_miss codec s k now o).0
    unfolding hit_or_miss
    hit_or_miss-Within codec none e = join_or_lead-Within _
    hit_or_miss-Within codec (some entry) e = record {
      same = w.same;
      calls = w.calls;
      results = touch-Fits s w.same w.results k entry e;
    }

  submit-Within : (now : ℕ) → Within l (submit s now)
  unfolding submit
  submit-Within now = record {
    same = w.same;
    calls = w.calls;
    results = purge-Fits s w.same w.results now;
  }

  -- A caller that leaves or moves frees what it held.
  leave-Within :
      (f : ℕ) (fl : Flight V)
      → get_elem? s.flights f ≡ some fl
      → Within l (record s { core = leave_flight f fl s.core })
  unfolding leave_flight
  leave-Within f fl e = record {
    same = w.same;
    calls = record {
      depth = w.calls.depth;
      waiters = omega (arith, w.calls.waiters);
      joined = joined_set w.calls f fl _ e (ground (arith, w.calls.joined f, e));
    };
    results = w.results;
  }

  retire-Within :
      (f : ℕ) (fl : Flight V) (k : String) (x : Error)
      → get_elem? s.flights f ≡ some fl
      → Within l (record s { core = retire f fl k x s.core })
  unfolding retire
  retire-Within f fl k x e = record {
    same = w.same;
    calls = record {
      depth = omega (arith, length-remove-le k s.queue, w.calls.depth);
      waiters = omega (arith, w.calls.waiters);
      joined = joined_set w.calls f fl _ e (ground (arith, w.calls.joined f, e));
    };
    results = w.results;
  }

  promote-Within :
      (f : ℕ) (fl : Flight V) (k : String) (rest : List String)
      → get_elem? s.flights f ≡ some fl
      → s.queue ≡ k ∷ rest
      → Within l (record s { core = promote f fl k rest s.core })
  unfolding promote
  promote-Within f fl k rest e q = record {
    same = w.same;
    calls = record {
      depth = ground (arith, w.calls.depth, q);
      waiters = omega (arith, w.calls.waiters);
      joined = joined_set w.calls f fl _ e (ground (arith, w.calls.joined f, e));
    };
    results = w.results;
  }

  land-Within :
      (f : ℕ) (fl ended : Flight V) (k : String)
      → get_elem? s.flights f ≡ some fl
      → ended.joined_waiters ≡ fl.joined_waiters
      → Within l (record s { core = land f ended k s.core })
  unfolding land
  land-Within f fl ended k e same = record {
    same = w.same;
    calls = record {
      depth = w.calls.depth;
      waiters = w.calls.waiters;
      joined = joined_set w.calls f fl ended e (ground (arith, same, w.calls.joined f, e));
    };
    results = w.results;
  }

  purge-Within : (now : ℕ) → Within l (purge_expired now s)
  unfolding purge_expired
  purge-Within now = record {
    same = w.same;
    calls = w.calls;
    results = purge-Fits s w.same w.results now;
  }

  -- The counters are bounded by nothing.
  recount : (c : Counters) → Within l (record s { counters = c })
  recount c = record { same = w.same; calls = w.calls; results = w.results }

  cache_result-Within :
      (k : String) (encoded : List ℕ) (now : ℕ) → Within l (cache_result k encoded now s)
  cache_result-Within k encoded now = record {
    same = limits-cache_result k encoded now s ∙ w.same;
    calls = rw (cache_result-core k encoded now s) w.calls;
    results = cache_result-Fits s w.same w.results k encoded now;
  }

module _ {V : Type 0} {l : Limits} {s : Scheduler V} (w : Within l s) where
  land_result-Within :
      (f : ℕ) (k : String) (fl : Flight V) (wait now : ℕ) (r : (List ℕ × V) ⊎ Error)
      → get_elem? s.flights f ≡ some fl
      → Within l (land_result s f fl k wait now r).0
  unfolding land_result
  land_result-Within f k fl wait now (inr x) e = recount (land-Within w f fl _ k e refl) _
  land_result-Within f k fl wait now (inl (encoded, v)) e =
      recount
        (land-Within (cache_result-Within (purge-Within w now) k encoded now) f fl _ k there refl) _
    where
      there : get_elem? (cache_result k encoded now (purge_expired now s)).flights f ≡ some fl
      there = rw (cache_result-core k encoded now (purge_expired now s)) e

module _ {V : Type 0} {l : Limits} (codec : Codec V) {s : Scheduler V} (w : Within l s) where
  follower-Within :
      (f : ℕ) (k : String) (joined now : ℕ) (o : Option (Flight V))
      → get_elem? s.flights f ≡ o
      → Within l (wake_follower s f k joined now o).0
  unfolding wake_follower
  follower-Within f k joined now none e = w
  follower-Within f k joined now (some fl) e =
      Within-if (is_over fl.state) _ _ (λ _. leave-Within w f fl e) (λ _. w)

  interrupt_follower-Within :
      (f : ℕ) (k : String) (x : Error) (o : Option (Flight V))
      → get_elem? s.flights f ≡ o
      → Within l (interrupt_follower s f k x o).0
  unfolding interrupt_follower
  interrupt_follower-Within f k x none e = w
  interrupt_follower-Within f k x (some fl) e = leave-Within w f fl e

  promote_or_wait-Within :
      (f : ℕ) (fl : Flight V) (k : String) (joined : ℕ) (o : Option (List String))
      → get_elem? s.flights f ≡ some fl
      → next_in_line k s.running_key s.queue ≡ o
      → Within l (promote_or_wait s f fl k joined o).0
  unfolding promote_or_wait
  promote_or_wait-Within f fl k joined none e n = w
  promote_or_wait-Within f fl k joined (some rest) e n =
      recount (promote-Within w f fl k rest e (next_in_line-eq-some k _ _ rest n).1) _

  waiting-Within :
      (f : ℕ) (k : String) (joined now : ℕ) (o : Option (Flight V))
      → get_elem? s.flights f ≡ o
      → Within l (wake_waiting s f k joined now o).0
  unfolding wake_waiting
  waiting-Within f k joined now none e = w
  waiting-Within f k joined now (some fl) e =
      Within-if (leb (joined + s.limits.queue_wait) now) _ _
        (λ _. recount (retire-Within w f fl k _ e) _)
        (λ _. promote_or_wait-Within f fl k joined _ e refl)

  interrupt_waiting-Within :
      (f : ℕ) (k : String) (x : Error) (o : Option (Flight V))
      → get_elem? s.flights f ≡ o
      → Within l (interrupt_waiting s f k x o).0
  unfolding interrupt_waiting
  interrupt_waiting-Within f k x none e = w
  interrupt_waiting-Within f k x (some fl) e =
      Within-if (is_queued_state fl.state) _ _ (λ _. retire-Within w f fl k x e) (λ _. w)

  finish-Within :
      (f : ℕ) (k : String) (joined started now : ℕ) (work : Work V) (o : Option (Flight V))
      → get_elem? s.flights f ≡ o
      → Within l (finish codec s f k joined started now work o).0
  unfolding finish
  finish-Within f k joined started now work none e = w
  finish-Within f k joined started now work (some fl) e = land_result-Within w f k fl _ now _ e

  admit-Within : (k : String) (now : ℕ) → Within l (admit codec s k now).0
  unfolding admit
  admit-Within k now =
      Within-if (k == "") _ _ (λ _. w)
        (λ _. hit_or_miss-Within (submit-Within w now) k now codec _ refl)

  section-Within : (c : Caller V) (e : Event V) → Within l (section codec s c e).0
  unfolding section
  section-Within (calling k) (enter _ now) = admit-Within k now
  section-Within (follower f k t) (wake _ now) = follower-Within f k t now _ refl
  section-Within (follower f k t) (interrupt _ x) = interrupt_follower-Within f k x _ refl
  section-Within (waiting f k t) (wake _ now) = waiting-Within f k t now _ refl
  section-Within (waiting f k t) (interrupt _ x) = interrupt_waiting-Within f k x _ refl
  section-Within (working f k t) (ends _ a b work) = finish-Within f k t a b work _ refl
  section-Within c e = w

-- No events, in any order, take the scheduler out of its limits.
pub run-Within :
    {V : Type 0} (codec : Codec V) {l : Limits} (y : System V) (es : List (Event V))
    → Within l y.scheduler
    → Within l (run codec y es).scheduler
run-Within codec {l} =
    run_induction codec (λ y. Within l y.scheduler) (λ y k w. w)
      (λ y now w. unfold snapshot in purge-Within w now)
      λ y i c e h w. unfold move in section-Within codec w c e

pub start-Within : {V : Type 0} (l : Limits) → Within l (start {V = V} l).scheduler
unfolding bytes
start-Within l = record {
  same = refl;
  calls = record { depth = omega arith; waiters = omega arith; joined = λ f. omega arith };
  results = record { unique = tt; exact = refl; few = omega arith; small = omega arith };
}
