-- ===== src/Verify/Scheduler/Reuse/Harmless.antt =====
-- danus/verify/scheduler.py: the sections of `execute` that leave the cache alone.
use danus.Base.{
  ℕ, ◌+◌, String, Bool, true, false, ◌≡◌, refl, Option, none, some, List, length, leb,
  if◌then◌else◌,
}
use danus.Verify.Scheduler.State.{
  Flight, FlightState, queued, running, completed, failed, Scheduler, Error, cache_hit,
  corrupt_entry, Caller, over, returned, raised,
}
use danus.Verify.Scheduler.Moves.{is_over, is_queued_state}
use danus.Verify.Scheduler.Calls.{
  Outcome, is_free, reject, refuse, join, lead, join_or_lead, conclude, wake_follower,
  interrupt_follower, promote_or_wait, wake_waiting, interrupt_waiting,
}

module _ {V : Type 0} where
  -- Neither something from the cache, nor a corrupt entry.
  abbrev pub is_harmless : Caller V → Bool
  is_harmless (over (returned r)) = elim r.source [ cache_hit ↦ false | _ ↦ true ]
  is_harmless (over (raised k corrupt_entry)) = false
  is_harmless c = true

  -- A section that leaves the cache alone, and gives nothing from it.
  pub record Spares (s : Scheduler V) (r : Outcome V) : Type 0 where
    pub same : r.0.cache ≡ s.cache
    pub harmless : is_harmless r.1 ≡ true

  Spares-if :
      {s : Scheduler V} (t : Bool) (x y : Outcome V)
      → (t ≡ true → Spares s x)
      → (t ≡ false → Spares s y)
      → Spares s (if t then x else y)
  Spares-if true x y hx hy = hx refl
  Spares-if false x y hx hy = hy refl

  module _ (s : Scheduler V) where
    join-Spares : (k : String) (now f : ℕ) (o : Option (Flight V)) → Spares s (join s k now f o)
    unfolding join refuse reject
    join-Spares k now f none = record { same = refl; harmless = refl }
    join-Spares k now f (some fl) =
        Spares-if (leb s.limits.max_waiters_per_key fl.joined_waiters) _ _
          (λ _. record { same = refl; harmless = refl })
          (λ _.
            Spares-if (leb s.limits.max_total_waiters s.total_waiters) _ _
              (λ _. record { same = refl; harmless = refl })
              (λ _. record { same = refl; harmless = refl }))

    lead-Spares : (k : String) (now : ℕ) → Spares s (lead s k now)
    unfolding lead refuse reject
    lead-Spares k now =
        Spares-if (is_free s.running_key s.queue) _ _ (λ _. record { same = refl; harmless = refl })
          (λ _.
            Spares-if (leb s.limits.max_distinct_queue (length s.queue)) _ _
              (λ _. record { same = refl; harmless = refl })
              (λ _.
                Spares-if (leb s.limits.max_total_waiters s.total_waiters) _ _
                  (λ _. record { same = refl; harmless = refl })
                  (λ _. record { same = refl; harmless = refl })))

    pub join_or_lead-Spares :
        (k : String) (now : ℕ) (o : Option ℕ) → Spares s (join_or_lead s k now o)
    unfolding join_or_lead
    join_or_lead-Spares k now none = lead-Spares k now
    join_or_lead-Spares k now (some f) = join-Spares k now f _

    conclude-harmless :
        (x : FlightState) (o : Option V) (e : Option Error) (k : String) (wait : ℕ)
        → is_harmless (over (conclude x o e k wait)) ≡ true
    unfolding conclude
    conclude-harmless failed o (some e) k wait = refl
    conclude-harmless failed o none k wait = refl
    conclude-harmless completed (some v) e k wait = refl
    conclude-harmless completed none e k wait = refl
    conclude-harmless queued o e k wait = refl
    conclude-harmless running o e k wait = refl

    pub wake_follower-Spares :
        (f : ℕ) (k : String) (joined now : ℕ) (o : Option (Flight V))
        → Spares s (wake_follower s f k joined now o)
    unfolding wake_follower
    wake_follower-Spares f k joined now none = record { same = refl; harmless = refl }
    wake_follower-Spares f k joined now (some fl) =
        Spares-if (is_over fl.state) _ _
          (λ _. record {
            same = refl;
            harmless = conclude-harmless fl.state fl.result fl.error k _;
          })
          (λ _. record { same = refl; harmless = refl })

    pub interrupt_follower-Spares :
        (f : ℕ) (k : String) (e : Error) (o : Option (Flight V))
        → Spares s (interrupt_follower s f k e o)
    unfolding interrupt_follower
    interrupt_follower-Spares f k e none = record { same = refl; harmless = refl }
    interrupt_follower-Spares f k e (some fl) = record { same = refl; harmless = refl }

    promote_or_wait-Spares :
        (f : ℕ) (fl : Flight V) (k : String) (joined : ℕ) (o : Option (List String))
        → Spares s (promote_or_wait s f fl k joined o)
    unfolding promote_or_wait
    promote_or_wait-Spares f fl k joined none = record { same = refl; harmless = refl }
    promote_or_wait-Spares f fl k joined (some rest) = record { same = refl; harmless = refl }

    pub wake_waiting-Spares :
        (f : ℕ) (k : String) (joined now : ℕ) (o : Option (Flight V))
        → Spares s (wake_waiting s f k joined now o)
    unfolding wake_waiting refuse reject
    wake_waiting-Spares f k joined now none = record { same = refl; harmless = refl }
    wake_waiting-Spares f k joined now (some fl) =
        Spares-if (leb (joined + s.limits.queue_wait) now) _ _
          (λ _. record { same = refl; harmless = refl })
          (λ _. promote_or_wait-Spares f fl k joined _)

    pub interrupt_waiting-Spares :
        (f : ℕ) (k : String) (e : Error) (o : Option (Flight V))
        → Spares s (interrupt_waiting s f k e o)
    unfolding interrupt_waiting
    interrupt_waiting-Spares f k e none = record { same = refl; harmless = refl }
    interrupt_waiting-Spares f k e (some fl) =
        Spares-if (is_queued_state fl.state) _ _ (λ _. record { same = refl; harmless = refl })
          (λ _. record { same = refl; harmless = refl })
