-- ===== src/Verify/Scheduler/System.antt =====
-- danus/verify/scheduler.py: the scheduler with its callers, run by any sequence of events. A
-- thread pool chooses the order: each event is one critical section of one caller. An event that
-- does not fit its caller's place in `execute` does nothing.
use danus.Base.{ℕ, String, ◌≡◌, refl, Option, none, some, List, [], ◌∷◌, ◌++◌, get_elem?, set}
use danus.Verify.Scheduler.State.{
  Error, Scheduler, Limits, Caller, calling, follower, waiting, working, Codec, Work, new,
}
use danus.Verify.Scheduler.Calls.{
  Outcome, admit, wake_follower, interrupt_follower, wake_waiting, interrupt_waiting, finish,
  snapshot,
}

pub record System (V : Type 0) : Type 0 where
  pub scheduler : Scheduler V
  pub callers : List (Caller V)

pub data Event (V : Type 0) : Type 0 where
  -- a thread calls `execute(key, …)`
  call : String → Event V
  -- caller `i` takes the lock for the first time
  enter : ℕ → ℕ → Event V
  -- caller `i` wakes from its wait, notified, timed out or spuriously
  wake : ℕ → ℕ → Event V
  -- the wait of caller `i` raises
  interrupt : ℕ → Error → Event V
  -- an observer takes a snapshot
  observe : ℕ → Event V
  -- the work of caller `i` ends
  ends : ℕ → ℕ → ℕ → Work V → Event V

abbrev pub start : {V : Type 0} → Limits → System V
start l = record { scheduler = new l; callers = [] }

module _ {V : Type 0} (codec : Codec V) where
  -- The critical section that an event is for a caller.
  unfoldable pub section : Scheduler V → Caller V → Event V → Outcome V
  section s (calling key) (enter i now) = admit codec s key now
  section s (follower f key joined) (wake i now) =
      wake_follower s f key joined now (get_elem? s.flights f)
  section s (follower f key joined) (interrupt i e) =
      interrupt_follower s f key e (get_elem? s.flights f)
  section s (waiting f key joined) (wake i now) =
      wake_waiting s f key joined now (get_elem? s.flights f)
  section s (waiting f key joined) (interrupt i e) =
      interrupt_waiting s f key e (get_elem? s.flights f)
  section s (working f key joined) (ends i started now work) =
      finish codec s f key joined started now work (get_elem? s.flights f)
  section s c e = (s, c)

  unfoldable pub move : System V → ℕ → Option (Caller V) → Event V → System V
  move y i none e = y
  move y i (some c) e =
      let r = section y.scheduler c e in record { scheduler = r.0; callers = set y.callers i r.1 }

  unfoldable pub step : System V → Event V → System V
  unfolding move
  step y (call key) = record y { callers = y.callers ++ calling key ∷ [] }
  step y (enter i now) = move y i (get_elem? y.callers i) (enter i now)
  step y (wake i now) = move y i (get_elem? y.callers i) (wake i now)
  step y (interrupt i e) = move y i (get_elem? y.callers i) (interrupt i e)
  step y (ends i started now work) = move y i (get_elem? y.callers i) (ends i started now work)
  step y (observe now) = record y { scheduler = (snapshot now y.scheduler).0 }

  unfoldable pub run : System V → List (Event V) → System V
  run y [] = y
  run y (e ∷ es) = run (step y e) es

  pub step_induction {κ} :
      (P : System V → Type κ)
      → ((y : System V) (key : String)
          → P y
          → P (record y { callers = y.callers ++ calling key ∷ [] }))
      → ((y : System V) (now : ℕ) → P y → P (record y { scheduler = (snapshot now y.scheduler).0 }))
      → ((y : System V) (i : ℕ) (c : Caller V) (e : Event V)
          → get_elem? y.callers i ≡ some c
          → P y
          → P (move y i (some c) e))
      → (y : System V) (e : Event V) → P y
      → P (step y e)
  unfolding step
  step_induction P called seen moved y e h = one e
    where
      at :
          (i : ℕ) (e : Event V) (o : Option (Caller V))
          → get_elem? y.callers i ≡ o
          → P (move y i o e)
      at i e none q = h
      at i e (some c) q = moved y i c e q h

      one : (e : Event V) → P (step y e)
      one (call key) = called y key h
      one (observe now) = seen y now h
      one (enter i now) = at i (enter i now) _ refl
      one (wake i now) = at i (wake i now) _ refl
      one (interrupt i e) = at i (interrupt i e) _ refl
      one (ends i a b w) = at i (ends i a b w) _ refl

  -- An invariant that a new caller and every section keep holds after any events.
  pub run_induction {κ} :
      (P : System V → Type κ)
      → ((y : System V) (key : String)
          → P y
          → P (record y { callers = y.callers ++ calling key ∷ [] }))
      → ((y : System V) (now : ℕ) → P y → P (record y { scheduler = (snapshot now y.scheduler).0 }))
      → ((y : System V) (i : ℕ) (c : Caller V) (e : Event V)
          → get_elem? y.callers i ≡ some c
          → P y
          → P (move y i (some c) e))
      → (y : System V) (es : List (Event V)) → P y
      → P (run y es)
  unfolding run
  run_induction P called seen moved y [] h = h
  run_induction P called seen moved y (e ∷ es) h =
      run_induction P called seen moved (step y e) es (step_induction P called seen moved y e h)
