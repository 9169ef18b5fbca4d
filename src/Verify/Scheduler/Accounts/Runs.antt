-- ===== src/Verify/Scheduler/Accounts/Runs.antt =====
-- danus/verify/scheduler.py: the books are right after any events, in any order.
use danus.Base.{
  ℕ, ◌+◌, String, ◌≡◌, refl, some, List, [], ◌∷◌, ◌++◌, ◌==◌, Bool, get_elem?, count_p,
  count_p-append, arith,
}
use danus.Base.Assoc.{lookup}
use danus.Verify.Scheduler.State.{
  Scheduler, Limits, Caller, calling, follower, waiting, working, Codec,
}
use danus.Verify.Scheduler.Calls.{submit, admit, snapshot}
use danus.Verify.Scheduler.System.{
  System, Event, enter, wake, interrupt, ends, section, move, run, start, run_induction,
}
use danus.Verify.Scheduler.Accounts.{
  Accounts, waits, holds_slot, works_for, queues, queues_for, leads_key, leads, follows, queues_on,
  works_on,
}
use danus.Verify.Scheduler.Accounts.Kept.{
  Kept, Kept-if, stay, give_up, hit_or_miss-Kept, wake_follower-Kept, interrupt_follower-Kept,
  wake_waiting-Kept, interrupt_waiting-Kept, finish-Kept,
}

-- A system whose books are right.
abbrev pub IsBalanced : {V : Type 0} → System V → Type 0
IsBalanced y = Accounts y.scheduler.core y.callers

module _ {V : Type 0} (codec : Codec V) where
  admit-Kept :
      (s : Scheduler V) {cs : List (Caller V)} (v : Accounts s.core cs) (i : ℕ) (k : String)
      (now : ℕ)
      → get_elem? cs i ≡ some (calling k)
      → Kept cs i (admit codec s k now)
  unfolding admit
  admit-Kept s v i k now h =
      Kept-if (k == "") (λ _. record { books = give_up s v i k _ h })
        (λ _. hit_or_miss-Kept (submit s now) v i k now h codec (lookup k (submit s now).cache))

  section-Kept :
      (s : Scheduler V) {cs : List (Caller V)} (v : Accounts s.core cs) (i : ℕ) (c : Caller V)
      (e : Event V)
      → get_elem? cs i ≡ some c
      → Kept cs i (section codec s c e)
  unfolding section
  section-Kept s v i (calling k) (enter _ now) h = admit-Kept s v i k now h
  section-Kept s v i (follower f k t) (wake _ now) h = wake_follower-Kept s v i f k t h now _ refl
  section-Kept s v i (follower f k t) (interrupt _ x) h =
      interrupt_follower-Kept s v i f k t h x _ refl
  section-Kept s v i (waiting f k t) (wake _ now) h = wake_waiting-Kept s v i f k t h now _ refl
  section-Kept s v i (waiting f k t) (interrupt _ x) h =
      interrupt_waiting-Kept s v i f k t h x _ refl
  section-Kept s v i (working f k t) (ends _ a b w) h = finish-Kept s v i f k t h codec a b w _ refl
  section-Kept s v i c e h = stay s v i c h

  call-IsBalanced :
      (y : System V) (k : String)
      → IsBalanced y
      → IsBalanced (record y { callers = y.callers ++ calling k ∷ [] })
  call-IsBalanced y k v = record {
    waiters = omega (arith, added waits, v.waiters);
    slot = omega (arith, added holds_slot, v.slot);
    slot_key = λ j. omega (arith, added (works_for j), v.slot_key j);
    depth = omega (arith, added queues, v.depth);
    places = λ j. omega (arith, added (queues_for j), v.places j);
    keys = λ j. omega (arith, added (leads_key j), v.keys j);
    owners = λ j g. omega (arith, added (leads j g), v.owners j g);
    joined = λ g. omega (arith, added (follows g), v.joined g);
    queued_flights = λ g. omega (arith, added (queues_on g), v.queued_flights g);
    running_flights = λ g. omega (arith, added (works_on g), v.running_flights g);
  }
    where
      added :
          (p : Caller V → Bool)
          → count_p p (y.callers ++ calling k ∷ [])
            ≡ count_p p y.callers + count_p p (calling k ∷ [])
      added p = count_p-append p y.callers (calling k ∷ [])

  -- Whatever the callers do and in whatever order, the scheduler's books stay right.
  pub run-IsBalanced :
      (y : System V) (es : List (Event V)) → IsBalanced y → IsBalanced (run codec y es)
  run-IsBalanced =
      run_induction codec IsBalanced call-IsBalanced (λ y now v. unfold snapshot in v)
        λ y i c e h v. unfold move in (section-Kept y.scheduler v i c e h).books

pub start-IsBalanced : {V : Type 0} (l : Limits) → IsBalanced (start {V = V} l)
unfolding lookup
start-IsBalanced l = record {
  waiters = refl;
  slot = refl;
  slot_key = λ j. refl;
  depth = refl;
  places = λ j. refl;
  keys = λ j. refl;
  owners = λ j g. refl;
  joined = λ g. refl;
  queued_flights = λ g. refl;
  running_flights = λ g. refl;
}
