-- ===== src/Verify/Scheduler/Reuse.antt =====
-- danus/verify/scheduler.py: where the cached results come from.
mod Harmless
mod Entries
pub mod Sections
use danus.Base.{
  ℕ, ◌+◌, ◌-◌, String, Bool, true, false, ◌||◌, ◌==◌, ◌=?◌, ◌≡◌, ◌≢◌, refl, subst, Bool-cases,
  Option, none, some, List, [], ◌∷◌, ◌++◌, ◌⊎◌, inl, inr, length, get_elem?, set,
  get_elem?-set_self, get_elem?-set, get_elem?-append_left, get_elem?-append, All, All-append, leb,
  ltb, if◌then◌else◌, eq_iff, arith,
}
use danus.Base.Assoc.{lookup, erase}
use danus.Verify.Scheduler.State.{
  Limits, Flight, FlightState, queued, running, completed, failed, Scheduler, CacheEntry, Error,
  Ended, Receipt, launched, cache_hit, corrupt_entry, Caller, calling, follower, waiting, working,
  over, returned, raised, Codec, Work, value, error,
}
use danus.Verify.Scheduler.Cache.{
  live_at, purge_expired, evict, old_size, replaced, cache_result, size,
}
use danus.Verify.Scheduler.Moves.{is_over, is_queued_state}
use danus.Verify.Scheduler.Calls.{
  Outcome, is_free, next_in_line, reject, refuse, join, lead, join_or_lead, decoded, hit,
  hit_or_miss, submit, admit, conclude, wake_follower, interrupt_follower, promote_or_wait,
  wake_waiting, interrupt_waiting, reread, encode, publication, land_failed, land_completed,
  land_result, finish, snapshot,
}
use danus.Verify.Scheduler.System.{
  System, Event, enter, wake, interrupt, ends, section, move, run_induction, start,
}
use danus.Verify.Scheduler.Safety.{after}
use danus.Verify.Scheduler.Reuse.Entries.{All-purge}
use danus.Verify.Scheduler.Reuse.Sections.{
  IsPaid, IsPublished, IsSound, IsSound-harmless, Traces, section-Traces,
}

module _ {V : Type 0} (codec : Codec V) where
  -- A call that is over stays so.
  section-over :
      (s : Scheduler V) (c : Caller V) (e : Event V) (x : Caller V)
      → (section codec s c e).1 ≡ x
      → (o : Ended V) → c ≡ over o
      → x ≡ over o
  unfolding section
  section-over s (over p) e x same o h = cc (same, h)
  section-over s (calling k) e x same o h = cc (h)
  section-over s (follower f k t) e x same o h = cc (h)
  section-over s (waiting f k t) e x same o h = cc (h)
  section-over s (working f k t) e x same o h = cc (h)

  -- Every call that is over in one list is so in the other.
  abbrev Keeps : List (Caller V) → List (Caller V) → Type 0
  Keeps cs ds =
      (j : ℕ) (o : Ended V) → get_elem? cs j ≡ some (over o) → get_elem? ds j ≡ some (over o)

  module _ (cs ds : List (Caller V)) (keeps : Keeps cs ds) where
    IsPublished-Keeps :
        (m : List (String × CacheEntry))
        → All (IsPublished codec cs) m
        → All (IsPublished codec ds) m
    IsPublished-Keeps [] h = tt
    IsPublished-Keeps (p ∷ m) ((v, loads, object, (j, w, paid)), h) =
        ((v, loads, object, (j, w, keeps j _ paid)), IsPublished-Keeps m h)

    IsSound-Keeps : (c : Caller V) → IsSound codec cs c → IsSound codec ds c
    IsSound-Keeps c (given, intact) =
        (λ r e hit. let (j, w, paid) = given r e hit in (j, w, keeps j _ paid), intact)

  -- After any events: the entries were published, and the callers were told no more.
  record IsTraced (y : System V) : Type 0 where
    entries : All (IsPublished codec y.callers) y.scheduler.cache
    sound : (i : ℕ) (c : Caller V) → get_elem? y.callers i ≡ some c → IsSound codec y.callers c

  IsTraced-call :
      (y : System V) (key : String)
      → IsTraced y
      → IsTraced (record y { callers = y.callers ++ calling key ∷ [] })
  IsTraced-call y key h = record {
    entries = IsPublished-Keeps y.callers _ keeps y.scheduler.cache h.entries;
    sound = λ i c e. elim (Bool-cases (length y.callers =? i)) [
      | inl last ↦
          IsSound-harmless codec _ c
            (ground (arith, e, last, get_elem?-append y.callers (calling key) i))
      | inr early ↦
          IsSound-Keeps y.callers _ keeps c
            (h.sound i c (ground (arith, e, early, get_elem?-append y.callers (calling key) i)))
    ];
  }
    where
      keeps : Keeps y.callers (y.callers ++ calling key ∷ [])
      keeps j o e = get_elem?-append_left y.callers _ j _ e

  IsTraced-move :
      (y : System V) (i : ℕ) (c : Caller V) (e : Event V)
      → get_elem? y.callers i ≡ some c
      → IsTraced y
      → IsTraced (move codec y i (some c) e)
  unfolding move
  IsTraced-move y i c e here h = record {
    entries = traces.entries;
    sound = λ j x at. elim (Bool-cases (i =? j)) [
      | inl same ↦ subst (IsSound codec ds) (ground (arith, at, same, read j)) traces.sound
      | inr other ↦
          IsSound-Keeps y.callers ds keeps x (h.sound j x (ground (arith, at, other, read j)))
    ];
  }
    where
      r : Outcome V
      r = section codec y.scheduler c e

      ds : List (Caller V)
      ds = set y.callers i r.1

      read : (j : ℕ) → get_elem? ds j ≡ (if i =? j then some r.1 else get_elem? y.callers j)
      read j = get_elem?-set y.callers i c r.1 j here

      keeps : Keeps y.callers ds
      keeps j o at = elim (Bool-cases (i =? j)) [
        | inl same ↦ ground (
          arith,
          same,
          read j,
          section-over y.scheduler c e r.1 refl o (ground (arith, same, at, here)),
        )
        | inr other ↦ ground (arith, at, other, read j)
      ]

      traces : Traces codec ds r
      traces =
          section-Traces codec ds i y.scheduler c e
            (IsPublished-Keeps y.callers ds keeps y.scheduler.cache h.entries)
            (IsSound-Keeps y.callers ds keeps c (h.sound i c here))
            (get_elem?-set_self y.callers i c r.1 here)

  traced : (l : Limits) (es : List (Event V)) → IsTraced (after codec l es)
  traced l es =
      run_induction codec IsTraced IsTraced-call
        (λ y now h.
          unfold snapshot in
          record {
            entries = All-purge (IsPublished codec y.callers) now y.scheduler h.entries;
            sound = h.sound;
          })
        IsTraced-move (start l) es (record { entries = tt; sound = λ i c e. cc (e) })

  -- After any events from a fresh scheduler, whoever was answered from the cache was given a value
  -- that a caller of the same key had paid for: that caller led a flight of the key and was given
  -- this very value. And no caller was told that its cache entry is corrupt.
  pub hits_come_from_leaders :
      (l : Limits) (es : List (Event V))
      → let cs = (after codec l es).callers in
        ((i : ℕ) (r : Receipt V)
          → get_elem? cs i ≡ some (over (returned r))
          → r.source ≡ cache_hit
          → IsPaid codec cs r.key r.value)
        × ((i : ℕ) (k : String) → get_elem? cs i ≢ some (over (raised k corrupt_entry)))
  hits_come_from_leaders l es =
      let h = traced l es in
      (λ i r e hit. (h.sound i _ e).0 r refl hit, λ i k e. (h.sound i _ e).1 k refl)
