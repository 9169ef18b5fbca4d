-- ===== src/Verify/Scheduler/Reuse/Sections.antt =====
-- danus/verify/scheduler.py: what each section of `execute` leaves in the cache, and tells its
-- caller of it.
use danus.Base.{
  ℕ, ◌-◌, String, Bool, true, false, ◌==◌, ◌≡◌, ◌≢◌, refl, Bool-cases, Option, none, some, List,
  ◌⊎◌, inl, inr, get_elem?, All, All-append, if◌then◌else◌, arith,
}
use danus.Base.Assoc.{lookup, erase}
use danus.Verify.Scheduler.State.{
  Flight, Scheduler, CacheEntry, Error, Receipt, launched, cache_hit, corrupt_entry, Caller,
  calling, follower, waiting, working, over, returned, raised, Codec, Work, value, error,
}
use danus.Verify.Scheduler.Cache.{purge_expired}
use danus.Verify.Scheduler.Calls.{
  Outcome, decoded, hit, hit_or_miss, submit, admit, reread, encode, publication, land_failed,
  land_completed, land_result, finish,
}
use danus.Verify.Scheduler.System.{Event, enter, wake, interrupt, ends, section}
use danus.Verify.Scheduler.Reuse.Harmless.{
  is_harmless, Spares, join_or_lead-Spares, wake_follower-Spares, interrupt_follower-Spares,
  wake_waiting-Spares, interrupt_waiting-Spares,
}
use danus.Verify.Scheduler.Reuse.Entries.{
  All-live_at, All-erase, All-lookup, All-purge, All-cache_result,
}

module _ {V : Type 0} (codec : Codec V) where
  -- Some caller paid for this value of this key: it led the flight and was given the value.
  abbrev pub IsPaid : List (Caller V) → String → V → Type 0
  IsPaid cs k v =
      (j : ℕ) × (w : ℕ) × (get_elem? cs j
        ≡ some (over (returned (record { value = v; source = launched; key = k; wait_ms = w }))))

  -- An entry's bytes stand for an object that some caller paid for.
  abbrev pub IsPublished : List (Caller V) → String × CacheEntry → Type 0
  IsPublished cs (k, e) =
      (v : V) × (codec.loads e.encoded ≡ some v) × (codec.is_object v ≡ true) × IsPaid cs k v

  -- What a caller was given from the cache was paid for, and no entry is found corrupt.
  abbrev pub IsSound : List (Caller V) → Caller V → Type 0
  IsSound cs c =
      ((r : Receipt V) → c ≡ over (returned r) → r.source ≡ cache_hit → IsPaid cs r.key r.value)
      × ((k : String) → c ≢ over (raised k corrupt_entry))

  pub IsSound-harmless : (cs : List (Caller V)) (c : Caller V) → is_harmless c ≡ true → IsSound cs c
  IsSound-harmless cs c h = (λ r e hit. cc (h, e, hit), λ k e. cc (h, e))

  -- What a section leaves: entries that were published, and a caller that was told no more.
  pub record Traces (cs : List (Caller V)) (r : Outcome V) : Type 0 where
    pub entries : All (IsPublished cs) r.0.cache
    pub sound : IsSound cs r.1

  Traces-Spares :
      (cs : List (Caller V)) (s : Scheduler V) (r : Outcome V)
      → All (IsPublished cs) s.cache
      → Spares s r
      → Traces cs r
  Traces-Spares cs s r h spares = record {
    entries = rw spares.same h;
    sound = IsSound-harmless cs r.1 spares.harmless;
  }

  Traces-if :
      (cs : List (Caller V)) (t : Bool) (x y : Outcome V)
      → (t ≡ true → Traces cs x)
      → (t ≡ false → Traces cs y)
      → Traces cs (if t then x else y)
  Traces-if cs true x y hx hy = hx refl
  Traces-if cs false x y hx hy = hy refl

  -- What is published is an object, and is what its bytes stand for.
  reread-inl :
      (encoded bytes : List ℕ) (o : Option V) (v : V)
      → codec.loads encoded ≡ o
      → reread codec encoded o ≡ inl (bytes, v)
      → (codec.loads bytes ≡ some v) × (codec.is_object v ≡ true)
  unfolding reread
  reread-inl encoded bytes none v e h = cc (h)
  reread-inl encoded bytes (some u) v e h = (ground (arith, e, h), ground (arith, e, h))

  publication-inl :
      (work : Work V) (bytes : List ℕ) (v : V)
      → publication codec work ≡ inl (bytes, v)
      → (codec.loads bytes ≡ some v) × (codec.is_object v ≡ true)
  unfolding publication encode
  publication-inl (error e) bytes v h = cc (h)
  publication-inl (value u) bytes v h = elim (Bool-cases (codec.is_object u)) [
    | inr not_one ↦ absurd (ground (arith, not_one, h))
    | inl one ↦ encoded_bytes (codec.dumps u) (ground (arith, one, h))
  ]
    where
      encoded_bytes :
          (o : Option (List ℕ))
          → encode codec o ≡ inl (bytes, v)
          → (codec.loads bytes ≡ some v) × (codec.is_object v ≡ true)
      encoded_bytes none h = cc (h)
      encoded_bytes (some b) h = reread-inl b bytes _ v refl h

  module _ (cs : List (Caller V)) (i : ℕ) (s : Scheduler V) (h : All (IsPublished cs) s.cache) where
    hit-Traces :
        (k : String) (entry : CacheEntry)
        → lookup k s.cache ≡ some entry
        → Traces cs (hit codec s k entry)
    unfolding hit decoded
    hit-Traces k entry there =
        let (v, loads, object, (j, w, paid)) =
          All-lookup (IsPublished cs) k s.cache entry h there in
        record {
          entries =
              All-append (IsPublished cs) (erase k s.cache) _
                (All-erase (IsPublished cs) k s.cache h) ((v, loads, object, (j, w, paid)), tt);
          sound = (
            λ r e _. (j, w, ground (arith, paid, e, loads, object)),
            λ k e. ground (arith, e, loads, object),
          );
        }

    hit_or_miss-Traces :
        (k : String) (now : ℕ) (o : Option CacheEntry)
        → lookup k s.cache ≡ o
        → Traces cs (hit_or_miss codec s k now o)
    unfolding hit_or_miss
    hit_or_miss-Traces k now (some entry) e = hit-Traces k entry e
    hit_or_miss-Traces k now none e =
        Traces-Spares cs s _ h (join_or_lead-Spares s k now (lookup k s.active))

    land_result-Traces :
        (f : ℕ) (fl : Flight V) (k : String) (wait now : ℕ) (p : (List ℕ × V) ⊎ Error)
        → ((bytes : List ℕ) (v : V)
            → p ≡ inl (bytes, v)
            → (codec.loads bytes ≡ some v) × (codec.is_object v ≡ true))
        → get_elem? cs i ≡ some (land_result s f fl k wait now p).1
        → Traces cs (land_result s f fl k wait now p)
    unfolding land_result land_failed land_completed
    land_result-Traces f fl k wait now (inr e) object there = record {
      entries = h;
      sound = IsSound-harmless cs _ refl;
    }
    land_result-Traces f fl k wait now (inl (bytes, v)) object there = record {
      entries =
          All-cache_result (IsPublished cs) k bytes now (purge_expired now s)
            (λ until. (v, (object bytes v refl).0, (object bytes v refl).1, (i, wait, there)))
            (All-purge (IsPublished cs) now s h);
      sound = IsSound-harmless cs _ refl;
    }

    finish-Traces :
        (f : ℕ) (k : String) (joined started now : ℕ) (work : Work V) (o : Option (Flight V))
        → get_elem? cs i ≡ some (finish codec s f k joined started now work o).1
        → Traces cs (finish codec s f k joined started now work o)
    unfolding finish
    finish-Traces f k joined started now work none there = record {
      entries = h;
      sound = IsSound-harmless cs _ refl;
    }
    finish-Traces f k joined started now work (some fl) there =
        land_result-Traces f fl k (started - joined) now (publication codec work)
          (publication-inl work) there

  admit-Traces :
      (cs : List (Caller V)) (i : ℕ) (s : Scheduler V) (k : String) (now : ℕ)
      → All (IsPublished cs) s.cache
      → Traces cs (admit codec s k now)
  unfolding admit submit
  admit-Traces cs i s k now h =
      Traces-if cs (k == "") _ _ (λ _. record { entries = h; sound = IsSound-harmless cs _ refl })
        (λ _.
          hit_or_miss-Traces cs i (submit s now) (All-live_at (IsPublished cs) now s.cache h) k now
            _ refl)

  pub section-Traces :
      (cs : List (Caller V)) (i : ℕ) (s : Scheduler V) (c : Caller V) (e : Event V)
      → All (IsPublished cs) s.cache
      → IsSound cs c
      → get_elem? cs i ≡ some (section codec s c e).1
      → Traces cs (section codec s c e)
  unfolding section
  section-Traces cs i s (calling k) (enter _ now) h v there = admit-Traces cs i s k now h
  section-Traces cs i s (follower f k t) (wake _ now) h v there =
      Traces-Spares cs s _ h (wake_follower-Spares s f k t now (get_elem? s.flights f))
  section-Traces cs i s (follower f k t) (interrupt _ x) h v there =
      Traces-Spares cs s _ h (interrupt_follower-Spares s f k x (get_elem? s.flights f))
  section-Traces cs i s (waiting f k t) (wake _ now) h v there =
      Traces-Spares cs s _ h (wake_waiting-Spares s f k t now (get_elem? s.flights f))
  section-Traces cs i s (waiting f k t) (interrupt _ x) h v there =
      Traces-Spares cs s _ h (interrupt_waiting-Spares s f k x (get_elem? s.flights f))
  section-Traces cs i s (working f k t) (ends _ a b work) h v there =
      finish-Traces cs i s h f k t a b work (get_elem? s.flights f) there
  section-Traces cs i s c e h v there = record { entries = h; sound = v }
