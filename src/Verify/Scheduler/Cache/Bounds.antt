-- ===== src/Verify/Scheduler/Cache/Bounds.antt =====
-- danus/verify/scheduler.py: the cache stays within its limits, and its byte count is exact.
use danus.Base.{
  ℕ, ◌+◌, ◌-◌, ◌≤◌, String, ◌≡◌, refl, subst, Bool-cases, inl, inr, none, some, List, [], ◌∷◌, ◌++◌,
  ◌||◌, ltb, eq_iff, length, length-append, arith,
}
use danus.Base.Assoc.{lookup, erase, Unique, erase_absent, length-erase-lt, replaced-Unique}
use danus.Verify.Scheduler.State.{Limits, CacheEntry, Scheduler}
use danus.Verify.Scheduler.Cache.{
  size, bytes, live_at, expired_bytes, purge_expired, evict, old_size, replaced, cache_result,
}

bytes-live_at :
    (now : ℕ) (m : List (String × CacheEntry))
    → bytes (live_at now m) + expired_bytes now m ≡ bytes m
unfolding bytes live_at expired_bytes
bytes-live_at now [] = refl
bytes-live_at now ((k, e) ∷ m) = ground (arith, bytes-live_at now m)

length-live_at-le : (now : ℕ) (m : List (String × CacheEntry)) → length (live_at now m) ≤ length m
unfolding live_at
length-live_at-le now [] = omega arith
length-live_at-le now ((k, e) ∷ m) = ground (arith, length-live_at-le now m)

pub lookup-live_at-none :
    (k : String) (now : ℕ) (m : List (String × CacheEntry))
    → lookup k m ≡ none
    → lookup k (live_at now m) ≡ none
unfolding lookup live_at
lookup-live_at-none k now [] h = refl
lookup-live_at-none k now ((j, e) ∷ m) h = ground (arith, lookup-live_at-none k now m)

live_at-Unique : (now : ℕ) (m : List (String × CacheEntry)) → Unique m → Unique (live_at now m)
unfolding live_at
live_at-Unique now [] u = u
live_at-Unique now ((k, e) ∷ m) u =
    ground (arith, u, live_at-Unique now m u.1, lookup-live_at-none k now m)

bytes-append : (m n : List (String × CacheEntry)) → bytes (m ++ n) ≡ bytes m + bytes n
unfolding bytes
bytes-append [] n = omega arith
bytes-append ((k, e) ∷ m) n = omega (arith, bytes-append m n)

-- In a dict, taking a key out takes its entry's bytes.
bytes-erase :
    (k : String) (m : List (String × CacheEntry))
    → Unique m
    → bytes (erase k m) + old_size (lookup k m) ≡ bytes m
unfolding bytes erase lookup old_size
bytes-erase k [] u = refl
bytes-erase k ((j, e) ∷ m) u = ground (arith, u, bytes-erase k m u.1, erase_absent k m, eq_iff j k)

-- The entries, the exact byte count, and the limits.
pub record Fits (l : Limits) (total : ℕ) (m : List (String × CacheEntry)) : Type 0 where
  pub unique : Unique m
  pub exact : total ≡ bytes m
  pub few : length m ≤ l.cache_max_entries
  pub small : total ≤ l.cache_max_bytes

Fits-limits :
    {k l : Limits} {total : ℕ} {m : List (String × CacheEntry)}
    → k ≡ l
    → Fits k total m
    → Fits l total m
Fits-limits {total = total} {m = m} same f = subst (λ j. Fits j total m) same f

-- What the eviction loop leaves of a dict is a dict within both limits, with its exact bytes.
pub evict-Fits :
    (l : Limits) (total n : ℕ) (m : List (String × CacheEntry))
    → Unique m
    → total ≡ bytes m
    → Fits l (evict l total n m).total (evict l total n m).entries
unfolding evict bytes
evict-Fits l total n [] u e = record {
  unique = tt;
  exact = e;
  few = omega arith;
  small = omega arith;
}
evict-Fits l total n ((k, x) ∷ m) u e =
    elim (Bool-cases (ltb l.cache_max_entries (length m + 1) || ltb l.cache_max_bytes total)) [
      | inl over ↦ rw (over, evict) (evict-Fits l (total - size x) (n + 1) m u.1 (omega arith))
      | inr fits ↦
          rw (fits, evict)
            (record {
              unique = u;
              exact = e;
              few = ground (arith, fits);
              small = ground (arith, fits);
            })
    ]

module _ {V : Type 0} (s : Scheduler V) {l : Limits} (same : s.limits ≡ l)
    (f : Fits l s.cache_bytes s.cache) where
  pub purge-Fits : (now : ℕ) → Fits l (purge_expired now s).cache_bytes (purge_expired now s).cache
  unfolding purge_expired
  purge-Fits now = record {
    unique = live_at-Unique now s.cache f.unique;
    exact = omega (arith, bytes-live_at now s.cache, f.exact);
    few = omega (arith, length-live_at-le now s.cache, f.few);
    small = omega (arith, f.small);
  }

  -- A hit moves its entry to the last place.
  pub touch-Fits :
      (k : String) (e : CacheEntry)
      → lookup k s.cache ≡ some e
      → Fits l s.cache_bytes (erase k s.cache ++ (k, e) ∷ [])
  unfolding old_size bytes
  touch-Fits k e h = record {
    unique = replaced-Unique k e s.cache f.unique;
    exact = ground (
      arith,
      bytes-append (erase k s.cache) ((k, e) ∷ []),
      bytes-erase k s.cache f.unique,
      h,
      f.exact,
    );
    few = omega (
      arith,
      length-append (erase k s.cache) ((k, e) ∷ []),
      length-erase-lt k s.cache e h,
      f.few,
    );
    small = f.small;
  }

  stored :
      (k : String) (e : CacheEntry)
      → let d =
          evict s.limits
            (s.cache_bytes - old_size (lookup k s.cache) + size e)
            0
            (replaced k e s.cache) in
        Fits l d.total d.entries
  unfolding replaced bytes
  stored k e = Fits-limits same (
      evict-Fits s.limits (s.cache_bytes - old_size (lookup k s.cache) + size e) 0
        (replaced k e s.cache) (replaced-Unique k e s.cache f.unique)
        (omega (
          arith,
          bytes-append (erase k s.cache) ((k, e) ∷ []),
          bytes-erase k s.cache f.unique,
          f.exact,
        )))

  pub cache_result-Fits :
      (k : String) (encoded : List ℕ) (now : ℕ)
      → let t = cache_result k encoded now s in Fits l t.cache_bytes t.cache
  unfolding cache_result
  cache_result-Fits k encoded now =
      elim (Bool-cases (ltb s.limits.cache_max_bytes (length encoded))) [
        | inl large ↦ rw (large, cache_result) f
        | inr fits ↦
            rw (fits, cache_result)
              (stored k (record { encoded = encoded; expires_at = now + s.limits.cache_ttl }))
      ]
