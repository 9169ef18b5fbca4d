-- ===== src/Verify/Scheduler/Reuse/Entries.antt =====
-- danus/verify/scheduler.py: a property of every cached entry, through each change of the cache.
use danus.Base.{
  ℕ, ◌+◌, ◌-◌, String, ◌||◌, ◌==◌, ◌≡◌, subst, Bool-cases, some, List, [], ◌∷◌, inl, inr, length,
  All, All-append, leb, ltb, eq_iff, arith,
}
use danus.Base.Assoc.{lookup, erase}
use danus.Verify.Scheduler.State.{Limits, Scheduler, CacheEntry}
use danus.Verify.Scheduler.Cache.{live_at, purge_expired, evict, replaced, cache_result, size}

-- A property of every entry holds of what the cache keeps.
module _ (P : String × CacheEntry → Type 0) where
  pub All-live_at : (now : ℕ) (m : List (String × CacheEntry)) → All P m → All P (live_at now m)
  unfolding live_at
  All-live_at now [] h = tt
  All-live_at now ((k, e) ∷ m) h = elim (Bool-cases (leb e.expires_at now)) [
    | inl late ↦ rw late (All-live_at now m h.1)
    | inr live ↦ rw live (h.0, All-live_at now m h.1)
  ]

  pub All-erase : (k : String) (m : List (String × CacheEntry)) → All P m → All P (erase k m)
  unfolding erase
  All-erase k [] h = tt
  All-erase k ((j, e) ∷ m) h = elim (Bool-cases (j == k)) [
    | inl same ↦ rw same (All-erase k m h.1)
    | inr other ↦ rw other (h.0, All-erase k m h.1)
  ]

  All-evict :
      (l : Limits) (total n : ℕ) (m : List (String × CacheEntry))
      → All P m
      → All P (evict l total n m).entries
  unfolding evict
  All-evict l total n [] h = tt
  All-evict l total n ((k, e) ∷ m) h =
      elim (Bool-cases (ltb l.cache_max_entries (length m + 1) || ltb l.cache_max_bytes total)) [
        | inl full ↦ rw (full, evict) (All-evict l (total - size e) (n + 1) m h.1)
        | inr fits ↦ rw (fits, evict) h
      ]

  pub All-lookup :
      (k : String) (m : List (String × CacheEntry)) (e : CacheEntry)
      → All P m
      → lookup k m ≡ some e
      → P (k, e)
  unfolding lookup
  All-lookup k [] e h at = cc (at)
  All-lookup k ((j, x) ∷ m) e h at = elim (Bool-cases (j == k)) [
    | inl same ↦ subst P (ground (arith, at, same, eq_iff j k)) h.0
    | inr other ↦ All-lookup k m e h.1 (ground (arith, at, other))
  ]

module _ (P : String × CacheEntry → Type 0) {V : Type 0} where
  pub All-purge : (now : ℕ) (s : Scheduler V) → All P s.cache → All P (purge_expired now s).cache
  unfolding purge_expired
  All-purge now s h = All-live_at P now s.cache h

  pub All-cache_result :
      (k : String) (encoded : List ℕ) (now : ℕ) (s : Scheduler V)
      → ((until : ℕ) → P (k, record { encoded = encoded; expires_at = until }))
      → All P s.cache
      → All P (cache_result k encoded now s).cache
  unfolding cache_result replaced
  All-cache_result k encoded now s new h =
      elim (Bool-cases (ltb s.limits.cache_max_bytes (length encoded))) [
        | inl large ↦ rw large h
        | inr fits ↦ rw fits (
            All-evict P s.limits _ 0 _
              (All-append P (erase k s.cache) _ (All-erase P k s.cache h) (new _, tt)))
      ]
