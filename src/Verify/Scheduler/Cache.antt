-- ===== src/Verify/Scheduler/Cache.antt =====
-- danus/verify/scheduler.py: the result cache, an OrderedDict of encoded results.
pub mod Bounds
use danus.Base.{
  ℕ, ◌+◌, ◌-◌, String, ◌||◌, Option, none, some, List, [], ◌∷◌, ◌++◌, leb, ltb, length,
  if◌then◌else◌,
}
use danus.Base.Assoc.{lookup, erase}
use danus.Verify.Scheduler.State.{Limits, CacheEntry, Scheduler}

-- `_CacheEntry.size`
abbrev pub size : CacheEntry → ℕ
size e = length e.encoded

-- `self._cache_bytes` counts these.
unfoldable pub bytes : List (String × CacheEntry) → ℕ
bytes [] = 0
bytes ((k, e) ∷ m) = size e + bytes m

-- The entries that outlive `now`, what the others took, and how many they were.
unfoldable pub live_at : ℕ → List (String × CacheEntry) → List (String × CacheEntry)
live_at now [] = []
live_at now ((k, e) ∷ m) =
    let rest = live_at now m in if leb e.expires_at now then rest else (k, e) ∷ rest

unfoldable pub expired_bytes : ℕ → List (String × CacheEntry) → ℕ
expired_bytes now [] = 0
expired_bytes now ((k, e) ∷ m) = (if leb e.expires_at now then size e else 0) + expired_bytes now m

unfoldable pub expired_count : ℕ → List (String × CacheEntry) → ℕ
expired_count now [] = 0
expired_count now ((k, e) ∷ m) = (if leb e.expires_at now then 1 else 0) + expired_count now m

module _ {V : Type 0} where
  -- `_purge_expired_locked`
  unfoldable pub purge_expired : ℕ → Scheduler V → Scheduler V
  purge_expired now s = record s {
    cache = live_at now s.cache;
    cache_bytes = s.cache_bytes - expired_bytes now s.cache;
    counters = record c { expired = c.expired + expired_count now s.cache };
  }
    where
      open s use {counters as c}

-- The state of the eviction loop: the entries, their bytes, and how many were evicted.
pub record Eviction : Type 0 where
  pub entries : List (String × CacheEntry)
  pub total : ℕ
  pub evicted : ℕ

-- The `while` loop: `popitem(last=False)` takes the oldest entry. With no entry left the test
-- fails, since the bytes are then 0 (`evict-Fits` in Bounds).
unfoldable pub evict : Limits → ℕ → ℕ → List (String × CacheEntry) → Eviction
evict l total n [] = record { entries = []; total = total; evicted = n }
evict l total n ((k, e) ∷ m) =
    let rest = evict l (total - size e) (n + 1) m in
    if ltb l.cache_max_entries (length m + 1) || ltb l.cache_max_bytes total
    then rest
    else record { entries = (k, e) ∷ m; total = total; evicted = n }

-- `entry.size` of the entry that a key has, 0 without one
unfoldable pub old_size : Option CacheEntry → ℕ
old_size none = 0
old_size (some e) = size e

-- The entries with the new result in the last place, and their bytes.
unfoldable pub replaced :
    String → CacheEntry → List (String × CacheEntry) → List (String × CacheEntry)
replaced key e m = erase key m ++ (key, e) ∷ []

module _ {V : Type 0} where
  -- `_cache_result_locked`
  unfoldable pub cache_result : String → List ℕ → ℕ → Scheduler V → Scheduler V
  cache_result key encoded now s =
      if ltb s.limits.cache_max_bytes (length encoded)
      then s
      else let entry : CacheEntry = record {
        encoded = encoded;
        expires_at = now + s.limits.cache_ttl;
      } in
        let done =
          evict s.limits (s.cache_bytes - old_size (lookup key s.cache) + size entry) 0
            (replaced key entry s.cache) in
        record s {
          cache = done.entries;
          cache_bytes = done.total;
          counters = record c { evicted = c.evicted + done.evicted };
        }
    where
      open s use {counters as c}
