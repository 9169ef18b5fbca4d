-- ===== src/Verify/Scheduler/State.antt =====
-- danus/verify/scheduler.py: the data of the scheduler and of the callers of `execute`.
-- Times are in milliseconds; Python's counters are integers, and the accounts proved in Accounts
-- show that no decrement falls below zero.
use danus.Base.{ℕ, String, Bool, false, Option, none, some, List, [], leb, ltb, if◌then◌else◌}

pub record Limits : Type 0 where
  pub max_distinct_queue : ℕ
  pub queue_wait : ℕ
  pub max_waiters_per_key : ℕ
  pub max_total_waiters : ℕ
  pub cache_max_entries : ℕ
  pub cache_max_bytes : ℕ
  pub cache_ttl : ℕ

-- `__post_init__`: the name of the first limit that is refused. `timeout_max` is
-- `threading.TIMEOUT_MAX`. (The type tests for bool and NaN have no counterpart here.)
unfoldable pub post_init : ℕ → Limits → Option String
post_init timeout_max l =
    if leb l.max_distinct_queue 0
    then some "max_distinct_queue"
    else if leb l.max_waiters_per_key 0
    then some "max_waiters_per_key"
    else if leb l.max_total_waiters 0
    then some "max_total_waiters"
    else if leb l.cache_max_entries 0
    then some "cache_max_entries"
    else if leb l.cache_max_bytes 0
    then some "cache_max_bytes"
    else if leb l.queue_wait 0
    then some "queue_wait_seconds"
    else if leb l.cache_ttl 0
    then some "cache_ttl_seconds"
    else if ltb timeout_max l.queue_wait
    then some "queue_wait_seconds"
    else none

pub data Reason : Type 0 where
  per_key_waiters_full total_waiters_full distinct_queue_full queue_wait_timeout : Reason

-- An exception: a `SchedulerRejected`, the errors that `execute` raises about the result, or any
-- other, by its type's name, the rest of it, and whether `copy.copy` succeeds on it.
pub data Error : Type 0 where
  rejected : Reason → Error
  not_an_object : Error
  not_json : Error
  other : String → ℕ → Bool → Error
  scheduled_verifier_failed : String → Error

-- `_copy_error`
unfoldable pub copy_error : Error → Error
copy_error (other name rest false) = scheduled_verifier_failed name
copy_error e = e

pub data FlightState : Type 0 where
  queued running completed failed : FlightState

pub record Flight (V : Type 0) : Type 0 where
  pub key : String
  pub state : FlightState
  pub joined_waiters : ℕ
  pub result : Option V
  pub error : Option Error

pub record CacheEntry : Type 0 where
  pub encoded : List ℕ
  pub expires_at : ℕ

pub record Counters : Type 0 where
  pub submitted : ℕ
  pub launched : ℕ
  pub coalesced : ℕ
  pub cache_hits : ℕ
  pub rejected_calls : ℕ
  pub completed_calls : ℕ
  pub failed_calls : ℕ
  pub expired : ℕ
  pub evicted : ℕ

-- The attributes that account for the calls in flight. A `_Flight` is shared by the callers that
-- hold it, so flights stand in a heap, and `active` maps a key to a place in the heap.
pub record Core (V : Type 0) : Type 0 where
  pub flights : List (Flight V)
  pub queue : List String
  pub active : List (String × ℕ)
  pub running_key : Option String
  pub total_waiters : ℕ

pub record Scheduler (V : Type 0) : Type 0 where
  pub limits : Limits
  pub core : Core V
  pub open core use *
  pub cache : List (String × CacheEntry)
  pub cache_bytes : ℕ
  pub counters : Counters

abbrev pub no_counts : Counters
no_counts = record {
  submitted = 0;
  launched = 0;
  coalesced = 0;
  cache_hits = 0;
  rejected_calls = 0;
  completed_calls = 0;
  failed_calls = 0;
  expired = 0;
  evicted = 0;
}

-- `VerificationScheduler.__init__`
abbrev pub new : {V : Type 0} → Limits → Scheduler V
new l = record {
  limits = l;
  core = record { flights = []; queue = []; active = []; running_key = none; total_waiters = 0 };
  cache = [];
  cache_bytes = 0;
  counters = no_counts;
}

pub data Source : Type 0 where
  launched coalesced cache_hit : Source

pub record Receipt (V : Type 0) : Type 0 where
  pub value : V
  pub source : Source
  pub key : String
  pub wait_ms : ℕ

-- What `execute` raises.
pub data Failure : Type 0 where
  invalid_key : Failure
  refused : Reason → Failure
  work_failed : Error → Source → String → ℕ → Failure
  interrupted : Error → Failure
  corrupt_entry : Failure
  assertion : Failure

-- How a call of `execute` ends.
pub data Ended (V : Type 0) : Type 0 where
  returned : Receipt V → Ended V
  raised : String → Failure → Ended V

-- Where a call of `execute` stands: before the lock, waiting on another's flight, waiting in the
-- queue with its own flight, running the work, or over. A flight is named by its place in the heap.
pub data Caller (V : Type 0) : Type 0 where
  calling : String → Caller V
  follower : ℕ → String → ℕ → Caller V
  waiting : ℕ → String → ℕ → Caller V
  working : ℕ → String → ℕ → Caller V
  over : Ended V → Caller V

-- Python's `json`, on the values that a verifier returns: whether a value is a dict, its canonical
-- bytes if it is strict JSON, and the dict that bytes stand for.
pub record Codec (V : Type 0) : Type 0 where
  pub is_object : V → Bool
  pub dumps : V → Option (List ℕ)
  pub loads : List ℕ → Option V

-- What `work()` does.
pub data Work (V : Type 0) : Type 0 where
  value : V → Work V
  error : Error → Work V
