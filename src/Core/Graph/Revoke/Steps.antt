-- ===== src/Core/Graph/Revoke/Steps.antt =====
-- danus/core/factgraph.py: what the steps of a revocation do, and that a step is done only once.
use danus.Base.{
  String, Bool, true, false, ◌||◌, ◌≡◌, refl, subst, Option, none, some, List, [], ◌∷◌, ◌++◌, ◌==◌,
  eq_iff, eq_refl, if◌then◌else◌, arith,
}
use danus.Base.Assoc.{lookup}
use danus.Base.Names.{contains}
use danus.Base.Result.{>>=-eq-ok, ok, ◌>>=◌}
use danus.Core.Graph.Disk.{FactFile, LogEntry, PendingRevocation, Disk, exists}
use danus.Core.Graph.Disk.Laws.{exists-write, exists-erase}
use danus.Core.Graph.Revoke.{
  Step, write_pending_revocation, write_glossary, move_fact, write_log, unlink_pending_revocation,
  logged_ids, entry, add_entries, move, perform, run,
}

-- What a step brings about.
abbrev pub Done : Step → Disk → Type 0
Done (write_pending_revocation p) d = d.pending_revocation ≡ some p
Done (write_glossary g) d = d.glossary ≡ some g
Done (move_fact id) d = (exists id d.facts ≡ false) × (exists id d.revoked ≡ true)
Done (write_log p) d =
    (id : String) → contains id p.fact_ids ≡ true → contains id (logged_ids d.revocation_log) ≡ true
Done unlink_pending_revocation d = d.pending_revocation ≡ none

logged-append :
    (x : String) (log : List LogEntry) (e : LogEntry)
    → contains x (logged_ids (log ++ e ∷ [])) ≡ contains x (logged_ids log) || (e.fact_id == x)
unfolding contains
logged-append x [] e = ground arith
logged-append x (f ∷ log) e = ground (arith, logged-append x log e)

pub logged-add_entries :
    (x : String) (p : PendingRevocation) (ids : List String) (log : List LogEntry)
    → contains x (logged_ids (add_entries p ids log))
      ≡ contains x (logged_ids log) || contains x ids
unfolding add_entries contains
logged-add_entries x p [] log = ground arith
logged-add_entries x p (id ∷ ids) log = ground (
  arith,
  logged-add_entries x p ids (if contains id (logged_ids log) then log else log ++ entry p id ∷ []),
  logged-append x log (entry p id),
  eq_iff id x,
)

add_entries_again :
    (p : PendingRevocation) (ids : List String) (log : List LogEntry)
    → ((id : String) → contains id ids ≡ true → contains id (logged_ids log) ≡ true)
    → add_entries p ids log ≡ log
unfolding add_entries contains
add_entries_again p [] log h = refl
add_entries_again p (id ∷ ids) log h =
    ground (arith, h id, eq_refl id, add_entries_again p ids log (λ x e. h x (ground (arith, e))))

-- A step that is done changes nothing.
pub perform_again : (s : Step) (d : Disk) → Done s d → perform s d ≡ ok d
unfolding perform move exists
perform_again (write_pending_revocation p) d h = rw (← h)
perform_again (write_glossary g) d h = rw (← h)
perform_again (move_fact id) d h = ground (arith, h)
perform_again (write_log p) d h = rw (add_entries_again p p.fact_ids d.revocation_log h)
perform_again unlink_pending_revocation d h = rw (← h)

-- What a step changes, told by what it finds.
move-Done :
    (id : String) (o : Option FactFile) (b : Bool) (d m : Disk)
    → o ≡ lookup id d.facts
    → b ≡ exists id d.revoked
    → move id o b d ≡ ok m
    → Done (move_fact id) m
unfolding move exists
move-Done id (some f) true d m eo eb h = cc
move-Done id (some f) false d m eo eb h =
    ground (arith, h, exists-erase id id d.facts, exists-write id id f d.revoked, eq_refl id)
move-Done id none true d m eo eb h = ground (arith, h, eo, eb)
move-Done id none false d m eo eb h = cc

-- The steps after the glossary's, which leave each other's work alone.
abbrev pub is_mild : Step → Bool
is_mild (move_fact id) = true
is_mild (write_log p) = true
is_mild unlink_pending_revocation = true
is_mild _ = false

abbrev pub is_pending_write : Step → Bool
is_pending_write (write_pending_revocation p) = true
is_pending_write _ = false

pub mild_is_not_pending : (s : Step) → is_mild s ≡ true → ¬ (is_pending_write s ≡ true)
mild_is_not_pending (write_pending_revocation p) h = λ e. cc (h)
mild_is_not_pending (write_glossary g) h = λ e. cc (h)
mild_is_not_pending (move_fact id) h = λ e. cc (e)
mild_is_not_pending (write_log p) h = λ e. cc (e)
mild_is_not_pending unlink_pending_revocation h = λ e. cc (e)

-- What a step of the cascade leaves as it is.
pub record Keeps (d m : Disk) : Type 0 where
  pub glossary : m.glossary ≡ d.glossary
  pub facts : (x : String) → exists x d.facts ≡ false → exists x m.facts ≡ false
  pub revoked : (x : String) → exists x d.revoked ≡ true → exists x m.revoked ≡ true
  pub log :
      (x : String)
      → contains x (logged_ids d.revocation_log) ≡ true
      → contains x (logged_ids m.revocation_log) ≡ true
  pub pending : d.pending_revocation ≡ none → m.pending_revocation ≡ none

move-Keeps :
    (id : String) (o : Option FactFile) (b : Bool) (d m : Disk) → move id o b d ≡ ok m → Keeps d m
unfolding move
move-Keeps id (some f) true d m h = cc
move-Keeps id (some f) false d m h = record {
  glossary = ground (arith, h);
  facts = λ x e. ground (arith, h, e, exists-erase id x d.facts);
  revoked = λ x e. ground (arith, h, e, exists-write id x f d.revoked);
  log = λ x e. ground (arith, h, e);
  pending = λ e. ground (arith, h, e);
}
move-Keeps id none true d m h = record {
  glossary = ground (arith, h);
  facts = λ x e. ground (arith, h, e);
  revoked = λ x e. ground (arith, h, e);
  log = λ x e. ground (arith, h, e);
  pending = λ e. ground (arith, h, e);
}
move-Keeps id none false d m h = cc

pub perform-Keeps : (s : Step) (d m : Disk) → is_mild s ≡ true → perform s d ≡ ok m → Keeps d m
unfolding perform
perform-Keeps (write_pending_revocation p) d m mild h = cc
perform-Keeps (write_glossary g) d m mild h = cc
perform-Keeps (move_fact id) d m mild h =
    move-Keeps id (lookup id d.facts) (exists id d.revoked) d m h
perform-Keeps (write_log p) d m mild h = record {
  glossary = ground (arith, h);
  facts = λ x e. ground (arith, h, e);
  revoked = λ x e. ground (arith, h, e);
  log = λ x e. ground (arith, h, e, logged-add_entries x p p.fact_ids d.revocation_log);
  pending = λ e. ground (arith, h, e);
}
perform-Keeps unlink_pending_revocation d m mild h = record {
  glossary = ground (arith, h);
  facts = λ x e. ground (arith, h, e);
  revoked = λ x e. ground (arith, h, e);
  log = λ x e. ground (arith, h, e);
  pending = λ e. ground (arith, h);
}

pub perform-Done : (s : Step) (d m : Disk) → perform s d ≡ ok m → Done s m
unfolding perform
perform-Done (write_pending_revocation p) d m h = ground (arith, h)
perform-Done (write_glossary g) d m h = ground (arith, h)
perform-Done (move_fact id) d m h =
    move-Done id (lookup id d.facts) (exists id d.revoked) d m refl refl h
perform-Done (write_log p) d m h =
    λ x e. ground (arith, h, e, logged-add_entries x p p.fact_ids d.revocation_log)
perform-Done unlink_pending_revocation d m h = ground (arith, h)

-- Work that is done stays done over a mild step.
Done-Keeps :
    (s : Step) (d m : Disk) → ¬ (is_pending_write s ≡ true) → Keeps d m → Done s d → Done s m
Done-Keeps (write_pending_revocation p) d m n k h = absurd (n refl)
Done-Keeps (write_glossary g) d m n k h = cc (k.glossary, h)
Done-Keeps (move_fact id) d m n k h = (k.facts id h.0, k.revoked id h.1)
Done-Keeps (write_log p) d m n k h = λ x e. k.log x (h x e)
Done-Keeps unlink_pending_revocation d m n k h = k.pending h

abbrev pub AllMild : List Step → Type 0
AllMild [] = Unit
AllMild (s ∷ steps) = (is_mild s ≡ true) × AllMild steps

abbrev pub AllDone : List Step → Disk → Type 0
AllDone [] d = Unit
AllDone (s ∷ steps) d = Done s d × AllDone steps d

pub run-cons :
    (s : Step) (steps : List Step) (d e : Disk)
    → run (s ∷ steps) d ≡ ok e
    → (m : Disk) × (perform s d ≡ ok m) × (run steps m ≡ ok e)
unfolding run
run-cons s steps d e h = >>=-eq-ok (perform s d) (run steps) h

pub run_nil : (d m : Disk) → run [] d ≡ ok m → d ≡ m
unfolding run
run_nil d m h = cc (h)

pub run-Done :
    (s : Step) (steps : List Step) (d m : Disk)
    → ¬ (is_pending_write s ≡ true)
    → AllMild steps
    → Done s d
    → run steps d ≡ ok m
    → Done s m
run-Done s [] d m n mild done h = subst (Done s) (run_nil d m h) done
run-Done s (t ∷ steps) d m n mild done h =
    let (u, first, rest) = run-cons t steps d m h in
    run-Done s steps u m n mild.1 (Done-Keeps s d u n (perform-Keeps t d u mild.0 first) done) rest

pub run-AllDone :
    (steps : List Step) (d m : Disk) → AllMild steps → run steps d ≡ ok m → AllDone steps m
run-AllDone [] d m mild h = tt
run-AllDone (s ∷ steps) d m mild h =
    let (u, first, rest) = run-cons s steps d m h in
    (
      run-Done s steps u m (mild_is_not_pending s mild.0) mild.1 (perform-Done s d u first) rest,
      run-AllDone steps u m mild.1 rest,
    )

-- So replaying what is done changes nothing.
pub run_done : (steps : List Step) (d : Disk) → AllDone steps d → run steps d ≡ ok d
unfolding run ◌>>=◌
run_done [] d h = refl
run_done (s ∷ steps) d h = rw (perform_again s d h.0) (run_done steps d h.1)
