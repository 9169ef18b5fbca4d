-- ===== src/Core/Graph/Add/Stages.antt =====
-- danus/core/factgraph.py: the states that an addition passes, and what a recovery makes of them.
use danus.Base.{
  ℕ, zero, suc, take, take_nil, String, Bool, true, false, ◌||◌, ◌≡◌, refl, Option, none, some,
  List, [], ◌∷◌, eq_refl, if◌then◌else◌, arith, inl, inr,
}
use danus.Base.Assoc.{lookup, erase_absent}
use danus.Base.Result.{ok, ◌>>=◌}
use danus.Core.Graph.Disk.{
  Glossary, FactFile, Directory, PreparedAdd, CommittedAdd, Disk, exists, write,
}
use danus.Core.Graph.Disk.Laws.{erase-write, lookup-write}
use danus.Core.Graph.Add.{
  AddStep, write_commit, unlink_prepared, unlink_commit, restore, apply, apply_all, same_glossary,
  agrees, holds_fact, can_read, rollback_pending_add, NewFact, prepared, committed,
}
use danus.Core.Graph.Add.Undone.{
  interrupt_all, with_parts, Doubtful, open-Doubtful, rollback-Doubtful, interrupt-Doubtful,
}
use danus.Core.Graph.Add.Kept.{Settled, rollback-Settled, interrupt-Settled}

pub same_glossary_refl : (g : Option Glossary) → same_glossary g g ≡ true
unfolding same_glossary
same_glossary_refl none = refl
same_glossary_refl (some []) = refl
same_glossary_refl (some ((k, v) ∷ g)) =
    ground (arith, eq_refl k, eq_refl v, same_glossary_refl (some g))

abbrev is_commit : AddStep → Bool
is_commit (write_commit c) = true
is_commit _ = false

-- the marker of the commit was written
unfoldable pub has_committed : List AddStep → Bool
has_committed [] = false
has_committed (s ∷ steps) = is_commit s || has_committed steps

pub restore_lem :
    (id : String) (facts : Directory)
    → lookup id facts ≡ none
    → restore id (lookup id facts) facts ≡ facts
unfolding restore
restore_lem id facts h = rw h (erase_absent id facts h)

pub restore-write :
    (id : String) (file : FactFile) (facts : Directory)
    → lookup id facts ≡ none
    → restore id (lookup id facts) (write id file facts) ≡ facts
unfolding restore
restore-write id file facts h = rw h (erase-write id file facts h)

-- from the last write of an addition on
abbrev pub ends : String → NewFact → Option Glossary → List AddStep
ends tid new expected =
    write_commit (committed tid new expected) ∷ unlink_prepared ∷ unlink_commit ∷ []

-- the disk with no addition under way
abbrev pub start : Disk → Disk
start d = with_parts d d.facts d.glossary none none none

-- The addition of a new fact, with the glossary that it leads to.
module _ (global : Glossary) (tid : String) (new : NewFact) (d : Disk)
    (absent : lookup new.fact_id d.facts ≡ none) (unrevoked : exists new.fact_id d.revoked ≡ false)
    (expected : Option Glossary) (readable : can_read global expected expected ≡ true) where
  abbrev p : PreparedAdd
  p = prepared tid new d expected

  abbrev c : CommittedAdd
  c = committed tid new expected

  abbrev full : Directory
  full = write new.fact_id new.file d.facts

  agreement : agrees (some p) c ≡ true
  unfolding agrees
  agreement =
      ground
        (arith, eq_refl tid, eq_refl new.fact_id, eq_refl new.file.raw, same_glossary_refl expected)

  pub presence : holds_fact (lookup c.fact_id full) c ≡ true
  unfolding holds_fact
  presence =
      rw (lookup-write new.fact_id new.fact_id new.file d.facts)
        (rw (eq_refl new.fact_id) (eq_refl new.file.raw))

  abbrev InDoubt : Disk → Type 0
  InDoubt = Doubtful global d p refl (restore_lem new.fact_id d.facts absent)

  abbrev Kept : Disk → Type 0
  Kept = Settled global d c full expected presence unrevoked (same_glossary_refl expected) readable

  abbrev pub Outcome : Bool → Disk → Type 0
  Outcome true = Kept
  Outcome false = InDoubt

  journal_only :
      (facts : Directory) (glossary : Option Glossary)
      → restore new.fact_id (lookup new.fact_id d.facts) facts ≡ d.facts
      → InDoubt (with_parts d facts glossary (some p) none none)
  journal_only = open-Doubtful global d p refl (restore_lem new.fact_id d.facts absent)

  pub before_fact :
      (glossary : Option Glossary) → InDoubt (with_parts d d.facts glossary (some p) none none)
  before_fact glossary = journal_only d.facts glossary (restore_lem new.fact_id d.facts absent)

  pub after_fact :
      (glossary : Option Glossary) → InDoubt (with_parts d full glossary (some p) none none)
  after_fact glossary =
      journal_only full glossary (restore-write new.fact_id new.file d.facts absent)

  pub after_ends :
      (k : ℕ)
      → Outcome (has_committed (take k (ends tid new expected))) (
          apply_all
            (take k (ends tid new expected))
            (with_parts d full expected (some p) none none))
  unfolding has_committed apply_all apply agrees
  after_ends zero = after_fact expected
  after_ends (suc zero) = inr (some p, refl, agreement)
  after_ends (suc (suc zero)) = inr (none, refl, refl)
  after_ends (suc (suc (suc k))) = inl (rw (take_nil {A = AddStep} k) refl)

  pub recover-Outcome :
      (ks : List ℕ) (b : Bool) (m : Disk)
      → Outcome b m
      → interrupt_all global ks m >>= rollback_pending_add global
        ≡ ok (if b then with_parts d full expected none none none else start d)
  unfolding interrupt_all ◌>>=◌
  recover-Outcome [] true m h =
      rollback-Settled global d c full expected presence unrevoked (same_glossary_refl expected)
        readable m h
  recover-Outcome [] false m h =
      rollback-Doubtful global d p refl (restore_lem new.fact_id d.facts absent) m h
  recover-Outcome (k ∷ ks) true m h =
      let (u, first, next) =
        interrupt-Settled global d c full expected presence unrevoked (same_glossary_refl expected)
          readable k m h in
      rw first (recover-Outcome ks true u next)
  recover-Outcome (k ∷ ks) false m h =
      let (u, first, next) =
        interrupt-Doubtful global d p refl (restore_lem new.fact_id d.facts absent) k m h in
      rw first (recover-Outcome ks false u next)
