-- ===== src/Core/Graph/Add/Effect.antt =====
-- danus/core/factgraph.py: what an addition has done when it returns.
use danus.Base.{
  String, true, false, not, ◌≡◌, ◌∙◌, sym, ap, refl, subst, Option, none, some, List, [], ◌∷◌, ◌==◌,
  eq_iff, eq_refl, if◌then◌else◌, is_some, arith, Bool-cases, inl, inr, ◌⊎◌,
}
use danus.Base.Assoc.{lookup}
use danus.Base.Names.{contains}
use danus.Base.Result.{ok, >>-eq-ok, require-then-eq-ok}
use danus.Core.Graph.Disk.{
  Glossary, FactFile, Directory, Disk, IsAtRest, exists, write, predecessors,
}
use danus.Core.Graph.Disk.Laws.{lookup-write}
use danus.Core.Graph.Revoke.Effect.{IsClosed}
use danus.Core.Graph.Add.{
  AddStep, NewFact, expected_glossary, check_predecessors, has_duplicates, plan_add, apply_all,
}
use danus.Core.Graph.Add.Undone.{with_parts}
use danus.Core.Graph.Add.Plans.{plan-eq-ok, at_rest, all_steps, steps_of}

-- Predecessors that are accepted are active, and not revoked.
known :
    (ps : List String) (d : Disk) (p : String)
    → check_predecessors ps d ≡ ok tt
    → contains p ps ≡ true
    → (exists p d.facts ≡ true) × (exists p d.revoked ≡ false)
unfolding check_predecessors contains
known [] d p h m = cc
known (q ∷ ps) d p h m =
    let (unrevoked, rest) =
      require-then-eq-ok (not (exists q d.revoked)) "predecessor_revoked" _ h in
    let (active, more) = require-then-eq-ok (exists q d.facts) "predecessor_unknown" _ rest in
    elim (Bool-cases (q == p)) [
      | inl same ↦
          let eq : q ≡ p = ground (arith, same, eq_iff q p) in
          subst (λ y. (exists y d.facts ≡ true) × (exists y d.revoked ≡ false)) eq
            (active, ground (arith, unrevoked))
      | inr other ↦ known ps d p more (ground (arith, m, other))
    ]

plan-known :
    (global : Glossary) (tid : String) (new : NewFact) (d : Disk) (steps : List AddStep)
    (p : String)
    → plan_add global tid new d ≡ ok steps
    → contains p new.file.predecessors ≡ true
    → (exists p d.facts ≡ true) × (exists p d.revoked ≡ false)
unfolding plan_add
plan-known global tid new d steps p h m =
    let (_, checked) =
      require-then-eq-ok (not (has_duplicates new.file.predecessors))
        "duplicate predecessor fact_id" _ h in
    known new.file.predecessors d p
      (>>-eq-ok (check_predecessors new.file.predecessors d) _ checked).0 m

-- The disk after the steps of an addition that can be made.
pub added_disk :
    (global : Glossary) (tid : String) (new : NewFact) (d : Disk) (steps : List AddStep)
    → IsAtRest d
    → plan_add global tid new d ≡ ok steps
    → ((exists new.fact_id d.facts ≡ true) × (apply_all steps d ≡ d))
      ⊎ ((lookup new.fact_id d.facts ≡ none)
          × (exists new.fact_id d.revoked ≡ false)
          × (glossary : Option Glossary) × (apply_all steps d
              ≡ with_parts d (write new.fact_id new.file d.facts) glossary none none none))
unfolding apply_all
added_disk global tid new d steps rest h = elim (plan-eq-ok global tid new d steps h) [
  | inl (active, shape) ↦ inl (active, rw shape refl)
  | inr (absent, unrevoked, merged, prepares, shape) ↦ inr (
    absent,
    unrevoked,
    expected_glossary new.file.glossary_introduces merged d.glossary,
    ap (λ l. apply_all l d) shape
        ∙ ap (apply_all (steps_of tid new new.file.glossary_introduces merged d)) (at_rest d rest)
        ∙ all_steps tid new new.file.glossary_introduces merged d,
  )
]

write-IsClosed :
    (id : String) (file : FactFile) (facts : Directory)
    → ((p : String) → contains p file.predecessors ≡ true → exists p facts ≡ true)
    → IsClosed facts
    → IsClosed (write id file facts)
unfolding exists predecessors
write-IsClosed id file facts here closed p x (active, names) = elim (Bool-cases (id == x)) [
  | inl same ↦
      ground
        (arith, same, here p, names, lookup-write id x file facts, lookup-write id p file facts)
  | inr other ↦ ground (
    arith,
    other,
    closed p x,
    active,
    names,
    lookup-write id x file facts,
    lookup-write id p file facts,
  )
]

-- Let no addition be under way, and the tests of a new one pass. After its steps, the fact is
-- active; if it was before, nothing has changed; if not, its file is the given one, all other facts
-- and the revoked ones are as they were, and no addition is under way. Each of its predecessors
-- was active and not revoked.
pub add_takes_effect :
    (global : Glossary) (tid : String) (new : NewFact) (d : Disk) (steps : List AddStep)
    → IsAtRest d
    → plan_add global tid new d ≡ ok steps
    → (exists new.fact_id (apply_all steps d).facts ≡ true)
      × (exists new.fact_id d.facts ≡ true → apply_all steps d ≡ d)
      × ((x : String)
          → exists new.fact_id d.facts ≡ false
          → lookup x (apply_all steps d).facts
            ≡ (if new.fact_id == x then some new.file else lookup x d.facts))
      × ((apply_all steps d).revoked ≡ d.revoked)
      × IsAtRest (apply_all steps d)
      × ((p : String)
          → contains p new.file.predecessors ≡ true
          → (exists p d.facts ≡ true) × (exists p d.revoked ≡ false))
unfolding exists
add_takes_effect global tid new d steps rest h = elim (added_disk global tid new d steps rest h) [
  | inl (active, same) ↦ (
    ap (λ u. exists new.fact_id u.facts) same ∙ active,
    λ a. same,
    λ x a. cc,
    ap (λ u. u.revoked) same,
    subst IsAtRest (sym same) rest,
    λ p m. plan-known global tid new d steps p h m,
  )
  | inr (absent, unrevoked, glossary, shape) ↦ (
    ground
        (arith, shape, lookup-write new.fact_id new.fact_id new.file d.facts, eq_refl new.fact_id),
    λ a. cc (a, ap is_some absent),
    λ x a. ap (λ u. lookup x u.facts) shape ∙ lookup-write new.fact_id x new.file d.facts,
    ap (λ u. u.revoked) shape,
    subst IsAtRest (sym shape) (refl, refl, refl),
    λ p m. plan-known global tid new d steps p h m,
  )
]

-- Where every predecessor of an active fact is active, it is so after an addition.
pub add-IsClosed :
    (global : Glossary) (tid : String) (new : NewFact) (d : Disk) (steps : List AddStep)
    → IsAtRest d
    → IsClosed d.facts
    → plan_add global tid new d ≡ ok steps
    → IsClosed (apply_all steps d).facts
add-IsClosed global tid new d steps rest closed h =
    elim (added_disk global tid new d steps rest h) [
      | inl (active, same) ↦ subst (λ u. IsClosed u.facts) (sym same) closed
      | inr (absent, unrevoked, glossary, shape) ↦
          subst (λ u. IsClosed u.facts) (sym shape)
            (write-IsClosed new.fact_id new.file d.facts
              (λ p m. (plan-known global tid new d steps p h m).0) closed)
    ]
