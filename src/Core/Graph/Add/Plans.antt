-- ===== src/Core/Graph/Add/Plans.antt =====
-- danus/core/factgraph.py: the steps of an addition whose tests pass, and the states they lead to.
use danus.Base.{
  ℕ, zero, suc, take, take_nil, String, true, false, not, ◌≡◌, ◌∙◌, sym, ap, refl, Option, none,
  some, List, [], ◌∷◌, is_some, arith, Bool-cases, inl, inr, ◌⊎◌, if_true, if_false,
}
use danus.Base.Assoc.{lookup}
use danus.Base.Result.{ok, >>-eq-ok, require-then-eq-ok, >>=-eq-ok, ok_injective}
use danus.Core.Graph.Disk.{Glossary, Directory, CommittedAdd, Disk, IsAtRest, exists, write}
use danus.Core.Graph.Disk.Laws.{lookup_absent}
use danus.Core.Graph.Glossaries.{prepare_glossary_merge, sorted_items}
use danus.Core.Graph.Add.{
  AddStep, write_prepared, write_fact, restore, apply, apply_all, can_read, NewFact, prepared,
  expected_glossary, glossary_step, add_steps, check_predecessors, has_duplicates, plan_add,
}
use danus.Core.Graph.Add.Undone.{with_parts}
use danus.Core.Graph.Glossaries.Merge.{prepare_glossary_merge-readable, merge_reads}
use danus.Core.Graph.Add.Stages.{
  has_committed, restore_lem, restore-write, ends, start, Outcome, before_fact, after_fact,
  after_ends,
}

pub at_rest : (d : Disk) → IsAtRest d → d ≡ start d
at_rest d h = ground (arith, h)

-- The steps of the addition of a fact that introduces `intro`.
abbrev pub steps_of : String → NewFact → Glossary → Glossary → Disk → List AddStep
steps_of tid new intro merged d =
    let expected = expected_glossary intro merged d.glossary in
    write_prepared (prepared tid new d expected)
    ∷ write_fact new.fact_id new.file
    ∷ glossary_step intro merged (ends tid new expected)

pub all_steps :
    (tid : String) (new : NewFact) (intro merged : Glossary) (d : Disk)
    → apply_all (steps_of tid new intro merged d) (start d)
      ≡ with_parts d
          (write new.fact_id new.file d.facts)
          (expected_glossary intro merged d.glossary)
          none
          none
          none
unfolding apply_all apply
all_steps tid new [] merged d = refl
all_steps tid new (i ∷ intro) merged d = refl

pub after :
    (global : Glossary) (tid : String) (new : NewFact) (intro merged : Glossary) (d : Disk)
    (absent : lookup new.fact_id d.facts ≡ none) (unrevoked : exists new.fact_id d.revoked ≡ false)
    (readable : can_read global
        (expected_glossary intro merged d.glossary)
        (expected_glossary intro merged d.glossary)
      ≡ true)
    (k : ℕ)
    → Outcome global tid new d absent unrevoked
        (expected_glossary intro merged d.glossary)
        readable
        (has_committed (take k (steps_of tid new intro merged d)))
        (apply_all (take k (steps_of tid new intro merged d)) (start d))
unfolding has_committed apply_all apply
after global tid new intro merged d absent unrevoked readable zero = inl refl
after global tid new intro merged d absent unrevoked readable (suc zero) =
    before_fact global tid new d absent unrevoked _ readable d.glossary
after global tid new [] merged d absent unrevoked readable (suc (suc k)) =
    after_ends global tid new d absent unrevoked d.glossary readable k
after global tid new (i ∷ intro) merged d absent unrevoked readable (suc (suc zero)) =
    after_fact global tid new d absent unrevoked _ readable d.glossary
after global tid new (i ∷ intro) merged d absent unrevoked readable (suc (suc (suc k))) =
    after_ends global tid new d absent unrevoked _ readable k

pub readable_lem :
    (global : Glossary) (intro merged : Glossary) (file : Option Glossary)
    → prepare_glossary_merge global file intro ≡ ok merged
    → can_read global (expected_glossary intro merged file) (expected_glossary intro merged file)
      ≡ true
unfolding can_read
readable_lem global [] merged none h = refl
readable_lem global [] merged (some g) h = merge_reads global (some g) [] merged h
readable_lem global (i ∷ intro) merged file h =
    rw (prepare_glossary_merge-readable global file (i ∷ intro) merged h) refl

-- The ways in which the tests of an addition can pass.
pub plan-eq-ok :
    (global : Glossary) (tid : String) (new : NewFact) (d : Disk) (steps : List AddStep)
    → plan_add global tid new d ≡ ok steps
    → ((exists new.fact_id d.facts ≡ true) × (steps ≡ []))
      ⊎ ((lookup new.fact_id d.facts ≡ none)
          × (exists new.fact_id d.revoked ≡ false)
          × (merged : Glossary) × (prepare_glossary_merge global d.glossary
                new.file.glossary_introduces
              ≡ ok merged)
          × (steps ≡ steps_of tid new new.file.glossary_introduces merged d))
unfolding plan_add add_steps
plan-eq-ok global tid new d steps h =
    let (_, checked) =
      require-then-eq-ok (not (has_duplicates new.file.predecessors))
        "duplicate predecessor fact_id" _ h in
    let (_, planned) = >>-eq-ok (check_predecessors new.file.predecessors d) _ checked in
    let (unrevoked, rest) =
      require-then-eq-ok (not (exists new.fact_id d.revoked)) "fact_revoked" _ planned in
    elim (Bool-cases (exists new.fact_id d.facts)) [
      | inl active ↦ inl (active, ok_injective (sym rest ∙ if_true _ _ active))
      | inr idle ↦
          let (merged, prepares, last) =
            >>=-eq-ok (prepare_glossary_merge global d.glossary new.file.glossary_introduces) _
              (sym (if_false _ _ idle) ∙ rest) in
          inr (
            lookup_absent new.fact_id d.facts idle,
            ground (arith, unrevoked),
            merged,
            prepares,
            ok_injective (sym last),
          )
    ]

-- While the journal of the addition is there, it says how to undo what was written.
pub journalled :
    (tid : String) (new : NewFact) (intro merged : Glossary) (d : Disk) (k : ℕ)
    → lookup new.fact_id d.facts ≡ none
    → is_some (apply_all (take k (steps_of tid new intro merged d)) (start d)).pending_add ≡ true
    → (facts : Directory) × (glossary : Option Glossary) × (commit : Option CommittedAdd)
      × (apply_all (take k (steps_of tid new intro merged d)) (start d)
          ≡ with_parts d facts glossary
              (some (prepared tid new d (expected_glossary intro merged d.glossary)))
              commit
              none)
      × (restore new.fact_id (lookup new.fact_id d.facts) facts ≡ d.facts)
unfolding apply_all apply
journalled tid new intro merged d zero absent h = cc
journalled tid new intro merged d (suc zero) absent h =
    (d.facts, d.glossary, none, refl, restore_lem new.fact_id d.facts absent)
journalled tid new intro merged d (suc (suc zero)) absent h =
    (_, d.glossary, none, refl, restore-write new.fact_id new.file d.facts absent)
journalled tid new [] merged d (suc (suc (suc zero))) absent h =
    (_, _, _, refl, restore-write new.fact_id new.file d.facts absent)
journalled tid new [] merged d (suc (suc (suc (suc zero)))) absent h = cc
journalled tid new [] merged d (suc (suc (suc (suc (suc k))))) absent h = cc (
  h,
  ap
      (λ l.
        is_some
          (apply_all l (
            with_parts d (write new.fact_id new.file d.facts) d.glossary none none
              none)).pending_add)
      (take_nil {A = AddStep} k),
)
journalled tid new (i ∷ intro) merged d (suc (suc (suc zero))) absent h =
    (_, _, none, refl, restore-write new.fact_id new.file d.facts absent)
journalled tid new (i ∷ intro) merged d (suc (suc (suc (suc zero)))) absent h =
    (_, _, _, refl, restore-write new.fact_id new.file d.facts absent)
journalled tid new (i ∷ intro) merged d (suc (suc (suc (suc (suc zero))))) absent h = cc
journalled tid new (i ∷ intro) merged d (suc (suc (suc (suc (suc (suc k)))))) absent h = cc (
  h,
  ap
      (λ l.
        is_some
          (apply_all l (
            with_parts d (write new.fact_id new.file d.facts) (some (sorted_items merged)) none none
              none)).pending_add)
      (take_nil {A = AddStep} k),
)
