-- ===== src/Core/Graph/Add/Atomic.antt =====
-- danus/core/factgraph.py: an addition that is interrupted happens whole or not at all.
use danus.Base.{
  ℕ, take, take_nil, String, true, false, ◌≡◌, sym, refl, subst, Option, none, List, [], ◌∷◌,
  eq_refl, if◌then◌else◌, is_some, inl, inr,
}
use danus.Base.Assoc.{lookup}
use danus.Base.Result.{ok, ◌>>=◌}
use danus.Core.Graph.Disk.{IsAtRest, Glossary, Disk, exists}
use danus.Core.Graph.Glossaries.{prepare_glossary_merge}
use danus.Core.Graph.Add.{
  AddStep, write_abort, apply, apply_all, is_snapshot_of, prepared_steps, rollback_steps,
  rollback_pending_add, NewFact, prepared, aborted, expected_glossary, plan_add,
}
use danus.Core.Graph.Add.Undone.{interrupt, interrupt_all, aborted-Doubtful}
use danus.Core.Graph.Add.Stages.{has_committed, restore_lem, start, recover-Outcome}
use danus.Core.Graph.Add.Plans.{
  at_rest, steps_of, all_steps, after, readable_lem, plan-eq-ok, journalled,
}

rest-recover :
    (global : Glossary) (ks : List ℕ) (d : Disk)
    → interrupt_all global ks (start d) >>= rollback_pending_add global ≡ ok (start d)
unfolding interrupt_all interrupt rollback_pending_add rollback_steps prepared_steps apply_all ◌>>=◌
rest-recover global [] d = refl
rest-recover global (k ∷ ks) d = rw (take_nil {A = AddStep} k) (rest-recover global ks d)

abbrev Recovers : Glossary → List ℕ → ℕ → List AddStep → Disk → Disk → Type 0
Recovers global ks k steps d e =
    interrupt_all global ks (apply_all (take k steps) d) >>= rollback_pending_add global
    ≡ ok (if has_committed (take k steps) then apply_all steps e else e)

-- Let no addition be under way, and the tests of a new one pass. If the process ends after any
-- number of the addition's steps, and ends again within each of the recoveries that follow, then
-- the next recovery returns. It leads to the disk after the whole addition if the marker of the
-- commit had been written, and to the disk before the addition if not.
pub add_is_all_or_nothing :
    (global : Glossary) (tid : String) (new : NewFact) (d : Disk) (steps : List AddStep) (k : ℕ)
    (ks : List ℕ)
    → IsAtRest d
    → plan_add global tid new d ≡ ok steps
    → interrupt_all global ks (apply_all (take k steps) d) >>= rollback_pending_add global
      ≡ ok (if has_committed (take k steps) then apply_all steps d else d)
unfolding apply_all has_committed
add_is_all_or_nothing global tid new d steps k ks rest h =
    elim (plan-eq-ok global tid new d steps h) [
      | inl (active, none_left) ↦ rw none_left (
          rw (take_nil {A = AddStep} k) (
            subst (λ u. interrupt_all global ks u >>= rollback_pending_add global ≡ ok u)
              (sym (at_rest d rest)) (rest-recover global ks d)))
      | inr (absent, unrevoked, merged, prepares, shape) ↦
          let intro = new.file.glossary_introduces in
          let readable = readable_lem global intro merged d.glossary prepares in
          let planned = steps_of tid new intro merged d in
          let whole =
            recover-Outcome global tid new d absent unrevoked _ readable ks _ _
              (after global tid new intro merged d absent unrevoked readable k) in
          subst (λ u. Recovers global ks k steps u u) (sym (at_rest d rest))
            (subst (λ l. Recovers global ks k l (start d) (start d)) (sym shape)
              (subst
                (λ e.
                  interrupt_all global ks (apply_all (take k planned) (start d))
                    >>= rollback_pending_add global
                  ≡ ok (if has_committed (take k planned) then e else start d))
                (sym (all_steps tid new intro merged d)) whole))
    ]

abbrev pub abort : String → NewFact → Disk → Disk
abort tid new = apply (write_abort (aborted tid new))

marker_of_journal :
    (tid : String) (new : NewFact) (d : Disk) (expected : Option Glossary)
    → is_snapshot_of (aborted tid new) (prepared tid new d expected) ≡ true
unfolding is_snapshot_of
marker_of_journal tid new d expected = rw (eq_refl tid) (eq_refl new.fact_id)

undone :
    (global : Glossary) (tid : String) (new : NewFact) (merged : Glossary) (d : Disk) (k : ℕ)
    (ks : List ℕ)
    → lookup new.fact_id d.facts ≡ none
    → exists new.fact_id d.revoked ≡ false
    → prepare_glossary_merge global d.glossary new.file.glossary_introduces ≡ ok merged
    → is_some
        (apply_all
          (take k (steps_of tid new new.file.glossary_introduces merged d))
          (start d)).pending_add
      ≡ true
    → interrupt_all global ks (
          abort tid new
            (apply_all (take k (steps_of tid new new.file.glossary_introduces merged d)) (start d)))
        >>= rollback_pending_add global
      ≡ ok (start d)
unfolding apply
undone global tid new merged d k ks absent unrevoked prepares h =
    let intro = new.file.glossary_introduces in
    let (facts, glossary, commit, same, restores) = journalled tid new intro merged d k absent h in
    let expected = expected_glossary intro merged d.glossary in
    subst
      (λ m.
        interrupt_all global ks (abort tid new m) >>= rollback_pending_add global ≡ ok (start d))
      (sym same)
      (recover-Outcome global tid new d absent unrevoked expected
        (readable_lem global intro merged d.glossary prepares) ks false _
        (aborted-Doubtful global d (prepared tid new d expected) refl
          (restore_lem new.fact_id d.facts absent) (aborted tid new) facts glossary commit restores
          (marker_of_journal tid new d expected)))

abbrev Undone : Glossary → List ℕ → ℕ → String → NewFact → List AddStep → Disk → Disk → Type 0
Undone global ks k tid new steps d e =
    is_some (apply_all (take k steps) d).pending_add ≡ true
    → interrupt_all global ks (abort tid new (apply_all (take k steps) d))
        >>= rollback_pending_add global
      ≡ ok e

-- Let no addition be under way, the tests of a new one pass, and the write of its commit marker, or
-- a step before it, fail, so that the marker that asks for the roll-back is written while the
-- journal is there, whether the commit marker can be seen or not. If the process ends within any
-- number of the recoveries that follow, the next one returns, and leads to the disk before the
-- addition.
pub aborted_add_is_undone :
    (global : Glossary) (tid : String) (new : NewFact) (d : Disk) (steps : List AddStep) (k : ℕ)
    (ks : List ℕ)
    → IsAtRest d
    → plan_add global tid new d ≡ ok steps
    → is_some (apply_all (take k steps) d).pending_add ≡ true
    → interrupt_all global ks (abort tid new (apply_all (take k steps) d))
        >>= rollback_pending_add global
      ≡ ok d
unfolding ◌>>=◌ interrupt_all
aborted_add_is_undone global tid new d steps k ks rest h journal =
    elim (plan-eq-ok global tid new d steps h) [
      | inl (active, none_left) ↦ cc (journal, rest.0, none_left, take_nil {A = AddStep} k)
      | inr (absent, unrevoked, merged, prepares, shape) ↦
          subst (λ u. Undone global ks k tid new steps u u) (sym (at_rest d rest))
            (subst (λ l. Undone global ks k tid new l (start d) (start d)) (sym shape)
              (undone global tid new merged d k ks absent unrevoked prepares))
            journal
    ]
