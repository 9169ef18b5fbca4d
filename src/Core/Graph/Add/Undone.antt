-- ===== src/Core/Graph/Add/Undone.antt =====
-- danus/core/factgraph.py: the states of an addition that a recovery undoes.
use danus.Base.{
  ℕ, zero, suc, take, take_nil, true, ◌≡◌, ◌∙◌, ap, refl, Option, none, some, List, [], ◌∷◌, inl,
  inr, ◌⊎◌,
}
use danus.Base.Result.{Result, ok, ◌>>=◌, ◌>>◌, require}
use danus.Core.Graph.Disk.{Glossary, Directory, PreparedAdd, CommittedAdd, AbortedAdd, Disk}
use danus.Core.Graph.Add.{
  AddStep, restore_fact, restore_glossary, unlink_prepared, unlink_commit, unlink_abort, restore,
  apply, apply_all, is_snapshot_of, aborted_steps, prepared_steps, rollback_steps,
  rollback_pending_add,
}

-- A recovery that ends after a number of its steps, and several in a row.
unfoldable pub interrupt : Glossary → ℕ → Disk → Result Disk
unfolding rollback_steps apply_all
interrupt global k d = rollback_steps global d d.pending_add_abort d.pending_add_commit >>= λ steps.
    ok (apply_all (take k steps) d)

unfoldable pub interrupt_all : Glossary → List ℕ → Disk → Result Disk
unfolding interrupt
interrupt_all global [] d = ok d
interrupt_all global (k ∷ ks) d = interrupt global k d >>= interrupt_all global ks

-- The disk `d` with another state of the parts that an addition writes.
abbrev pub with_parts :
    Disk
    → Directory
    → Option Glossary
    → Option PreparedAdd
    → Option CommittedAdd
    → Option AbortedAdd
    → Disk
with_parts d facts glossary pending commit abort = record d {
  facts = facts;
  glossary = glossary;
  pending_add = pending;
  pending_add_commit = commit;
  pending_add_abort = abort;
}

-- The additions of `p` that are undone on `d`.
module _ (global : Glossary) (d : Disk) (p : PreparedAdd)
    (before : p.previous_glossary ≡ d.glossary)
    (absent : restore p.fact_id p.previous_fact d.facts ≡ d.facts) where
  -- Nothing of `p` is left; or its journal is there, the fact is written or not, and the glossary
  -- is anything; or there is a journal that asks for the roll-back.
  abbrev pub Doubtful : Disk → Type 0
  Doubtful m =
      (m ≡ with_parts d d.facts d.glossary none none none)
      ⊎ (((facts : Directory) × (glossary : Option Glossary) × (m
              ≡ with_parts d facts glossary (some p) none none)
            × (restore p.fact_id p.previous_fact facts ≡ d.facts))
          ⊎ ((a : AbortedAdd) × (facts : Directory) × (glossary : Option Glossary)
              × (commit : Option CommittedAdd) × (m
                  ≡ with_parts d facts glossary (some p) commit (some a))
              × (restore p.fact_id p.previous_fact facts ≡ d.facts)
              × (is_snapshot_of a p ≡ true)))

  pub clean-Doubtful : Doubtful (with_parts d d.facts d.glossary none none none)
  clean-Doubtful = inl refl

  pub open-Doubtful :
      (facts : Directory) (glossary : Option Glossary)
      → restore p.fact_id p.previous_fact facts ≡ d.facts
      → Doubtful (with_parts d facts glossary (some p) none none)
  open-Doubtful facts glossary h = inr (inl (facts, glossary, refl, h))

  pub aborted-Doubtful :
      (a : AbortedAdd) (facts : Directory) (glossary : Option Glossary)
      (commit : Option CommittedAdd)
      → restore p.fact_id p.previous_fact facts ≡ d.facts
      → is_snapshot_of a p ≡ true
      → Doubtful (with_parts d facts glossary (some p) commit (some a))
  aborted-Doubtful a facts glossary commit h s = inr (inr (a, facts, glossary, commit, refl, h, s))

  -- the part of `_restore_pending_add_snapshot_unlocked` that is done in `k` steps
  interrupt_open :
      (k : ℕ) (facts : Directory) (glossary : Option Glossary)
      → restore p.fact_id p.previous_fact facts ≡ d.facts
      → Doubtful (
          apply_all
            (take k (prepared_steps (some p)))
            (with_parts d facts glossary (some p) none none))
  unfolding apply_all apply prepared_steps
  interrupt_open zero facts glossary h = open-Doubtful facts glossary h
  interrupt_open (suc zero) facts glossary h =
      open-Doubtful (restore p.fact_id p.previous_fact facts) glossary
        (ap (restore p.fact_id p.previous_fact) h ∙ absent)
  interrupt_open (suc (suc zero)) facts glossary h =
      open-Doubtful (restore p.fact_id p.previous_fact facts) p.previous_glossary
        (ap (restore p.fact_id p.previous_fact) h ∙ absent)
  interrupt_open (suc (suc (suc k))) facts glossary h =
      inl (rw (take_nil {A = AddStep} k) (rw h (rw before refl)))

  interrupt_aborted :
      (k : ℕ) (a : AbortedAdd) (facts : Directory) (glossary : Option Glossary)
      (commit : Option CommittedAdd)
      → restore p.fact_id p.previous_fact facts ≡ d.facts
      → is_snapshot_of a p ≡ true
      → Doubtful (
          apply_all
            (take k (
              unlink_commit
              ∷ restore_fact p
              ∷ restore_glossary p
              ∷ unlink_abort
              ∷ unlink_prepared
              ∷ []))
            (with_parts d facts glossary (some p) commit (some a)))
  unfolding apply_all apply
  interrupt_aborted zero a facts glossary commit h s = aborted-Doubtful a facts glossary commit h s
  interrupt_aborted (suc zero) a facts glossary commit h s =
      aborted-Doubtful a facts glossary none h s
  interrupt_aborted (suc (suc zero)) a facts glossary commit h s =
      aborted-Doubtful a (restore p.fact_id p.previous_fact facts) glossary none
        (ap (restore p.fact_id p.previous_fact) h ∙ absent) s
  interrupt_aborted (suc (suc (suc zero))) a facts glossary commit h s =
      aborted-Doubtful a (restore p.fact_id p.previous_fact facts) p.previous_glossary none
        (ap (restore p.fact_id p.previous_fact) h ∙ absent) s
  interrupt_aborted (suc (suc (suc (suc zero)))) a facts glossary commit h s =
      open-Doubtful (restore p.fact_id p.previous_fact facts) p.previous_glossary
        (ap (restore p.fact_id p.previous_fact) h ∙ absent)
  interrupt_aborted (suc (suc (suc (suc (suc k))))) a facts glossary commit h s =
      inl (rw (take_nil {A = AddStep} k) (rw h (rw before refl)))

  pub rollback-Doubtful :
      (m : Disk)
      → Doubtful m
      → rollback_pending_add global m ≡ ok (with_parts d d.facts d.glossary none none none)
  unfolding rollback_pending_add rollback_steps prepared_steps aborted_steps apply_all apply ◌>>=◌
      ◌>>◌ require
  rollback-Doubtful m (inl e) = rw e refl
  rollback-Doubtful m (inr (inl (facts, glossary, e, h))) = rw e (rw h (rw before refl))
  rollback-Doubtful m (inr (inr (a, facts, glossary, commit, e, h, s))) =
      rw e (rw s (rw h (rw before refl)))

  pub interrupt-Doubtful :
      (k : ℕ) (m : Disk) → Doubtful m → (u : Disk) × (interrupt global k m ≡ ok u) × Doubtful u
  unfolding interrupt rollback_steps prepared_steps aborted_steps apply_all ◌>>=◌ ◌>>◌ require
  interrupt-Doubtful k m (inl e) = (
    with_parts d d.facts d.glossary none none none,
    rw e (rw (take_nil {A = AddStep} k) refl),
    inl refl,
  )
  interrupt-Doubtful k m (inr (inl (facts, glossary, e, h))) =
      (_, rw e refl, interrupt_open k facts glossary h)
  interrupt-Doubtful k m (inr (inr (a, facts, glossary, commit, e, h, s))) =
      (_, rw e (rw s refl), interrupt_aborted k a facts glossary commit h s)
