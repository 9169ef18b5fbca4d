-- ===== src/Core/Graph/Add/Kept.antt =====
-- danus/core/factgraph.py: the states of an addition that a recovery keeps.
use danus.Base.{
  ℕ, zero, suc, take, take_nil, true, false, ◌≡◌, refl, Option, none, some, [], ◌∷◌, inl, inr, ◌⊎◌,
}
use danus.Base.Assoc.{lookup}
use danus.Base.Result.{ok, ◌>>=◌, ◌>>◌, require}
use danus.Core.Graph.Disk.{Glossary, Directory, PreparedAdd, CommittedAdd, Disk, exists}
use danus.Core.Graph.Add.{
  AddStep, unlink_prepared, unlink_commit, apply, apply_all, same_glossary, agrees, holds_fact,
  can_read, validate_committed_add, prepared_steps, rollback_steps, rollback_pending_add,
}
use danus.Core.Graph.Add.Undone.{interrupt, with_parts}

-- The addition that `c` commits, on the disk `d`, with the facts and the glossary that it leaves.
module _ (global : Glossary) (d : Disk) (c : CommittedAdd) (facts : Directory)
    (glossary : Option Glossary) (written : holds_fact (lookup c.fact_id facts) c ≡ true)
    (unrevoked : exists c.fact_id d.revoked ≡ false)
    (merged : same_glossary glossary c.expected_glossary ≡ true)
    (readable : can_read global c.expected_glossary glossary ≡ true) where
  -- The marker of the commit is there, or nothing is left to do.
  abbrev pub Settled : Disk → Type 0
  Settled m =
      (m ≡ with_parts d facts glossary none none none)
      ⊎ ((pending : Option PreparedAdd) × (m ≡ with_parts d facts glossary pending (some c) none)
          × (agrees pending c ≡ true))

  valid :
      (pending : Option PreparedAdd)
      → agrees pending c ≡ true
      → validate_committed_add global (with_parts d facts glossary pending (some c) none) c ≡ ok tt
  unfolding validate_committed_add require
  valid pending h = rw h (rw written (rw unrevoked (rw merged (rw readable refl))))

  pub rollback-Settled :
      (m : Disk)
      → Settled m
      → rollback_pending_add global m ≡ ok (with_parts d facts glossary none none none)
  unfolding rollback_pending_add rollback_steps prepared_steps apply_all apply ◌>>=◌ ◌>>◌
  rollback-Settled m (inl e) = rw e refl
  rollback-Settled m (inr (pending, e, h)) = rw e (rw (valid pending h) refl)

  interrupt_committed :
      (k : ℕ) (pending : Option PreparedAdd)
      → agrees pending c ≡ true
      → Settled (
          apply_all
            (take k (unlink_prepared ∷ unlink_commit ∷ []))
            (with_parts d facts glossary pending (some c) none))
  unfolding apply_all apply agrees
  interrupt_committed zero pending h = inr (pending, refl, h)
  interrupt_committed (suc zero) pending h = inr (none, refl, refl)
  interrupt_committed (suc (suc k)) pending h = inl (rw (take_nil {A = AddStep} k) refl)

  pub interrupt-Settled :
      (k : ℕ) (m : Disk) → Settled m → (u : Disk) × (interrupt global k m ≡ ok u) × Settled u
  unfolding interrupt rollback_steps prepared_steps apply_all ◌>>=◌ ◌>>◌
  interrupt-Settled k m (inl e) = (
    with_parts d facts glossary none none none,
    rw e (rw (take_nil {A = AddStep} k) refl),
    inl refl,
  )
  interrupt-Settled k m (inr (pending, e, h)) =
      (_, rw e (rw (valid pending h) refl), interrupt_committed k pending h)
