-- ===== src/Core/Graph/Operations/Sound.antt =====
-- danus/core/factgraph.py: an operation on a sound graph leaves a sound graph.
use danus.Base.{
  String, true, false, ◌≡◌, ◌∙◌, sym, ap, refl, subst, none, List, ◌==◌, eq_iff, arith, Bool-cases,
  inl, inr,
}
use danus.Base.Names.{contains}
use danus.Base.Result.{ok, ◌>>=◌, >>=-eq-ok, ok_injective}
use danus.Core.Graph.Disk.{Glossary, Disk, IsAtRest, exists}
use danus.Core.Graph.Disk.Laws.{exists-write}
use danus.Core.Graph.Revoke.{run, resume_steps, resume_pending_revocation, revoke_unlocked}
use danus.Core.Graph.Revoke.Markers.{resume-IsAtRest}
use danus.Core.Graph.Revoke.Effect.{
  IsClosed, revoke_takes_dependents, revoke-IsClosed, revoke_again, revoke-eq-ok,
}
use danus.Core.Graph.Add.{
  NewFact, AddStep, plan_add, apply_all, add_unlocked, rollback_pending_add, rollback_steps,
  prepared_steps,
}
use danus.Core.Graph.Add.Effect.{added_disk, add-IsClosed, add_takes_effect}
use danus.Core.Graph.Operations.{
  recover_pending_transactions, add, recovered_ids, revoke_recovered, revoke,
}

-- Every predecessor of an active fact is active, no fact is both active and revoked, and nothing is
-- under way.
pub record IsSound (d : Disk) : Type 0 where
  pub closed : IsClosed d.facts
  pub separate : (x : String) → exists x d.facts ≡ true → exists x d.revoked ≡ false
  pub at_rest : IsAtRest d
  pub over : d.pending_revocation ≡ none

-- With nothing under way, a recovery does nothing.
pub rollback_nothing :
    (global : Glossary) (d : Disk) → IsAtRest d → rollback_pending_add global d ≡ ok d
unfolding rollback_pending_add rollback_steps prepared_steps apply_all ◌>>=◌
rollback_nothing global d (p, c, a) = rw a (rw c (rw p refl))

recover_nothing :
    (global : Glossary) (d : Disk) → IsSound d → recover_pending_transactions global d ≡ ok d
unfolding recover_pending_transactions resume_pending_revocation resume_steps run ◌>>=◌
recover_nothing global d h = rw (rollback_nothing global d h.at_rest) (rw h.over refl)

pub add-IsSound :
    (global : Glossary) (tid : String) (new : NewFact) (d : Disk) (steps : List AddStep)
    → IsSound d
    → plan_add global tid new d ≡ ok steps
    → IsSound (apply_all steps d)
add-IsSound global tid new d steps s h = elim (added_disk global tid new d steps s.at_rest h) [
  | inl (active, same) ↦ subst IsSound (sym same) s
  | inr (absent, unrevoked, glossary, shape) ↦ record {
    closed = add-IsClosed global tid new d steps s.at_rest s.closed h;
    separate = λ x a. elim (Bool-cases (new.fact_id == x)) [
      | inl same ↦ ground (arith, shape, same, eq_iff new.fact_id x, unrevoked)
      | inr other ↦
          ground (arith, shape, other, s.separate x, a, exists-write new.fact_id x new.file d.facts)
    ];
    at_rest = (add_takes_effect global tid new d steps s.at_rest h).4;
    over = ap (λ u. u.pending_revocation) shape ∙ s.over;
  }
]

pub revoke-IsSound :
    (rid time fact_id reason : String) (d e : Disk) (ids : List String)
    → IsSound d
    → revoke_unlocked rid time fact_id reason d ≡ ok (ids, e)
    → IsSound e
unfolding exists
revoke-IsSound rid time fact_id reason d e ids s h = elim (Bool-cases (exists fact_id d.facts)) [
  | inl active ↦
      let has = (revoke_takes_dependents rid time fact_id reason d e ids active h).0 in
      let (out, found, resumed, same) = revoke-eq-ok rid time fact_id reason d e ids active h in
      record {
        closed = revoke-IsClosed rid time fact_id reason d e ids s.closed h;
        separate = λ x a. elim (Bool-cases (contains x ids)) [
          | inl taken ↦ cc (a, (has.gone x taken).0)
          | inr kept ↦ ground (arith, a, s.separate x, has.rest x kept)
        ];
        at_rest = resume-IsAtRest _ e resumed s.at_rest;
        over = has.over;
      }
  | inr idle ↦ subst IsSound (revoke_again rid time fact_id reason d e ids idle h) s
]

-- A recovery of a disk on which the roll-back leads to a sound one.
pub recover-IsSound :
    (global : Glossary) (m d e : Disk)
    → IsSound d
    → rollback_pending_add global m ≡ ok d
    → recover_pending_transactions global m ≡ ok e
    → IsSound e
unfolding recover_pending_transactions resume_pending_revocation resume_steps run ◌>>=◌
recover-IsSound global m d e s back h =
    let nothing : resume_pending_revocation d ≡ ok d = rw s.over refl in
    subst IsSound
      (ok_injective (sym nothing ∙ sym (ap (λ r. r >>= resume_pending_revocation) back) ∙ h)) s

pub added-IsSound :
    (global : Glossary) (tid : String) (new : NewFact) (id : String) (d e : Disk)
    → IsSound d
    → add global tid new d ≡ ok (id, e)
    → IsSound e
unfolding add add_unlocked ◌>>=◌
added-IsSound global tid new id d e s h =
    let h' : add_unlocked global tid new d ≡ ok (id, e) =
      sym (ap (λ r. r >>= add_unlocked global tid new) (recover_nothing global d s)) ∙ h in
    let (steps, planned, pair) = >>=-eq-ok (plan_add global tid new d) _ h' in
    subst IsSound (ap (λ r. r.1) (ok_injective pair)) (add-IsSound global tid new d steps s planned)

pub revoked-IsSound :
    (global : Glossary) (rid time fact_id reason : String) (d e : Disk) (ids : List String)
    → IsSound d
    → revoke global rid time fact_id reason d ≡ ok (ids, e)
    → IsSound e
unfolding revoke recovered_ids revoke_recovered ◌>>=◌
revoked-IsSound global rid time fact_id reason d e ids s h =
    revoke-IsSound rid time fact_id reason d e ids s
      (sym (rw (recover_nothing global d s) (rw s.over refl)) ∙ h)
