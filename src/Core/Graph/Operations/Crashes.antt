-- ===== src/Core/Graph/Operations/Crashes.antt =====
-- danus/core/factgraph.py: what holds of the graph after any sequence of operations and crashes.
use danus.Base.{
  ℕ, take, String, true, ◌≡◌, ◌∙◌, sym, ap, subst, List, if◌then◌else◌, is_some, Bool-cases, inl,
  inr, if_true, if_false,
}
use danus.Base.Result.{ok, ◌>>=◌, ok_injective}
use danus.Core.Graph.Disk.{Glossary, Disk, IsAtRest, exists}
use danus.Core.Graph.Revoke.{resume_pending_revocation, revoke_unlocked}
use danus.Core.Graph.Revoke.Markers.{interrupts-IsAtRest}
use danus.Core.Graph.Revoke.Resume
use danus.Core.Graph.Revoke.Resume.{revocation_survives_crashes}
use danus.Core.Graph.Add.Undone
use danus.Core.Graph.Add.Atomic.{add_is_all_or_nothing, aborted_add_is_undone, abort}
use danus.Core.Graph.Add.Stages.{has_committed}
use danus.Core.Graph.Revoke.Effect.{revoke-eq-ok, some_journal}
use danus.Core.Graph.Add.{NewFact, AddStep, plan_add, apply_all, rollback_pending_add}
use danus.Core.Graph.Operations.{recover_pending_transactions, add, revoke}
use danus.Core.Graph.Operations.Sound.{
  IsSound, rollback_nothing, add-IsSound, revoke-IsSound, recover-IsSound, added-IsSound,
  revoked-IsSound,
}

-- What can happen to the graph: an operation that returns; or the end of the process within one,
-- after any number of its steps, and within any number of the recoveries that follow, and then a
-- recovery that returns. `new` can be any fact.
pub data Event (global : Glossary) (d : Disk) : Disk → Type 0 where
  added :
      (tid : String) (new : NewFact) (id : String) {e : Disk}
      → add global tid new d ≡ ok (id, e)
      → Event global d e
  revoked :
      (rid time fact_id reason : String) (ids : List String) {e : Disk}
      → revoke global rid time fact_id reason d ≡ ok (ids, e)
      → Event global d e
  crashed_in_add :
      (tid : String) (new : NewFact) (steps : List AddStep) (k : ℕ) (ks : List ℕ) {m e : Disk}
      → plan_add global tid new d ≡ ok steps
      → Undone.interrupt_all global ks (apply_all (take k steps) d) ≡ ok m
      → recover_pending_transactions global m ≡ ok e
      → Event global d e
  aborted_add :
      (tid : String) (new : NewFact) (steps : List AddStep) (k : ℕ) (ks : List ℕ) {m e : Disk}
      → plan_add global tid new d ≡ ok steps
      → is_some (apply_all (take k steps) d).pending_add ≡ true
      → Undone.interrupt_all global ks (abort tid new (apply_all (take k steps) d)) ≡ ok m
      → recover_pending_transactions global m ≡ ok e
      → Event global d e
  crashed_in_revoke :
      (rid time fact_id reason : String) (ids : List String) (ks : List ℕ) {m f e : Disk}
      → exists fact_id d.facts ≡ true
      → revoke_unlocked rid time fact_id reason d ≡ ok (ids, f)
      → Resume.interrupt_all ks (some_journal rid time fact_id reason ids d) ≡ ok m
      → recover_pending_transactions global m ≡ ok e
      → Event global d e

pub data Reached (global : Glossary) (d : Disk) : Disk → Type 0 where
  start : Reached global d d
  next : {m e : Disk} → Reached global d m → Event global m e → Reached global d e

Event-IsSound : (global : Glossary) (d e : Disk) → IsSound d → Event global d e → IsSound e
unfolding ◌>>=◌ recover_pending_transactions
Event-IsSound global d e s (added tid new id h) = added-IsSound global tid new id d e s h
Event-IsSound global d e s (revoked rid time fact_id reason ids h) =
    revoked-IsSound global rid time fact_id reason d e ids s h
Event-IsSound global d e s (crashed_in_add tid new steps k ks {m} planned cut h) =
    let whole = add_is_all_or_nothing global tid new d steps k ks s.at_rest planned in
    let back : rollback_pending_add global m
        ≡ ok (if has_committed (take k steps) then apply_all steps d else d) =
      ap (λ r. r >>= rollback_pending_add global) (sym cut) ∙ whole in
    elim (Bool-cases (has_committed (take k steps))) [
      | inl kept ↦
          recover-IsSound global m (apply_all steps d) e
            (add-IsSound global tid new d steps s planned) (back ∙ ap ok (if_true _ _ kept)) h
      | inr lost ↦ recover-IsSound global m d e s (back ∙ ap ok (if_false _ _ lost)) h
    ]
Event-IsSound global d e s (aborted_add tid new steps k ks {m} planned journal cut h) =
    recover-IsSound global m d e s
      (ap (λ r. r >>= rollback_pending_add global) (sym cut)
        ∙ aborted_add_is_undone global tid new d steps k ks s.at_rest planned journal)
      h
Event-IsSound global d e s
      (crashed_in_revoke rid time fact_id reason ids ks {m} {f} active whole cut h) =
    let (out, found, resumed, same) = revoke-eq-ok rid time fact_id reason d f ids active whole in
    let cut' =
      subst (λ l. Resume.interrupt_all ks (some_journal rid time fact_id reason l d) ≡ ok m) same
        cut in
    let ends : resume_pending_revocation m ≡ ok f =
      revocation_survives_crashes ks _ m f resumed cut' in
    let rest : IsAtRest m = interrupts-IsAtRest ks _ m cut' s.at_rest in
    let there : ok f ≡ ok e =
      sym ends
      ∙ ap (λ r. r >>= resume_pending_revocation) (sym (rollback_nothing global m rest))
      ∙ h in
    subst IsSound (ok_injective there) (revoke-IsSound rid time fact_id reason d f ids s whole)

-- Let every predecessor of an active fact be active, no fact be both active and revoked, and nothing
-- be under way, as in an empty graph. It is so after any sequence of additions and revocations that
-- return and of crashes within them that a recovery follows.
pub Reached-IsSound : (global : Glossary) (d e : Disk) → IsSound d → Reached global d e → IsSound e
Reached-IsSound global d e s start = s
Reached-IsSound global d e s (next {m} reached event) =
    Event-IsSound global m e (Reached-IsSound global d m s reached) event
