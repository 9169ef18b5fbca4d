-- ===== src/Core/Graph/Revoke/Markers.antt =====
-- danus/core/factgraph.py: a revocation leaves the markers of an addition as they are.
use danus.Base.{
  ℕ, take, String, Bool, true, false, ◌≡◌, ◌∙◌, subst, Option, none, some, List, [], ◌∷◌, arith,
}
use danus.Base.Assoc.{lookup}
use danus.Base.Result.{ok, >>=-eq-ok, ok_injective}
use danus.Core.Graph.Disk.{FactFile, Disk, IsAtRest, exists}
use danus.Core.Graph.Revoke.{
  Step, write_pending_revocation, write_glossary, move_fact, write_log, unlink_pending_revocation,
  move, perform, run, resume_steps, resume_pending_revocation,
}
use danus.Core.Graph.Revoke.Resume.{interrupt, interrupt_all}
use danus.Core.Graph.Revoke.Steps.{run-cons, run_nil}

-- A revocation leaves the markers of an addition.
abbrev SameMarkers : Disk → Disk → Type 0
SameMarkers d m =
    (m.pending_add ≡ d.pending_add)
    × (m.pending_add_commit ≡ d.pending_add_commit)
    × (m.pending_add_abort ≡ d.pending_add_abort)

move-SameMarkers :
    (id : String) (o : Option FactFile) (b : Bool) (d m : Disk)
    → move id o b d ≡ ok m
    → SameMarkers d m
unfolding move
move-SameMarkers id (some f) true d m h = cc
move-SameMarkers id (some f) false d m h = ground (arith, h)
move-SameMarkers id none true d m h = ground (arith, h)
move-SameMarkers id none false d m h = cc

perform-SameMarkers : (s : Step) (d m : Disk) → perform s d ≡ ok m → SameMarkers d m
unfolding perform
perform-SameMarkers (write_pending_revocation p) d m h = ground (arith, h)
perform-SameMarkers (write_glossary g) d m h = ground (arith, h)
perform-SameMarkers (move_fact id) d m h =
    move-SameMarkers id (lookup id d.facts) (exists id d.revoked) d m h
perform-SameMarkers (write_log p) d m h = ground (arith, h)
perform-SameMarkers unlink_pending_revocation d m h = ground (arith, h)

run-IsAtRest : (steps : List Step) (d m : Disk) → run steps d ≡ ok m → IsAtRest d → IsAtRest m
run-IsAtRest [] d m h rest = subst IsAtRest (run_nil d m h) rest
run-IsAtRest (s ∷ steps) d m h rest =
    let (u, first, more) = run-cons s steps d m h in
    let (a, b, c) = perform-SameMarkers s d u first in
    run-IsAtRest steps u m more (a ∙ rest.0, b ∙ rest.1, c ∙ rest.2)

pub resume-IsAtRest : (d m : Disk) → resume_pending_revocation d ≡ ok m → IsAtRest d → IsAtRest m
unfolding resume_pending_revocation
resume-IsAtRest d m h rest =
    let (steps, _, ran) = >>=-eq-ok (resume_steps d d.pending_revocation) _ h in
    run-IsAtRest steps d m ran rest

pub interrupts-IsAtRest :
    (ks : List ℕ) (d m : Disk) → interrupt_all ks d ≡ ok m → IsAtRest d → IsAtRest m
unfolding interrupt_all interrupt
interrupts-IsAtRest [] d m h rest = subst IsAtRest (ok_injective h) rest
interrupts-IsAtRest (k ∷ ks) d m h rest =
    let (u, first, more) = >>=-eq-ok (interrupt k d) (interrupt_all ks) h in
    let (steps, _, ran) = >>=-eq-ok (resume_steps d d.pending_revocation) _ first in
    interrupts-IsAtRest ks u m more (run-IsAtRest (take k steps) d u ran rest)
