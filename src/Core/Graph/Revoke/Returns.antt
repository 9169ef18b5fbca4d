-- ===== src/Core/Graph/Revoke/Returns.antt =====
-- danus/core/factgraph.py: a revocation of an active fact returns.
use danus.Base.{
  String, Bool, true, false, not, ◌≡◌, refl, Option, none, some, List, [], ◌∷◌, ◌++◌, eq_refl,
  is_some, arith,
}
use danus.Base.Assoc.{lookup, erase}
use danus.Base.Names.{contains}
use danus.Base.Result.{ok, ◌>>=◌, or_raise}
use danus.Core.Graph.Disk.{Glossary, FactFile, Directory, PendingRevocation, Disk, exists, write}
use danus.Core.Graph.Disk.Laws.{exists-write, exists-erase}
use danus.Core.Graph.Descendants.{descendants_unchecked}
use danus.Core.Graph.Descendants.Edges.{Depends, here, step}
use danus.Core.Graph.Descendants.Correct.{cons-Depends}
use danus.Core.Graph.Glossaries.{active_glossary_excluding, sorted_items}
use danus.Core.Graph.Revoke.{
  Step, write_log, unlink_pending_revocation, move, perform, run, cascade, journal, resume_steps,
  resume_pending_revocation, revoke_unlocked,
}
use danus.Core.Graph.Revoke.Resume.{moves}
use danus.Core.Graph.Revoke.Effect.{some_journal}

-- A fact is in one of the two directories.
abbrev IsPlaced : Disk → String → Type 0
IsPlaced d x = exists x d.facts ≡ not (exists x d.revoked)

move_returns :
    (id : String) (o : Option FactFile) (b : Bool) (d : Disk)
    → o ≡ lookup id d.facts
    → is_some o ≡ not b
    → b ≡ exists id d.revoked
    → (e : Disk) × (move id o b d ≡ ok e) × ((x : String) → IsPlaced d x → IsPlaced e x)
unfolding move exists
move_returns id (some f) true d e h r = cc
move_returns id (some f) false d e h r = (
  record d { facts = erase id d.facts; revoked = write id f d.revoked },
  refl,
  λ x k. ground (arith, k, exists-erase id x d.facts, exists-write id x f d.revoked),
)
move_returns id none true d e h r = (d, refl, λ x k. k)
move_returns id none false d e h r = cc

moves_return :
    (ids : List String) (steps : List Step) (d : Disk)
    → ((x : String) → contains x ids ≡ true → IsPlaced d x)
    → ((u : Disk) → (e : Disk) × (run steps u ≡ ok e))
    → (e : Disk) × (run (moves ids ++ steps) d ≡ ok e)
unfolding contains run perform ◌>>=◌
moves_return [] steps d placed after = after d
moves_return (id ∷ ids) steps d placed after =
    let (u, moved, keeps) =
      move_returns id (lookup id d.facts) (exists id d.revoked) d refl
        (placed id (ground (arith, eq_refl id))) refl in
    let (e, rest) =
      moves_return ids steps u (λ x m. keeps x (placed x (ground (arith, m)))) after in
    (e, rw moved rest)

cascade_returns :
    (p : PendingRevocation) (g : Glossary) (d : Disk)
    → ((x : String) → contains x p.fact_ids ≡ true → IsPlaced d x)
    → (e : Disk) × (run (cascade p g) d ≡ ok e)
unfolding cascade run perform ◌>>=◌
cascade_returns p g d placed =
    moves_return p.fact_ids (write_log p ∷ unlink_pending_revocation ∷ [])
      (record d { glossary = some g }) placed (λ u. (_, refl))

-- What depends on an active fact is active.
Depends-active :
    (files : Directory) (root x : String)
    → exists root files ≡ true
    → Depends files root x
    → exists x files ≡ true
Depends-active files root x h here = h
Depends-active files root x h (step before direct) = direct.0

-- Let a fact be active, let no active fact be revoked too, and let the glossary of the facts that do
-- not depend on it be rebuilt without conflict. Then its revocation returns the fact and what the
-- search has found.
pub revoke_returns :
    (rid time fact_id reason : String) (d : Disk) (out : List String) (g : Glossary)
    → ((x : String) → exists x d.facts ≡ true → exists x d.revoked ≡ false)
    → exists fact_id d.facts ≡ true
    → descendants_unchecked d.facts fact_id ≡ some out
    → active_glossary_excluding (fact_id ∷ out) d.facts d.revoked ≡ ok g
    → (e : Disk) × (revoke_unlocked rid time fact_id reason d ≡ ok (fact_id ∷ out, e))
unfolding revoke_unlocked resume_pending_revocation resume_steps ◌>>=◌ or_raise
revoke_returns rid time fact_id reason d out g separate active found rebuilt =
    let p = journal rid time fact_id reason (fact_id ∷ out) in
    let placed : (x : String) → contains x (fact_id ∷ out) ≡ true → IsPlaced d x = λ x m.
      let there =
        Depends-active d.facts fact_id x active ((cons-Depends d.facts fact_id out found x).0 m) in
      ground (arith, there, separate x there) in
    let (e, ran) =
      cascade_returns p (sorted_items g) (some_journal rid time fact_id reason (fact_id ∷ out) d)
        placed in
    (e, rw active (rw found (rw rebuilt (rw ran refl))))
