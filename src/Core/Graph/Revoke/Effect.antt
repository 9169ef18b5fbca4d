-- ===== src/Core/Graph/Revoke/Effect.antt =====
-- danus/core/factgraph.py: what a revocation has done when it returns.
use danus.Base.{
  String, Bool, true, false, ◌≡◌, ◌∙◌, sym, ap, refl, subst, Option, none, some, List, [], ◌∷◌,
  ◌++◌, ◌==◌, eq_iff, arith, Bool-cases, if_true, if_false, inl, inr,
}
use danus.Base.Assoc.{lookup, lookup-erase}
use danus.Base.Names.{contains}
use danus.Base.Result.{ok, ◌>>=◌, or_raise, >>=-eq-ok, ok_injective, some_injective, or_raise-eq-ok}
use danus.Core.Graph.Disk.{
  Glossary, FactFile, Directory, PendingRevocation, Disk, exists, predecessors,
}
use danus.Core.Graph.Disk.Laws.{lookup-write}
use danus.Core.Graph.Descendants.{descendants_unchecked}
use danus.Core.Graph.Descendants.Correct.{cons-Depends}
use danus.Core.Graph.Descendants.Edges.{step, DependsDirectly, Depends}
use danus.Core.Graph.Glossaries.{sorted_items}
use danus.Core.Graph.Revoke.{
  Step, write_pending_revocation, write_glossary, move_fact, write_log, unlink_pending_revocation,
  logged_ids, move, perform, run, cascade, journal, resume_steps, resume_pending_revocation,
  revoke_unlocked, repeat, completed_revocation_ids,
}
use danus.Core.Graph.Revoke.Steps.{Done, run-cons, run-AllDone, run_nil, AllDone}
use danus.Core.Graph.Revoke.Resume.{resume-eq-ok, moves, mild_moves}

-- A step leaves the facts that it does not move.
abbrev is_about : String → Step → Bool
is_about x (move_fact id) = id == x
is_about x _ = false

untouched-move :
    (x id : String) (o : Option FactFile) (b : Bool) (d m : Disk)
    → id == x ≡ false
    → move id o b d ≡ ok m
    → (lookup x m.facts ≡ lookup x d.facts) × (lookup x m.revoked ≡ lookup x d.revoked)
unfolding move
untouched-move x id (some f) true d m n h = cc
untouched-move x id (some f) false d m n h =
    ground (arith, h, n, lookup-erase id x d.facts, lookup-write id x f d.revoked)
untouched-move x id none true d m n h = ground (arith, h)
untouched-move x id none false d m n h = cc

untouched :
    (x : String) (s : Step) (d m : Disk)
    → is_about x s ≡ false
    → perform s d ≡ ok m
    → (lookup x m.facts ≡ lookup x d.facts) × (lookup x m.revoked ≡ lookup x d.revoked)
unfolding perform
untouched x (write_pending_revocation p) d m n h = ground (arith, h)
untouched x (write_glossary g) d m n h = ground (arith, h)
untouched x (move_fact id) d m n h =
    untouched-move x id (lookup id d.facts) (exists id d.revoked) d m n h
untouched x (write_log p) d m n h = ground (arith, h)
untouched x unlink_pending_revocation d m n h = ground (arith, h)

untouched-run :
    (x : String) (ids : List String) (steps : List Step) (d m : Disk)
    → contains x ids ≡ false
    → ((u : Disk)
        → run steps u ≡ ok m
        → (lookup x m.facts ≡ lookup x u.facts) × (lookup x m.revoked ≡ lookup x u.revoked))
    → run (moves ids ++ steps) d ≡ ok m
    → (lookup x m.facts ≡ lookup x d.facts) × (lookup x m.revoked ≡ lookup x d.revoked)
unfolding contains
untouched-run x [] steps d m n after h = after d h
untouched-run x (id ∷ ids) steps d m n after h =
    let (u, first, rest) = run-cons (move_fact id) (moves ids ++ steps) d m h in
    let (f, r) = untouched x (move_fact id) d u (ground (arith, n)) first in
    let (f2, r2) = untouched-run x ids steps u m (ground (arith, n)) after rest in (f2 ∙ f, r2 ∙ r)

-- What has happened to the ids of a revocation, and to everything else.
pub record HasRevoked (ids : List String) (d e : Disk) : Type 0 where
  pub gone :
      (x : String)
      → contains x ids ≡ true
      → (exists x e.facts ≡ false) × (exists x e.revoked ≡ true)
  pub rest :
      (x : String)
      → contains x ids ≡ false
      → (lookup x e.facts ≡ lookup x d.facts) × (lookup x e.revoked ≡ lookup x d.revoked)
  pub logged :
      (x : String) → contains x ids ≡ true → contains x (logged_ids e.revocation_log) ≡ true
  pub over : e.pending_revocation ≡ none

all_moved :
    (x : String) (ids : List String) (steps : List Step) (m : Disk)
    → AllDone (moves ids ++ steps) m
    → contains x ids ≡ true
    → Done (move_fact x) m
unfolding contains
all_moved x [] steps m h c = cc
all_moved x (id ∷ ids) steps m h c = elim (Bool-cases (id == x)) [
  | inl same ↦ subst (λ y. Done (move_fact y) m) (ground (arith, same, eq_iff id x)) h.0
  | inr other ↦ all_moved x ids steps m h.1 (ground (arith, c, other))
]

done_after :
    (ids : List String) (steps : List Step) (m : Disk)
    → AllDone (moves ids ++ steps) m
    → AllDone steps m
done_after [] steps m h = h
done_after (id ∷ ids) steps m h = done_after ids steps m h.1

ends_untouched :
    (x : String) (p : PendingRevocation) (m u : Disk)
    → run (write_log p ∷ unlink_pending_revocation ∷ []) u ≡ ok m
    → (lookup x m.facts ≡ lookup x u.facts) × (lookup x m.revoked ≡ lookup x u.revoked)
ends_untouched x p m u h =
    let (v, first, rest) = run-cons (write_log p) (unlink_pending_revocation ∷ []) u m h in
    let (w, second, none_left) = run-cons unlink_pending_revocation [] v m rest in
    let a = untouched x (write_log p) u v refl first in
    let b = untouched x unlink_pending_revocation v w refl second in
    let same = run_nil w m none_left in (ground (arith, a, b, same), ground (arith, a, b, same))

cascade-HasRevoked :
    (p : PendingRevocation) (g : Glossary) (d e : Disk)
    → run (cascade p g) d ≡ ok e
    → HasRevoked p.fact_ids d e
unfolding cascade
cascade-HasRevoked p g d e h =
    let ends = write_log p ∷ unlink_pending_revocation ∷ [] in
    let (u, first, rest) = run-cons (write_glossary g) (moves p.fact_ids ++ ends) d e h in
    let all : AllDone (moves p.fact_ids ++ ends) e =
      run-AllDone (moves p.fact_ids ++ ends) u e (mild_moves p.fact_ids ends (refl, (refl, tt)))
        rest in
    let last : AllDone ends e = done_after p.fact_ids ends e all in
    record {
      gone = λ x c. all_moved x p.fact_ids ends e all c;
      rest = λ x c.
          let (f, r) =
            untouched-run x p.fact_ids ends u e c (λ v k. ends_untouched x p e v k) rest in
          let (f2, r2) = untouched x (write_glossary g) d u refl first in (f ∙ f2, r ∙ r2);
      logged = last.0;
      over = last.1.0;
    }

pub resume-HasRevoked :
    (p : PendingRevocation) (d e : Disk)
    → d.pending_revocation ≡ some p
    → resume_pending_revocation d ≡ ok e
    → HasRevoked p.fact_ids d e
unfolding resume_pending_revocation
resume-HasRevoked p d e journal h =
    let (steps, plan, whole) = >>=-eq-ok (resume_steps d d.pending_revocation) _ h in
    elim (resume-eq-ok d.pending_revocation d steps plan) [
      | inl (over, _) ↦ cc (over, journal)
      | inr (q, g, pending, _, shape) ↦
          let same : q ≡ p = some_injective (sym pending ∙ journal) in
          subst (λ r. HasRevoked r.fact_ids d e) same
            (cascade-HasRevoked q (sorted_items g) d e (subst (λ x. run x d ≡ ok e) shape whole))
    ]

abbrev pub some_journal : String → String → String → String → List String → Disk → Disk
some_journal rid time fact_id reason ids d = record d {
  pending_revocation = some (journal rid time fact_id reason ids);
}

-- The parts of a revocation of an active fact that returns.
pub revoke-eq-ok :
    (rid time fact_id reason : String) (d e : Disk) (ids : List String)
    → exists fact_id d.facts ≡ true
    → revoke_unlocked rid time fact_id reason d ≡ ok (ids, e)
    → (out : List String) × (descendants_unchecked d.facts fact_id ≡ some out)
      × (resume_pending_revocation (some_journal rid time fact_id reason (fact_id ∷ out) d) ≡ ok e)
      × (ids ≡ fact_id ∷ out)
unfolding revoke_unlocked
revoke-eq-ok rid time fact_id reason d e ids active h =
    let h' : or_raise (descendants_unchecked d.facts fact_id) "" >>= _ ≡ ok (ids, e) =
      sym (if_true _ _ active) ∙ h in
    let (out, found, rest) = >>=-eq-ok (or_raise (descendants_unchecked d.facts fact_id) "") _ h' in
    let (u, resumed, pair) =
      >>=-eq-ok (resume_pending_revocation (some_journal rid time fact_id reason (fact_id ∷ out) d))
        _ rest in
    (
      out,
      or_raise-eq-ok _ "" out found,
      resumed ∙ ap (λ r. ok r.1) (ok_injective pair),
      sym (ap (λ r. r.0) (ok_injective pair)),
    )

-- Let a fact be active, and its revocation return. The ids that it returns are those of the fact
-- and of exactly the facts that depend on it, over any number of steps. They are moved from the
-- active to the revoked facts and they are in the log, all other facts are as they were, and no
-- journal is left.
pub revoke_takes_dependents :
    (rid time fact_id reason : String) (d e : Disk) (ids : List String)
    → exists fact_id d.facts ≡ true
    → revoke_unlocked rid time fact_id reason d ≡ ok (ids, e)
    → HasRevoked ids d e
      × ((x : String)
          → (contains x ids ≡ true → Depends d.facts fact_id x)
            × (Depends d.facts fact_id x → contains x ids ≡ true))
revoke_takes_dependents rid time fact_id reason d e ids active h =
    let (out, found, resumed, same) = revoke-eq-ok rid time fact_id reason d e ids active h in
    let has =
      resume-HasRevoked (journal rid time fact_id reason (fact_id ∷ out))
        (some_journal rid time fact_id reason (fact_id ∷ out) d) e refl resumed in
    subst
      (λ l.
        HasRevoked l d e
        × ((x : String)
            → (contains x l ≡ true → Depends d.facts fact_id x)
              × (Depends d.facts fact_id x → contains x l ≡ true)))
      (sym same)
      (
        record { gone = has.gone; rest = has.rest; logged = has.logged; over = has.over },
        cons-Depends d.facts fact_id out found,
      )

-- Every predecessor of an active fact is active.
abbrev pub IsClosed : Directory → Type 0
IsClosed facts = (p x : String) → DependsDirectly facts x p → exists p facts ≡ true

kept-DependsDirectly :
    (x p : String) (old new : Directory)
    → lookup x new ≡ lookup x old
    → DependsDirectly new x p
    → DependsDirectly old x p
unfolding exists predecessors
kept-DependsDirectly x p old new same h = ground (arith, same, h)

HasRevoked-IsClosed :
    (ids : List String) (root : String) (d e : Disk)
    → HasRevoked ids d e
    → ((x : String)
        → (contains x ids ≡ true → Depends d.facts root x)
          × (Depends d.facts root x → contains x ids ≡ true))
    → IsClosed d.facts
    → IsClosed e.facts
unfolding exists
HasRevoked-IsClosed ids root d e has covers closed p x direct = elim (Bool-cases (contains x ids)) [
  | inl taken ↦ cc (direct.0, (has.gone x taken).0)
  | inr kept ↦
      let before : DependsDirectly d.facts x p =
        kept-DependsDirectly x p d.facts e.facts (has.rest x kept).0 direct in
      elim (Bool-cases (contains p ids)) [
        | inl lost ↦ cc (kept, (covers x).1 (step ((covers p).0 lost) before))
        | inr there ↦ ground (arith, closed p x before, has.rest p there)
      ]
]

pub revoke_again :
    (rid time fact_id reason : String) (d e : Disk) (ids : List String)
    → exists fact_id d.facts ≡ false
    → revoke_unlocked rid time fact_id reason d ≡ ok (ids, e)
    → d ≡ e
unfolding revoke_unlocked
revoke_again rid time fact_id reason d e ids idle h = elim (Bool-cases (exists fact_id d.revoked)) [
  | inl before ↦
      let (told, _, pair) =
        >>=-eq-ok (repeat (completed_revocation_ids d.revocation_log fact_id)) _
          (sym (if_true _ _ before) ∙ sym (if_false _ _ idle) ∙ h) in
      ap (λ r. r.1) (ok_injective pair)
  | inr never ↦ cc (sym (if_false _ _ never) ∙ sym (if_false _ _ idle) ∙ h)
]

-- Where every predecessor of an active fact is active, it is so after a revocation that returns.
pub revoke-IsClosed :
    (rid time fact_id reason : String) (d e : Disk) (ids : List String)
    → IsClosed d.facts
    → revoke_unlocked rid time fact_id reason d ≡ ok (ids, e)
    → IsClosed e.facts
revoke-IsClosed rid time fact_id reason d e ids closed h =
    elim (Bool-cases (exists fact_id d.facts)) [
      | inl active ↦
          let (has, covers) = revoke_takes_dependents rid time fact_id reason d e ids active h in
          HasRevoked-IsClosed ids fact_id d e has covers closed
      | inr idle ↦
          subst (λ u. IsClosed u.facts) (revoke_again rid time fact_id reason d e ids idle h) closed
    ]
