-- ===== src/Core/Graph/Revoke/Resume.antt =====
-- danus/core/factgraph.py: a revocation that is interrupted anywhere ends as if it had not been.
use danus.Base.{
  ℕ, take, take_nil, zero, suc, String, Bool, true, false, ◌≡◌, ◌∙◌, sym, ap, refl, subst, Option,
  none, some, List, [], ◌∷◌, ◌++◌, eq_refl, map, arith, inl, inr, ◌⊎◌,
}
use danus.Base.Assoc.{lookup}
use danus.Base.Names.{contains}
use danus.Base.Result.{Result, ok, ◌>>=◌, >>=-eq-ok, ok_injective}
use danus.Core.Graph.Disk.{Glossary, FactFile, PendingRevocation, Disk, exists}
use danus.Core.Graph.Glossaries.{active_glossary_excluding, sorted_items}
use danus.Core.Graph.Revoke.{
  Step, write_pending_revocation, write_glossary, move_fact, write_log, unlink_pending_revocation,
  move, perform, run, cascade, resume_steps, resume_pending_revocation,
}
use danus.Core.Graph.Revoke.Steps.{AllMild, run-cons, run_nil, perform-Done}
use danus.Core.Graph.Revoke.Replay.{replay}
use danus.Core.Graph.Revoke.Rebuilt.{AllConcern, rebuilt, rebuilt-run}
use mathlib.Core.List.{append_assoc}

-- All but the last step leave the journal.
abbrev is_unlink : Step → Bool
is_unlink unlink_pending_revocation = true
is_unlink (write_pending_revocation p) = true
is_unlink _ = false

abbrev AllLasting : List Step → Type 0
AllLasting [] = Unit
AllLasting (s ∷ steps) = (is_unlink s ≡ false) × AllLasting steps

pending-move :
    (x : String) (o : Option FactFile) (b : Bool) (d m : Disk)
    → move x o b d ≡ ok m
    → m.pending_revocation ≡ d.pending_revocation
unfolding move
pending-move x (some f) true d m h = cc
pending-move x (some f) false d m h = ap (λ u. u.pending_revocation) (ok_injective (sym h))
pending-move x none true d m h = ap (λ u. u.pending_revocation) (ok_injective (sym h))
pending-move x none false d m h = cc

pending-perform :
    (s : Step) (d m : Disk)
    → is_unlink s ≡ false
    → perform s d ≡ ok m
    → m.pending_revocation ≡ d.pending_revocation
unfolding perform
pending-perform (write_pending_revocation p) d m c h = cc
pending-perform (write_glossary g) d m c h = ap (λ u. u.pending_revocation) (ok_injective (sym h))
pending-perform (move_fact x) d m c h = pending-move x (lookup x d.facts) (exists x d.revoked) d m h
pending-perform (write_log p) d m c h = ap (λ u. u.pending_revocation) (ok_injective (sym h))
pending-perform unlink_pending_revocation d m c h = cc

pending-run :
    (steps : List Step) (d m : Disk)
    → AllLasting steps
    → run steps d ≡ ok m
    → m.pending_revocation ≡ d.pending_revocation
pending-run [] d m c h = rw (run_nil d m h)
pending-run (s ∷ steps) d m c h =
    let (u, first, rest) = run-cons s steps d m h in
    pending-run steps u m c.1 rest ∙ pending-perform s d u c.0 first

AllLasting-take : (k : ℕ) (steps : List Step) → AllLasting steps → AllLasting (take k steps)
AllLasting-take zero steps h = tt
AllLasting-take (suc k) [] h = tt
AllLasting-take (suc k) (s ∷ steps) h = (h.0, AllLasting-take k steps h.1)

take-snoc :
    (k : ℕ) (steps : List Step) (s : Step)
    → (take k (steps ++ s ∷ []) ≡ take k steps) ⊎ (take k (steps ++ s ∷ []) ≡ steps ++ s ∷ [])
take-snoc zero steps s = inl refl
take-snoc (suc zero) [] s = inr refl
take-snoc (suc (suc k)) [] s = inr refl
take-snoc (suc k) (t ∷ steps) s = elim (take-snoc k steps s) [
  | inl e ↦ inl (rw e)
  | inr e ↦ inr (rw e)
]

-- the steps of the cascade before the last, and those after the first
abbrev pub early : PendingRevocation → List Step
early p = map move_fact p.fact_ids ++ write_log p ∷ []

abbrev pub moves : List String → List Step
moves ids = map move_fact ids

pub mild_moves :
    (ids : List String) (steps : List Step) → AllMild steps → AllMild (moves ids ++ steps)
mild_moves [] steps h = h
mild_moves (id ∷ ids) steps h = (refl, mild_moves ids steps h)

lasting_moves :
    (ids : List String) (steps : List Step) → AllLasting steps → AllLasting (moves ids ++ steps)
lasting_moves [] steps h = h
lasting_moves (id ∷ ids) steps h = (refl, lasting_moves ids steps h)

concern_moves :
    (all ids : List String) (steps : List Step)
    → ((x : String) → contains x ids ≡ true → contains x all ≡ true)
    → AllConcern all steps
    → AllConcern all (moves ids ++ steps)
unfolding contains
concern_moves all [] steps h c = c
concern_moves all (id ∷ ids) steps h c = (
  h id (ground (arith, eq_refl id)),
  concern_moves all ids steps (λ x e. h x (ground (arith, e))) c,
)

AllConcern-take :
    (ids : List String) (k : ℕ) (steps : List Step)
    → AllConcern ids steps
    → AllConcern ids (take k steps)
AllConcern-take ids zero steps h = tt
AllConcern-take ids (suc k) [] h = tt
AllConcern-take ids (suc k) (s ∷ steps) h = (h.0, AllConcern-take ids k steps h.1)

cascade_snoc :
    (p : PendingRevocation) (g : Glossary)
    → cascade p g ≡ (write_glossary g ∷ early p) ++ unlink_pending_revocation ∷ []
unfolding cascade
cascade_snoc p g =
    rw (append_assoc (moves p.fact_ids) (write_log p ∷ []) (unlink_pending_revocation ∷ []))

resume-eq-run :
    (p : PendingRevocation) (g : Glossary) (m : Disk)
    → m.pending_revocation ≡ some p
    → rebuilt p.fact_ids m ≡ ok g
    → resume_pending_revocation m ≡ run (cascade p (sorted_items g)) m
unfolding resume_pending_revocation resume_steps ◌>>=◌
resume-eq-run p g m still same = rw (still, same)

-- From a state in which some steps are done but the journal is still there.
resume_midway :
    (p : PendingRevocation) (g : Glossary) (k : ℕ) (d m e : Disk)
    → d.pending_revocation ≡ some p
    → rebuilt p.fact_ids d ≡ ok g
    → run (cascade p (sorted_items g)) d ≡ ok e
    → run (take k (cascade p (sorted_items g))) d ≡ ok m
    → m.pending_revocation ≡ some p
    → resume_pending_revocation m ≡ ok e
unfolding cascade
resume_midway p g k d m e journal same whole part still =
    let again : rebuilt p.fact_ids m ≡ ok g =
      rebuilt-run p.fact_ids (take k (cascade p (sorted_items g))) d m
        (AllConcern-take p.fact_ids k (cascade p (sorted_items g))
          (tt, concern_moves p.fact_ids p.fact_ids _ (λ x h. h) (tt, (tt, tt))))
        part
      ∙ same in
    let replayed : run (cascade p (sorted_items g)) m ≡ ok e =
      replay k (sorted_items g) _ d m (mild_moves p.fact_ids _ (refl, (refl, tt))) part ∙ whole in
    resume-eq-run p g m still again ∙ replayed

resume_over : (m : Disk) → m.pending_revocation ≡ none → resume_pending_revocation m ≡ ok m
unfolding resume_pending_revocation resume_steps ◌>>=◌ run
resume_over m h = rw h

run-unlink :
    (steps : List Step) (d m : Disk)
    → run (steps ++ unlink_pending_revocation ∷ []) d ≡ ok m
    → m.pending_revocation ≡ none
run-unlink [] d m h =
    let (u, first, rest) = run-cons unlink_pending_revocation [] d m h in
    subst (λ x. x.pending_revocation ≡ none) (run_nil u m rest)
      (perform-Done unlink_pending_revocation d u first)
run-unlink (s ∷ steps) d m h =
    let (u, first, rest) = run-cons s (steps ++ unlink_pending_revocation ∷ []) d m h in
    run-unlink steps u m rest

early_lasts : (p : PendingRevocation) (g : Glossary) → AllLasting (write_glossary g ∷ early p)
early_lasts p g = (refl, lasting_moves p.fact_ids _ (refl, tt))

resume_once :
    (p : PendingRevocation) (g : Glossary) (k : ℕ) (d m e : Disk)
    → d.pending_revocation ≡ some p
    → active_glossary_excluding p.fact_ids d.facts d.revoked ≡ ok g
    → run (cascade p (sorted_items g)) d ≡ ok e
    → run (take k (cascade p (sorted_items g))) d ≡ ok m
    → resume_pending_revocation m ≡ ok e
resume_once p g k d m e journal same whole part =
    let first = write_glossary (sorted_items g) ∷ early p in
    let shape = cascade_snoc p (sorted_items g) in
    elim (take-snoc k first unlink_pending_revocation) [
      | inl some_of ↦ resume_midway p g k d m e journal same whole part (
          pending-run (take k first) d m (AllLasting-take k first (early_lasts p (sorted_items g)))
            (subst (λ steps. run steps d ≡ ok m) (ap (take k) shape ∙ some_of) part)
          ∙ journal)
      | inr all_of ↦
          let at_end : m ≡ e = ok_injective (
            sym (subst (λ steps. run steps d ≡ ok m) (ap (take k) shape ∙ all_of ∙ sym shape) part)
            ∙ whole) in
          resume_over m (
            run-unlink first d m
              (subst (λ steps. run steps d ≡ ok m) (ap (take k) shape ∙ all_of) part))
          ∙ ap ok at_end
    ]

-- A recovery that ends after a number of its steps, and several in a row.
unfoldable pub interrupt : ℕ → Disk → Result Disk
unfolding resume_steps run
interrupt k d = resume_steps d d.pending_revocation >>= λ steps. run (take k steps) d

unfoldable pub interrupt_all : List ℕ → Disk → Result Disk
unfolding interrupt
interrupt_all [] d = ok d
interrupt_all (k ∷ ks) d = interrupt k d >>= interrupt_all ks

pub resume-eq-ok :
    (o : Option PendingRevocation) (d : Disk) (steps : List Step)
    → resume_steps d o ≡ ok steps
    → ((o ≡ none) × (steps ≡ []))
      ⊎ ((p : PendingRevocation) × (g : Glossary) × (o ≡ some p)
          × (rebuilt p.fact_ids d ≡ ok g)
          × (steps ≡ cascade p (sorted_items g)))
unfolding resume_steps
resume-eq-ok none d steps h = inl (refl, ok_injective (sym h))
resume-eq-ok (some p) d steps h =
    let (g, same, rest) = >>=-eq-ok (rebuilt p.fact_ids d) _ h in
    inr (p, g, refl, same, ok_injective (sym rest))

interrupt_lem :
    (k : ℕ) (d m e : Disk)
    → resume_pending_revocation d ≡ ok e
    → interrupt k d ≡ ok m
    → resume_pending_revocation m ≡ ok e
unfolding resume_pending_revocation interrupt
interrupt_lem k d m e h part =
    let (steps, plan, whole) = >>=-eq-ok (resume_steps d d.pending_revocation) _ h in
    let (steps2, plan2, cut) = >>=-eq-ok (resume_steps d d.pending_revocation) _ part in
    let same : steps2 ≡ steps = ok_injective (sym plan2 ∙ plan) in
    let cut' : run (take k steps) d ≡ ok m = subst (λ x. run (take k x) d ≡ ok m) same cut in
    elim (resume-eq-ok d.pending_revocation d steps plan) [
      | inl (over, nothing) ↦
          let here : d ≡ m =
            run_nil d m (subst (λ x. run x d ≡ ok m) (ap (take k) nothing ∙ take_nil k) cut') in
          subst (λ x. resume_pending_revocation x ≡ ok e) here h
      | inr (p, g, journal, glossary, shape) ↦
          resume_once p g k d m e journal glossary (subst (λ x. run x d ≡ ok e) shape whole)
            (subst (λ x. run (take k x) d ≡ ok m) shape cut')
    ]

-- Let the recovery of a disk lead to another one. If the process ends within it, after any number
-- of steps, and ends again within each of the recoveries that follow, the next recovery that is
-- not interrupted leads to that very disk.
pub revocation_survives_crashes :
    (ks : List ℕ) (d m e : Disk)
    → resume_pending_revocation d ≡ ok e
    → interrupt_all ks d ≡ ok m
    → resume_pending_revocation m ≡ ok e
unfolding interrupt_all
revocation_survives_crashes [] d m e h cut =
    subst (λ x. resume_pending_revocation x ≡ ok e) (ok_injective cut) h
revocation_survives_crashes (k ∷ ks) d m e h cut =
    let (u, first, rest) = >>=-eq-ok (interrupt k d) (interrupt_all ks) cut in
    revocation_survives_crashes ks u m e (interrupt_lem k d u e h first) rest
