-- ===== src/Core/Graph/Revoke/Rebuilt.antt =====
-- danus/core/factgraph.py: the glossary that a revocation rebuilds is the same at each of its steps.
use danus.Base.{
  String, Bool, true, false, ◌≡◌, ◌∙◌, sym, ap, refl, Option, none, some, List, [], ◌∷◌, ◌==◌,
  eq_iff, arith, Bool-cases, inl, inr,
}
use danus.Base.Assoc.{lookup, erase, lookup-erase}
use danus.Base.Names.{contains}
use danus.Base.Result.{Result, ok, bind_cong, then_cong, ok_injective}
use danus.Core.Graph.Disk.{Glossary, FactFile, Directory, Disk, exists, write, names}
use danus.Core.Graph.Disk.Laws.{exists-write}
use danus.Core.Graph.Glossaries.{active_glossary_excluding, rebuild}
use danus.Core.Graph.Revoke.{
  Step, write_pending_revocation, write_glossary, move_fact, write_log, unlink_pending_revocation,
  move, perform, run,
}
use danus.Core.Graph.Revoke.Steps.{run-cons, run_nil}

other_name :
    (x id : String) (excluded : List String)
    → contains x excluded ≡ true
    → contains id excluded ≡ false
    → x == id ≡ false
other_name x id excluded h kept = ground (arith, h, kept, eq_iff x id)

same_name :
    (x id : String) (excluded : List String)
    → contains x excluded ≡ true
    → id == x ≡ true
    → contains id excluded ≡ true
same_name x id excluded h same = ground (arith, h, same, eq_iff id x)

-- The rebuilt glossary does not see the facts that are being revoked.
rebuild-erase :
    (excluded : List String) (x : String) (f : FactFile) (facts revoked : Directory)
    (ids : List String) (acc : Glossary)
    → contains x excluded ≡ true
    → rebuild excluded (erase x facts) (write x f revoked) ids acc
      ≡ rebuild excluded facts revoked ids acc
unfolding rebuild
rebuild-erase excluded x f facts revoked [] acc h = refl
rebuild-erase excluded x f facts revoked (id ∷ ids) acc h =
    elim (Bool-cases (contains id excluded)) [
      | inl out ↦ rw out (rebuild-erase excluded x f facts revoked ids acc h)
      | inr kept ↦
          rw
            (
              kept,
              lookup-erase x id facts,
              exists-write x id f revoked,
              other_name x id excluded h kept,
            )
            (bind_cong _ (λ file.
              then_cong _
                (bind_cong _ (λ more. rebuild-erase excluded x f facts revoked ids more h))))
    ]

rebuild-names :
    (excluded : List String) (x : String) (facts revoked : Directory) (files : Directory)
    (acc : Glossary)
    → contains x excluded ≡ true
    → rebuild excluded facts revoked (names (erase x files)) acc
      ≡ rebuild excluded facts revoked (names files) acc
unfolding rebuild erase
rebuild-names excluded x facts revoked [] acc h = refl
rebuild-names excluded x facts revoked ((id, f) ∷ files) acc h = elim (Bool-cases (id == x)) [
  | inl same ↦
      rw (same, same_name x id excluded h same) (rebuild-names excluded x facts revoked files acc h)
  | inr other ↦ elim (Bool-cases (contains id excluded)) [
    | inl out ↦ rw (other, out) (rebuild-names excluded x facts revoked files acc h)
    | inr kept ↦
        rw (other, kept)
          (bind_cong _ (λ file.
            then_cong _
              (bind_cong _ (λ more. rebuild-names excluded x facts revoked files more h))))
  ]
]

-- The steps of a cascade move what it revokes, and nothing else.
abbrev pub Concerns : List String → Step → Type 0
Concerns ids (move_fact x) = contains x ids ≡ true
Concerns ids _ = Unit

abbrev pub AllConcern : List String → List Step → Type 0
AllConcern ids [] = Unit
AllConcern ids (s ∷ steps) = Concerns ids s × AllConcern ids steps

abbrev pub rebuilt : List String → Disk → Result Glossary
rebuilt ids d = active_glossary_excluding ids d.facts d.revoked

rebuilt-move :
    (ids : List String) (x : String) (o : Option FactFile) (b : Bool) (d m : Disk)
    → contains x ids ≡ true
    → move x o b d ≡ ok m
    → rebuilt ids m ≡ rebuilt ids d
unfolding move active_glossary_excluding
rebuilt-move ids x (some f) true d m c h = cc
rebuilt-move ids x (some f) false d m c h =
    ap (rebuilt ids) (ok_injective (sym h))
    ∙ rebuild-erase ids x f d.facts d.revoked (names (erase x d.facts)) [] c
    ∙ rebuild-names ids x d.facts d.revoked d.facts [] c
rebuilt-move ids x none true d m c h = ap (rebuilt ids) (ok_injective (sym h))
rebuilt-move ids x none false d m c h = cc

rebuilt-perform :
    (ids : List String) (s : Step) (d m : Disk)
    → Concerns ids s
    → perform s d ≡ ok m
    → rebuilt ids m ≡ rebuilt ids d
unfolding perform
rebuilt-perform ids (move_fact x) d m c h =
    rebuilt-move ids x (lookup x d.facts) (exists x d.revoked) d m c h
rebuilt-perform ids (write_pending_revocation p) d m c h = ap (rebuilt ids) (ok_injective (sym h))
rebuilt-perform ids (write_glossary g) d m c h = ap (rebuilt ids) (ok_injective (sym h))
rebuilt-perform ids (write_log p) d m c h = ap (rebuilt ids) (ok_injective (sym h))
rebuilt-perform ids unlink_pending_revocation d m c h = ap (rebuilt ids) (ok_injective (sym h))

pub rebuilt-run :
    (ids : List String) (steps : List Step) (d m : Disk)
    → AllConcern ids steps
    → run steps d ≡ ok m
    → rebuilt ids m ≡ rebuilt ids d
rebuilt-run ids [] d m c h = rw (run_nil d m h)
rebuilt-run ids (s ∷ steps) d m c h =
    let (u, first, rest) = run-cons s steps d m h in
    rebuilt-run ids steps u m c.1 rest ∙ rebuilt-perform ids s d u c.0 first
