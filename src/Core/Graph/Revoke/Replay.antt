-- ===== src/Core/Graph/Revoke/Replay.antt =====
-- danus/core/factgraph.py: replaying the steps of a revocation from the start.
use danus.Base.{ℕ, take, zero, suc, ◌≡◌, ◌∙◌, sym, List, [], ◌∷◌}
use danus.Base.Result.{ok, ◌>>=◌}
use danus.Core.Graph.Disk.{Glossary, Disk}
use danus.Core.Graph.Revoke.{Step, write_glossary, perform, run}
use danus.Core.Graph.Revoke.Steps.{
  AllMild, AllDone, run-cons, run-Done, run-AllDone, run_done, run_nil, perform-Done,
}

abbrev drop : ℕ → List Step → List Step
drop zero steps = steps
drop (suc k) [] = []
drop (suc k) (s ∷ steps) = drop k steps

run_ok :
    (s : Step) (steps : List Step) (d u : Disk)
    → perform s d ≡ ok u
    → run (s ∷ steps) d ≡ run steps u
unfolding run ◌>>=◌
run_ok s steps d u h = rw h

run-take :
    (k : ℕ) (steps : List Step) (d m : Disk)
    → run (take k steps) d ≡ ok m
    → run steps d ≡ run (drop k steps) m
run-take zero steps d m h = rw (run_nil d m h)
run-take (suc k) [] d m h = rw (run_nil d m h)
run-take (suc k) (s ∷ steps) d m h =
    let (u, first, rest) = run-cons s (take k steps) d m h in
    run_ok s steps d u first ∙ run-take k steps u m rest

AllMild-take : (k : ℕ) (steps : List Step) → AllMild steps → AllMild (take k steps)
AllMild-take zero steps h = tt
AllMild-take (suc k) [] h = tt
AllMild-take (suc k) (s ∷ steps) h = (h.0, AllMild-take k steps h.1)

-- After some of the steps, all of them lead where they would have led.
pub replay :
    (k : ℕ) (g : Glossary) (steps : List Step) (d m : Disk)
    → AllMild steps
    → run (take k (write_glossary g ∷ steps)) d ≡ ok m
    → run (write_glossary g ∷ steps) m ≡ run (write_glossary g ∷ steps) d
replay zero g steps d m mild h = rw (run_nil d m h)
replay (suc k) g steps d m mild h =
    let (u, first, rest) = run-cons (write_glossary g) (take k steps) d m h in
    let done : AllDone (take (suc k) (write_glossary g ∷ steps)) m = (
      run-Done (write_glossary g) (take k steps) u m (λ e. cc (e)) (AllMild-take k steps mild)
          (perform-Done (write_glossary g) d u first) rest,
      run-AllDone (take k steps) u m (AllMild-take k steps mild) rest,
    ) in
    run-take (suc k) (write_glossary g ∷ steps) m m (run_done _ m done)
    ∙ sym (run-take (suc k) (write_glossary g ∷ steps) d m h)
