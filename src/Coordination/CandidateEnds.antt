-- ===== src/Coordination/CandidateEnds.antt =====
-- danus/coordination/store.py: what the end of a candidate leaves in its row.
use danus.Base.{
  ℕ, String, Bool, true, false, not, ◌&&◌, Option, none, some, List, [], ◌∷◌, ◌==◌, ◌≡◌, ◌∙◌, ap,
  refl, sym, subst, arith, eq_iff, eq_refl, if◌then◌else◌,
}
use danus.Base.Result.{
  ok, Holds, Holds-ok, Holds-bind, Holds-require, or_raise-eq-ok, some_injective,
}
use danus.Coordination.Rows.{
  CandidateState, observed, promising, rejected, selected, active, outcome_unknown, terminal,
  Candidate, is_final, Store, Text, find_candidate, opt_eq, update_where,
}
use danus.Coordination.Advance.{advance_generation_if_ready}
use danus.Coordination.Candidates.{Receipts, is_registered}
use danus.Coordination.Outcomes.{
  candidate_outcome_releases, set_candidate, is_running, ended, settle, release, is_outcome,
  terminalize_candidate,
}
use danus.Coordination.Evolution.Phases.{advance-Evolves}

find-set_candidate :
    (id j : String) (test : CandidateState → Bool) (f : Candidate → Candidate) (a : Candidate)
    (cs : List Candidate)
    → ((r : Candidate) → (f r).candidate_id ≡ r.candidate_id)
    → find_candidate j cs ≡ some a
    → find_candidate j (update_where (λ r. (r.candidate_id == id) && test r.state) f cs)
      ≡ some (if (a.candidate_id == id) && test a.state then f a else a)
unfolding find_candidate update_where
find-set_candidate id j test f a [] keeps e = cc
find-set_candidate id j test f a (c ∷ cs) keeps e =
    ground (arith, e, keeps c, find-set_candidate id j test f a cs keeps)

find_candidate-id :
    (id : String) (cs : List Candidate) (a : Candidate)
    → find_candidate id cs ≡ some a
    → a.candidate_id ≡ id
unfolding find_candidate
find_candidate-id id [] a e = cc
find_candidate-id id (c ∷ cs) a e =
    ground (arith, e, eq_iff c.candidate_id id, find_candidate-id id cs a)

same_text : (o : Option String) (x : String) → opt_eq o (some x) ≡ true → o ≡ some x
same_text none x h = cc
same_text (some y) x h = ap some (ground (arith, h, eq_iff y x))

-- A row with an outcome, which is final unless the outcome is unknown.
pub record HasEnded (receipt outcome : String) (s : Store) (a : Candidate) : Type 0 where
  pub stored : find_candidate receipt s.candidates ≡ some a
  pub told : a.outcome ≡ some outcome
  pub final : outcome == "outcome_unknown" ≡ false → is_final a.state ≡ true

ended-keeps :
    (outcome : String) (now : ℕ) (r : Candidate)
    → (ended outcome now r).candidate_id ≡ r.candidate_id
ended-keeps outcome now r = ground arith

module _ (s : Store) (receipt outcome : String) (now : ℕ) (row : Candidate)
    (found : find_candidate receipt s.candidates ≡ some row) where
  settle_lem :
      (x : CandidateState)
      → row.state ≡ x
      → is_registered x ≡ true
      → Holds (λ t. (a : Candidate) × HasEnded receipt outcome t a) (settle s row x outcome now)
  unfolding settle set_candidate
  settle_lem outcome_unknown e h =
      Holds-require ((outcome == "outcome_unknown") && opt_eq row.outcome (some outcome)) _ (λ same.
        Holds-ok (
          row,
          record {
            stored = found;
            told = same_text row.outcome outcome (ground (arith, same));
            final = λ n. ground (arith, n, same);
          },
        ))
  settle_lem terminal e h = Holds-require (opt_eq row.outcome (some outcome)) _ (λ same. Holds-ok (
    row,
    record {
      stored = found;
      told = same_text row.outcome outcome same;
      final = λ n. ap is_final e;
    },
  ))
  settle_lem active e h = Holds-ok (
    ended outcome now row,
    record {
      stored = ground (
        arith,
        find-set_candidate row.candidate_id receipt is_running (ended outcome now) row s.candidates
            (ended-keeps outcome now) found,
        e,
        eq_refl row.candidate_id,
      );
      told = ground arith;
      final = λ n. ground (arith, n);
    },
  )
  settle_lem observed e h = cc
  settle_lem promising e h = cc
  settle_lem rejected e h = cc
  settle_lem selected e h = cc

release_lem :
    (lib : Text) (s : Store) (receipt outcome : String) (now : ℕ) (a : Candidate) (releases : Bool)
    → HasEnded receipt outcome s a
    → not (outcome == "outcome_unknown") ≡ releases
    → Holds (λ t. (b : Candidate) × HasEnded receipt outcome t b) (release lib s releases now)
unfolding release
release_lem lib s receipt outcome now a false has known = Holds-ok (a, has)
release_lem lib s receipt outcome now a true has known =
    Holds-bind (advance_generation_if_ready lib s now) (λ r e.
      let (b, there, later) =
        ((advance-Evolves lib s now).at r e).candidates.row receipt a has.stored in
      let same : b ≡ a = later.settled (has.final (ground (arith, known))) in
      Holds-ok (
        b,
        record {
          stored = there;
          told = ap (λ c. c.outcome) same ∙ has.told;
          final = λ n. ap (λ c. is_final c.state) same ∙ has.final n;
        },
      ))

releases-eq-ok :
    (outcome : String)
    → Holds
        (λ b. (is_outcome outcome ≡ true) × (not (outcome == "outcome_unknown") ≡ b))
        (candidate_outcome_releases outcome)
unfolding candidate_outcome_releases
releases-eq-ok outcome = Holds-require (is_outcome outcome) _ (λ known. Holds-ok (known, refl))

terminalized :
    (lib : Text) (rc : Receipts) (s : Store) (worker receipt slot_id outcome : String) (now : ℕ)
    → Holds
        (λ r.
          (c : Candidate)
          → r.0 ≡ ok c
          → HasEnded receipt outcome r.1 c × (is_outcome outcome ≡ true))
        (terminalize_candidate lib rc s worker receipt slot_id outcome now)
unfolding terminalize_candidate
terminalized lib rc s worker receipt slot_id outcome now = Holds-require _ _ (λ _.
    Holds-bind (candidate_outcome_releases outcome) (λ releases known. Holds-bind _ (λ slot _.
      Holds-bind _ (λ row found. Holds-require _ _ (λ mine.
        Holds-bind (settle s row row.state outcome now) (λ t first.
          Holds-bind (release lib t releases now) (λ u last. Holds-ok (λ c given.
            let here = or_raise-eq-ok (find_candidate receipt s.candidates) _ row found in
            let (supported, letting) = (releases-eq-ok outcome).at releases known in
            let (a, has) =
              (settle_lem s receipt outcome now row here row.state refl (ground (arith, mine))).at t
                first in
            let (b, done) =
              (release_lem lib t receipt outcome now a releases has letting).at u last in
            let same : b ≡ c =
              some_injective (
                sym done.stored ∙ or_raise-eq-ok (find_candidate receipt u.candidates) _ c given) in
            (subst (HasEnded receipt outcome u) same done, supported)))))))))

-- Let the end of a candidate be recorded, and its row be returned. Then the outcome is one of the
-- supported ones and the row has it, both in what is returned and in what is committed; the row is
-- terminal unless the outcome is unknown.
pub ended_candidate_has_outcome :
    (lib : Text) (rc : Receipts) (s t : Store) (worker receipt slot_id outcome : String) (now : ℕ)
    (c : Candidate)
    → terminalize_candidate lib rc s worker receipt slot_id outcome now ≡ ok (ok c, t)
    → HasEnded receipt outcome t c × (is_outcome outcome ≡ true)
ended_candidate_has_outcome lib rc s t worker receipt slot_id outcome now c h =
    (terminalized lib rc s worker receipt slot_id outcome now).at (ok c, t) h c refl
