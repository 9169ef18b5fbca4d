-- ===== src/Coordination/History.antt =====
-- danus/coordination/store.py: how the rows of the candidates may change in a transaction.
use danus.Base.{
  ℕ, ◌≤◌, String, Bool, true, false, ◌&&◌, none, some, List, [], ◌∷◌, ◌++◌, ◌==◌, count_p,
  count_p-append, one_if, if◌then◌else◌, ◌≡◌, ◌∙◌, ap, sym, refl, subst, arith, eq_iff, Bool-cases,
  inl, inr, if_true, if_false,
}
use danus.Coordination.Rows.{
  CandidateState, outcome_unknown, terminal, Candidate, is_overlay, is_final, find_candidate,
  update_where, any,
}

-- How far a candidate is: it never goes back.
abbrev pub stage : CandidateState → ℕ
stage outcome_unknown = 1
stage terminal = 2
stage _ = 0

-- A later row of the same candidate: what its receipt binds stays, the state goes forward only, and
-- a terminal row does not change at all.
pub record Later (a b : Candidate) : Type 0 where
  pub id : b.candidate_id ≡ a.candidate_id
  pub generation : b.generation ≡ a.generation
  pub slot : b.slot_id ≡ a.slot_id
  pub fact : b.candidate_fact_id ≡ a.candidate_fact_id
  pub identity : b.candidate_fact_identity ≡ a.candidate_fact_identity
  pub source : b.source_id ≡ a.source_id
  pub context : b.context_digest ≡ a.context_digest
  pub worker : b.worker ≡ a.worker
  pub lane : b.lane ≡ a.lane
  pub state : stage a.state ≤ stage b.state
  pub settled : is_final a.state ≡ true → b ≡ a

pub Later-refl : (a : Candidate) → Later a a
Later-refl a = record {
  id = refl;
  generation = refl;
  slot = refl;
  fact = refl;
  identity = refl;
  source = refl;
  context = refl;
  worker = refl;
  lane = refl;
  state = omega arith;
  settled = λ e. refl;
}

Later-trans : (a b c : Candidate) → Later a b → Later b c → Later a c
Later-trans a b c f g = record {
  id = g.id ∙ f.id;
  generation = g.generation ∙ f.generation;
  slot = g.slot ∙ f.slot;
  fact = g.fact ∙ f.fact;
  identity = g.identity ∙ f.identity;
  source = g.source ∙ f.source;
  context = g.context ∙ f.context;
  worker = g.worker ∙ f.worker;
  lane = g.lane ∙ f.lane;
  state = omega (arith, f.state, g.state);
  settled = λ e. g.settled (ap (λ r. is_final r.state) (f.settled e) ∙ e) ∙ f.settled e;
}

-- No receipt stands twice: it is the table's key.
abbrev pub IsReceipted : List Candidate → Type 0
IsReceipted [] = Unit
IsReceipted (c ∷ cs) = (find_candidate c.candidate_id cs ≡ none) × IsReceipted cs

-- how many candidates hold the generation back
abbrev pub overlay_count : List Candidate → ℕ
overlay_count cs = count_p (λ c. is_overlay c.state) cs

-- A later state of the candidates.
pub record Succeeds (s t : List Candidate) : Type 0 where
  pub row :
      (id : String) (a : Candidate)
      → find_candidate id s ≡ some a
      → (b : Candidate) × (find_candidate id t ≡ some b) × Later a b
  pub overlay : overlay_count s ≤ 1 → overlay_count t ≤ 1
  pub receipted : IsReceipted s → IsReceipted t

pub Succeeds-refl : (s : List Candidate) → Succeeds s s
Succeeds-refl s = record {
  row = λ id a e. (a, e, Later-refl a);
  overlay = λ h. h;
  receipted = λ h. h;
}

pub Succeeds-trans : (s t u : List Candidate) → Succeeds s t → Succeeds t u → Succeeds s u
Succeeds-trans s t u f g = record {
  row = λ id a e.
      let (b, here, later) = f.row id a e in
      let (c, there, last) = g.row id b here in (c, there, Later-trans a b c later last);
  overlay = λ h. g.overlay (f.overlay h);
  receipted = λ h. g.receipted (f.receipted h);
}

-- Rows that are changed to later ones, of which no more hold the generation back.
module _ (p : Candidate → Bool) (f : Candidate → Candidate)
    (later : (r : Candidate) → p r ≡ true → Later r (f r))
    (fewer : (r : Candidate)
      → p r ≡ true
      → one_if (is_overlay (f r).state) ≤ one_if (is_overlay r.state)) where
  abbrev changed : Candidate → Candidate
  changed r = if p r then f r else r

  changed-Later : (r : Candidate) → Later r (changed r)
  changed-Later r = elim (Bool-cases (p r)) [
    | inl chosen ↦ subst (Later r) (sym (if_true (f r) r chosen)) (later r chosen)
    | inr left ↦ subst (Later r) (sym (if_false (f r) r left)) (Later-refl r)
  ]

  find-update :
      (id : String) (a : Candidate) (cs : List Candidate)
      → find_candidate id cs ≡ some a
      → (b : Candidate) × (find_candidate id (update_where p f cs) ≡ some b) × Later a b
  unfolding find_candidate update_where
  find-update id a [] e = cc
  find-update id a (c ∷ cs) e = elim (Bool-cases (c.candidate_id == id)) [
    | inl same ↦ (
      changed c,
      ground (arith, same, (changed-Later c).id),
      subst (λ r. Later r (changed c)) (ground (arith, e, same)) (changed-Later c),
    )
    | inr other ↦
        let (b, there, last) = find-update id a cs (ground (arith, e, other)) in
        (b, ground (arith, other, there, (changed-Later c).id), last)
  ]

  absent-update :
      (id : String) (cs : List Candidate)
      → find_candidate id cs ≡ none
      → find_candidate id (update_where p f cs) ≡ none
  unfolding find_candidate update_where
  absent-update id [] e = refl
  absent-update id (c ∷ cs) e = ground (arith, e, absent-update id cs, (changed-Later c).id)

  update-IsReceipted : (cs : List Candidate) → IsReceipted cs → IsReceipted (update_where p f cs)
  unfolding update_where
  update-IsReceipted [] k = k
  update-IsReceipted (c ∷ cs) k = (
    subst (λ id. find_candidate id (update_where p f cs) ≡ none) (sym (changed-Later c).id)
        (absent-update c.candidate_id cs k.0),
    update-IsReceipted cs k.1,
  )

  overlay_count-update :
      (cs : List Candidate) → overlay_count (update_where p f cs) ≤ overlay_count cs
  unfolding update_where
  overlay_count-update [] = omega arith
  overlay_count-update (c ∷ cs) = ground (arith, fewer c, overlay_count-update cs)

  pub update-Succeeds : (cs : List Candidate) → Succeeds cs (update_where p f cs)
  update-Succeeds cs = record {
    row = λ id a e. find-update id a cs e;
    overlay = λ h. omega (arith, h, overlay_count-update cs);
    receipted = update-IsReceipted cs;
  }

find-append :
    (id : String) (a row : Candidate) (cs : List Candidate)
    → find_candidate id cs ≡ some a
    → find_candidate id (cs ++ row ∷ []) ≡ some a
unfolding find_candidate
find-append id a row [] e = cc
find-append id a row (c ∷ cs) e = ground (arith, e, find-append id a row cs)

absent-append :
    (id : String) (row : Candidate) (cs : List Candidate)
    → find_candidate id cs ≡ none
    → row.candidate_id == id ≡ false
    → find_candidate id (cs ++ row ∷ []) ≡ none
unfolding find_candidate
absent-append id row [] e h = ground (arith, h)
absent-append id row (c ∷ cs) e h = ground (arith, e, h, absent-append id row cs)

append-IsReceipted :
    (row : Candidate) (cs : List Candidate)
    → find_candidate row.candidate_id cs ≡ none
    → IsReceipted cs
    → IsReceipted (cs ++ row ∷ [])
unfolding find_candidate
append-IsReceipted row [] e k = (refl, tt)
append-IsReceipted row (c ∷ cs) e k = (
  absent-append c.candidate_id row cs k.0 (
      ground
        (arith, e, eq_iff c.candidate_id row.candidate_id, eq_iff row.candidate_id c.candidate_id)),
  append-IsReceipted row cs (ground (arith, e)) k.1,
)

no_overlay : (cs : List Candidate) → any (λ c. is_overlay c.state) cs ≡ false → overlay_count cs ≡ 0
unfolding any
no_overlay [] h = refl
no_overlay (c ∷ cs) h = ground (arith, h, no_overlay cs)

-- A row that is inserted where no row holds the generation back, or that does not itself.
pub insert-Succeeds :
    (row : Candidate) (cs : List Candidate)
    → find_candidate row.candidate_id cs ≡ none
    → any (λ c. is_overlay c.state) cs && is_overlay row.state ≡ false
    → Succeeds cs (cs ++ row ∷ [])
insert-Succeeds row cs e h = record {
  row = λ id a here. (a, find-append id a row cs here, Later-refl a);
  overlay = λ k.
      ground (arith, k, h, no_overlay cs, count_p-append (λ c. is_overlay c.state) cs (row ∷ []));
  receipted = append-IsReceipted row cs e;
}
