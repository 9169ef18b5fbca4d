-- ===== src/Core/Verdict/Accepted.antt =====
-- danus/core/verification.py: what an accepted answer of the verifier is.
use danus.Base.{
  ℕ, zero, suc, String, true, false, ◌&&◌, ◌||◌, not, Option, none, some, List, [], ◌∷◌, ◌==◌,
  get_elem?, if◌then◌else◌, ◌≡◌, refl, arith, ◌⊎◌, inl, inr, eq_iff, subst, sym,
}
use danus.Base.Result.{
  ok, Holds, Holds-ok, Holds-bind, Holds-require, Holds-then, or_raise-eq-ok, require-eq-ok,
}
use danus.Core.Verdict.{
  Json, Items, Fields, null, bool, int, negative, float, text, array, object, no_items, item, Words,
  get, as_object, as_array, as_text, as_name, as_line, one_of, line_is, validate_candidate_evidence,
  validate_finding, validate_findings, is_empty, same, validate_needs_context, validate_final,
  validate_status, validate_verification_output,
}

as_object-eq-ok : (j : Json) (m : String) (fs : Fields) → as_object j m ≡ ok fs → j ≡ object fs
unfolding as_object
as_object-eq-ok null m fs e = cc
as_object-eq-ok (bool b) m fs e = cc
as_object-eq-ok (int n) m fs e = cc
as_object-eq-ok (negative n) m fs e = cc
as_object-eq-ok (float n) m fs e = cc
as_object-eq-ok (text t) m fs e = cc
as_object-eq-ok (array xs) m fs e = cc
as_object-eq-ok (object gs) m fs e = cc

as_array-eq-ok : (j : Json) (m : String) (xs : Items) → as_array j m ≡ ok xs → j ≡ array xs
unfolding as_array
as_array-eq-ok null m xs e = cc
as_array-eq-ok (bool b) m xs e = cc
as_array-eq-ok (int n) m xs e = cc
as_array-eq-ok (negative n) m xs e = cc
as_array-eq-ok (float n) m xs e = cc
as_array-eq-ok (text t) m xs e = cc
as_array-eq-ok (array ys) m xs e = cc
as_array-eq-ok (object gs) m xs e = cc

as_text-eq-ok : (j : Json) (m : String) (t : String) → as_text j m ≡ ok t → j ≡ text t
unfolding as_text
as_text-eq-ok null m t e = cc
as_text-eq-ok (bool b) m t e = cc
as_text-eq-ok (int n) m t e = cc
as_text-eq-ok (negative n) m t e = cc
as_text-eq-ok (float n) m t e = cc
as_text-eq-ok (text u) m t e = cc
as_text-eq-ok (array ys) m t e = cc
as_text-eq-ok (object gs) m t e = cc

as_line-eq-ok : (j : Json) (m : String) (n : ℕ) → as_line j m ≡ ok n → j ≡ int (suc n)
unfolding as_line
as_line-eq-ok null m n e = cc
as_line-eq-ok (bool b) m n e = cc
as_line-eq-ok (int zero) m n e = cc
as_line-eq-ok (int (suc k)) m n e = cc
as_line-eq-ok (negative k) m n e = cc
as_line-eq-ok (float k) m n e = cc
as_line-eq-ok (text u) m n e = cc
as_line-eq-ok (array ys) m n e = cc
as_line-eq-ok (object gs) m n e = cc

as_name-eq-ok :
    (names : List String) (j : Json) (m : String)
    → Holds (λ t. (j ≡ text t) × (one_of names t ≡ true)) (as_name names j m)
unfolding as_name
as_name-eq-ok names j m =
    Holds-bind _ (λ t e. Holds-require _ _ (λ h. Holds-ok (as_text-eq-ok j m t e, h)))

line_is-eq-true : (o : Option String) (t : String) → line_is o t ≡ true → o ≡ some t
line_is-eq-true none t e = cc
line_is-eq-true (some l) t e = ground (arith, e, eq_iff l t)

-- The evidence of a finding: a line of the candidate, word for word.
pub record IsAnchored (w : Words) (statement proof : Option String) (finding : Json) : Type 0 where
  pub fields : Fields
  pub evidence : Fields
  pub source : String
  pub candidate : String
  pub line : ℕ
  pub exact_line : String
  pub is_finding : finding ≡ object fields
  pub has_evidence : get "candidate_evidence" fields ≡ object evidence
  pub has_source : get "source" evidence ≡ text source
  pub has_line : get "line" evidence ≡ int (suc line)
  pub has_exact_line : get "exact_line" evidence ≡ text exact_line
  pub is_given : (if source == "statement" then statement else proof) ≡ some candidate
  pub is_verbatim : get_elem? (w.lines candidate) line ≡ some exact_line
  pub says_something : w.has_content exact_line ≡ true

abbrev pub AllAnchored : Words → Option String → Option String → Items → Type 0
AllAnchored w statement proof no_items = Unit
AllAnchored w statement proof (item j js) =
    IsAnchored w statement proof j × AllAnchored w statement proof js

-- What an answer that asks for context is, and what a final one is.
abbrev pub Deferred : String → Items → Items → Items → String → Type 0
Deferred verdict errors gaps requests hints =
    (verdict ≡ "wrong")
    × (errors ≡ no_items)
    × (gaps ≡ no_items)
    × (is_empty requests ≡ false)
    × (hints ≡ "")

abbrev pub Final : Words → String → Items → Items → Items → String → Type 0
Final w verdict errors gaps requests hints =
    (requests ≡ no_items)
    × (((verdict ≡ "correct") × (errors ≡ no_items) × (gaps ≡ no_items) × (hints ≡ ""))
        ⊎ ((verdict ≡ "wrong")
            × (is_empty errors && is_empty gaps ≡ false)
            × (w.has_content hints ≡ true)))

-- What the parts of an accepted answer say.
pub record IsConsistent (w : Words) (statement proof : Option String) (fs : Fields) : Type 0 where
  pub report : Fields
  pub errors : Items
  pub gaps : Items
  pub requests : Items
  pub status : String
  pub verdict : String
  pub hints : String
  pub has_report : get "verification_report" fs ≡ object report
  pub has_errors : get "critical_errors" report ≡ array errors
  pub has_gaps : get "gaps" report ≡ array gaps
  pub has_requests : get "needs_expanded_proofs" fs ≡ array requests
  pub has_status : get "verification_status" fs ≡ text status
  pub has_verdict : get "verdict" fs ≡ text verdict
  pub has_hints : get "repair_hints" fs ≡ text hints
  pub errors_anchored : AllAnchored w statement proof errors
  pub gaps_anchored : AllAnchored w statement proof gaps
  pub deferred : status == "needs_context" ≡ true → Deferred verdict errors gaps requests hints
  pub final : status == "needs_context" ≡ false → Final w verdict errors gaps requests hints

module _ (w : Words) (statement proof : Option String) where
  evidence-IsAnchored :
      (path : String) (finding : Json) (fs : Fields)
      → finding ≡ object fs
      → Holds
          (λ _. IsAnchored w statement proof finding)
          (validate_candidate_evidence w statement proof path (get "candidate_evidence" fs))
  unfolding validate_candidate_evidence
  evidence-IsAnchored path finding fs is = Holds-bind _ (λ ev ee. Holds-then _ (λ _.
      Holds-bind _ (λ source es. Holds-bind _ (λ line el. Holds-bind _ (λ exact ex.
        Holds-require _ _ (λ says. Holds-bind _ (λ candidate ec. Holds-require _ _ (λ _. record {
          at = λ u e. record {
            fields = fs;
            evidence = ev;
            source = source;
            candidate = candidate;
            line = line;
            exact_line = exact;
            is_finding = is;
            has_evidence = as_object-eq-ok _ _ ev ee;
            has_source =
                ((as_name-eq-ok ("statement" ∷ "proof" ∷ []) (get "source" ev) _).at source es).0;
            has_line = as_line-eq-ok _ _ line el;
            has_exact_line = as_text-eq-ok _ _ exact ex;
            is_given = or_raise-eq-ok _ _ candidate ec;
            is_verbatim = line_is-eq-true _ exact (require-eq-ok _ _ e);
            says_something = says;
          };
        }))))))))

  finding-IsAnchored :
      (entry : String) (finding : Json)
      → Holds
          (λ _. IsAnchored w statement proof finding)
          (validate_finding w statement proof entry finding)
  unfolding validate_finding
  finding-IsAnchored entry finding = Holds-bind _ (λ fs ef. Holds-then _ (λ _. Holds-bind _ (λ _ _.
      Holds-bind _ (λ _ _. evidence-IsAnchored _ finding fs (as_object-eq-ok finding _ fs ef)))))

  findings-AllAnchored :
      (entry : String) (js : Items)
      → Holds (λ _. AllAnchored w statement proof js) (validate_findings w statement proof entry js)
  unfolding validate_findings
  findings-AllAnchored entry no_items = Holds-ok tt
  findings-AllAnchored entry (item j js) =
      Holds-then (validate_finding w statement proof entry j) (λ e. record {
        at = λ u f. ((finding-IsAnchored entry j).at tt e, (findings-AllAnchored entry js).at u f);
      })

is_empty-eq-true : (js : Items) → is_empty js ≡ true → js ≡ no_items
unfolding is_empty
is_empty-eq-true no_items e = refl
is_empty-eq-true (item j js) e = cc

-- Which of two names a text is.
two_names : (a b t : String) → one_of (a ∷ b ∷ []) t ≡ true → (t ≡ a) ⊎ (t ≡ b)
unfolding one_of
two_names a b t e = ground (arith, e, eq_iff a t, eq_iff b t)

wrong_is_not_correct : (verdict : String) → verdict ≡ "wrong" → verdict == "correct" ≡ false
wrong_is_not_correct verdict wrong = subst (λ v. v == "correct" ≡ false) (sym wrong) refl

module _ (w : Words) (verdict hints : String) (errors gaps requests : Items) where
  validate_needs_context-Deferred :
      Holds
        (λ _. Deferred verdict errors gaps requests hints)
        (validate_needs_context verdict
          (not (is_empty requests))
          (is_empty errors && is_empty gaps)
          hints)
  unfolding validate_needs_context
  validate_needs_context-Deferred = Holds-require _ _ (λ wrong. Holds-require _ _ (λ asks.
      Holds-require _ _ (λ clean. record {
        at = λ u e. (
          ground (arith, wrong, eq_iff verdict "wrong"),
          is_empty-eq-true errors (ground (arith, clean)),
          is_empty-eq-true gaps (ground (arith, clean)),
          ground (arith, asks),
          ground (arith, require-eq-ok _ _ e, eq_iff hints ""),
        );
      })))

  sound_verdict :
      one_of ("correct" ∷ "wrong" ∷ []) verdict ≡ true
      → same (is_empty errors && is_empty gaps) (verdict == "correct") ≡ true
      → not (verdict == "correct") || (hints == "") ≡ true
      → not (verdict == "wrong") || w.has_content hints ≡ true
      → ((verdict ≡ "correct") × (errors ≡ no_items) × (gaps ≡ no_items) × (hints ≡ ""))
        ⊎ ((verdict ≡ "wrong")
            × (is_empty errors && is_empty gaps ≡ false)
            × (w.has_content hints ≡ true))
  sound_verdict known agree quiet loud = elim (two_names "correct" "wrong" verdict known) [
    | inl right ↦ inl (
      right,
      is_empty-eq-true errors (ground (arith, agree, right, eq_iff verdict "correct")),
      is_empty-eq-true gaps (ground (arith, agree, right, eq_iff verdict "correct")),
      ground (arith, quiet, right, eq_iff verdict "correct", eq_iff hints ""),
    )
    | inr wrong ↦ inr (
      wrong,
      ground (arith, agree, wrong_is_not_correct verdict wrong),
      ground (arith, loud, wrong, eq_iff verdict "wrong"),
    )
  ]

  validate_final-Final :
      one_of ("correct" ∷ "wrong" ∷ []) verdict ≡ true
      → Holds
          (λ _. Final w verdict errors gaps requests hints)
          (validate_final w verdict
            (not (is_empty requests))
            (is_empty errors && is_empty gaps)
            hints)
  unfolding validate_final
  validate_final-Final known = Holds-require _ _ (λ asks. Holds-require _ _ (λ agree.
      Holds-require _ _ (λ quiet. record {
        at = λ u e. (
          is_empty-eq-true requests (ground (arith, asks)),
          sound_verdict known agree quiet (require-eq-ok _ _ e),
        );
      })))

status_sound :
    (w : Words) (status verdict hints : String) (errors gaps requests : Items)
    → one_of ("correct" ∷ "wrong" ∷ []) verdict ≡ true
    → validate_status w status verdict
        (not (is_empty requests))
        (is_empty errors && is_empty gaps)
        hints
      ≡ ok tt
    → (status == "needs_context" ≡ true → Deferred verdict errors gaps requests hints)
      × (status == "needs_context" ≡ false → Final w verdict errors gaps requests hints)
unfolding validate_status
status_sound w status verdict hints errors gaps requests known e = (
  λ is.
      (validate_needs_context-Deferred w verdict hints errors gaps requests).at tt
        (ground (arith, e, is)),
  λ is.
      (validate_final-Final w verdict hints errors gaps requests known).at tt
        (ground (arith, e, is)),
)

accepted_lem :
    (w : Words) (statement proof : Option String) (payload : Json)
    → Holds
        (λ fs. (payload ≡ object fs) × IsConsistent w statement proof fs)
        (validate_verification_output w statement proof payload)
unfolding validate_verification_output
accepted_lem w statement proof payload = Holds-bind _ (λ fs ef. Holds-then _ (λ _.
    Holds-require _ _ (λ _. Holds-bind _ (λ status es. Holds-bind _ (λ report er. Holds-then _ (λ _.
      Holds-bind _ (λ _ _. Holds-bind _ (λ errors ee. Holds-then _ (λ ve. Holds-bind _ (λ gaps eg.
        Holds-then _ (λ vg. Holds-bind _ (λ verdict ev. Holds-bind _ (λ hints eh.
          Holds-bind _ (λ requests eq. Holds-then _ (λ _. Holds-then _ (λ final. Holds-ok (
            as_object-eq-ok payload _ fs ef,
            record {
              report = report;
              errors = errors;
              gaps = gaps;
              requests = requests;
              status = status;
              verdict = verdict;
              hints = hints;
              has_report = as_object-eq-ok _ _ report er;
              has_errors = as_array-eq-ok _ _ errors ee;
              has_gaps = as_array-eq-ok _ _ gaps eg;
              has_requests = as_array-eq-ok _ _ requests eq;
              has_status =
                  ((as_name-eq-ok ("final" ∷ "needs_context" ∷ []) (get "verification_status" fs)
                      _).at
                    status es).0;
              has_verdict =
                  ((as_name-eq-ok ("correct" ∷ "wrong" ∷ []) (get "verdict" fs) _).at verdict ev).0;
              has_hints = as_text-eq-ok _ _ hints eh;
              errors_anchored =
                  (findings-AllAnchored w statement proof "each critical_errors entry" errors).at tt
                    ve;
              gaps_anchored =
                  (findings-AllAnchored w statement proof "each gaps entry" gaps).at tt vg;
              deferred = λ is.
                  (status_sound w status verdict hints errors gaps requests
                      ((as_name-eq-ok ("correct" ∷ "wrong" ∷ []) (get "verdict" fs) _).at verdict
                        ev).1
                      final).0
                    is;
              final = λ is.
                  (status_sound w status verdict hints errors gaps requests
                      ((as_name-eq-ok ("correct" ∷ "wrong" ∷ []) (get "verdict" fs) _).at verdict
                        ev).1
                      final).1
                    is;
            },
          )))))))))))))))))

-- An answer that is accepted is an object with a report, a verdict, hints and requests. Every
-- critical error and every gap quotes, word for word, a line of the statement or the proof that was
-- given. If it asks for context, its verdict is wrong, it has no findings and no hints, and it has
-- requests. Otherwise it has no requests, and it is correct with no findings and no hints, or wrong
-- with some finding and with hints.
pub accepted_answer-IsConsistent :
    (w : Words) (statement proof : Option String) (payload : Json) (fs : Fields)
    → validate_verification_output w statement proof payload ≡ ok fs
    → (payload ≡ object fs) × IsConsistent w statement proof fs
accepted_answer-IsConsistent w statement proof payload fs h =
    (accepted_lem w statement proof payload).at fs h
