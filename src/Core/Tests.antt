-- ===== src/Core/Tests.antt =====
-- danus/core/verification.py at a concrete answer.
use danus.Base.{not, some, [], ◌∷◌, ◌==◌, ◌≡◌, refl}
use danus.Base.Result.{ok, ◌>>=◌, ◌>>◌, require, or_raise}
use danus.Core.Verdict.{
  Fields, int, text, array, object, no_items, item, no_fields, field, Words,
  validate_verification_output,
}
use danus.Core.Verdict.Accepted.{IsConsistent, accepted_answer-IsConsistent}

abbrev words : Words
words = record { lines = λ t. t ∷ []; has_content = λ t. not (t == "") }

abbrev evidence : Fields
evidence =
    field "source" (text "proof")
      (field "line" (int 1) (field "exact_line" (text "Clearly.") no_fields))

abbrev gap : Fields
gap =
    field "location" (text "line 1")
      (field "issue" (text "no argument") (field "candidate_evidence" (object evidence) no_fields))

-- A wrong answer with one gap, which quotes the proof.
abbrev answer : Fields
answer = field "output_schema_version" (int 3) (
    field "verification_status" (text "final") (
      field "verification_report"
        (object (
          field "summary" (text "one gap") (
            field "critical_errors" (array no_items)
              (field "gaps" (array (item (object gap) no_items)) no_fields))))
        (field "verdict" (text "wrong") (
          field "needs_expanded_proofs" (array no_items)
            (field "repair_hints" (text "argue") no_fields)))))

answer_accepted :
    validate_verification_output words (some "1 = 1") (some "Clearly.") (object answer) ≡ ok answer
unfolding validate_verification_output ◌>>=◌ ◌>>◌ require or_raise
answer_accepted = refl

accepted_answer-IsConsistent_example :
    (object answer ≡ object answer) × IsConsistent words (some "1 = 1") (some "Clearly.") answer
accepted_answer-IsConsistent_example =
    accepted_answer-IsConsistent words (some "1 = 1") (some "Clearly.") (object answer) answer
      answer_accepted
