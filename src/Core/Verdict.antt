-- ===== src/Core/Verdict.antt =====
-- danus/core/verification.py: the contract of the verifier's final answer.
pub mod Accepted
use Prim.Native.String.{◌++◌ as ◌+++◌}
use danus.Base.{
  ℕ, zero, suc, String, Bool, true, false, ◌&&◌, ◌||◌, not, Option, none, some, List, [], ◌∷◌, ◌==◌,
  ◌=?◌, leb, is_some, get_elem?, if◌then◌else◌,
}
use danus.Base.Assoc.{lookup}
use danus.Base.Result.{Result, ok, err, ◌>>=◌, ◌>>◌, require, or_raise}

-- A value that json.loads returns; an object's keys are distinct. An integer below zero is given by
-- its distance from -1, and a float by the natural number it equals, if it equals one.
mutual
  pub data Json : Type 0 where
    null : Json
    bool : Bool → Json
    int negative : ℕ → Json
    float : Option ℕ → Json
    text : String → Json
    array : Items → Json
    object : Fields → Json

  pub data Items : Type 0 where
    no_items : Items
    item : Json → Items → Items

  pub data Fields : Type 0 where
    no_fields : Fields
    field : String → Json → Fields → Fields

-- What the contract uses of Python's text: `splitlines`, and whether `strip` leaves something.
pub record Words : Type 0 where
  pub lines : String → List String
  pub has_content : String → Bool

-- `.get(key)`, None when it is missing
unfoldable pub get : String → Fields → Json
get key no_fields = null
get key (field k v fs) = if k == key then v else get key fs

unfoldable pub keys : Fields → List String
keys no_fields = []
keys (field k v fs) = k ∷ keys fs

unfoldable pub one_of : List String → String → Bool
one_of [] x = false
one_of (y ∷ ys) x = (y == x) || one_of ys x

unfoldable pub all_of : List String → List String → Bool
unfolding one_of
all_of ys [] = true
all_of ys (x ∷ xs) = one_of ys x && all_of ys xs

unfoldable pub require_exact_keys : Fields → List String → String → Result (Unit {0})
unfolding keys all_of
require_exact_keys value expected path =
    require (all_of expected (keys value) && all_of (keys value) expected)
      (path +++ " must have exactly the required keys")

-- `isinstance(value, dict)`, `list` and `str`, with what they give access to
unfoldable pub as_object : Json → String → Result Fields
as_object (object fs) message = ok fs
as_object _ message = err message

unfoldable pub as_array : Json → String → Result Items
as_array (array xs) message = ok xs
as_array _ message = err message

unfoldable pub as_text : Json → String → Result String
as_text (text t) message = ok t
as_text _ message = err message

-- `isinstance(x, str) and x in names`
unfoldable pub as_name : List String → Json → String → Result String
unfolding one_of as_text
as_name names j message = do name ← as_text j message; require (one_of names name) message; ok name

-- a line number, less one
unfoldable pub as_line : Json → String → Result ℕ
as_line (int (suc n)) message = ok n
as_line _ message = err message

-- `!= VERIFICATION_OUTPUT_PROTOCOL_VERSION`: 3.0 equals 3
unfoldable pub is_version : Json → Bool
is_version (int n) = n =? 3
is_version (float (some n)) = n =? 3
is_version _ = false

abbrev pub line_is : Option String → String → Bool
line_is none t = false
line_is (some l) t = l == t

unfoldable pub validate_candidate_evidence :
    Words → Option String → Option String → String → Json → Result (Unit {0})
unfolding as_object require_exact_keys get as_name as_line as_text
validate_candidate_evidence w statement proof path evidence = do
  fs ← as_object evidence (path +++ " must be a dict")
  require_exact_keys fs ("source" ∷ "line" ∷ "exact_line" ∷ []) path
  source ←
      as_name ("statement" ∷ "proof" ∷ []) (get "source" fs)
        (path +++ ".source must be \"statement\" or \"proof\"")
  line ← as_line (get "line" fs) (path +++ ".line must be a positive integer")
  exact_line ← as_text (get "exact_line" fs) (path +++ ".exact_line must be a string")
  require (w.has_content exact_line)
      (path +++ ".exact_line must contain non-whitespace candidate text")
  candidate ←
      or_raise (if source == "statement" then statement else proof)
        (path +++ " cannot be authenticated without the original candidate " +++ source)
  require (is_some (get_elem? (w.lines candidate) line))
      (path +++ ".line is outside candidate " +++ source)
  require (line_is (get_elem? (w.lines candidate) line) exact_line)
      (path +++ ".exact_line is not the verbatim candidate line")

-- a string that is not empty
unfoldable pub as_filled : Json → String → Result String
unfolding as_text
as_filled j message = do t ← as_text j message; require (not (t == "")) message; ok t

unfoldable pub validate_finding :
    Words → Option String → Option String → String → Json → Result (Unit {0})
unfolding as_object require_exact_keys as_filled get validate_candidate_evidence
validate_finding w statement proof entry finding = do
  fs ← as_object finding (entry +++ " must be a dict")
  require_exact_keys fs ("location" ∷ "issue" ∷ "candidate_evidence" ∷ []) entry
  _ ← as_filled (get "location" fs) (entry +++ " needs a non-empty string location")
  _ ← as_filled (get "issue" fs) (entry +++ " needs a non-empty string issue")
  validate_candidate_evidence w statement proof (entry +++ ".candidate_evidence")
      (get "candidate_evidence" fs)

unfoldable pub validate_findings :
    Words → Option String → Option String → String → Items → Result (Unit {0})
unfolding validate_finding
validate_findings w statement proof entry no_items = ok tt
validate_findings w statement proof entry (item j js) =
    validate_finding w statement proof entry j >> validate_findings w statement proof entry js

-- the loop over needs_expanded_proofs, with `requested_ids`
unfoldable pub validate_requests : Words → List String → Items → Result (Unit {0})
unfolding as_object require_exact_keys as_filled as_text get one_of
validate_requests w seen no_items = ok tt
validate_requests w seen (item j js) = do
  fs ← as_object j "each needs_expanded_proofs entry must be a dict"
  require_exact_keys fs ("id" ∷ "reason" ∷ []) "each needs_expanded_proofs entry"
  id ← as_filled (get "id" fs) "each expansion request needs a non-empty string id"
  require (not (one_of seen id)) ("duplicate expansion request id: " +++ id)
  reason ← as_text (get "reason" fs) "each expansion request needs a non-empty string reason"
  require (w.has_content reason) "each expansion request needs a non-empty string reason"
  validate_requests w (id ∷ seen) js

unfoldable pub is_empty : Items → Bool
is_empty no_items = true
is_empty (item j js) = false

abbrev pub same : Bool → Bool → Bool
same true b = b
same false b = not b

-- a control response, never a final verdict
unfoldable pub validate_needs_context : String → Bool → Bool → String → Result (Unit {0})
validate_needs_context verdict asks clean hints = do
  require (verdict == "wrong") "verification_status \"needs_context\" requires verdict \"wrong\""
  require asks "verification_status \"needs_context\" requires at least one expansion request"
  require clean "verification_status \"needs_context\" requires empty findings"
  require (hints == "") "verification_status \"needs_context\" requires empty repair_hints"

unfoldable pub validate_final : Words → String → Bool → Bool → String → Result (Unit {0})
validate_final w verdict asks clean hints = do
  require (not asks) "verification_status \"final\" requires no expansion requests"
  require (same clean (verdict == "correct"))
      "verdict must be \"correct\" iff critical_errors and gaps are both empty"
  require (not (verdict == "correct") || (hints == ""))
      "verdict \"correct\" requires empty repair_hints"
  require (not (verdict == "wrong") || w.has_content hints)
      "verdict \"wrong\" requires non-empty repair_hints"

abbrev pub payload_keys : List String
payload_keys =
    "output_schema_version" ∷ "verification_status" ∷ "verification_report" ∷ "verdict"
    ∷ "needs_expanded_proofs" ∷ "repair_hints" ∷ []

unfoldable pub validate_status : Words → String → String → Bool → Bool → String → Result (Unit {0})
unfolding validate_needs_context validate_final
validate_status w status verdict asks clean hints =
    if status == "needs_context"
    then validate_needs_context verdict asks clean hints
    else validate_final w verdict asks clean hints

unfoldable pub validate_verification_output :
    Words → Option String → Option String → Json → Result Fields
unfolding as_object require_exact_keys is_version as_name as_text as_array get validate_findings
    validate_requests is_empty validate_status
validate_verification_output w statement proof payload = do
  fs ← as_object payload "payload must be a dict"
  require_exact_keys fs payload_keys "payload"
  require (is_version (get "output_schema_version" fs)) "output_schema_version must be exactly 3"
  status ←
      as_name ("final" ∷ "needs_context" ∷ []) (get "verification_status" fs)
        "verification_status must be \"final\" or \"needs_context\""
  report ← as_object (get "verification_report" fs) "verification_report must be a dict"
  require_exact_keys report ("summary" ∷ "critical_errors" ∷ "gaps" ∷ []) "verification_report"
  _ ← as_text (get "summary" report) "verification_report.summary must be a string"
  errors ←
      as_array (get "critical_errors" report) "verification_report.critical_errors must be a list"
  validate_findings w statement proof "each critical_errors entry" errors
  gaps ← as_array (get "gaps" report) "verification_report.gaps must be a list"
  validate_findings w statement proof "each gaps entry" gaps
  verdict ←
      as_name ("correct" ∷ "wrong" ∷ []) (get "verdict" fs)
        "verdict must be \"correct\" or \"wrong\""
  hints ← as_text (get "repair_hints" fs) "repair_hints must be a string"
  requests ← as_array (get "needs_expanded_proofs" fs) "needs_expanded_proofs must be a list"
  validate_requests w [] requests
  validate_status w status verdict (not (is_empty requests)) (is_empty errors && is_empty gaps)
      hints
  ok fs
