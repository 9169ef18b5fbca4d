-- ===== src/Coordination/Directive.antt =====
-- danus/coordination/policy.py: `coordination_directive`. The text of a directive is given by what
-- it is built from; its 2048-byte test, which no identifier of at most 128 bytes reaches, is left
-- out.
use danus.Base.{
  ℕ, String, Bool, false, ◌&&◌, ◌||◌, not, Option, none, some, ◌==◌, leb, is_some, if◌then◌else◌,
}
use danus.Base.Result.{Result, ok, err, ◌>>=◌, ◌>>◌, require}
use danus.Coordination.Rows.{Phase, critic_review, phase_eq, Text}

-- The body of a directive.
pub data Body : Type 0 where
  review : String → String → Body
  root_reasoning critic_reasoning explorer_reasoning : Body

pub record Directive : Type 0 where
  pub lane : String
  pub generation : ℕ
  pub phase : Phase
  pub body : Body

-- `not id or len(id.encode()) > 128` fails
unfoldable pub is_bounded_id : Text → Option String → Bool
is_bounded_id lib none = false
is_bounded_id lib (some id) = not (id == "") && leb (lib.size id) 128

unfoldable pub review_body : Text → String → Option String → Option String → Result Body
review_body lib lane (some r) (some e) =
    if (lane == "critic") && (is_bounded_id lib (some r) && is_bounded_id lib (some e))
    then ok (review r e)
    else err "critic review requires bounded exact review and root entry ids"
review_body lib lane _ _ = err "critic review requires bounded exact review and root entry ids"

unfoldable pub lane_body : String → Result Body
lane_body lane =
    if lane == "root"
    then ok root_reasoning
    else if lane == "critic"
    then ok critic_reasoning
    else if (lane == "explorer1") || (lane == "explorer2")
    then ok explorer_reasoning
    else err "only protected reasoning-first lanes receive paid directives"

unfoldable pub body_of : Text → String → Phase → Option String → Option String → Result Body
unfolding review_body lane_body is_bounded_id
body_of lib lane phase review_id entry_id =
    if phase_eq phase critic_review
    then review_body lib lane review_id entry_id
    else if is_some review_id || is_some entry_id
    then err "review identity is valid only in the critic review phase"
    else lane_body lane

unfoldable pub coordination_directive :
    Text → String → ℕ → Phase → Option String → Option String → Result Directive
unfolding body_of
coordination_directive lib lane generation phase review_id entry_id = do
  require (leb 1 generation) "generation must be positive"
  body ← body_of lib lane phase review_id entry_id
  ok (record { lane = lane; generation = generation; phase = phase; body = body })
