-- ===== src/Core/Graph/Operations.antt =====
-- danus/core/factgraph.py: the operations that callers have, each after the recovery of what was
-- interrupted before. The lock lets one run at a time.
pub mod Sound
pub mod Crashes
use danus.Base.{String, Bool, true, false, Option, none, some, List, ◌==◌, if◌then◌else◌}
use danus.Base.Result.{Result, ok, err, ◌>>=◌}
use danus.Core.Graph.Disk.{Glossary, PendingRevocation, Disk}
use danus.Core.Graph.Revoke.{resume_pending_revocation, revoke_unlocked}
use danus.Core.Graph.Add.{NewFact, rollback_pending_add, add_unlocked}

-- `_recover_pending_transactions_unlocked`
unfoldable pub recover_pending_transactions : Glossary → Disk → Result Disk
unfolding rollback_pending_add resume_pending_revocation
recover_pending_transactions global d = rollback_pending_add global d >>= resume_pending_revocation

unfoldable pub add : Glossary → String → NewFact → Disk → Result (String × Disk)
unfolding recover_pending_transactions add_unlocked
add global transaction_id new d =
    recover_pending_transactions global d >>= add_unlocked global transaction_id new

-- `recovered["fact_ids"]`, if the revocation that the recovery ends is of this fact
unfoldable pub recovered_ids : String → Option PendingRevocation → Option (List String)
recovered_ids fact_id none = none
recovered_ids fact_id (some p) = if p.root_fact_id == fact_id then some p.fact_ids else none

-- the rest of `revoke`
unfoldable pub revoke_recovered :
    String → String → String → String → Option (List String) → Disk → Result (List String × Disk)
unfolding revoke_unlocked
revoke_recovered revocation_id timestamp fact_id reason (some ids) d = ok (ids, d)
revoke_recovered revocation_id timestamp fact_id reason none d =
    revoke_unlocked revocation_id timestamp fact_id reason d

unfoldable pub revoke :
    Glossary → String → String → String → String → Disk → Result (List String × Disk)
unfolding recover_pending_transactions recovered_ids revoke_recovered
revoke global revocation_id timestamp fact_id reason d = do
  e ← recover_pending_transactions global d
  revoke_recovered revocation_id timestamp fact_id reason
      (recovered_ids fact_id d.pending_revocation) e
