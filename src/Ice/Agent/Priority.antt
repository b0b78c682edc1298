-- ===== src/Ice/Agent/Priority.antt =====
-- The priorities of candidates.
use node_rtc_connection.Prelude.{ℕ, ◌≤◌, ◌<◌, arith}
use node_rtc_connection.Ice.Agent.{
  CandidateType, host, srflx, prflx, relay, type_pref, candidate_priority,
}

type_pref_bound : (t : CandidateType) → type_pref t ≤ 126
type_pref_bound host = omega arith
type_pref_bound srflx = omega arith
type_pref_bound prflx = omega arith
type_pref_bound relay = omega arith

-- The priority of a candidate is a positive number below 2^31, and a candidate of a preferred type is
-- above one of another type, whatever their local preferences of 16 bits and their components from 1
-- to 255.
pub candidate_priority_lem :
    (t u : CandidateType) (local_t local_u component_t component_u : ℕ)
    → local_t < 65536
    → local_u < 65536
    → 1 ≤ component_t
    → component_t ≤ 255
    → 1 ≤ component_u
    → component_u ≤ 255
    → type_pref t < type_pref u
    → (0 < candidate_priority t local_t component_t)
      × (candidate_priority t local_t component_t < candidate_priority u local_u component_u)
      × (candidate_priority u local_u component_u < 2147483648)
candidate_priority_lem t u local_t local_u component_t component_u p q c c' d d' h = (
  omega (arith, type_pref_bound t),
  omega (arith, type_pref_bound t, type_pref_bound u),
  omega (arith, type_pref_bound u),
)
