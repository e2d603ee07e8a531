-- ===== src/Reconcile/Gates.antt =====
-- forward_gate.go and coordinator_gate.go: the two gates that trim admission.
pub mod Laws
use draiver.Prelude.{String, Bool, true, ◌&&◌, List, if◌then◌else◌, select, every}
use draiver.Prelude.Maps.{string_key, nat_key, ref_key}
use draiver.Project.State.{is_empty}
use draiver.Project.Edges.{Edges, EdgeMap, edges_at}
use draiver.Project.Fleet.{Attempt, Ref, ReachedMap, reached_at, best_reached}

abbrev pub Desired : Type 0
Desired = List (Ref × Attempt)

unfoldable pub gate_open : Edges → ReachedMap → Bool
gate_open e reached =
    every (λ x. (reached_at reached x).review) e.after
    && every (λ x. (reached_at reached x).done) e.requires

-- `admitted` stands for session.json holding a session id.
unfoldable pub forward_keeps : EdgeMap → ReachedMap → (Ref → Bool) → Ref → Bool
unfolding gate_open
forward_keeps edges reached admitted key =
    let e = edges_at edges key.0 in
    if is_empty e.after && is_empty e.requires
    then true
    else if gate_open e reached
    then true
    else admitted key

unfoldable pub apply_forward_gate : List Attempt → EdgeMap → (Ref → Bool) → Desired → Desired
unfolding forward_keeps best_reached
apply_forward_gate attempts edges admitted out =
    if is_empty out
    then out
    else select (λ entry. forward_keeps edges (best_reached attempts) admitted entry.0) out

unfoldable pub all_wanted_done : List String → ReachedMap → Bool
all_wanted_done wants reached = every (λ child. (reached_at reached child).done) wants

unfoldable pub coordinator_keeps : EdgeMap → ReachedMap → Ref → Bool
unfolding all_wanted_done
coordinator_keeps edges reached key =
    let e = edges_at edges key.0 in
    if is_empty e.wants then true else all_wanted_done e.wants reached

unfoldable pub apply_coordinator_gate : List Attempt → EdgeMap → Desired → Desired
unfolding coordinator_keeps best_reached
apply_coordinator_gate attempts edges out =
    if is_empty out
    then out
    else select (λ entry. coordinator_keeps edges (best_reached attempts) entry.0) out
