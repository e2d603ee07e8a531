-- ===== src/Reconcile/Health.antt =====
-- health.go: the error classes that are active on one attempt, and the edges that go to its log.
-- The set of active classes is a list; the absent entry of the map `health` is the empty list.
pub mod Edges
use draiver.Prelude.{
  String, Bool, true, false, List, [], ◌∷◌, ◌++◌, map, ◌==◌, if◌then◌else◌, select,
}
use draiver.Prelude.Maps.{string_key, nat_key, ref_key, has}

-- `HealthEvent` without its time stamp; `start` is the field Event.
pub record HealthEvent : Type 0 where
  pub class : String
  pub start : Bool
  pub message : String

abbrev class_worktree : String
class_worktree = "worktree-clash"

abbrev class_admit : String
class_admit = "admit-failed"

-- `classifyAdmit`; the argument is errors.Is(err, worktree.ErrCreate).
unfoldable pub classify_admit : Bool → String
classify_admit is_create_error = if is_create_error then class_worktree else class_admit

ended : String → HealthEvent
ended c = record { class = c; start = false; message = "" }

started : String → String → HealthEvent
started c message = record { class = c; start = true; message = message }

-- The closing loop of `reportHealth`: the events it emits and the classes it leaves.
close_others : String → List String → List HealthEvent
unfolding ended
close_others class [] = []
close_others class (c ∷ active) =
    let rest = close_others class active in if c == class then rest else ended c ∷ rest

keep_class : String → List String → List String
keep_class class active = select (λ c. c == class) active

-- `reportHealth` for one attempt: the classes active after it and the events that it appends.
unfoldable pub report_health : List String → String → String → List String × List HealthEvent
unfolding close_others keep_class started
report_health active class message =
    let closed = close_others class active in
    let kept = keep_class class active in
    if class == ""
    then (kept, closed)
    else if has kept class
    then (kept, closed)
    else (class ∷ kept, closed ++ started class message ∷ [])

-- `sweepHealth` for one attempt.
unfoldable pub sweep_health : List String → Bool → List String × List HealthEvent
unfolding ended
sweep_health active is_desired = if is_desired then (active, []) else ([], map ended active)
