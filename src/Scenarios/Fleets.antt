-- ===== src/Scenarios/Fleets.antt =====
-- An epic with two tasks, one after the other, and the theorems on fleets and passes at it.
use draiver.Prelude.{
  ℕ, ◌<◌, String, ◌≡◌, refl, ◌≢◌, ◌↔◌, ◌⊎◌, true, false, false≢true, Option, none, some, List, [],
  ◌∷◌, Memᴰ, arith, eq_iff,
}
use draiver.Event.{Event}
use draiver.Prelude.Maps.{string_key, nat_key, ref_key, has, insert}
use draiver.Scenarios.Logs.{blank}
use draiver.Project.State.{State, running, needs_me, review, ok}
use draiver.Project.Axes.{unset, pre_digest, effective}
use draiver.Project.Edges.{Edges, EdgeMap, wants_closure}
use draiver.Project.Edges.Closure.{Reaches, wants_closure-Reaches}
use draiver.Project.Fleet.{Attempt, Ref, ref, derive_desired, takes_escalation}
use draiver.Project.Fleet.Desired.{IsDesired, derive_desired-IsDesired}
use draiver.Project.Fleet.Escalated.{wants_it}
use draiver.Reconcile.Activation.{
  Doorbell, doorbell_key, phase, pending_doorbells, woken_by, Pass, activate_coordinator,
}
use draiver.Reconcile.Activation.Replay.{phase-Answers, Woke, activate_coordinator-Woke}

abbrev epic : Edges
epic = record { wants = "a" ∷ "b" ∷ []; after = []; requires = [] }

abbrev task_b : Edges
task_b = record { wants = []; after = "a" ∷ []; requires = [] }

abbrev specs : EdgeMap
specs = ("epic", epic) ∷ ("b", task_b) ∷ []

abbrev event_at : ℕ → String → Event
event_at n k = record blank { seq = n; kind = k }

abbrev attempt_of : String → State → List Event → Attempt
attempt_of t s es = record {
  ticket = t;
  id = "0001";
  state = s;
  enabled = true;
  supervision = pre_digest;
  events = es;
}

abbrev parent : Attempt
parent = attempt_of "epic" running []

abbrev child : Attempt
child = attempt_of "a" review (event_at 1 "review" ∷ [])

abbrev second_child : Attempt
second_child = attempt_of "b" needs_me (event_at 1 "escalation" ∷ [])

abbrev fleet : List Attempt
fleet = child ∷ second_child ∷ parent ∷ []

wants_closure-Reaches_example :
    (r : List String) × (wants_closure ("epic" ∷ []) specs ≡ some r)
    × ((s : String) → Memᴰ s r ↔ (Reaches ("epic" ∷ []) specs s × (¬ Memᴰ s ("epic" ∷ []))))
wants_closure-Reaches_example = wants_closure-Reaches ("epic" ∷ []) specs

derive_desired-IsDesired_example :
    (d : List Ref) × (derive_desired fleet specs ≡ some d)
    × ((r : Ref) → Memᴰ r d ↔ IsDesired fleet specs r)
derive_desired-IsDesired_example = derive_desired-IsDesired fleet specs

named : wants_it "" "b" specs ≡ false
unfolding has
named = refl

abbrev bell_a : Doorbell
bell_a = record { child = "a"; seq = 1; kind = "review"; ts = 0 }

abbrev woken : Event
woken = record blank { seq = 1; kind = "woken-by"; woken_child = "a"; woken_seq = 1 }

child_named : bell_a.child ≢ ""
child_named e = false≢true ((eq_iff "a" "").1 e)

phase-Answers_example :
    ¬ Memᴰ bell_a (pending_doorbells ("a" ∷ "b" ∷ []) fleet (phase (woken ∷ [])).handled)
phase-Answers_example =
    phase-Answers [] [] woken bell_a ("a" ∷ "b" ∷ []) fleet (refl, refl, refl) child_named
      (omega arith)

abbrev works : Ref → Event → Option String
works r e = none

abbrev start : Pass
start = record { out = []; authored = [] }

abbrev first_wake : Pass
first_wake = record {
  out = (ref parent, parent) ∷ [];
  authored = (ref parent, woken_by "draiverctld" bell_a) ∷ [];
}

wakes :
    activate_coordinator "draiverctld" unset works parent ("a" ∷ "b" ∷ []) fleet [] start
    ≡ ok first_wake
unfolding activate_coordinator phase pending_doorbells effective insert has doorbell_key
wakes = refl

activate_coordinator-Woke_example :
    (first_wake.authored ≡ start.authored)
    ⊎ Woke "draiverctld" unset works parent ("a" ∷ "b" ∷ []) fleet [] start first_wake
activate_coordinator-Woke_example =
    activate_coordinator-Woke "draiverctld" unset works parent ("a" ∷ "b" ∷ []) fleet [] start
      first_wake wakes

takes : takes_escalation unset parent ≡ true
unfolding takes_escalation effective
takes = refl

later_than_parks : (phase []).park < 1
unfolding phase
later_than_parks = omega arith
