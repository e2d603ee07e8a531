-- ===== src/Scenarios/States.antt =====
-- A log with an escalation and its resolution, and the theorems on states at it.
use draiver.Prelude.{ℕ, String, ◌≡◌, refl, ◌≢◌, ◌↔◌, List, [], ◌∷◌, map, Memᴰ, arith}
use draiver.Event.{Event}
use draiver.Prelude.Maps.{string_key, nat_key, ref_key}
use draiver.Scenarios.Logs.{blank}
use draiver.Project.State.{running, pending, needs_me, review, done, derive}
use draiver.Project.State.Control.{Ends, HasOpen, derive_states}
use draiver.Project.Axes.Latest.{}
use draiver.Kb.{first_pass, no_edges, fact, fold, live_escalations}
use draiver.Kb.Live.{Numbered, Annotated, fold-Annotated}
use draiver.Kb.Agreement.{Unnamed, live_escalations-derive}

abbrev step : ℕ → String → List ℕ → Event
step n k r = record blank { seq = n; kind = k; refs = r }

abbrev asked : Event
asked = step 1 "escalation" []

abbrev asked_again : Event
asked_again = step 2 "escalation" []

abbrev answered : Event
answered = step 3 "resolution" (1 ∷ [])

abbrev log : List Event
log = asked ∷ asked_again ∷ answered ∷ []

derive_states_example :
    (((derive log).0 ≡ done) ↔ Ends "done" log)
    × (((derive log).0 ≡ needs_me) ↔ ((¬ Ends "done" log) × HasOpen log))
    × (((derive log).0 ≡ review) ↔ (Ends "review" log × (¬ HasOpen log)))
    × (((derive log).0 ≡ running) ↔ ((¬ Ends "done" log) × (¬ Ends "review" log) × (¬ HasOpen log)))
    × ((derive log).0 ≢ pending)
derive_states_example = derive_states log

numbered : Numbered log
numbered = (omega arith, (omega arith, (omega arith, tt)))

first_fact : Memᴰ (fact (first_pass no_edges log) asked) (fold log).facts
unfolding fold
first_fact = Memᴰ.head refl

fold-Annotated_example : Annotated log (fact (first_pass no_edges log) asked)
fold-Annotated_example =
    fold-Annotated log (fact (first_pass no_edges log) asked) numbered first_fact

unnamed : (n : ℕ) → Unnamed log n
unnamed n = (λ m. elim m [ ], (λ m. elim m [ ], (λ m. elim m [ ], tt)))

live_escalations-derive_example : map (λ f. f.event) (live_escalations (fold log)) ≡ (derive log).1
live_escalations-derive_example =
    live_escalations-derive log numbered (λ _. unnamed 1, (λ _. unnamed 2, (λ _. unnamed 3, tt)))
