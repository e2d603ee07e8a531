-- ===== src/Scenarios/Seams.antt =====
-- A tool policy in two layers, a session over its context limit and a detached test.
use draiver.Prelude.{String, ◌≡◌, refl, ◌⊎◌, true, false, Option, none, some, List, [], ◌∷◌, arith}
use draiver.Prelude.Maps.{string_key, nat_key, ref_key, has, lookup, insert}
use draiver.Event.{Event}
use draiver.Scenarios.Logs.{blank}
use draiver.Project.State.{running, ok}
use draiver.Project.Axes.{unset as no_mode}
use draiver.Project.Fleet.{Attempt, Ref, ref}
use draiver.Log.{ok, insert_by_seq, sort_by_seq}
use draiver.Reconcile.Activation.{Pass}
use draiver.Reconcile.Async.{
  job, oldest_unhandled_async_result, woken_by_own, reconcile_async_worker,
}
use draiver.Reconcile.Async.Wake.{WokeOwn, reconcile_async_worker-WokeOwn}
use draiver.Gates.Permission.{Rule}
use draiver.Gates.Permission.Laws.{Distinct}
use draiver.Gates.Context.{Gate, session}
use draiver.Gates.Context.Once.{first_over, stops, session-first_over}

one_rule : (t : String) (r : Rule) → Distinct ((t, r) ∷ [])
unfolding lookup
one_rule t r = (refl, tt)

abbrev limit : Gate
limit = record { actor = "draiverctld"; threshold = 100; has_halt = true; fired = false }

session-first_over_example :
    session limit (
      (none, false, false)
      ∷ (some 99, false, false)
      ∷ (some 120, true, false)
      ∷ (some 130, false, false)
      ∷ [])
    ≡ stops limit (
        first_over 100 (
          (none, false, false)
          ∷ (some 99, false, false)
          ∷ (some 120, true, false)
          ∷ (some 130, false, false)
          ∷ []))
session-first_over_example =
    session-first_over limit
      ((none, false, false)
        ∷ (some 99, false, false)
        ∷ (some 120, true, false)
        ∷ (some 130, false, false)
        ∷ [])
      refl (omega arith)

abbrev tested : List Event
tested =
    record blank { seq = 1; kind = "async-job" }
    ∷ record blank { seq = 2; kind = "park" }
    ∷ record blank { seq = 3; kind = "test-result" }
    ∷ []

abbrev worker : Attempt
worker = record {
  ticket = "a";
  id = "0001";
  state = running;
  enabled = true;
  supervision = no_mode;
  events = tested;
}

abbrev works : Ref → Event → Option String
works r e = none

abbrev start : Pass
start = record { out = []; authored = [] }

abbrev after_wake : Pass
after_wake = record {
  out = (ref worker, worker) ∷ [];
  authored = (ref worker, woken_by_own "draiverctld" worker 3) ∷ [];
}

worker_wakes : reconcile_async_worker "draiverctld" works worker [] start ≡ ok after_wake
unfolding reconcile_async_worker job oldest_unhandled_async_result insert has sort_by_seq
    insert_by_seq
worker_wakes = refl

reconcile_async_worker-WokeOwn_example :
    (after_wake.authored ≡ start.authored) ⊎ WokeOwn "draiverctld" works worker [] start after_wake
reconcile_async_worker-WokeOwn_example =
    reconcile_async_worker-WokeOwn "draiverctld" works worker [] start after_wake worker_wakes
