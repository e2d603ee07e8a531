-- ===== src/Scenarios/Parks.antt =====
-- A session that ends its turns without a hand-off, and a worker behind its test.
use draiver.Prelude.{
  ℕ, ◌+◌, ◌≤◌, String, ◌≡◌, refl, true, false, Option, none, [], ◌∷◌, ◌++◌, arith, length,
}
use draiver.Prelude.Maps.{string_key, nat_key, ref_key, has, insert}
use draiver.Event.{Event}
use draiver.Scenarios.Logs.{blank}
use draiver.Log.{ok, sort_by_seq, read}
use draiver.Project.State.{running, ok}
use draiver.Project.Axes.{unset as no_mode}
use draiver.Project.Fleet.{Attempt, Ref, ref}
use draiver.Reconcile.Async.{job, woken_by_own, reconcile_async_worker}
use draiver.Reconcile.Async.Parked.{
  ParkedBehindTest, landed, reconcile_async_worker-ParkedBehindTest,
}
use draiver.Wake.{World, launch_step, last_launch, async_source, pending_sources}
use draiver.Gates.Completion.{Gate, handed_off, escalated, Faults, consider}
use draiver.Gates.Completion.Latch.{
  Frames, session_writes, session_nudges, session_writes-session_nudges,
}
use draiver.Gates.Completion.Stalls.{Stalled, consider-Stalled}

abbrev stalling : Gate
stalling = record {
  actor = "draiverctld";
  baseline = 0;
  has_nudge = true;
  has_halt = true;
  nudges = 0;
  max_nudges = 1;
  fired = false;
}

abbrev alone : World
alone = record {
  edges = ok (record { wants = []; after = []; requires = [] });
  attempts = ok [];
  log = [];
}

abbrev no_faults : Faults
no_faults = record { nudge_fails = false; append_fails = false; halt_fails = false }

abbrev three_turns : Frames
three_turns = (true, alone, no_faults) ∷ (true, alone, no_faults) ∷ (true, alone, no_faults) ∷ []

session_writes-session_nudges_example :
    (length (session_writes "t" stalling three_turns) ≤ 1)
    × (stalling.nudges + session_nudges "t" stalling three_turns ≤ stalling.max_nudges)
session_writes-session_nudges_example =
    session_writes-session_nudges "t" stalling three_turns (omega arith)

abbrev nudged_once : Gate
nudged_once = record stalling { nudges = 1 }

stalls : (consider "t" nudged_once true alone no_faults).outcome ≡ escalated
unfolding consider handed_off pending_sources read sort_by_seq async_source
stalls = refl

consider-Stalled_example : Stalled nudged_once true alone
consider-Stalled_example = consider-Stalled "t" nudged_once true alone no_faults stalls

abbrev parked_worker : Attempt
parked_worker = record {
  ticket = "a";
  id = "0001";
  state = running;
  enabled = true;
  supervision = no_mode;
  events =
      record blank { seq = 1; kind = "async-job"; rung = "unit" }
      ∷ record blank { seq = 2; kind = "park" }
      ∷ [];
}

abbrev passed : Event
passed = record blank { seq = 3; kind = "test-result"; outcome = "pass" }

parks : ParkedBehindTest parked_worker
unfolding job async_source last_launch launch_step
parks = record { enabled = refl; runs = refl; may_park = refl; idle = omega arith }

unhandled : has (job "a" parked_worker.events).handled 3 ≡ false
unfolding job has
unhandled = refl

abbrev no_errors : Ref → Event → Option String
no_errors r e = none

reconcile_async_worker-ParkedBehindTest_example :
    (seq : ℕ) × (reconcile_async_worker "draiverctld" no_errors
        (landed parked_worker passed)
        []
        (record { out = []; authored = [] })
      ≡ ok (record {
        out = insert (ref parked_worker) (landed parked_worker passed) [];
        authored =
            []
            ++ (ref parked_worker, woken_by_own "draiverctld" (landed parked_worker passed) seq)
              ∷ [];
      }))
unfolding has
reconcile_async_worker-ParkedBehindTest_example =
    reconcile_async_worker-ParkedBehindTest "draiverctld" no_errors parked_worker passed []
      (record { out = []; authored = [] }) parks refl
      (omega arith, (omega arith, (omega arith, tt))) unhandled refl (λ key e. refl)
