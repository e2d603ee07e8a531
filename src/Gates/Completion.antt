-- ===== src/Gates/Completion.antt =====
-- internal/completion: the gate that a session passes when it ends a turn without a hand-off.
-- Whether the nudge, the append and the halt fail is a parameter of each call.
pub mod Latch
pub mod Stalls
use draiver.Prelude.{
  ℕ, ◌+◌, String, ◌<>◌, Bool, true, false, not, ◌&&◌, ◌||◌, Option, none, some, List, [], ◌∷◌, ◌==◌,
  ltb, leb, if◌then◌else◌, any,
}
use draiver.Event.{Event}
use draiver.Log.{Result, ok, err, Dir, read, last_event}
use draiver.Project.State.{Parsed, ok, err, is_empty}
use draiver.Wake.{wants, async_job, Source, World, pending_sources}
use draiver.Reconcile.Activation.{zero_event}

-- The fields of `Gate`; `has_nudge` and `has_halt` tell whether the function is not nil.
pub record Gate : Type 0 where
  pub actor : String
  pub baseline : ℕ
  pub has_nudge : Bool
  pub has_halt : Bool
  pub nudges : ℕ
  pub max_nudges : ℕ
  pub fired : Bool

abbrev seq_or_0 : Option Event → ℕ
seq_or_0 none = 0
seq_or_0 (some e) = e.seq

abbrev gate_of : String → Bool → Bool → Result (Option Event) → Result Gate
gate_of actor has_nudge has_halt (err x) = err x
gate_of actor has_nudge has_halt (ok tail) = ok (record {
  actor = actor;
  baseline = seq_or_0 tail;
  has_nudge = has_nudge;
  has_halt = has_halt;
  nudges = 0;
  max_nudges = 1;
  fired = false;
})

-- `New`
unfoldable pub new_gate : String → Bool → Bool → Dir → Result Gate
new_gate actor has_nudge has_halt log = gate_of actor has_nudge has_halt (last_event log)

-- The loop of `handedOff`.
pub handed_off_from : ℕ → Bool → Bool → List Event → Bool
handed_off_from baseline parkable saw_park [] = saw_park && parkable
handed_off_from baseline parkable saw_park (e ∷ es) =
    let rest = handed_off_from baseline parkable saw_park es in
    let parked = handed_off_from baseline parkable true es in
    if leb e.seq baseline
    then rest
    else if e.kind == "review" || e.kind == "escalation"
    then true
    else if e.kind == "park"
    then parked
    else rest

unfoldable pub handed_off : ℕ → Bool → List Event → Bool
unfolding handed_off_from
handed_off baseline parkable events = handed_off_from baseline parkable false events

abbrev is_async : Source → Bool
is_async s = elim s.kind [ wants ↦ false | async_job ↦ true ]

-- `hasAsyncSource`
unfoldable pub has_async_source : List Source → Bool
has_async_source sources = any is_async sources

abbrev auto_park_body : String
auto_park_body =
    "Auto-parked by the completion gate: this turn ended with a detached test still running but no `review`, `park`, or `escalation` filed. Suspending to Pending — the test result will land on this log and wake the attempt to claim review (green) or iterate (red)."

abbrev stall_body : String
stall_body =
    "This session reached a successful stopping point but never filed a `review` or an `escalation`, and did not claim one after being nudged. The supervisor halted it so the stalled attempt lands on the board for a human instead of idling in Running forever.\n\nResolve this escalation to resume the attempt — it comes back up with its session context restored — after redirecting it as needed, or reopen it for review if the work is in fact complete."

-- `nudgeMessage`
unfoldable pub nudge_message : String → Bool → String
nudge_message t parkable =
    if parkable
    then "Your turn ended at success, but no `review`, `park`, or `escalation` has been filed for this attempt — a supervised session must hand off before it stops. If nothing needs you right now and a wake source will bring you back (a child's lifecycle, or an async job), run `draiver park "
      <> t
      <> "` to suspend to Pending. If you are blocked or need a human decision, run `draiver escalate "
      <> t <> " \"…\"`. Do one now."
    else "Your turn ended at success, but no `review` or `escalation` has been filed for this attempt — a supervised session must hand off before it stops. If the work is complete, run `draiver review "
      <> t
      <> "` to claim it for review. If you are blocked or need a human decision, run `draiver escalate "
      <> t <> " \"…\"`. Do one now."

pub data Outcome : Type 0 where
  ignored nudged escalated parked : Outcome

pub record Faults : Type 0 where
  pub nudge_fails : Bool
  pub append_fails : Bool
  pub halt_fails : Bool

-- What one call of `Consider` did: the events are those handed to Append.
pub record Considered : Type 0 where
  pub outcome : Outcome
  pub failed : Bool
  pub gate : Gate
  pub prompted : Option String
  pub appended : List Event
  pub halted : Bool

pub ignore : Gate → Bool → Considered
ignore g failed = record {
  outcome = ignored;
  failed = failed;
  gate = g;
  prompted = none;
  appended = [];
  halted = false;
}

send_nudge : String → Gate → Faults → Bool → Considered
unfolding nudge_message
send_nudge t g f parkable = record {
  outcome = if f.nudge_fails then ignored else nudged;
  failed = f.nudge_fails;
  gate = record g { nudges = g.nudges + 1 };
  prompted = some (nudge_message t parkable);
  appended = [];
  halted = false;
}

abbrev auto_park : Gate → Event
auto_park g = record zero_event { kind = "park"; actor = g.actor; body = auto_park_body }

abbrev stall_escalation : Gate → Event
stall_escalation g = record zero_event { kind = "escalation"; actor = g.actor; body = stall_body }

suspend : Gate → Faults → Bool → Considered
suspend g f is_async_job = record {
  outcome = parked;
  failed = is_async_job && f.append_fails;
  gate = record g { fired = true };
  prompted = none;
  appended = if is_async_job then auto_park g ∷ [] else [];
  halted = false;
}

hand_to_human : Gate → Faults → Considered
hand_to_human g f = record {
  outcome = if f.append_fails then ignored else escalated;
  failed = f.append_fails || (g.has_halt && f.halt_fails);
  gate = record g { fired = true };
  prompted = none;
  appended = stall_escalation g ∷ [];
  halted = not f.append_fails && g.has_halt;
}

-- What follows when the turn is not handed off.
pub unmet_turn : String → Gate → Faults → List Source → Considered
unfolding send_nudge suspend hand_to_human has_async_source
unmet_turn t g f sources =
    let parkable = not (is_empty sources) in
    if g.has_nudge && ltb g.nudges g.max_nudges
    then send_nudge t g f parkable
    else if parkable
    then suspend g f (has_async_source sources)
    else hand_to_human g f

abbrev on_log : String → Gate → Faults → List Source → Result (List Event) → Considered
on_log t g f sources (err x) = ignore g true
on_log t g f sources (ok events) =
    if handed_off g.baseline (not (is_empty sources)) events
    then ignore g false
    else unmet_turn t g f sources

abbrev on_sources : String → Gate → Faults → Result (List Event) → Parsed (List Source) → Considered
on_sources t g f log (err e) = ignore g true
on_sources t g f log (ok sources) = on_log t g f sources log

-- `Consider`; `success` tells whether the frame ends a turn in success.
unfoldable pub consider : String → Gate → Bool → World → Faults → Considered
unfolding ignore unmet_turn handed_off pending_sources
consider t g success w f =
    if g.fired || not success
    then ignore g false
    else on_sources t g f (read w.log) (pending_sources w)
