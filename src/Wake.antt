-- ===== src/Wake.antt =====
-- internal/wake: what can wake a parked attempt again.
-- `World` holds what the package reads: the ticket's edges, every attempt and the attempt's own log.
pub mod Sources
use draiver.Prelude.{
  ℕ, String, ◌<>◌, Bool, not, ◌&&◌, Option, none, some, List, [], ◌∷◌, ◌++◌, map, ◌==◌, ltb, eqb,
  if◌then◌else◌, last, select, any,
}
use draiver.Prelude.Maps.{string_key, nat_key, ref_key, has}
use draiver.Prelude.Text.{join}
use draiver.Event.{Event}
use draiver.Log.{Result, ok, err, Dir, read}
use draiver.Project.State.{Parsed, ok, err, is_empty}
use draiver.Project.Edges.{Edges}
use draiver.Project.Fleet.{Attempt, is_done, ref}
use draiver.Reconcile.Activation.{zero_event}

pub data Kind : Type 0 where
  wants async_job : Kind

pub record Source : Type 0 where
  pub kind : Kind
  pub desc : String
  pub ref : ℕ
  pub rung : String

pub record World : Type 0 where
  pub edges : Parsed Edges
  pub attempts : Parsed (List Attempt)
  pub log : Dir

-- `AsyncLaunchFailResult`
unfoldable pub async_launch_fail_result : ℕ → String → String → Event
async_launch_fail_result launch_seq rung body = record zero_event {
  kind = "test-result";
  outcome = "fail";
  rung = rung;
  refs = launch_seq ∷ [];
  body = body;
}

-- `lastLaunch` and `lastRung`
unfoldable pub launch_step : ℕ × String → Event → ℕ × String
launch_step (last, rung) e =
    if (e.kind == "async-job") && ltb last e.seq then (e.seq, e.rung) else (last, rung)

unfoldable pub last_launch : ℕ × String → List Event → ℕ × String
unfolding launch_step
last_launch l [] = l
last_launch l (e ∷ es) = last_launch (launch_step l e) es

-- The second loop: a result later than the launch answers it.
abbrev pub answers_launch : ℕ → Event → Bool
answers_launch launch e = (e.kind == "test-result") && ltb launch e.seq

-- `pendingAsyncJob` on the events of the log.
unfoldable pub async_source : List Event → Option Source
unfolding last_launch
async_source events =
    let l = last_launch (0, "") events in
    if eqb l.0 0
    then none
    else if any (answers_launch l.0) events
    then none
    else some (record {
      kind = async_job;
      desc = "a detached test is running; its result will land on this log and wake the attempt";
      ref = l.0;
      rung = l.1;
    })

-- `pendingAsyncJob`; a log that cannot be read is an error.
abbrev pub pending_async_job : Result (List Event) → Parsed (Option Source)
pending_async_job (ok events) = ok (async_source events)
pending_async_job (err e) = err "read log"

-- The wanted tickets without an attempt at Done.
unfoldable pub inflight : List String → List Attempt → List String
inflight children attempts =
    let closed = map (λ a. a.ticket) (select (λ a. is_done a.state) attempts) in
    select (λ child. not (has closed child)) children

-- `%v` of a slice of strings.
unfoldable pub print_strings : List String → String
unfolding join
print_strings ss = "[" <> join ss " " <> "]"

abbrev wants_of : List String → Option Source
wants_of [] = none
wants_of (child ∷ rest) = some (record {
  kind = wants;
  desc = "wanted children still in flight: " <> print_strings (child ∷ rest);
  ref = 0;
  rung = "";
})

wants_among : List String → Parsed (List Attempt) → Parsed (Option Source)
unfolding inflight print_strings
wants_among children (err e) = err e
wants_among children (ok attempts) = ok (wants_of (inflight children attempts))

-- `pendingWants`
pub pending_wants : World → Parsed Edges → Parsed (Option Source)
unfolding wants_among
pending_wants w (err e) = err e
pending_wants w (ok e) = if is_empty e.wants then ok none else wants_among e.wants w.attempts

abbrev as_list : Option Source → List Source
as_list none = []
as_list (some s) = s ∷ []

abbrev both_sources : Parsed (Option Source) → Parsed (Option Source) → Parsed (List Source)
both_sources (err e) w = err e
both_sources (ok a) (err e) = err e
both_sources (ok a) (ok w) = ok (as_list a ++ as_list w)

-- `Pending`
unfoldable pub pending_sources : World → Parsed (List Source)
unfolding pending_wants
pending_sources w = both_sources (pending_async_job (read w.log)) (pending_wants w w.edges)
