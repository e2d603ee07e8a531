-- ===== src/Reconcile/Async.antt =====
-- async_jobs.go: a worker parked behind a detached test, suspended and woken by its own log.
pub mod Wake
pub mod Launches
pub mod Parked
use draiver.Prelude.{
  ℕ, String, ◌<>◌, Bool, true, false, not, ◌&&◌, ◌||◌, Option, none, some, List, [], ◌∷◌, ◌++◌,
  ◌==◌, ltb, eqb, if◌then◌else◌,
}
use draiver.Prelude.Text.{sort_strings, itoa}
use draiver.Prelude.Maps.{string_key, nat_key, ref_key, has, insert, delete}
use draiver.Event.{Event}
use draiver.Project.State.{Parsed, ok, err}
use draiver.Project.Fleet.{Attempt, is_running, latest, Ref, ref}
use draiver.Log.{ok, err, sort_by_seq}
use draiver.Reconcile.Activation.{zero_event, Pass}

-- The variables of the scan of the worker's own log.
pub record Job : Type 0 where
  pub launch : ℕ
  pub park : ℕ
  pub activation : ℕ
  pub handled : List ℕ

abbrev max : ℕ → ℕ → ℕ
max a b = if ltb a b then b else a

pub job_step : String → Job → Event → Job
job_step own j e =
    if e.kind == "async-job"
    then record j { launch = max j.launch e.seq }
    else if e.kind == "park"
    then record j { park = max j.park e.seq }
    else if e.kind == "woken-by"
    then record j {
      activation = max j.activation e.seq;
      handled =
          if (e.woken_child == own) && ltb 0 e.woken_seq
          then e.woken_seq ∷ j.handled
          else j.handled;
    }
    else j

pub job_from : String → Job → List Event → Job
unfolding job_step
job_from own j [] = j
job_from own j (e ∷ es) = job_from own (job_step own j e) es

unfoldable pub job : String → List Event → Job
unfolding job_from
job own events = job_from own (record { launch = 0; park = 0; activation = 0; handled = [] }) events

-- The loop of `oldestUnhandledAsyncResult` over the ordered events; 0 is no result.
pub oldest_from : List ℕ → Bool → List Event → ℕ
oldest_from handled launch_open [] = 0
oldest_from handled launch_open (e ∷ es) =
    let opened = oldest_from handled true es in
    let closed = oldest_from handled false es in
    if e.kind == "async-job"
    then opened
    else if e.kind == "test-result"
    then (if not launch_open then closed else if not (has handled e.seq) then e.seq else closed)
    else if launch_open
    then opened
    else closed

unfoldable pub oldest_unhandled_async_result : List Event → List ℕ → ℕ
unfolding oldest_from sort_by_seq
oldest_unhandled_async_result events handled = oldest_from handled false (sort_by_seq events)

unfoldable pub woken_by_async_body : ℕ → String
woken_by_async_body seq =
    "Woken by own `test-result` #"
    <> itoa seq
    <> " — the detached `draiver test` this attempt launched has landed its verdict on this log. Authored by the reconciler at wake time: the dedup marker for this result and the wake-reason tail of this brief. Cold-start, read the result, and claim review (green) or iterate (red)."

unfoldable pub woken_by_own : String → Attempt → ℕ → Event
unfolding woken_by_async_body
woken_by_own actor w seq = record zero_event {
  kind = "woken-by";
  actor = actor;
  woken_child = w.ticket;
  woken_seq = seq;
  body = woken_by_async_body seq;
}

module _ (actor : String) (append_error : Ref → Event → Option String) where
  pub author_own : Option String → Attempt → ℕ → Pass → Parsed Pass
  unfolding woken_by_own
  author_own (some e) w seq pass = err e
  author_own none w seq pass = ok (record {
    out = insert (ref w) w pass.out;
    authored = pass.authored ++ (ref w, woken_by_own actor w seq) ∷ [];
  })

  -- `reconcileAsyncWorker`
  unfoldable pub reconcile_async_worker : Attempt → List Ref → Pass → Parsed Pass
  unfolding author_own woken_by_own job oldest_unhandled_async_result
  reconcile_async_worker w live pass =
      let j = job w.ticket w.events in
      let seq = oldest_unhandled_async_result w.events j.handled in
      let trimmed : Parsed Pass = ok (record pass { out = delete (ref w) pass.out }) in
      if not w.enabled || not (is_running w.state)
      then ok pass
      else if eqb j.launch 0
      then ok pass
      else if ltb j.park j.activation
      then ok (record pass { out = insert (ref w) w pass.out })
      else if eqb seq 0
      then (if ltb j.launch j.park then trimmed else ok pass)
      else if has live (ref w)
      then trimmed
      else author_own (append_error (ref w) (woken_by_own actor w seq)) w seq pass

  -- The keys of the map `latestByTicket`.
  tickets_of : List Attempt → List String
  tickets_of [] = []
  tickets_of (a ∷ attempts) =
      let rest = tickets_of attempts in if has rest a.ticket then rest else a.ticket ∷ rest

  reconcile_next : List Ref → Option Attempt → Pass → Parsed Pass
  reconcile_next live none pass = ok pass
  reconcile_next live (some w) pass = reconcile_async_worker w live pass

  reconcile_each : List Attempt → List Ref → List String → Parsed Pass → Parsed Pass
  unfolding reconcile_next
  reconcile_each attempts live ts (err e) = err e
  reconcile_each attempts live [] (ok pass) = ok pass
  reconcile_each attempts live (t ∷ ts) (ok pass) =
      reconcile_each attempts live ts (reconcile_next live (latest attempts t) pass)

  -- `reconcileAsyncJobs`
  unfoldable pub reconcile_async_jobs : List Attempt → List Ref → Pass → Parsed Pass
  unfolding reconcile_each tickets_of sort_strings
  reconcile_async_jobs attempts live pass =
      reconcile_each attempts live (sort_strings (tickets_of attempts)) (ok pass)
