-- ===== src/Reconcile/Retire.antt =====
-- reconcile.go: `retire`, which takes an attempt that is no longer desired out of the run table.
-- What the processes and the checkouts answer is `Disk`; what the daemon does to them is a list of
-- `Act`, in the code's order. The lines of the operational log are left out.
pub mod Reclaims
use draiver.Prelude.{
  ℕ, String, ◌<>◌, Bool, true, false, not, ◌&&◌, Option, none, some, List, [], ◌∷◌, ◌++◌, ◌==◌, eqb,
  if◌then◌else◌, any,
}
use draiver.Prelude.Maps.{string_key, nat_key, ref_key, lookup, delete}
use draiver.Event.{Event}
use draiver.Wake.{wants, async_job, Source, World, pending_sources}
use draiver.Reconcile.Health.{HealthEvent}
use draiver.Project.State.{State, running, pending, needs_me, review, done, Parsed, ok, err}
use draiver.Project.Fleet.{is_needs_me, Ref}
use draiver.Reconcile.Activation.{zero_event}

-- `run`: `spent` is a closed `done` channel.
pub record Run : Type 0 where
  pub repo : String
  pub adopted : Bool
  pub pid : ℕ
  pub spent : Bool

abbrev pub Runs : Type 0
Runs = List (Ref × Run)

pub data Act : Type 0 where
  -- removeDesiredMarker
  unmark : Ref → Act
  -- Proc.Terminate
  terminate : Ref → ℕ → Act
  -- cancel, Kill and the wait for the ingest goroutine
  kill : Ref → Act
  close_session : Ref → Act
  fold_metrics : Ref → Act
  -- Manager.Remove without Force
  reclaim : Ref → Act
  -- ticketlog.Append
  write : Ref → Event → Act
  -- emitSystem with a class and a message
  emit : Ref → String → String → Act
  -- appendHealth
  health_edge : Ref → HealthEvent → Act

pub record Disk : Type 0 where
  pub actor : String
  pub alive : ℕ → Bool
  pub world : Ref → World
  -- the error of managerFor
  pub manager_error : String → Option String
  -- Dirty and Remove of the manager of a repo
  pub dirty : String → Ref → Parsed Bool
  pub remove_error : String → Ref → Option String
  -- `%q`
  pub quote : String → String

-- The text of a `State`.
abbrev pub state_text : State → String
state_text running = "Running"
state_text pending = "Pending"
state_text needs_me = "Needs me"
state_text review = "Review"
state_text done = "Done"

retire_body : State → Bool → String → String
retire_body st reclaimed reason =
    if reclaimed
    then "Daemon reclaimed the worktree on retire into " <> state_text st <> ": " <> reason <> "."
    else "Daemon kept the worktree warm on retire into "
      <> state_text st
      <> ": "
      <> reason
      <> ". It is preserved so the attempt can resume where the session stopped without losing work."

-- `recordRetire`
record_retire : String → Ref → State → Bool → String → List Act
unfolding retire_body
record_retire actor k st reclaimed reason =
    write k
      (record zero_event { kind = "note"; actor = actor; body = retire_body st reclaimed reason })
    ∷ emit k "ctl-retire" (
        "ctl: retired into "
        <> state_text st
        <> " — "
        <> (if reclaimed then "reclaimed worktree" else "kept warm"))
    ∷ []

abbrev pub is_async : Source → Bool
is_async s = elim s.kind [ wants ↦ false | async_job ↦ true ]

module _ (d : Disk) (k : Ref) (st : State) where
  after_remove : Option String → List Act
  unfolding record_retire
  after_remove none =
      record_retire d.actor k st true "the checkout was clean (all work committed to the branch)"
  after_remove (some e) =
      record_retire d.actor k st false
        ("attempted to reclaim the clean checkout but removal failed (" <> e <> ")")

  after_dirty : String → Parsed Bool → List Act
  unfolding record_retire after_remove
  after_dirty repo (err e) =
      record_retire d.actor k st false
        ("could not determine whether the checkout was clean (" <> e <> ")")
  after_dirty repo (ok true) =
      record_retire d.actor k st false "the checkout held uncommitted or untracked changes"
  after_dirty repo (ok false) = reclaim k ∷ after_remove (d.remove_error repo k)

  after_manager : String → Option String → List Act
  unfolding record_retire after_dirty
  after_manager repo (some e) =
      record_retire d.actor k st false (
        "the repo " <> d.quote repo <> " could not be opened to reclaim the checkout (" <> e <> ")")
  after_manager repo none = after_dirty repo (d.dirty repo k)

  reclamation : Run → List Act
  unfolding record_retire after_manager
  reclamation rn =
      if rn.repo == ""
      then record_retire d.actor k st false
          "the attempt's repo path could not be resolved, so its worktree was left untouched"
      else after_manager rn.repo (d.manager_error rn.repo)

  after_sources : Run → Parsed (List Source) → List Act
  unfolding record_retire reclamation
  after_sources rn (err e) = reclamation rn
  after_sources rn (ok srcs) =
      if any is_async srcs
      then record_retire d.actor k st false
          "a detached test is still running in the checkout (async job in flight)"
      else reclamation rn

  stop_run : Run → List Act
  stop_run rn =
      if not rn.adopted
      then kill k ∷ close_session k ∷ []
      else if not (eqb rn.pid 0) && d.alive rn.pid
      then terminate k rn.pid ∷ []
      else []

  retire_run : Option Run → List Act
  unfolding stop_run after_sources
  retire_run none = []
  retire_run (some rn) =
      stop_run rn
      ++ fold_metrics k
        ∷ (if is_needs_me st then [] else after_sources rn (pending_sources (d.world k)))

  -- `retire`: the run table after it, and what it did.
  unfoldable pub retire : Runs → Runs × List Act
  unfolding retire_run
  retire runs = (delete k runs, unmark k ∷ retire_run (lookup runs k))
