-- ===== src/Reconcile/Tick.antt =====
-- reconcile.go: `Tick`, one round of admissions and retirements over the run table.
-- The answers of other processes in the round are `Boot`; the sweep of the review environments and
-- the lines of the operational log are left out. A map's iteration order is its list's.
pub mod Table
pub mod Reclaims
use draiver.Prelude.{
  ℕ, String, ◌<>◌, Bool, false, not, Option, none, some, List, [], ◌∷◌, ◌++◌, map, eqb,
  if◌then◌else◌, any,
}
use draiver.Prelude.Maps.{string_key, nat_key, ref_key, has, lookup, insert, delete}
use draiver.Prelude.Text.{contains}
use draiver.Event.{Event}
use draiver.Project.State.{State, done, Parsed, ok, err}
use draiver.Project.Fleet.{Ref}
use draiver.Reconcile.Gates.{Desired}
use draiver.Reconcile.Activation.{zero_event}
use draiver.Reconcile.Health.{classify_admit, report_health, sweep_health}
use draiver.Reconcile.Retire.{
  Run, Runs, Act, kill, close_session, write, emit, health_edge, Disk, retire,
}

-- What `admit` returns: a run for the table, errNoRepoBound, or another error, of which it is asked
-- whether it is worktree.ErrCreate.
pub data BroughtUp : Type 0 where
  up : Run → BroughtUp
  no_repo : BroughtUp
  failed : Bool → String → BroughtUp

pub record Boot : Type 0 where
  pub disk : Disk
  pub bring_up : Ref → BroughtUp
  -- the pid on record; `none` is an identity that cannot be read
  pub pid_of : Ref → Option ℕ
  -- project.LoadAttempt: the state and the open escalations
  pub load : Ref → Parsed (State × List Event)

-- The reconciler's tables and what it has done; `health` has a class list for each attempt.
pub record Round : Type 0 where
  pub runs : Runs
  pub health : List (Ref × List String)
  pub acts : List Act

abbrev classes : Option (List String) → List String
classes none = []
classes (some active) = active

-- `reportHealth` at an attempt.
report_at : Ref → String → String → Round → Round
report_at k class message w =
    let h = report_health (classes (lookup w.health k)) class message in
    record w { health = insert k h.0 w.health; acts = w.acts ++ map (health_edge k) h.1 }

abbrev no_repo_marker : String
no_repo_marker = "no repo path is bound to this attempt"

abbrev no_repo_escalation_body : String
no_repo_escalation_body =
    "Supervisor could not start this attempt: " <> no_repo_marker
    <> ", so no worktree can be cut for it.\n\nSet `repo:` in the attempt's `attempt.md` to the local git working tree it targets, or restart the daemon with a `ctl up --repo <path>` fallback. Once a repo resolves, the attempt resumes from the log."

already_open : Parsed (State × List Event) → Bool
already_open (err e) = false
already_open (ok (st, opened)) = any (λ e. contains e.body no_repo_marker) opened

abbrev session_admitted : Ref → Act
session_admitted k = emit k "ctl-session" "ctl: session admitted — worktree cut, session started"

module _ (b : Boot) where
  -- `escalateNoRepo`
  escalate_no_repo : Ref → List Act
  unfolding already_open
  escalate_no_repo k =
      if already_open (b.load k)
      then []
      else write k (record zero_event {
        kind = "escalation";
        actor = b.disk.actor;
        body = no_repo_escalation_body;
      })
        ∷ []

  -- `readmittable`
  pub readmits : Ref → Option Run → Bool
  readmits k none = false
  readmits k (some rn) =
      if rn.adopted
      then false
      else if not rn.spent
      then false
      else elim (b.pid_of k) [ none ↦ false | some pid ↦ eqb pid 0 ]

  reap_run : Ref → Option Run → Round → Round
  reap_run k none w = w
  reap_run k (some rn) w = record w {
    runs = delete k w.runs;
    acts = w.acts ++ kill k ∷ close_session k ∷ [];
  }

  -- `reapSpentRun`
  reap_spent_run : Ref → Round → Round
  unfolding reap_run
  reap_spent_run k w = reap_run k (lookup w.runs k) w

  on_brought_up : Ref → BroughtUp → Round → Round
  unfolding report_at escalate_no_repo
  on_brought_up k (up rn) w =
      let v = report_at k "" "" (record w { runs = insert k rn w.runs }) in
      record v { acts = v.acts ++ session_admitted k ∷ [] }
  on_brought_up k no_repo w = record w { acts = w.acts ++ escalate_no_repo k }
  on_brought_up k (failed is_create message) w = report_at k (classify_admit is_create) message w

  -- The body of the first loop, at a key of the desired set.
  admit_step : List Ref → Ref → Round → Round
  unfolding readmits reap_spent_run on_brought_up report_at
  admit_step current k w =
      if not (has current k)
      then on_brought_up k (b.bring_up k) w
      else if readmits k (lookup w.runs k)
      then on_brought_up k (b.bring_up k) (reap_spent_run k w)
      else report_at k "" "" w

  pub admit_all : List Ref → List Ref → Round → Round
  unfolding admit_step
  admit_all current [] w = w
  admit_all current (k ∷ ks) w = admit_all current ks (admit_step current k w)

  -- `stateOf`
  pub state_of : Ref → State
  state_of k = elim (b.load k) [ err e ↦ done | ok found ↦ found.0 ]

  retire_step : List Ref → Ref → Round → Round
  unfolding state_of
  retire_step keys k w =
      let r = retire b.disk k (state_of k) w.runs in
      if has keys k then w else record w { runs = r.0; acts = w.acts ++ r.1 }

  -- The second loop.
  retire_all : List Ref → List Ref → Round → Round
  unfolding retire_step
  retire_all keys [] w = w
  retire_all keys (k ∷ ks) w = retire_all keys ks (retire_step keys k w)

  sweep_all : List Ref → List (Ref × List String) → List (Ref × List String) × List Act
  sweep_all keys [] = ([], [])
  sweep_all keys ((k, active) ∷ health) =
      let h = sweep_health active (has keys k) in
      let rest = sweep_all keys health in ((k, h.0) ∷ rest.0, map (health_edge k) h.1 ++ rest.1)

  sweep : List Ref → Round → Round
  unfolding sweep_all
  sweep keys w = let s = sweep_all keys w.health in record w { health = s.0; acts = w.acts ++ s.1 }

  -- `Tick` from the desired set on.
  unfoldable pub tick : Desired → Round → Round
  unfolding admit_all retire_all sweep
  tick desired w =
      let keys = map (λ entry. entry.0) desired in
      let current = map (λ entry. entry.0) w.runs in
      sweep keys (retire_all keys current (admit_all current keys w))
