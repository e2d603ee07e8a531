-- ===== src/Reconcile/Verbs.antt =====
-- internal/reconcile/verbs.go and control.go: the imperative verbs, which act on the attempts' files
-- and hand the bring-up over to the running daemon.
-- The data root is a `World`; an attempt that does not exist fails at the first read of it. Which of
-- the writes fail is an argument, and no other process writes during a verb. The log of an attempt is
-- the list of the events handed to ticketlog.Append.
pub mod Daemons
pub mod Grows
pub mod Halts
pub mod Handed
pub mod Lifetime
pub mod Outcomes
pub mod Reaped
pub mod DirectPass
pub mod Restart
use draiver.Prelude.{
  ℕ, String, ◌<>◌, Bool, true, false, not, ◌&&◌, Option, none, some, List, [], ◌∷◌, ◌++◌, ◌==◌, eqb,
  if◌then◌else◌,
}
use draiver.Prelude.Maps.{string_key, nat_key, ref_key, has, lookup, insert}
use draiver.Prelude.Commands.{ok, err, Cmd, ◌>>◌, pure, throw, act, guard, ◌>>=◌}
use draiver.Event.{Event}
use draiver.Project.Axes.{derive_enabled}
use draiver.Project.Fleet.{Ref}
use draiver.Reconcile.Activation.{zero_event}
use draiver.Attempt.{Meta}

pub record Controller : Type 0 where
  pub pid : ℕ
  pub nonce : String

pub record Marker : Type 0 where
  pub nonce : String
  pub stamp : ℕ

pub record Identity : Type 0 where
  pub session_id : String
  pub pid : ℕ

-- What the data root and the managed checkouts hold of one attempt.
pub record Slot : Type 0 where
  pub meta : Meta
  pub events : List Event
  pub identity : Option Identity
  pub marker : Option Marker
  pub checkout : Bool

abbrev pub Slots : Type 0
Slots = List (Ref × Slot)

-- `alive` is the pids of the live processes, `signaled` those that Terminate was called for.
pub record World : Type 0 where
  pub controller : Option Controller
  pub alive : List ℕ
  pub signaled : List ℕ
  pub slots : Slots

pub data Write : Type 0 where
  append : Ref → String → Write
  mark unmark identify make forget_checkout : Ref → Write
  terminate : ℕ → Write
  open_repo : String → Write

-- The reconciler's options, and the writes that fail.
pub record Options : Type 0 where
  pub actor : String
  pub default_repo : String
  pub now : ℕ
  pub atoi : String → Option ℕ
  pub fails : Write → Bool

pub data Fault : Type 0 where
  no_controller no_attempt no_repo gave_up : Fault
  failed : Write → Fault

abbrev pub Verb : Type 0 → Type 0
Verb A = Cmd Fault World A

-- `FlushLevel`
pub data FlushLevel : Type 0 where
  level_none level_session level_worktree level_attempt : FlushLevel

pub record StopResult : Type 0 where
  pub pid : ℕ
  pub signaled : Bool
  pub already_stopped : Bool

pub record StartResult : Type 0 where
  pub controller_pid : ℕ
  pub attempt : Ref
  pub forked : Bool

live : List ℕ → Option Controller → Option Controller
live alive none = none
live alive (some c) = if not (eqb c.pid 0) && has alive c.pid then some c else none

-- `liveController`
unfoldable pub live_controller : World → Option Controller
unfolding live
live_controller w = live w.alive w.controller

or_throw : {A : Type 0} → Fault → Option A → Verb A
or_throw e none = throw e
or_throw e (some a) = pure a

-- `requireController`
pub require_controller : Verb Controller
unfolding or_throw
require_controller w = or_throw no_controller (live_controller w) w

-- The files of an attempt.
pub load : Ref → Verb Slot
unfolding or_throw
load r w = or_throw no_attempt (lookup w.slots r) w

abbrev pub put : Ref → Slot → World → World
put r s w = record w { slots = insert r s w.slots }

module _ (opt : Options) where
  -- A write to the files of an attempt.
  pub write : Write → Ref → Slot → Verb (Unit {0})
  write op r s = act (failed op) (λ w. if opt.fails op then (false, w) else (true, put r s w))

  -- `ticketlog.Append`
  pub append_event : Ref → String → String → Verb (Unit {0})
  append_event r kind body = do
    s ← load r
    write (append r kind) r (record s {
      events = s.events ++ record zero_event { kind = kind; actor = opt.actor; body = body } ∷ [];
    })

  -- An append whose error is only logged.
  pub note : Ref → String → Verb (Unit {0})
  note r body w = elim (append_event r "note" body w) [ ok u t ↦ ok u t | err e t ↦ ok tt t ]

  -- `writeDesiredMarker`
  write_marker : Ref → Marker → Verb (Unit {0})
  write_marker r m = do s ← load r; write (mark r) r (record s { marker = some m })

  -- `removeDesiredMarker`
  remove_marker : Ref → Verb (Unit {0})
  remove_marker r = do s ← load r; write (unmark r) r (record s { marker = none })

  write_identity : Ref → Identity → Verb (Unit {0})
  write_identity r id = do s ← load r; write (identify r) r (record s { identity = some id })

  -- `handOff`
  pub hand_off : Controller → Ref → Verb (Unit {0})
  unfolding write_marker
  hand_off ctrl r = do
    s ← load r
    if derive_enabled s.events
        then pure tt
        else write_marker r (record { nonce = ctrl.nonce; stamp = opt.now })

  -- `Start`
  unfoldable pub start : Ref → Verb StartResult
  unfolding hand_off
  start r = do
    s ← load r
    ctrl ← require_controller
    hand_off ctrl r
    pure (record { controller_pid = ctrl.pid; attempt = r; forked = false })

  -- `EnableNow`
  unfoldable pub enable_now : Ref → Verb ℕ
  unfolding append_event
  enable_now r = do
    s ← load r
    ctrl ← require_controller
    append_event r "enable" ("Supervision enabled for " <> r.0 <> "/" <> r.1 <> ".")
    pure ctrl.pid

  signal : ℕ → Verb (Unit {0})
  signal pid = act (failed (terminate pid)) (λ w.
      if opt.fails (terminate pid)
      then (false, w)
      else (true, record w { signaled = pid ∷ w.signaled }))

  clear_pid : Ref → Identity → StopResult → Verb StopResult
  unfolding write_identity
  clear_pid r id res =
      if eqb id.pid 0 then pure res else (write_identity r (record id { pid = 0 }) >> pure res)

  reap_identity : Ref → Option Identity → Verb StopResult
  unfolding signal clear_pid
  reap_identity r none = pure (record { pid = 0; signaled = false; already_stopped = true })
  reap_identity r (some id) = λ w.
      (if not (eqb id.pid 0) && has w.alive id.pid
          then (signal id.pid
              >> clear_pid r id (record { pid = id.pid; signaled = true; already_stopped = false }))
          else clear_pid r id (record { pid = id.pid; signaled = false; already_stopped = true }))
        w

  -- `reap`
  pub reap : Ref → Verb StopResult
  unfolding reap_identity
  reap r = do s ← load r; reap_identity r s.identity

  -- `Stop`
  unfoldable pub stop : Ref → Verb StopResult
  unfolding reap remove_marker
  stop r = do res ← reap r; remove_marker r; pure res

  -- `parkAttempt`
  park_body : Ref → String
  park_body r =
      "Parked " <> r.0 <> "/" <> r.1
      <> " on fork: restart --new-attempt forked a new attempt from it, so it leaves the supervised fleet. Its log is preserved as an immutable record of the path taken so far."

  pub park_attempt : Ref → Verb (Unit {0})
  unfolding append_event remove_marker park_body
  park_attempt r = do append_event r "disable" (park_body r); remove_marker r

  discard : Ref → Option Identity → Verb (Unit {0})
  unfolding write_identity
  discard r none = pure tt
  discard r (some id) =
      if id.session_id == ""
      then pure tt
      else write_identity r (record { session_id = ""; pid = 0 })

  -- `flushSession`
  pub flush_session : Ref → Verb (Unit {0})
  unfolding discard
  flush_session r = do s ← load r; discard r s.identity

  -- `repoFor`
  repo_for : Meta → Verb String
  repo_for m =
      if not (m.repo == "")
      then pure m.repo
      else if not (opt.default_repo == "")
      then pure opt.default_repo
      else throw no_repo

  -- `Remove` of a managed checkout, with Force and DeleteBranch.
  remove_checkout : Ref → Verb (Unit {0})
  remove_checkout r = do s ← load r; write (forget_checkout r) r (record s { checkout = false })

  -- `flushWorktree`
  pub flush_worktree : Ref → Verb (Unit {0})
  unfolding repo_for remove_checkout
  flush_worktree r = do
    s ← load r
    repo ← repo_for s.meta
    guard (not (opt.fails (open_repo repo))) (failed (open_repo repo))
    remove_checkout r
