-- ===== src/Land.antt =====
-- internal/land/land.go: reconciling an attempt after its change was merged on the forge.
-- The attempt's files, the configuration and the processes are arguments; the repository is
-- Worktree's, and the log is the list of the events handed to the gateway.
pub mod Reconciled
use draiver.Prelude.{
  ℕ, String, ◌<>◌, Bool, true, false, Option, none, some, List, [], ◌∷◌, ◌++◌, ◌==◌, ltb, eqb,
  if◌then◌else◌,
}
use draiver.Prelude.Text.{trim_space}
use draiver.Event.{Event}
use draiver.Project.State.{State, review, ok, err}
use draiver.Reconcile.Activation.{zero_event}
use draiver.Prelude.Commands.{Run, ok, err}
use draiver.Worktree.{Key as BranchKey, LandError, Git}
use draiver.Kb.Headline.{first_runes}
use draiver.Prelude.Maps.{string_key, nat_key, ref_key, has}
use Prim.Native.String.{count}
use draiver.Worktree.Remote.{RemoteMerge, merge_remote}

pub record Handle : Type 0 where
  pub key : BranchKey
  pub state : State
  pub base : String

-- Why `MergeRemote` records nothing; `plain` is a PlainError.
pub data Refusal : Type 0 where
  no_base no_repo no_git_remote unknown_remote unknown_primary ambiguous unreadable : Refusal
  not_in_review still_live append_failed : Refusal
  landing : LandError → Refusal

pub record World (S : Type 0) : Type 0 where
  pub repo : S
  pub log : List Event

pub record RemoteResult : Type 0 where
  pub merged : RemoteMerge
  pub event : Event

pub data Outcome (S : Type 0) : Type 0 where
  recorded : RemoteResult → World S → Outcome S
  refused : Refusal → World S → Outcome S

pub data Choice (A : Type 0) : Type 0 where
  chosen : A → Choice A
  failed : Refusal → Choice A

-- `Load`, from the base and the repository that attempt.md records.
unfoldable pub load : BranchKey → State → String → String → Choice Handle
unfolding trim_space
load k state base repo =
    if trim_space base == ""
    then failed no_base
    else if trim_space repo == ""
    then failed no_repo
    else chosen (record { key = k; state = state; base = trim_space base })

by_primary : List String → Option String → Choice String
by_primary remotes none = failed unreadable
by_primary remotes (some primary) =
    if trim_space primary == ""
    then failed ambiguous
    else if has remotes (trim_space primary)
    then chosen (trim_space primary)
    else failed unknown_primary

of_remotes : List String → String → Option String → Choice String
unfolding by_primary
of_remotes [] name primary = failed no_git_remote
of_remotes (r ∷ []) name primary =
    if trim_space name == ""
    then chosen r
    else if has (r ∷ []) (trim_space name)
    then chosen (trim_space name)
    else failed unknown_remote
of_remotes (r ∷ q ∷ remotes) name primary =
    if trim_space name == ""
    then by_primary (r ∷ q ∷ remotes) primary
    else if has (r ∷ q ∷ remotes) (trim_space name)
    then chosen (trim_space name)
    else failed unknown_remote

-- `resolveRemote`: the repository's remotes, the name asked for, and the configured primary, where
-- the configuration can be read.
unfoldable pub resolve_remote : Option (List String) → String → Option String → Choice String
unfolding of_remotes
resolve_remote none name primary = failed unreadable
resolve_remote (some remotes) name primary = of_remotes remotes name primary

-- What a session's identity file says.
pub data Identity : Type 0 where
  missing broken : Identity
  pid : ℕ → Identity

-- `SessionLive`; none is an error.
unfoldable pub session_live : (ℕ → Bool) → Identity → Option Bool
session_live alive missing = some false
session_live alive broken = none
session_live alive (pid n) = some (if eqb n 0 then false else alive n)

live_gate : Option Bool → Option Refusal
live_gate none = some unreadable
live_gate (some true) = some still_live
live_gate (some false) = none

-- `gateForRemoteLand`; none is a pass.
unfoldable pub gate_for_remote_land : State → Option Bool → Option Refusal
unfolding live_gate
gate_for_remote_land review live = live_gate live
gate_for_remote_land state live = some not_in_review

-- `ShortSHA`
pub short_sha : String → String
unfolding first_runes
short_sha sha = if ltb 12 (count sha) then first_runes 12 sha else sha

pub done_body : String → RemoteMerge → String
unfolding short_sha
done_body remote rm =
    "`ctl merge --remote="
    <> remote
    <> "`: "
    <> rm.branch
    <> " is contained in "
    <> rm.ref
    <> " (tip "
    <> short_sha rm.remote_tip
    <> ") — the change landed via an external PR merge; recording done."

-- The event that `Done` hands to the gateway.
unfoldable pub done_event : String → RemoteMerge → Event
unfolding done_body
done_event remote rm = record zero_event { kind = "done"; body = done_body remote rm }

module _ {S : Type 0} (git : Git S) (append_fails : Event → Bool) where
  record_done : String → List Event → Run LandError S RemoteMerge → Outcome S
  unfolding done_event
  record_done remote log (err e t) = refused (landing e) (record { repo = t; log = log })
  record_done remote log (ok rm t) =
      let e = done_event remote rm in
      if append_fails e
      then refused append_failed (record { repo = t; log = log })
      else recorded (record { merged = rm; event = e }) (record { repo = t; log = log ++ e ∷ [] })

  gated : Handle → String → Option Refusal → World S → Outcome S
  unfolding record_done
  gated h remote (some why) w = refused why w
  gated h remote none w = record_done remote w.log (merge_remote git h.key remote h.base w.repo)

  on_remote : Handle → Option Bool → Choice String → World S → Outcome S
  unfolding gated gate_for_remote_land
  on_remote h live (failed why) w = refused why w
  on_remote h live (chosen remote) w = gated h remote (gate_for_remote_land h.state live) w

  -- `MergeRemote`, of a loaded handle.
  unfoldable pub land_remote : Choice Handle → Option Bool → Choice String → World S → Outcome S
  unfolding on_remote
  land_remote (failed why) live remote w = refused why w
  land_remote (chosen h) live remote w = on_remote h live remote w
