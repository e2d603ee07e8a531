-- ===== src/Reconcile/Verbs/Restart.antt =====
-- internal/reconcile/verbs.go: forking an attempt and `Restart`, with `Create` of internal/attempt.
pub mod Flushed
pub mod Forked
pub mod Kept
pub mod Parked
use draiver.Prelude.{
  ℕ, zero, suc, String, ◌<>◌, Bool, true, false, not, none, List, [], ◌∷◌, ◌==◌, if◌then◌else◌,
}
use draiver.Prelude.Maps.{string_key, nat_key, ref_key, has}
use draiver.Prelude.Text.{trim_space}
use draiver.Prelude.Commands.{◌>>◌, pure, throw, guard, ◌>>=◌}
use draiver.Project.Fleet.{Ref}
use draiver.Reconcile.Activation.{zero_event}
use draiver.Attempt.{Meta, next_id, created_body}
use draiver.Reconcile.Verbs.{
  Slot, Slots, make, Options, no_repo, gave_up, Verb, FlushLevel, level_none, level_session,
  level_worktree, level_attempt, StartResult, require_controller, load, write, note, hand_off, reap,
  park_attempt, flush_session, flush_worktree,
}

-- `ListAttempts`
pub ids_of : String → Slots → List String
ids_of ticket [] = []
ids_of ticket ((r, s) ∷ slots) =
    let rest = ids_of ticket slots in if r.0 == ticket then r.1 ∷ rest else rest

-- `res.Forked`
abbrev pub forks : FlushLevel → Bool
forks level_attempt = true
forks level_worktree = false
forks level_session = false
forks level_none = false

module _ (opt : Options) where
  abbrev fresh_slot : String → Meta → Slot
  fresh_slot id m = record {
    meta = m;
    events =
        record zero_event {
          kind = "created";
          actor = m.actor;
          body = created_body id m.tool m.model;
        }
        ∷ [];
    identity = none;
    marker = none;
    checkout = false;
  }

  -- The rounds of `Create`: no other process makes attempts here, so a round sees what the one
  -- before it saw.
  pub claim : ℕ → String → Meta → Verb String
  claim zero ticket m = throw gave_up
  claim (suc n) ticket m = λ w.
      let again = claim n ticket m w in
      let ids = ids_of ticket w.slots in
      let id = next_id opt.atoi ids in
      if has ids id
      then again
      else (write opt (make (ticket, id)) (ticket, id) (fresh_slot id m) >> pure id) w

  -- `Create`, of an attempt without a name.
  pub create : String → Meta → Verb String
  unfolding claim trim_space
  create ticket m = do
    guard (not (trim_space m.repo == "")) no_repo
    claim 8 ticket (record m { repo = trim_space m.repo; base = trim_space m.base })

  -- `forkAttempt`
  pub fork_attempt : Ref → Verb Ref
  unfolding create
  fork_attempt r = do
    s ← load r
    id ← create r.0 (record s.meta { actor = opt.actor; from = r.1 })
    pure (r.0, id)

  start_fork_body : Ref → String
  start_fork_body child =
      "Branched a new attempt " <> child.0 <> "/" <> child.1
      <> " from this one (start --new-attempt); this attempt is left running alongside the fork."

  -- `StartNewAttempt`
  unfoldable pub start_new_attempt : Ref → Verb StartResult
  unfolding fork_attempt start_fork_body
  start_new_attempt r = do
    s ← load r
    ctrl ← require_controller
    child ← fork_attempt r
    note opt r (start_fork_body child)
    hand_off opt ctrl child
    pure (record { controller_pid = ctrl.pid; attempt = child; forked = true })

  fork_body : Ref → String
  fork_body child =
      "Forked a new attempt " <> child.0 <> "/" <> child.1
      <> " from this one (restart --new-attempt); this attempt's log is preserved as an immutable record of the path taken so far."

  abbrev session_flushed : String
  session_flushed =
      "Restart flush: discarded the session conversation (restart --new-session); a fresh session will cold-start from the brief on the same worktree."

  abbrev worktree_flushed : String
  worktree_flushed =
      "Restart flush: discarded the session conversation and the worktree checkout+branch (restart --new-worktree); the worktree will be rebuilt from HEAD and the session cold-started from the brief."

  -- The switch of `Restart`: the attempt to hand over.
  pub flush : FlushLevel → Ref → Verb Ref
  unfolding fork_attempt fork_body
  flush level_none r = pure r
  flush level_session r = do flush_session opt r; note opt r session_flushed; pure r
  flush level_worktree r = do
    s ← load r
    flush_session opt r
    flush_worktree opt r
    note opt r worktree_flushed
    pure r
  flush level_attempt r = do
    child ← fork_attempt r
    note opt r (fork_body child)
    park_attempt opt r
    pure child

  -- `Restart`; the result is the attempt handed over and the controller's pid.
  unfoldable pub restart : FlushLevel → Ref → Verb StartResult
  unfolding flush
  restart level r = do
    ctrl ← require_controller
    res ← reap opt r
    target ← flush level r
    hand_off opt ctrl target
    pure (record { controller_pid = ctrl.pid; attempt = target; forked = forks level })
