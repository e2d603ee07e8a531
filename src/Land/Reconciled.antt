-- ===== src/Land/Reconciled.antt =====
-- When `MergeRemote` records a done.
use mathlib.Core.Path.{subst}
use draiver.Prelude.{
  String, ◌<>◌, ◌≡◌, refl, inl, inr, Bool, true, false, Option, none, some, [], ◌∷◌, ◌++◌,
  Bool-cases,
}
use draiver.Event.{Event}
use draiver.Project.State.{State, running, pending, needs_me, review, done, ok, err}
use draiver.Prelude.Commands.{Run, ok, err}
use draiver.Worktree.{LandError, Git, branch_of}
use draiver.Worktree.Remote.{RemoteMerge}
use draiver.Worktree.Remote.Contained.{FetchedTo, Contained, merge_remote-Contained}
use draiver.Land.{
  Handle, Refusal, World, Outcome, recorded, refused, Choice, chosen, failed, live_gate,
  gate_for_remote_land, done_event, record_done, gated, on_remote, land_remote,
}

module _ {S : Type 0} (git : Git S) (append_fails : Event → Bool) where
  -- A refusal leaves the log; a recorded done ends a review of a stopped attempt whose branch the base
  -- of the chosen remote contains in `u`, which a successful fetch of it left.
  pub Reconciled : Choice Handle → Option Bool → Choice String → World S → Outcome S → Type 0
  Reconciled loaded live remote w (refused why v) = v.log ≡ w.log
  Reconciled loaded live remote w (recorded r v) =
      (h : Handle) × (name : String) × (loaded ≡ chosen h)
      × (remote ≡ chosen name)
      × (h.state ≡ review)
      × (live ≡ some false)
      × (v.log ≡ w.log ++ done_event name r.merged ∷ [])
      × (u : S) × FetchedTo git name h.base w.repo u
      × (git.is_ancestor (branch_of h.key) ("refs/remotes/" <> name <> "/" <> h.base) u ≡ some true)

  gate-passes :
      (state : State) (live : Option Bool)
      → gate_for_remote_land state live ≡ none
      → (state ≡ review) × (live ≡ some false)
  unfolding gate_for_remote_land live_gate
  gate-passes running live e = cc
  gate-passes pending live e = cc
  gate-passes needs_me live e = cc
  gate-passes done live e = cc
  gate-passes review none e = cc
  gate-passes review (some true) e = cc
  gate-passes review (some false) e = (refl, refl)

  module _ (h : Handle) (name : String) (live : Option Bool) (w : World S)
      (open_gate : (h.state ≡ review) × (live ≡ some false)) where
    record_done-Reconciled :
        (r : Run LandError S RemoteMerge)
        → Contained git w.repo h.key name h.base r
        → Reconciled (chosen h) live (chosen name) w (record_done git append_fails name w.log r)
    unfolding record_done Reconciled
    record_done-Reconciled (err e t) c = refl
    record_done-Reconciled (ok rm t) (u, fetched, n, a, q) =
        elim (Bool-cases (append_fails (done_event name rm))) [
          | inl x ↦ rw x refl
          | inr x ↦ rw x (
            h,
            name,
            refl,
            refl,
            open_gate.0,
            open_gate.1,
            refl,
            u,
            fetched,
            subst (λ z. git.is_ancestor (branch_of h.key) z u ≡ some true) n a,
          )
        ]

  gated-Reconciled :
      (h : Handle) (name : String) (live : Option Bool) (w : World S) (o : Option Refusal)
      → gate_for_remote_land h.state live ≡ o
      → Reconciled (chosen h) live (chosen name) w (gated git append_fails h name o w)
  unfolding gated Reconciled
  gated-Reconciled h name live w (some why) e = refl
  gated-Reconciled h name live w none e =
      record_done-Reconciled h name live w (gate-passes h.state live e) _
        (merge_remote-Contained git h.key name h.base w.repo)

  -- `MergeRemote` either refuses, and the log is as it was, or it appends one done: the attempt is in
  -- Review, its session is not live, the fetch of the base branch of the chosen remote succeeded on the
  -- repository as it was, and in what it left the remote's base contains the attempt's branch. The
  -- outcome of the local pull plays no part.
  pub land_remote-Reconciled :
      (loaded : Choice Handle) (live : Option Bool) (remote : Choice String) (w : World S)
      → Reconciled loaded live remote w (land_remote git append_fails loaded live remote w)
  unfolding land_remote on_remote Reconciled
  land_remote-Reconciled (failed why) live remote w = refl
  land_remote-Reconciled (chosen h) live (failed why) w = refl
  land_remote-Reconciled (chosen h) live (chosen name) w =
      gated-Reconciled h name live w (gate_for_remote_land h.state live) refl
