-- ===== src/Worktree/Remote/Contained.antt =====
-- What `MergeRemote` requires of the remote.
use draiver.Prelude.{String, ◌<>◌, ◌≡◌, refl, ap, ◌∙◌, true, not, some, ◌==◌}
use draiver.Prelude.Text.{trim_space}
use draiver.Prelude.Commands.{Run, ok, err, run-then, guard-then, act-then}
use draiver.Worktree.{
  LandError, bad_key, branch_not_found, not_contained_upstream, no_remote, git_fault, Git, Key,
  valid, branch_of,
}
use draiver.Worktree.Landing.{ask-then}
use draiver.Worktree.Remote.{
  Fetched, Pulled, RemoteMerge, fetch, pull_base, best_effort, merge_remote,
}

module _ {S : Type 0} (git : Git S) where
  -- The fetch of the remote's base, from `s`, succeeded and left `u`.
  abbrev pub FetchedTo : String → String → S → S → Type 0
  FetchedTo remote base s u =
      git.fetch_ref remote
        ("+refs/heads/" <> base <> ":" <> "refs/remotes/" <> remote <> "/" <> base) s
      ≡ (true, u)

  -- A reconciled branch: in what the fetch left, the remote base contained it.
  abbrev pub Contained : S → Key → String → String → Run LandError S RemoteMerge → Type 0
  Contained s k remote base (err e t) = Unit
  Contained s k remote base (ok rm t) =
      (u : S) × FetchedTo remote base s u
      × (rm.ref ≡ "refs/remotes/" <> remote <> "/" <> base)
      × (git.is_ancestor (branch_of k) rm.ref u ≡ some true)
      × (git.rev_parse (branch_of k) u ≡ some rm.branch_tip)

  abbrev Named : S → String → String → Run LandError S Fetched → Type 0
  Named s remote base (err e t) = Unit
  Named s remote base (ok f t) =
      FetchedTo remote base s t × (f.ref ≡ "refs/remotes/" <> remote <> "/" <> base)

  fetch-Named : (remote base : String) (s : S) → Named s remote base (fetch git remote base s)
  unfolding fetch
  fetch-Named remote base s =
      let ref = "refs/remotes/" <> remote <> "/" <> base in
      guard-then (Named s remote base) (not (trim_space remote == "")) no_remote _ s tt λ g.
        act-then (Named s remote base) git_fault
          (git.fetch_ref remote ("+refs/heads/" <> base <> ":" <> ref)) _ s (λ t q. tt)
          λ t q.
            ask-then (Named s remote base)
              (git.rev_parse ("refs/remotes/" <> remote <> "/" <> base)) _ t tt λ tip e. (q, refl)

  best_effort-ok :
      (f : Fetched) (r : Run LandError S Pulled)
      → (p : Pulled) × (t : S) × (best_effort git f r ≡ ok p t)
  unfolding best_effort
  best_effort-ok f (ok p t) = (p, t, refl)
  best_effort-ok f (err e t) = (_, t, refl)

  -- `MergeRemote` succeeds only if its fetch does and, after it, the branch is contained in the remote
  -- base.
  pub merge_remote-Contained :
      (k : Key) (remote base : String) (s : S)
      → Contained s k remote base (merge_remote git k remote base s)
  unfolding merge_remote branch_of
  merge_remote-Contained k remote base s =
      guard-then (Contained s k remote base) (valid k) bad_key _ s tt λ v.
        ask-then (Contained s k remote base) (git.branch_exists (branch_of k)) _ s tt λ b e.
          guard-then (Contained s k remote base) b branch_not_found _ s tt λ x.
            run-then (Contained s k remote base) (Named s remote base) (fetch git remote base s) _
              (fetch-Named remote base s)
              (λ f t n.
                ask-then (Contained s k remote base) (git.rev_parse (branch_of k)) _ t tt λ tip h.
                  ask-then (Contained s k remote base) (git.is_ancestor (branch_of k) f.ref) _ t tt
                    λ c g.
                      guard-then (Contained s k remote base) c not_contained_upstream _ t tt λ y.
                        run-then (Contained s k remote base) (λ r. Unit)
                          (best_effort git f (pull_base git f t)) _ tt
                          (λ p u z. (t, n.0, n.1, g ∙ ap some y, h)) (λ z u w. tt))
              (λ z u w. tt)
