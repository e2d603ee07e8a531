-- ===== src/Worktree/Remote.antt =====
-- internal/worktree/land.go: reconciling an attempt from a remote.
pub mod Contained
use draiver.Prelude.{String, ◌<>◌, Bool, true, false, not, ◌==◌, if◌then◌else◌}
use draiver.Prelude.Text.{trim_space}
use draiver.Prelude.Commands.{Run, ok, err, Cmd, ◌>>◌, pure, act, guard, ◌>>=◌}
use draiver.Worktree.{
  LandError, bad_key, branch_not_found, base_dirty, not_contained_upstream, no_remote, git_fault,
  ask, Git, Key, valid, branch_of, fast_forward,
}

pub record Fetched : Type 0 where
  pub remote : String
  pub base : String
  pub ref : String
  pub tip : String

-- Why a pull was skipped; the source renders a sentence.
pub data Skip : Type 0 where
  not_skipped absent diverged_base dirty_base faulted : Skip

pub record Pulled : Type 0 where
  pub base : String
  pub tip : String
  pub moved : Bool
  pub already : Bool
  pub skipped : Skip

pub record RemoteMerge : Type 0 where
  pub remote : String
  pub base : String
  pub branch : String
  pub ref : String
  pub remote_tip : String
  pub branch_tip : String
  pub pull : Pulled

module _ {S : Type 0} (git : Git S) where
  -- `Fetch`
  pub fetch : String → String → Cmd LandError S Fetched
  unfolding trim_space
  fetch remote base = do
    guard (not (trim_space remote == "")) no_remote
    let ref = "refs/remotes/" <> remote <> "/" <> base
    act git_fault (git.fetch_ref remote ("+refs/heads/" <> base <> ":" <> ref))
    tip ← ask (git.rev_parse ref)
    pure (record { remote = remote; base = base; ref = ref; tip = tip })

  pulled : Fetched → Bool → Bool → Skip → Pulled
  pulled f moved already skipped = record {
    base = f.base;
    tip = f.tip;
    moved = moved;
    already = already;
    skipped = skipped;
  }

  -- What the error of a fast-forward means for a pull.
  pull_result : Fetched → Run LandError S Bool → Run LandError S Pulled
  unfolding pulled
  pull_result f (ok moved s) = ok (pulled f moved false not_skipped) s
  pull_result f (err base_dirty s) = ok (pulled f false false dirty_base) s
  pull_result f (err e s) = err e s

  pull_forward : Fetched → String → Bool → Cmd LandError S Pulled
  unfolding pull_result fast_forward pulled
  pull_forward f base_tip false = pure (pulled f false false diverged_base)
  pull_forward f base_tip true = λ s. pull_result f (fast_forward git f.base f.ref f.tip base_tip s)

  pull_behind : Fetched → String → Bool → Cmd LandError S Pulled
  unfolding pull_forward pulled
  pull_behind f base_tip true = pure (pulled f false true not_skipped)
  pull_behind f base_tip false = do
    behind ← ask (git.is_ancestor f.base f.ref)
    pull_forward f base_tip behind

  pull_existing : Fetched → Bool → Cmd LandError S Pulled
  unfolding pull_behind pulled
  pull_existing f false = pure (pulled f false false absent)
  pull_existing f true = do
    base_tip ← ask (git.rev_parse f.base)
    if base_tip == f.tip
        then pure (pulled f false true not_skipped)
        else (ask (git.is_ancestor f.ref f.base) >>= pull_behind f base_tip)

  -- `PullBase`
  unfoldable pub pull_base : Fetched → Cmd LandError S Pulled
  unfolding pull_existing
  pull_base f = ask (git.branch_exists f.base) >>= pull_existing f

  -- A pull whose error is folded into the reason.
  pub best_effort : Fetched → Run LandError S Pulled → Run LandError S Pulled
  unfolding pulled
  best_effort f (ok p s) = ok p s
  best_effort f (err e s) = ok (pulled f false false faulted) s

  -- `Manager.MergeRemote`
  unfoldable pub merge_remote : Key → String → String → Cmd LandError S RemoteMerge
  unfolding fetch best_effort branch_of valid
  merge_remote k remote base = do
    guard (valid k) bad_key
    let branch = branch_of k
    has_branch ← ask (git.branch_exists branch)
    guard has_branch branch_not_found
    fetched ← fetch remote base
    branch_tip ← ask (git.rev_parse branch)
    contained ← ask (git.is_ancestor branch fetched.ref)
    guard contained not_contained_upstream
    pull ← (λ s. best_effort fetched (pull_base fetched s))
    pure (record {
      remote = remote;
      base = base;
      branch = branch;
      ref = fetched.ref;
      remote_tip = fetched.tip;
      branch_tip = branch_tip;
      pull = pull;
    })
