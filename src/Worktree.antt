-- ===== src/Worktree.antt =====
-- internal/worktree/land.go: landing an attempt's branch, syncing it and reconciling from a remote.
-- The git commands are a record of functions over a repository; a command that fails for another
-- reason than the answer no is `git_fault`.
pub mod Landing
pub mod Remote
use draiver.Prelude.{
  String, ◌<>◌, Bool, true, false, not, ◌&&◌, ◌||◌, Option, none, some, List, [], ◌∷◌, ◌==◌,
  if◌then◌else◌,
}
use draiver.Prelude.Commands.{Run, ok, err, Cmd, ◌>>◌, pure, act, guard, ◌>>=◌}
use draiver.Prelude.Text.{trim_space, contains}

pub data LandError : Type 0 where
  bad_key branch_not_found base_not_found diverged base_dirty : LandError
  not_contained_upstream no_remote git_fault : LandError

module _ {S : Type 0} where
  abbrev pub answer : {A : Type 0} → S → Option A → Run LandError S A
  answer s none = err git_fault s
  answer s (some a) = ok a s

  -- A command that only reads.
  abbrev pub ask : {A : Type 0} → (S → Option A) → Cmd LandError S A
  ask read = λ s. answer s (read s)

-- What the code asks of git and of the file system, by command.
pub record Git (S : Type 0) : Type 0 where
  -- show-ref, merge-base --is-ancestor, rev-parse
  pub branch_exists : String → S → Option Bool
  pub is_ancestor : String → String → S → Option Bool
  pub rev_parse : String → S → Option String
  -- the path and the branch of each entry of worktree list
  pub worktrees : S → Option (List (String × String))
  -- whether a path exists, and status --porcelain there
  pub path_exists : String → S → Option Bool
  pub status : String → S → Option String
  -- merge --ff-only, update-ref with the old value, fetch with a refspec
  pub merge_ff : String → String → S → Bool × S
  pub update_ref : String → String → String → S → Bool × S
  pub fetch_ref : String → String → S → Bool × S

pub record Key : Type 0 where
  pub ticket : String
  pub attempt : String

pub record Landed : Type 0 where
  pub base : String
  pub branch : String
  pub tip : String
  pub already_up_to_date : Bool

bad_part : String → Bool
unfolding contains
bad_part v = v == "" || v == "." || v == ".." || contains v "/" || contains v "\\"

-- `Key.valid`
pub valid : Key → Bool
unfolding bad_part
valid k = not (bad_part k.ticket) && not (bad_part k.attempt)

abbrev branch_prefix : String
branch_prefix = "draiver/"

-- `Key.branch`
pub branch_of : Key → String
branch_of k = branch_prefix <> k.ticket <> "/" <> k.attempt

pub first_on : String → List (String × String) → Option String
first_on branch [] = none
first_on branch ((path, on) ∷ recs) =
    let rest = first_on branch recs in if on == branch then some path else rest

module _ {S : Type 0} (git : Git S) where
  -- `worktreePathForBranch`
  pub path_for_branch : String → Cmd LandError S (Option String)
  unfolding first_on
  path_for_branch branch = do recs ← ask git.worktrees; pure (first_on branch recs)

  pub status_dirty : String → Bool → Cmd LandError S Bool
  unfolding trim_space
  status_dirty path false = pure false
  status_dirty path true = do out ← ask (git.status path); pure (not (trim_space out == ""))

  -- `dirtyAt`
  pub dirty_at : String → Cmd LandError S Bool
  unfolding status_dirty
  dirty_at path = do exists ← ask (git.path_exists path); status_dirty path exists

  -- `requireBranches`
  pub require_branches : String → String → Cmd LandError S (Unit {0})
  require_branches base branch = do
    has_branch ← ask (git.branch_exists branch)
    guard has_branch branch_not_found
    has_base ← ask (git.branch_exists base)
    guard has_base base_not_found

  pub move_ref : String → String → String → String → Option String → Cmd LandError S Bool
  unfolding dirty_at
  move_ref base source_ref source_tip base_tip (some path) = do
    dirty ← dirty_at path
    guard (not dirty) base_dirty
    if base_tip == source_tip
        then pure false
        else (act git_fault (git.merge_ff path source_ref) >> pure true)
  move_ref base source_ref source_tip base_tip none =
      if base_tip == source_tip
      then pure false
      else (act git_fault (git.update_ref ("refs/heads/" <> base) source_tip base_tip) >> pure true)

  -- `fastForward`
  pub fast_forward : String → String → String → String → Cmd LandError S Bool
  unfolding move_ref path_for_branch
  fast_forward base source_ref source_tip base_tip = do
    checkout ← path_for_branch base
    move_ref base source_ref source_tip base_tip checkout

  -- `Merge`
  unfoldable pub merge : Key → String → Cmd LandError S Landed
  unfolding require_branches fast_forward branch_of
  merge k base = do
    let branch = branch_of k
    require_branches base branch
    ff ← ask (git.is_ancestor base branch)
    guard ff diverged
    branch_tip ← ask (git.rev_parse branch)
    base_tip ← ask (git.rev_parse base)
    moved ← fast_forward base branch branch_tip base_tip
    pure (record {
      base = base;
      branch = branch;
      tip = branch_tip;
      already_up_to_date = branch_tip == base_tip;
    })
