-- ===== src/Worktree/Landing.antt =====
-- What `Merge` does to the base branch.
use mathlib.Core.Path.{subst}
use draiver.Prelude.{
  String, ◌<>◌, ◌≡◌, refl, sym, ap, ◌∙◌, inl, inr, Bool, true, false, not, Option, none, some, List,
  ◌==◌, eq_iff, if◌then◌else◌, Bool-cases, Option-cases,
}
use draiver.Prelude.Commands.{
  Run, ok, err, Cmd, and_then, ◌>>◌, pure, act, Reads, guard-Reads, run-then, reads-then,
  guard-then, act-then,
}
use draiver.Prelude.Text.{trim_space}
use draiver.Worktree.{
  LandError, branch_not_found, base_not_found, diverged, base_dirty, git_fault, answer, ask, Git,
  Key, Landed, branch_of, first_on, path_for_branch, status_dirty, dirty_at, require_branches,
  move_ref, fast_forward, merge,
}

module _ {S A B : Type 0} (P : Run LandError S B → Type 0) where
  -- A statement of a chain holds if it holds where its first step fails and behind that step.
  pub ask-then :
      (read : S → Option A) (k : A → Cmd LandError S B) (s : S)
      → P (err git_fault s)
      → ((a : A) → read s ≡ some a → P (k a s))
      → P (and_then (ask read s) k)
  ask-then read k s h f = elim (Option-cases (read s)) [
    | inl n ↦ subst (λ o. P (and_then (answer s o) k)) (sym n) h
    | inr (a, e) ↦ subst (λ o. P (and_then (answer s o) k)) (sym e) (f a e)
  ]

-- What git documents of the two ways to move a branch: a failure changes nothing; `merge --ff-only`
-- in the checkout of a branch that is an ancestor, and `update-ref`, move the branch.
pub record Documented {S : Type 0} (git : Git S) : Type 0 where
  pub merge_fails : (path ref : String) (s t : S) → git.merge_ff path ref s ≡ (false, t) → t ≡ s
  pub merge_moves :
      (path ref base tip : String) (recs : List (String × String)) (s t : S)
      → git.worktrees s ≡ some recs
      → first_on base recs ≡ some path
      → git.is_ancestor base ref s ≡ some true
      → git.rev_parse ref s ≡ some tip
      → git.merge_ff path ref s ≡ (true, t)
      → git.rev_parse base t ≡ some tip
  pub update_fails :
      (ref new old : String) (s t : S) → git.update_ref ref new old s ≡ (false, t) → t ≡ s
  pub update_moves :
      (base new old : String) (s t : S)
      → git.update_ref ("refs/heads/" <> base) new old s ≡ (true, t)
      → git.rev_parse base t ≡ some new

pub dirty_at-Reads :
    {S : Type 0} (git : Git S) (path : String) (s : S) → Reads s (dirty_at git path s)
unfolding dirty_at status_dirty
dirty_at-Reads git path s =
    ask-then (Reads s) (git.path_exists path) (status_dirty git path) s refl (λ b e. by_existing b)
  where
    by_existing : (b : Bool) → Reads s (status_dirty git path b s)
    by_existing false = refl
    by_existing true =
        ask-then (Reads s) (git.status path) (λ out. pure (not (trim_space out == ""))) s refl
          (λ out e. refl)

module _ {S : Type 0} (git : Git S) (docs : Documented git) where
  -- The checkout of a branch, from the list of the worktrees.
  abbrev Checkout : String → S → Run LandError S (Option String) → Type 0
  Checkout base s (ok o t) =
      (t ≡ s)
      × (recs : List (String × String)) × (git.worktrees s ≡ some recs)
      × (o ≡ first_on base recs)
  Checkout base s (err e t) = t ≡ s

  path_for_branch-Checkout : (base : String) (s : S) → Checkout base s (path_for_branch git base s)
  unfolding path_for_branch
  path_for_branch-Checkout base s =
      ask-then (Checkout base s) git.worktrees (λ recs. pure (first_on base recs)) s refl
        (λ recs w. (refl, recs, w, refl))

  -- The branch is at the tip, or nothing has changed.
  abbrev pub Moved : S → String → String → Run LandError S Bool → Type 0
  Moved s base tip (ok moved t) = git.rev_parse base t ≡ some tip
  Moved s base tip (err e t) = t ≡ s

  move_ref-Moved :
      (base ref tip base_tip : String) (recs : List (String × String)) (s : S)
      → git.worktrees s ≡ some recs
      → git.is_ancestor base ref s ≡ some true
      → git.rev_parse ref s ≡ some tip
      → git.rev_parse base s ≡ some base_tip
      → Moved s base tip (move_ref git base ref tip base_tip (first_on base recs) s)
  unfolding move_ref
  move_ref-Moved base ref tip base_tip recs s w a h g = by_checkout (first_on base recs) refl
    where
      same : (base_tip == tip) ≡ true → git.rev_parse base s ≡ some tip
      same e = g ∙ ap some ((eq_iff base_tip tip).0 e)

      into : String → Cmd LandError S Bool
      into path =
          if base_tip == tip
          then pure false
          else (act git_fault (git.merge_ff path ref) >> pure true)

      moves : (path : String) → first_on base recs ≡ some path → Moved s base tip (into path s)
      moves path e = elim (Bool-cases (base_tip == tip)) [
        | inl t ↦ rw t (same t)
        | inr f ↦ rw f (
            act-then (Moved s base tip) git_fault (git.merge_ff path ref) (λ u. pure true) s
              (λ t q. docs.merge_fails path ref s t q)
              (λ t q. docs.merge_moves path ref base tip recs s t w e a h q))
      ]

      by_checkout :
          (o : Option String)
          → first_on base recs ≡ o
          → Moved s base tip (move_ref git base ref tip base_tip o s)
      by_checkout none e = elim (Bool-cases (base_tip == tip)) [
        | inl t ↦ rw t (same t)
        | inr f ↦ rw f (
            act-then (Moved s base tip) git_fault
              (git.update_ref ("refs/heads/" <> base) tip base_tip) (λ u. pure true) s
              (λ t q. docs.update_fails _ tip base_tip s t q)
              (λ t q. docs.update_moves base tip base_tip s t q))
      ]
      by_checkout (some path) e =
          reads-then (Moved s base tip) (dirty_at git path s) _ s (dirty_at-Reads git path s)
            (λ x. refl)
            λ dirty q.
              guard-then (Moved s base tip) (not dirty) base_dirty (λ u. into path) s refl
                (λ clean. moves path e)

  pub fast_forward-Moved :
      (base ref tip base_tip : String) (s : S)
      → git.is_ancestor base ref s ≡ some true
      → git.rev_parse ref s ≡ some tip
      → git.rev_parse base s ≡ some base_tip
      → Moved s base tip (fast_forward git base ref tip base_tip s)
  unfolding fast_forward
  fast_forward-Moved base ref tip base_tip s a h g =
      run-then (Moved s base tip) (Checkout base s) (path_for_branch git base s)
        (move_ref git base ref tip base_tip) (path_for_branch-Checkout base s)
        (λ o t (p, recs, w, q).
          subst (λ x. Moved s base tip (move_ref git base ref tip base_tip o x)) (sym p)
            (subst (λ x. Moved s base tip (move_ref git base ref tip base_tip x s)) (sym q)
              (move_ref-Moved base ref tip base_tip recs s w a h g)))
        (λ e t q. q)

  -- The result of `Merge`: an error leaves the repository as it was; a land was a fast-forward and the
  -- base now names the branch's tip.
  pub Result : Key → String → S → Run LandError S Landed → Type 0
  Result k base s (ok l t) =
      (git.is_ancestor base (branch_of k) s ≡ some true)
      × (git.rev_parse (branch_of k) s ≡ some l.tip)
      × (git.rev_parse base t ≡ some l.tip)
  Result k base s (err e t) = t ≡ s

  require_branches-Reads :
      (base branch : String) (s : S) → Reads s (require_branches git base branch s)
  unfolding require_branches
  require_branches-Reads base branch s =
      ask-then (Reads s) (git.branch_exists branch) _ s refl λ a e.
        guard-then (Reads s) a branch_not_found _ s refl λ f.
          ask-then (Reads s) (git.branch_exists base) _ s refl λ b g. guard-Reads b base_not_found s

  -- `Merge` ends in one of two ways: with an error, and the repository is as it was; or with the base
  -- an ancestor of the branch before, and now at the branch's tip. Condition: git moves branches as
  -- documented.
  pub merge-Result : (k : Key) (base : String) (s : S) → Result k base s (merge git k base s)
  unfolding merge Result branch_of
  merge-Result k base s =
      reads-then (Result k base s) (require_branches git base (branch_of k) s) _ s
        (require_branches-Reads base (branch_of k) s) (λ e. refl)
        λ u q. ask-then (Result k base s) (git.is_ancestor base (branch_of k)) _ s refl λ ff f.
          guard-then (Result k base s) ff diverged _ s refl λ t.
            ask-then (Result k base s) (git.rev_parse (branch_of k)) _ s refl λ tip h.
              ask-then (Result k base s) (git.rev_parse base) _ s refl λ base_tip g.
                run-then (Result k base s) (Moved s base tip)
                  (fast_forward git base (branch_of k) tip base_tip s) _
                  (fast_forward-Moved base (branch_of k) tip base_tip s (f ∙ ap some t) h g)
                  (λ moved x m. (f ∙ ap some t, h, m)) (λ e x m. m)
