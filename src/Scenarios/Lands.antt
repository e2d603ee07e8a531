-- ===== src/Scenarios/Lands.antt =====
-- A repository of two commits, where main is one behind the attempt's branch.
use draiver.Prelude.{
  String, ◌<>◌, ◌≡◌, sym, ap, Bool, true, false, ◌&&◌, ◌||◌, false≢true, some, [], ◌==◌,
  if◌then◌else◌,
}
use draiver.Project.State.{review}
use draiver.Worktree.{Git, Key, merge}
use draiver.Worktree.Landing.{Documented, Result, merge-Result}
use draiver.Land.{Handle, World, Choice, chosen, land_remote}
use draiver.Land.Reconciled.{Reconciled, land_remote-Reconciled}

abbrev attempt_key : Key
attempt_key = record { ticket = "T-1"; attempt = "a1" }

-- A repository is the commit of main.
abbrev tip_of : String → String → String
tip_of name main = if "refs/heads/" <> name == "refs/heads/main" then main else "c2"

abbrev write_ref : String → String → String → String → Bool × String
write_ref ref new old main =
    if ref == "refs/heads/main" && main == old then (true, new) else (false, main)

abbrev two_commits : Git String
two_commits = record {
  branch_exists = λ name main. some true;
  is_ancestor = λ a b main. some (tip_of a main == "c1" || tip_of b main == "c2");
  rev_parse = λ name main. some (tip_of name main);
  worktrees = λ main. some [];
  path_exists = λ path main. some false;
  status = λ path main. some "";
  merge_ff = λ path ref main. (false, main);
  update_ref = write_ref;
  fetch_ref = λ remote refspec main. (true, main);
}

fails :
    (b : Bool) (new main t : String)
    → ◌≡◌ {A = Bool × String} (if b then (true, new) else (false, main)) (false, t)
    → t ≡ main
fails true new main t e = absurd (false≢true (sym (ap (λ (p : Bool × String). p.0) e)))
fails false new main t e = sym (ap (λ (p : Bool × String). p.1) e)

moves :
    (at_main is_old : Bool) (new main t : String)
    → ◌≡◌ {A = Bool × String} (if at_main && is_old then (true, new) else (false, main)) (true, t)
    → (if at_main then t else "c2") ≡ new
moves true true new main t e = sym (ap (λ (p : Bool × String). p.1) e)
moves true false new main t e = absurd (false≢true (ap (λ (p : Bool × String). p.0) e))
moves false is_old new main t e = absurd (false≢true (ap (λ (p : Bool × String). p.0) e))

two_commits-Documented : Documented two_commits
two_commits-Documented = record {
  merge_fails = λ path ref s t e. sym (ap (λ (p : Bool × String). p.1) e);
  merge_moves = λ path ref base tip recs s t w f a r e.
      absurd (false≢true (ap (λ (p : Bool × String). p.0) e));
  update_fails = λ ref new old s t e. fails (ref == "refs/heads/main" && s == old) new s t e;
  update_moves = λ base new old s t e.
      ap some (moves ("refs/heads/" <> base == "refs/heads/main") (s == old) new s t e);
}

merge-Result_example :
    Result two_commits two_commits-Documented attempt_key "main" "c1"
      (merge two_commits attempt_key "main" "c1")
merge-Result_example = merge-Result two_commits two_commits-Documented attempt_key "main" "c1"

abbrev in_review : Choice Handle
in_review = chosen (record { key = attempt_key; state = review; base = "main" })

abbrev before : World String
before = record { repo = "c1"; log = [] }

land_remote-Reconciled_example :
    Reconciled two_commits
      (λ e. false)
      in_review
      (some false)
      (chosen "origin")
      before
      (land_remote two_commits (λ e. false) in_review (some false) (chosen "origin") before)
land_remote-Reconciled_example =
    land_remote-Reconciled two_commits (λ e. false) in_review (some false) (chosen "origin") before
