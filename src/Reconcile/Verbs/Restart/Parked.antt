-- ===== src/Reconcile/Verbs/Restart/Parked.antt =====
-- `Restart` at the level of the attempt, from the parent's reap to the child's handover.
use mathlib.Core.Path.{subst}
use draiver.Prelude.{
  String, ◌≡◌, refl, sym, ap, ◌∙◌, inl, inr, true, false, false≢true, Option, none, some,
  Bool-cases,
}
use draiver.Prelude.Maps.{string_key, nat_key, same_ref, same_ref_iff, ref_key, lookup}
use draiver.Prelude.Commands.{Run, ok, err, and_then, ◌>>◌, pure, ◌>>=◌}
use draiver.Prelude.Text.{trim_space}
use draiver.Project.Axes.{derive_enabled}
use draiver.Project.Fleet.{Ref}
use draiver.Attempt.{Meta}
use draiver.Reconcile.Verbs.{
  Controller, Slot, World, mark, Options, Fault, no_controller, no_attempt, no_repo, gave_up,
  failed, level_attempt, StopResult, StartResult, live_controller, require_controller, put, note,
  hand_off, reap, park_attempt,
}
use draiver.Reconcile.Verbs.Grows.{end, Kept, Grows, Grows_refl, live-Grows}
use draiver.Reconcile.Verbs.Handed.{
  marked, hand_off_enabled, hand_off_fails, hand_off_marks, lookup-put,
}
use draiver.Reconcile.Verbs.Reaped.{pid_of, Reaped, Excused, Reaps, reap-Reaps}
use draiver.Reconcile.Verbs.Restart.Flushed.{lookup-put_other, note-Parent, Parks, park-Parks}
use draiver.Reconcile.Verbs.Restart.Forked.{ChildOf, Forks, fork_attempt-Forks}
use draiver.Reconcile.Verbs.Restart.{fork_attempt, fork_body, flush, restart}
use draiver.Reconcile.Verbs.Grows.Verbs.{reap-Keeps}

-- The parent is parked and at rest, and the attempt of the result is a fresh child of it.
pub record Forked (w : World) (r : Ref) (res : StartResult) (t : World) : Type 0 where
  pub was : Slot
  pub parent : Slot
  pub child : Slot
  pub before : lookup w.slots r ≡ some was
  pub after : lookup t.slots r ≡ some parent
  pub parked : derive_enabled parent.events ≡ false
  pub unmarked : parent.marker ≡ none
  pub no_process : pid_of parent.identity ≡ 0
  pub unused : lookup w.slots res.attempt ≡ none
  pub made : lookup t.slots res.attempt ≡ some child
  pub child_of : ChildOf was r child

abbrev pub ForksOver : Options → World → Ref → Run Fault World StartResult → Type 0
ForksOver opt w r (err e t) = Excused opt w r e
ForksOver opt w r (ok res t) = Forked w r res t

same_ref_comm : (a b : Ref) → same_ref a b ≡ false → same_ref b a ≡ false
same_ref_comm a b e = elim (Bool-cases (same_ref b a)) [
  | inl f ↦ absurd (false≢true (sym e ∙ (same_ref_iff a b).1 (sym ((same_ref_iff b a).0 f))))
  | inr f ↦ f
]

-- One of the two has files, the other has none.
apart :
    (a b : Ref) (w : World) (s : Slot)
    → lookup w.slots a ≡ some s
    → lookup w.slots b ≡ none
    → same_ref a b ≡ false
apart a b w s e f = elim (Bool-cases (same_ref a b)) [
  | inl g ↦
      let p : lookup w.slots a ≡ none =
        subst (λ x. lookup w.slots x ≡ none) (sym ((same_ref_iff a b).0 g)) f in
      cc
  | inr g ↦ g
]

module _ (opt : Options) (w : World) (r : Ref) (c : Controller) where
  abbrev result : Ref → StartResult
  result target = record { controller_pid = c.pid; attempt = target; forked = true }

  -- The last step: the child's marker.
  child_marked :
      (child : Ref) (t : World) (ch : Slot) (parent : Slot)
      → same_ref child r ≡ false
      → lookup t.slots child ≡ some ch
      → lookup t.slots r ≡ some parent
      → ((v : World) (new : Slot)
          → lookup v.slots r ≡ some parent
          → lookup v.slots child ≡ some new
          → new.meta ≡ ch.meta
          → new.identity ≡ ch.identity
          → Forked w r (result child) v)
      → ForksOver opt w r ((hand_off opt c child >> pure (result child)) t)
  child_marked child t ch parent other there its h = elim (Bool-cases (derive_enabled ch.events)) [
    | inl on ↦ rw (hand_off_enabled opt c child t ch there on) (h t ch its there refl refl)
    | inr off ↦ elim (Bool-cases (opt.fails (mark child))) [
      | inl f ↦ rw (hand_off_fails opt c child t ch there off f) f
      | inr f ↦ rw (hand_off_marks opt c child t ch there off f) (
          h (put child (marked opt c child t ch) t) (marked opt c child t ch)
            (lookup-put_other child r _ t other ∙ its) (lookup-put child _ t) refl refl)
    ]
  ]

  module _ (was s : Slot) (v : World) (before : lookup w.slots r ≡ some was)
      (there : lookup v.slots r ≡ some s) (grown : Grows w v) (reaped : Reaped w was s) where
    module _ (child : Ref) (ch : Slot) (free : lookup v.slots child ≡ none)
        (child_of : ChildOf s r ch) where
      still_free : lookup w.slots child ≡ none
      still_free = subst (Kept (lookup w.slots child)) free (grown.kept child)

      then_parked :
          (t : World) (q : Slot)
          → lookup t.slots child ≡ some ch
          → q.identity ≡ s.identity
          → (o : Run Fault World (Unit {0}))
          → Parks opt r child (apart r child v s there free) t q o
          → ForksOver opt w r (
              and_then
                (and_then o (λ _. pure child))
                (λ target. hand_off opt c target >> pure (result target)))
      then_parked t q its same (err e u) (x, why, f) = subst (Excused opt w r) (sym why) f
      then_parked t q its same (ok x u) (parent, kept, off, unmarked) =
          child_marked child u ch parent (same_ref_comm r child (apart r child v s there free))
            (kept.child_kept ∙ its) kept.there
            (λ z new e f m i. record {
              was = was;
              parent = parent;
              child = new;
              before = before;
              after = e;
              parked = off;
              unmarked = unmarked;
              no_process = ap pid_of (kept.identity_kept ∙ same) ∙ reaped.no_process;
              unused = still_free;
              made = f;
              child_of = record {
                from = ap (λ (y : Meta). y.from) m ∙ child_of.from;
                tool =
                    ap (λ (y : Meta). y.tool) m
                    ∙ child_of.tool
                    ∙ ap (λ (y : Meta). y.tool) reaped.meta;
                model =
                    ap (λ (y : Meta). y.model) m
                    ∙ child_of.model
                    ∙ ap (λ (y : Meta). y.model) reaped.meta;
                repo =
                    ap (λ (y : Meta). y.repo) m
                    ∙ child_of.repo
                    ∙ ap (λ (y : Meta). trim_space y.repo) reaped.meta;
                no_session = i ∙ child_of.no_session;
              };
            })

      abbrev parent_there : lookup (put child ch v).slots r ≡ some s
      parent_there =
          lookup-put_other child r ch v (same_ref_comm r child (apart r child v s there free))
          ∙ there

      then_noted :
          (body : String)
          → ForksOver opt w r (
              and_then
                ((note opt r body >> (park_attempt opt r >> pure child)) (put child ch v))
                (λ target. hand_off opt c target >> pure (result target)))
      then_noted body =
          let other = apart r child v s there free in
          let (t, q, e, step) =
            note-Parent opt r child other body (put child ch v) s parent_there in
          rw e (
            then_parked t q (step.child_kept ∙ lookup-put child ch v) step.identity_kept
              (park_attempt opt r t) (park-Parks opt r child other t q step.there))

    then_forked :
        (o : Run Fault World Ref)
        → Forks opt v r o
        → ForksOver opt w r (
            and_then
              (and_then o
                (λ child. note opt r (fork_body opt child) >> (park_attempt opt r >> pure child)))
              (λ target. hand_off opt c target >> pure (result target)))
    then_forked (err no_controller t) p = sym (live-Grows grown) ∙ p
    then_forked (err no_attempt t) p = subst (Kept (lookup w.slots r)) p (grown.kept r)
    then_forked (err no_repo t) (s', there', blank) =
        let found : some s' ≡ some s = sym there' ∙ there in
        let same : s' ≡ s = cc in
        let its : trim_space s.meta.repo ≡ "" =
          subst (λ (x : Slot). trim_space x.meta.repo ≡ "") same blank in
        (was, before, ap (λ (y : Meta). trim_space y.repo) (sym reaped.meta) ∙ its)
    then_forked (err gave_up t) p = p
    then_forked (err (failed x) t) p = p
    then_forked (ok child t) (s', ch, there', free, made, child_of) =
        let same : some s' ≡ some s = sym there' ∙ there in
        let its : ChildOf s r ch = subst (λ x. ChildOf x r ch) (cc) child_of in
        subst
          (λ z. ForksOver opt w r (
            and_then ((note opt r (fork_body opt child) >> (park_attempt opt r >> pure child)) z)
              (λ target. hand_off opt c target >> pure (result target))))
          (sym made) (then_noted child ch free its (fork_body opt child))

  then_reaped :
      (o : Run Fault World StopResult)
      → Grows w (end o)
      → Reaps opt w r o
      → ForksOver opt w r (
          and_then o (λ _.
            flush opt level_attempt r >>= λ target. hand_off opt c target >> pure (result target)))
  unfolding flush
  then_reaped (err e t) g p = p
  then_reaped (ok res v) g (was, s, before, there, reaped, reports) =
      then_forked was s v before there g reaped (fork_attempt opt r v) (fork_attempt-Forks opt v r)

-- A Restart at the level of the attempt either fails, and then there is no live controller or no such
-- attempt, the attempt binds no repo, a write failed or Atoi does not read the numbers of attempts
-- back; or it succeeds. Then the parent is disabled, unmarked and without a recorded process, and the
-- attempt of the result, which was not there before, has no session, carries the parent's tool, model
-- and repo and names the parent.
pub restart-Forked :
    (opt : Options) (w : World) (r : Ref) → ForksOver opt w r (restart opt level_attempt r w)
unfolding restart require_controller
restart-Forked opt w r = found (live_controller w) refl
  where
    found :
        (o : Option Controller)
        → live_controller w ≡ o
        → ForksOver opt w r (restart opt level_attempt r w)
    found none e = rw e e
    found (some c) e = rw e (
        then_reaped opt w r c (reap opt r w) ((reap-Keeps w opt r).run w (Grows_refl w))
          (reap-Reaps opt w r))
