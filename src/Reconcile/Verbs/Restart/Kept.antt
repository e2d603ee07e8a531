-- ===== src/Reconcile/Verbs/Restart/Kept.antt =====
-- Forking an attempt and `Restart` keep what was there.
use draiver.Prelude.{
  ℕ, zero, suc, String, ◌≡◌, refl, inl, inr, false, none, [], ◌∷◌, arith, eq_iff, Bool-cases,
}
use draiver.Prelude.Maps.{string_key, nat_key, ref_key, has, lookup}
use draiver.Project.Fleet.{Ref}
use draiver.Reconcile.Verbs.{
  Slot, Slots, World, make, Options, gave_up, FlushLevel, level_none, level_session, level_worktree,
  level_attempt, write,
}
use draiver.Reconcile.Verbs.Grows.{
  end, Grows, Keeps, Grows-then, then-Keeps, pure-Keeps, throw-Keeps, guard-Keeps,
}
use draiver.Attempt.{Meta, next_id}
use draiver.Reconcile.Verbs.Restart.{
  ids_of, fresh_slot, claim, create, fork_attempt, start_new_attempt, flush, restart,
}
use draiver.Reconcile.Verbs.Grows.Verbs.{
  load-Keeps, controller-Keeps, write-Grows, note-Keeps, hand_off-Keeps, reap-Keeps,
  park_attempt-Keeps, flush_session-Keeps, flush_worktree-Keeps,
}
use draiver.Prelude.Commands.{◌>>◌, pure, ◌>>=◌}

-- An id that is not in use has no files.
pub lookup_free :
    (ticket id : String) (slots : Slots)
    → has (ids_of ticket slots) id ≡ false
    → lookup slots (ticket, id) ≡ none
unfolding ids_of has lookup
lookup_free ticket id [] h = refl
lookup_free ticket id ((r, s) ∷ slots) h =
    ground (arith, lookup_free ticket id slots, eq_iff r.0 ticket, eq_iff r.1 id)

module _ (w : World) (opt : Options) where
  made-Grows :
      (ticket id : String) (m : Meta) (t : World)
      → Grows w t
      → has (ids_of ticket t.slots) id ≡ false
      → Grows w
          (end ((write opt (make (ticket, id)) (ticket, id) (fresh_slot opt id m) >> pure id) t))
  made-Grows ticket id m t g e =
      let free = lookup_free ticket id t.slots e in
      Grows-then w {A = Unit {0}} (λ _. pure id) (λ _. pure-Keeps w id)
        (write opt (make (ticket, id)) (ticket, id) (fresh_slot opt id m) t)
        (write-Grows w opt (make (ticket, id)) (ticket, id) (fresh_slot opt id m) g (rw free tt) tt)

  claim-Keeps : (n : ℕ) (ticket : String) (m : Meta) → Keeps w (claim opt n ticket m)
  unfolding claim
  claim-Keeps zero ticket m = throw-Keeps w gave_up
  claim-Keeps (suc n) ticket m = record {
    run = λ t g.
        elim (Bool-cases (has (ids_of ticket t.slots) (next_id opt.atoi (ids_of ticket t.slots)))) [
          | inl e ↦ rw e ((claim-Keeps n ticket m).run t g)
          | inr e ↦ rw e (made-Grows ticket (next_id opt.atoi (ids_of ticket t.slots)) m t g e)
        ];
  }

  create-Keeps : (ticket : String) (m : Meta) → Keeps w (create opt ticket m)
  unfolding create
  create-Keeps ticket m = then-Keeps w _ _ (guard-Keeps w _ _) (λ _. claim-Keeps 8 ticket _)

  pub fork_attempt-Keeps : (r : Ref) → Keeps w (fork_attempt opt r)
  unfolding fork_attempt
  fork_attempt-Keeps r = load-Keeps w r _ (λ s t g e. (forked r s).run t g)
    where
      forked :
          (r : Ref) (s : Slot)
          → Keeps w {A = Ref} (
              create opt r.0 (record s.meta { actor = opt.actor; from = r.1 }) >>= λ id.
              pure (r.0, id))
      forked r s =
          then-Keeps w {B = Ref} (create opt r.0 (record s.meta { actor = opt.actor; from = r.1 }))
            (λ id. pure (r.0, id))
            (create-Keeps r.0 (record s.meta { actor = opt.actor; from = r.1 }))
            (λ id. pure-Keeps w (r.0, id))

  pub start_new_attempt-Keeps : (r : Ref) → Keeps w (start_new_attempt opt r)
  unfolding start_new_attempt
  start_new_attempt-Keeps r = load-Keeps w r _ (λ s t g e.
      (controller-Keeps w _ (λ c l. then-Keeps w _ _ (fork_attempt-Keeps r) (λ child.
          then-Keeps w _ _ (note-Keeps w opt r _)
            (λ _. then-Keeps w _ _ (hand_off-Keeps w opt c child l) (λ _. pure-Keeps w _))))).run
        t g)

  pub flush-Keeps : (level : FlushLevel) (r : Ref) → Keeps w (flush opt level r)
  unfolding flush
  flush-Keeps level_none r = pure-Keeps w r
  flush-Keeps level_session r =
      then-Keeps w _ _ (flush_session-Keeps w opt r)
        (λ _. then-Keeps w _ _ (note-Keeps w opt r _) (λ _. pure-Keeps w r))
  flush-Keeps level_worktree r = load-Keeps w r _ (λ s t g e.
      (then-Keeps w _ _ (flush_session-Keeps w opt r) (λ _.
          then-Keeps w _ _ (flush_worktree-Keeps w opt r)
            (λ _. then-Keeps w _ _ (note-Keeps w opt r _) (λ _. pure-Keeps w r)))).run
        t g)
  flush-Keeps level_attempt r = then-Keeps w _ _ (fork_attempt-Keeps r) (λ child.
      then-Keeps w _ _ (note-Keeps w opt r _)
        (λ _. then-Keeps w _ _ (park_attempt-Keeps w opt r) (λ _. pure-Keeps w child)))

  pub restart-Keeps : (level : FlushLevel) (r : Ref) → Keeps w (restart opt level r)
  unfolding restart
  restart-Keeps level r = controller-Keeps w _ (λ c l. then-Keeps w _ _ (reap-Keeps w opt r) (λ _.
      then-Keeps w _ _ (flush-Keeps level r)
        (λ target. then-Keeps w _ _ (hand_off-Keeps w opt c target l) (λ _. pure-Keeps w _))))
