-- ===== src/Reconcile/Verbs/Handed.antt =====
-- The handover of the verbs, and the daemon that takes it: a pass of reconcile.go's `desired` over
-- the markers that the verbs write.
use draiver.Prelude.{
  ◌≡◌, refl, sym, ◌∙◌, ◌⊎◌, inl, inr, Bool, true, false, Option, none, some, Bool-cases,
}
use draiver.Prelude.Maps.{string_key, nat_key, same_ref_iff, ref_key, lookup, lookup-insert}
use draiver.Prelude.Commands.{Run, ok, err, and_then, ◌>>◌, pure, ◌>>=◌}
use draiver.Project.State.{ok, err}
use draiver.Project.Axes.{derive_enabled}
use draiver.Project.Fleet.{Ref}
use draiver.Reconcile.Verbs.{
  Controller, Marker, Slot, World, mark, Options, Fault, no_attempt, failed, Verb, FlushLevel,
  StartResult, live_controller, require_controller, load, put, write, hand_off, start,
}
use draiver.Reconcile.Verbs.Grows.{end, Live, Grows, live-Grows, Keeps}
use draiver.Reconcile.Verbs.Restart.{start_new_attempt, restart}
use draiver.Reconcile.Verbs.Grows.Verbs.{load_lem-Keeps, note-Keeps, reap-Keeps}
use draiver.Reconcile.Verbs.Restart.Kept.{fork_attempt-Keeps, flush-Keeps}

-- The marker of the slot names the live controller.
abbrev pub Marked : World → Option Marker → Type 0
Marked w none = ⊥
Marked w (some m) = Live w m.nonce

abbrev pub HandedSlot : World → Option Slot → Type 0
HandedSlot w none = ⊥
HandedSlot w (some s) = (derive_enabled s.events ≡ true) ⊎ Marked w s.marker

-- The daemon has what it needs to bring the attempt up: its enable bit, or a marker of its own.
abbrev pub Handed : World → Ref → Type 0
Handed w r = HandedSlot w (lookup w.slots r)

-- A failure hands nothing over.
abbrev pub HandsOver : Run Fault World StartResult → Type 0
HandsOver (err e t) = Unit {0}
HandsOver (ok res t) = Handed t res.attempt

-- What `handOff` does, on each branch.
module _ (opt : Options) (c : Controller) (r : Ref) (t : World) where
  abbrev pub marked : Slot → Slot
  marked s = record s { marker = some (record { nonce = c.nonce; stamp = opt.now }) }

  hand_off_missing : lookup t.slots r ≡ none → hand_off opt c r t ≡ err no_attempt t
  unfolding hand_off load
  hand_off_missing e = rw e refl

  module _ (s : Slot) (there : lookup t.slots r ≡ some s) where
    pub hand_off_enabled : derive_enabled s.events ≡ true → hand_off opt c r t ≡ ok tt t
    unfolding hand_off load
    hand_off_enabled e = rw (there, e) refl

    pub hand_off_fails :
        derive_enabled s.events ≡ false
        → opt.fails (mark r) ≡ true
        → hand_off opt c r t ≡ err (failed (mark r)) t
    unfolding hand_off load write
    hand_off_fails e f = rw (there, e, there, f) refl

    pub hand_off_marks :
        derive_enabled s.events ≡ false
        → opt.fails (mark r) ≡ false
        → hand_off opt c r t ≡ ok tt (put r (marked s) t)
    unfolding hand_off load write
    hand_off_marks e f = rw (there, e, there, f) refl

pub lookup-put : (r : Ref) (s : Slot) (w : World) → lookup (put r s w).slots r ≡ some s
lookup-put r s w = lookup-insert r r s w.slots ∙ rw ((same_ref_iff r r).1 refl) refl

module _ (w : World) (opt : Options) where
  pub record Hands (m : Verb StartResult) : Type 0 where
    pub run : (t : World) → Grows w t → HandsOver (m t)

  then-Hands :
      {A : Type 0} (m : Verb A) (k : A → Verb StartResult)
      → Keeps w m
      → ((a : A) → Hands (k a))
      → Hands (m >>= k)
  then-Hands {A} m k p h = record { run = λ t g. from (m t) (p.run t g) }
    where
      from : (o : Run Fault World A) → Grows w (end o) → HandsOver (and_then o k)
      from (ok a t) g = (h a).run t g
      from (err e t) g = tt

  -- The last step of each verb.
  handed :
      (c : Controller) (r : Ref) (forked : Bool)
      → live_controller w ≡ some c
      → Hands (
          hand_off opt c r
          >> pure (record { controller_pid = c.pid; attempt = r; forked = forked }))
  unfolding live_controller
  handed c r forked l = record { run = λ t g. at_slot t (live-Grows g ∙ l) (lookup t.slots r) refl }
    where
      at_slot :
          (t : World)
          → live_controller t ≡ some c
          → (o : Option Slot) → lookup t.slots r ≡ o
          → HandsOver (
              (hand_off opt c r
                  >> pure (record { controller_pid = c.pid; attempt = r; forked = forked }))
                t)
      at_slot t live_now none e = rw (hand_off_missing opt c r t e) tt
      at_slot t live_now (some s) e = elim (Bool-cases (derive_enabled s.events)) [
        | inl on ↦ rw (hand_off_enabled opt c r t s e on) (rw e (inl on))
        | inr off ↦ elim (Bool-cases (opt.fails (mark r))) [
          | inl f ↦ rw (hand_off_fails opt c r t s e off f) tt
          | inr f ↦
              rw (hand_off_marks opt c r t s e off f)
                (rw (lookup-put r (marked opt c r t s) t) (inr (c, live_now, refl)))
        ]
      ]

  load-Hands :
      (r : Ref) (k : Slot → Verb StartResult) → ((s : Slot) → Hands (k s)) → Hands (load r >>= k)
  load-Hands r k h = then-Hands (load r) k (load_lem-Keeps w r) h

  controller-Hands :
      (k : Controller → Verb StartResult)
      → ((c : Controller) → live_controller w ≡ some c → Hands (k c))
      → Hands (require_controller >>= k)
  unfolding require_controller
  controller-Hands k h = record { run = λ t g. found t g (live_controller t) refl }
    where
      found :
          (t : World)
          → Grows w t
          → (o : Option Controller) → live_controller t ≡ o
          → HandsOver ((require_controller >>= k) t)
      found t g none e = rw e tt
      found t g (some c) e = rw e ((h c (sym (live-Grows g) ∙ e)).run t g)

  pub start-Hands : (r : Ref) → Hands (start opt r)
  unfolding start
  start-Hands r = load-Hands r _ (λ s. controller-Hands _ (λ c l. handed c r false l))

  pub start_new_attempt-Hands : (r : Ref) → Hands (start_new_attempt opt r)
  unfolding start_new_attempt
  start_new_attempt-Hands r = load-Hands r _ (λ s. controller-Hands _ (λ c l.
      then-Hands _ _ (fork_attempt-Keeps w opt r)
        (λ child. then-Hands _ _ (note-Keeps w opt r _) (λ _. handed c child true l))))

  pub restart-Hands : (level : FlushLevel) (r : Ref) → Hands (restart opt level r)
  unfolding restart
  restart-Hands level r = controller-Hands _ (λ c l.
      then-Hands _ _ (reap-Keeps w opt r)
        (λ res. then-Hands _ _ (flush-Keeps w opt level r) (λ target. handed c target _ l)))
