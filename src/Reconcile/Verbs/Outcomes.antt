-- ===== src/Reconcile/Verbs/Outcomes.antt =====
-- How the verbs end: refused without a daemon, and a start that succeeds.
use draiver.Prelude.{◌≡◌, refl, ◌⊎◌, inl, inr, false, Option, none, some, if◌then◌else◌, Bool-cases}
use draiver.Prelude.Maps.{string_key, nat_key, ref_key, lookup}
use draiver.Prelude.Commands.{Run, ok, err, ◌>>=◌}
use draiver.Project.Axes.{derive_enabled}
use draiver.Project.Fleet.{Ref}
use draiver.Reconcile.Verbs.{
  Controller, Slot, World, mark, Options, Fault, no_controller, no_attempt, Verb, live_controller,
  require_controller, load, put, start, enable_now,
}
use draiver.Reconcile.Verbs.Restart.{start_new_attempt, restart}
use draiver.Reconcile.Verbs.Handed.{marked, hand_off_enabled, hand_off_marks}
use draiver.Reconcile.Verbs.Lifetime.{Ask, plain, branched, flushed, hand_over}

-- A failure for want of a daemon or of the attempt, with the world as it was.
abbrev pub Refused : {A : Type 0} → World → Run Fault World A → Type 0
Refused w (ok a t) = ⊥
Refused w (err e t) = (t ≡ w) × ((e ≡ no_controller) ⊎ (e ≡ no_attempt))

module _ (opt : Options) (w : World) where
  module _ {A : Type 0} (absent : live_controller w ≡ none) where
    Refused-behind_load :
        (r : Ref) (k : Slot → Controller → Verb A)
        → Refused w ((load r >>= λ s. require_controller >>= k s) w)
    unfolding load require_controller
    Refused-behind_load r k = at_slot (lookup w.slots r) refl
      where
        at_slot :
            (o : Option Slot)
            → lookup w.slots r ≡ o
            → Refused w ((load r >>= λ s. require_controller >>= k s) w)
        at_slot none e = rw e (refl, inr refl)
        at_slot (some s) e = rw (e, absent) (refl, inl refl)

  -- Without a live controller Start, StartNewAttempt and Restart at every level fail, with
  -- ErrNoController or because the attempt is not there, and change nothing.
  pub hand_over-Refused : (ask : Ask) → live_controller w ≡ none → Refused w (hand_over opt ask w)
  unfolding start start_new_attempt restart require_controller
  hand_over-Refused (plain r) absent = Refused-behind_load absent r _
  hand_over-Refused (branched r) absent = Refused-behind_load absent r _
  hand_over-Refused (flushed level r) absent = rw absent (refl, inl refl)

  pub enable_now-Refused : (r : Ref) → live_controller w ≡ none → Refused w (enable_now opt r w)
  unfolding enable_now
  enable_now-Refused r absent = Refused-behind_load absent r _

  -- With the attempt there, a live daemon and a marker that can be written, Start succeeds; it writes
  -- nothing for an enabled attempt and the marker for another.
  pub start-ok :
      (r : Ref) (s : Slot) (c : Controller)
      → lookup w.slots r ≡ some s
      → live_controller w ≡ some c
      → opt.fails (mark r) ≡ false
      → start opt r w
        ≡ ok
            (record { controller_pid = c.pid; attempt = r; forked = false })
            (if derive_enabled s.events then w else put r (marked opt c r w s) w)
  unfolding start load require_controller
  start-ok r s c e l f = elim (Bool-cases (derive_enabled s.events)) [
    | inl on ↦ rw (e, l, hand_off_enabled opt c r w s e on, on) refl
    | inr off ↦ rw (e, l, hand_off_marks opt c r w s e off f, off) refl
  ]
