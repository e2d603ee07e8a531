-- ===== src/Reconcile/Verbs/Halts.antt =====
-- A stop whose writes succeed ends well.
use mathlib.Core.Path.{subst}
use draiver.Prelude.{◌≡◌, refl, inl, inr, false, not, ◌&&◌, Option, none, some, eqb, Bool-cases}
use draiver.Prelude.Maps.{string_key, nat_key, ref_key, has, lookup}
use draiver.Prelude.Commands.{Run, ok, err, and_then, ◌>>◌, pure}
use draiver.Project.Fleet.{Ref}
use draiver.Reconcile.Verbs.{
  Identity, Slot, World, Write, unmark, identify, terminate, Options, Fault, StopResult, load, put,
  write, remove_marker, write_identity, signal, clear_pid, reap_identity, reap, stop,
}
use draiver.Reconcile.Verbs.Handed.{lookup-put}
use draiver.Reconcile.Verbs.Reaped.{Stopped, Stops, stop-Stops}

module _ (opt : Options) (r : Ref) (works : (x : Write) → opt.fails x ≡ false) where
  -- Success, with the attempt still there.
  abbrev Well : {A : Type 0} → Run Fault World A → Type 0
  Well (err e t) = ⊥
  Well (ok a t) = (s : Slot) × (lookup t.slots r ≡ some s)

  clear_pid-Well :
      (w : World) (s : Slot) (id : Identity) (res : StopResult)
      → lookup w.slots r ≡ some s
      → Well (clear_pid opt r id res w)
  unfolding clear_pid write_identity load write
  clear_pid-Well w s id res e = elim (Bool-cases (eqb id.pid 0)) [
    | inl z ↦ rw z (s, e)
    | inr z ↦ rw (z, e, works (identify r)) (_, lookup-put r _ w)
  ]

  reap-Well : (w : World) (s : Slot) → lookup w.slots r ≡ some s → Well (reap opt r w)
  unfolding reap load reap_identity signal
  reap-Well w s e = rw e (by_identity s.identity)
    where
      by_identity : (o : Option Identity) → Well (reap_identity opt r o w)
      by_identity none = (s, e)
      by_identity (some id) = elim (Bool-cases (not (eqb id.pid 0) && has w.alive id.pid)) [
        | inl up ↦ rw (up, works (terminate id.pid)) (clear_pid-Well _ s id _ e)
        | inr up ↦ rw up (clear_pid-Well w s id _ e)
      ]

  then_removed :
      (w : World) (o : Run Fault World StopResult)
      → Well o
      → Stops opt w r (and_then o (λ res. remove_marker opt r >> pure res))
      → (res : StopResult) × (t : World) × (and_then o (λ res. remove_marker opt r >> pure res)
          ≡ ok res t)
        × Stopped w r res t
  unfolding remove_marker load write
  then_removed w (err e t) b p = absurd b
  then_removed w (ok res t) (s, e) p =
      let q : and_then (remove_marker opt r t) (λ _. pure res)
          ≡ ok res (put r (record s { marker = none }) t) =
        rw (e, works (unmark r)) refl in
      (res, put r (record s { marker = none }) t, q, subst (Stops opt w r) q p)

  -- If the attempt is there and no write fails, stop succeeds. It leaves the attempt with no recorded
  -- process and no marker, its log and its recorded session as they were; it has signaled the
  -- recorded process exactly if that was alive, and reports that.
  pub stop-Stopped :
      (w : World) (s : Slot)
      → lookup w.slots r ≡ some s
      → (res : StopResult) × (t : World) × (stop opt r w ≡ ok res t) × Stopped w r res t
  unfolding stop
  stop-Stopped w s e = then_removed w (reap opt r w) (reap-Well w s e) (stop-Stops opt w r)
