-- ===== src/Reconcile/Verbs/Lifetime.antt =====
-- How long what a verb started lives: from the handover to the next daemon.
use mathlib.Core.Path.{subst}
use draiver.Prelude.{
  String, ◌≡◌, refl, sym, ◌↔◌, ◌⊎◌, inl, inr, true, false, not, ◌&&◌, Option, none, some, List,
  Memᴰ, ◌==◌, eq_iff, eqb, Bool-cases,
}
use draiver.Prelude.Maps.{string_key, nat_key, ref_key, has, lookup}
use draiver.Prelude.Commands.{ok}
use draiver.Project.State.{ok}
use draiver.Project.Fleet.{Attempt, is_running, Ref, ref}
use draiver.Reconcile.Desired.{Site, Direct, holds_nonce, direct_from}
use draiver.Reconcile.Desired.Passes.{keys, honoured, Directly, direct_from_iff}
use draiver.Reconcile.Verbs.{
  Controller, Marker, World, Options, Verb, FlushLevel, StartResult, live, live_controller, start,
}
use draiver.Reconcile.Verbs.Restart.{start_new_attempt, restart}
use draiver.Reconcile.Verbs.Grows.{Grows_refl}
use draiver.Reconcile.Verbs.Daemons.{boot, Lived, Stamp, Lived-IsStamped}
use draiver.Reconcile.Verbs.Handed.{
  Handed, HandsOver, start-Hands, start_new_attempt-Hands, restart-Hands,
}
use draiver.Reconcile.Verbs.DirectPass.{
  nonce_in, nonce_of, Shows, enabled_in, nothing_yet, Handed-desired,
}

-- The verbs that hand an attempt over.
pub data Ask : Type 0 where
  plain branched : Ref → Ask
  flushed : FlushLevel → Ref → Ask

abbrev pub hand_over : Options → Ask → Verb StartResult
hand_over opt (plain r) = start opt r
hand_over opt (branched r) = start_new_attempt opt r
hand_over opt (flushed level r) = restart opt level r

hand_over-HandsOver : (opt : Options) (ask : Ask) (w : World) → HandsOver (hand_over opt ask w)
hand_over-HandsOver opt (plain r) w = (start-Hands w opt r).run w (Grows_refl w)
hand_over-HandsOver opt (branched r) w = (start_new_attempt-Hands w opt r).run w (Grows_refl w)
hand_over-HandsOver opt (flushed level r) w = (restart-Hands w opt level r).run w (Grows_refl w)

-- When Start, StartNewAttempt or Restart (at any level) succeeds, the attempt that its result names,
-- if it is Running, is among those that the daemon's next direct pass desires, the first of the
-- passes of `desired`, before the gates. That pass reads the markers and the controller of the world
-- that the verb left, and the attempt's enable bit from its log.
pub hand_over-desired :
    (opt : Options) (ask : Ask) (w t : World) (res : StartResult)
    → hand_over opt ask w ≡ ok res t
    → (s : Site) → Shows s t
    → (attempts : List Attempt) (a : Attempt) (d : Direct) → ref a ≡ res.attempt
    → Memᴰ a attempts
    → is_running a.state ≡ true
    → a.enabled ≡ enabled_in (lookup t.slots (ref a))
    → Memᴰ (ref a) (keys (direct_from s d attempts).out)
hand_over-desired opt ask w t res ended s shows attempts a d same m runs i =
    Handed-desired s shows attempts a d
      (subst (Handed t) (sym same) (subst HandsOver ended (hand_over-HandsOver opt ask w))) m runs i

module _ {nonces : List String} {w : World} (lived : Lived nonces w) (c : Controller)
    (unused : ¬ Memᴰ c.nonce nonces) (s : Site) (shows : Shows s (boot c w)) where
  another_nonce :
      (o : Option Controller) (m : Marker)
      → Memᴰ m.nonce nonces
      → (o ≡ none) ⊎ (o ≡ some c)
      → holds_nonce (nonce_of o) m.nonce ≡ false
  another_nonce o m k (inl e) = rw e refl
  another_nonce o m k (inr e) = rw e (elim (Bool-cases (c.nonce == m.nonce)) [
    | inl q ↦ absurd (unused (subst (λ n. Memᴰ n nonces) (sym ((eq_iff c.nonce m.nonce).0 q)) k))
    | inr q ↦ q
  ])

  booted_controller : (live_controller (boot c w) ≡ none) ⊎ (live_controller (boot c w) ≡ some c)
  unfolding live_controller live boot
  booted_controller = elim (Bool-cases (not (eqb c.pid 0) && has w.alive c.pid)) [
    | inl e ↦ inr (rw e refl)
    | inr e ↦ inl (rw e refl)
  ]

  not_honoured : (o : Option Marker) → Stamp nonces o → honoured s (ok (nonce_in o)) ≡ false
  not_honoured none k = refl
  not_honoured (some m) k = rw shows.controller (another_nonce _ m k booted_controller)

  -- A daemon that boots with a nonce no daemon before it had forgets what the verbs started: among
  -- the attempts, its first direct pass desires the Running ones with the enable bit, and no others.
  pub boot-forgets :
      (attempts : List Attempt) (r : Ref)
      → Memᴰ r (keys (direct_from s nothing_yet attempts).out) ↔ Directly attempts r
  unfolding boot
  boot-forgets attempts r =
      let (f, g) = direct_from_iff s attempts nothing_yet r (λ a m off.
        rw (shows.markers (ref a)) (not_honoured _ ((Lived-IsStamped lived).stamps (ref a)))) in
      (λ m. elim (f m) [ inl x ↦ x | inr x ↦ elim x [ ] ], λ x. g (inl x))
