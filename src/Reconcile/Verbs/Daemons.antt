-- ===== src/Reconcile/Verbs/Daemons.antt =====
-- The verbs between one daemon's life and the next: what happens to the data root while clients run
-- verbs, processes come and go and daemons boot.
use mathlib.Core.Path.{subst}
use draiver.Prelude.{
  ℕ, String, ◌≡◌, refl, sym, inl, inr, not, ◌&&◌, Option, none, some, List, [], ◌∷◌, Memᴰ, eqb,
  Bool-cases,
}
use draiver.Prelude.Maps.{string_key, nat_key, ref_key, has, lookup}
use draiver.Project.Fleet.{Ref}
use draiver.Reconcile.Verbs.{
  Controller, Marker, World, Options, FlushLevel, live, live_controller, start, enable_now, stop,
}
use draiver.Reconcile.Verbs.Restart.{start_new_attempt, restart}
use draiver.Reconcile.Verbs.Grows.{end, marker_in, Stamped, Grows, Grows_refl}
use draiver.Reconcile.Verbs.Grows.Verbs.{start-Keeps, enable_now-Keeps, stop-Keeps}
use draiver.Reconcile.Verbs.Restart.Kept.{start_new_attempt-Keeps, restart-Keeps}

-- What a client may ask for.
pub data Call : Type 0 where
  start_of new_attempt_of enable_of stop_of : Ref → Call
  restart_of : FlushLevel → Ref → Call

-- The world after a verb, whether it succeeds or not.
unfoldable pub called : Options → Call → World → World
called opt (start_of r) w = end (start opt r w)
called opt (new_attempt_of r) w = end (start_new_attempt opt r w)
called opt (enable_of r) w = end (enable_now opt r w)
called opt (stop_of r) w = end (stop opt r w)
called opt (restart_of level r) w = end (restart opt level r w)

-- No verb, whichever of its writes fail, removes an attempt, changes its attempt.md or rewrites its
-- log, touches the controller record or stamps a marker with another nonce than the live
-- controller's.
pub called-Grows : (opt : Options) (call : Call) (w : World) → Grows w (called opt call w)
unfolding called
called-Grows opt (start_of r) w = (start-Keeps w opt r).run w (Grows_refl w)
called-Grows opt (new_attempt_of r) w = (start_new_attempt-Keeps w opt r).run w (Grows_refl w)
called-Grows opt (enable_of r) w = (enable_now-Keeps w opt r).run w (Grows_refl w)
called-Grows opt (stop_of r) w = (stop-Keeps w opt r).run w (Grows_refl w)
called-Grows opt (restart_of level r) w = (restart-Keeps w opt level r).run w (Grows_refl w)

-- `WriteController`, at boot.
unfoldable pub boot : Controller → World → World
boot c w = record w { controller = some c }

-- The worlds that clients, processes and daemons reach from a world without markers; `nonces` are
-- those of the daemons that have booted, the last one first.
pub data Lived : List String → World → Type 0 where
  fresh :
      {w : World}
      → ((r : Ref) → marker_in (lookup w.slots r) ≡ none)
      → w.controller ≡ none
      → Lived [] w
  asked :
      {nonces : List String} {w : World}
      → Lived nonces w
      → (opt : Options) (call : Call) {t : World} → t ≡ called opt call w
      → Lived nonces t
  processes :
      {nonces : List String} {w : World}
      → Lived nonces w
      → (alive : List ℕ) {t : World} → t ≡ record w { alive = alive }
      → Lived nonces t
  booted :
      {nonces : List String} {w : World}
      → Lived nonces w
      → (c : Controller) {t : World} → t ≡ boot c w
      → Lived (c.nonce ∷ nonces) t

abbrev pub Known : List String → Option Controller → Type 0
Known nonces none = Unit {0}
Known nonces (some c) = Memᴰ c.nonce nonces

abbrev pub Stamp : List String → Option Marker → Type 0
Stamp nonces none = Unit {0}
Stamp nonces (some m) = Memᴰ m.nonce nonces

-- Every nonce on disk is one of a daemon that has booted.
pub record IsStamped (nonces : List String) (w : World) : Type 0 where
  pub known : Known nonces w.controller
  pub stamps : (r : Ref) → Stamp nonces (marker_in (lookup w.slots r))

Live-Known :
    (nonces : List String) (alive : List ℕ) (o : Option Controller) (c : Controller)
    → Known nonces o
    → live alive o ≡ some c
    → Memᴰ c.nonce nonces
unfolding live
Live-Known nonces alive none c k e = cc
Live-Known nonces alive (some d) c k e = elim (Bool-cases (not (eqb d.pid 0) && has alive d.pid)) [
  | inl q ↦ subst (λ (o : Option Controller). Known nonces o) (rw q at e) k
  | inr q ↦ cc (rw q at e)
]

Stamp-grows :
    (nonces : List String) (w : World) (old new : Option Marker)
    → Known nonces w.controller
    → Stamp nonces old
    → Stamped w old new
    → Stamp nonces new
unfolding live_controller
Stamp-grows nonces w old none k p q = tt
Stamp-grows nonces w old (some m) k p (inl e) = subst (Stamp nonces) e p
Stamp-grows nonces w old (some m) k p (inr (c, l, e)) =
    subst (λ n. Memᴰ n nonces) e (Live-Known nonces w.alive w.controller c k l)

Stamp-later :
    (n : String) (nonces : List String) (o : Option Marker) → Stamp nonces o → Stamp (n ∷ nonces) o
Stamp-later n nonces none p = tt
Stamp-later n nonces (some m) p = Memᴰ.tail p

pub Lived-IsStamped : {nonces : List String} {w : World} → Lived nonces w → IsStamped nonces w
unfolding boot
Lived-IsStamped (fresh unmarked unrecorded) = record {
  known = rw unrecorded tt;
  stamps = λ r. rw (unmarked r) tt;
}
Lived-IsStamped (asked {nonces} {w} before opt call e) =
    let i = Lived-IsStamped before in
    let g = called-Grows opt call w in
    rw e (record {
      known = subst (Known nonces) (sym g.controller) i.known;
      stamps = λ r. Stamp-grows nonces w _ _ i.known (i.stamps r) (g.stamped r);
    })
Lived-IsStamped (processes before alive e) =
    let i = Lived-IsStamped before in rw e (record { known = i.known; stamps = i.stamps })
Lived-IsStamped (booted {nonces} {w} before c e) =
    let i = Lived-IsStamped before in
    rw e
      (record { known = Memᴰ.head refl; stamps = λ r. Stamp-later c.nonce nonces _ (i.stamps r) })
