-- ===== src/Reconcile/Verbs/Grows.antt =====
-- What no verb undoes: attempts stay, their logs only grow, and a marker is the live controller's.
pub mod Verbs
use mathlib.Core.Path.{subst}
use draiver.Prelude.{
  String, ◌≡◌, refl, sym, ap, ◌∙◌, ◌⊎◌, inl, inr, Bool, true, false, Option, none, some, List, [],
  ◌++◌, append_assoc, append-nil, if◌then◌else◌, Bool-cases,
}
use draiver.Prelude.Maps.{
  string_key, nat_key, same_ref, same_ref_iff, ref_key, lookup, lookup-insert,
}
use draiver.Prelude.Commands.{Run, ok, err, and_then, pure, throw, guard, ◌>>=◌}
use draiver.Event.{Event}
use draiver.Project.Fleet.{Ref}
use draiver.Reconcile.Verbs.{Controller, Marker, Slot, World, Fault, Verb, live_controller, put}

-- The world in which a command ends.
abbrev pub end : {A : Type 0} → Run Fault World A → World
end (ok a w) = w
end (err e w) = w

abbrev pub marker_in : Option Slot → Option Marker
marker_in none = none
marker_in (some s) = s.marker

-- The nonce of the live controller.
abbrev pub Live : World → String → Type 0
Live w nonce = (c : Controller) × (live_controller w ≡ some c) × (c.nonce ≡ nonce)

-- What `s` keeps of the attempt that was there.
abbrev pub Extends : Option Slot → Slot → Type 0
Extends none s = Unit {0}
Extends (some old) s = (s.meta ≡ old.meta) × ((more : List Event) × (s.events ≡ old.events ++ more))

abbrev pub Kept : Option Slot → Option Slot → Type 0
Kept old none = old ≡ none
Kept old (some s) = Extends old s

abbrev pub Stamped : World → Option Marker → Option Marker → Type 0
Stamped w old none = Unit {0}
Stamped w old (some m) = (old ≡ some m) ⊎ Live w m.nonce

pub record Grows (w t : World) : Type 0 where
  pub controller : t.controller ≡ w.controller
  pub alive : t.alive ≡ w.alive
  pub kept : (r : Ref) → Kept (lookup w.slots r) (lookup t.slots r)
  pub stamped : (r : Ref) → Stamped w (marker_in (lookup w.slots r)) (marker_in (lookup t.slots r))

Kept-refl : (o : Option Slot) → Kept o o
Kept-refl none = refl
Kept-refl (some s) = (refl, ([], sym (append-nil s.events)))

Kept-trans : (a b c : Option Slot) → Kept a b → Kept b c → Kept a c
Kept-trans a none none p q = p
Kept-trans none none (some s) p q = tt
Kept-trans (some a) none (some s) p q = cc
Kept-trans a (some b) none p q = cc
Kept-trans none (some b) (some c) p q = tt
Kept-trans (some a) (some b) (some c) (p, (more, e)) (q, (rest, f)) =
    (q ∙ p, (more ++ rest, f ∙ ap (λ es. es ++ rest) e ∙ append_assoc a.events more rest))

Stamped_refl : (w : World) (o : Option Marker) → Stamped w o o
Stamped_refl w none = tt
Stamped_refl w (some m) = inl refl

pub Grows_refl : (w : World) → Grows w w
Grows_refl w = record {
  controller = refl;
  alive = refl;
  kept = λ r. Kept-refl (lookup w.slots r);
  stamped = λ r. Stamped_refl w (marker_in (lookup w.slots r));
}

pub live-Grows : {w t : World} → Grows w t → live_controller t ≡ live_controller w
unfolding live_controller
live-Grows g = rw (g.controller, g.alive)

Stamped_trans : (w : World) (a b c : Option Marker) → Stamped w a b → Stamped w b c → Stamped w a c
Stamped_trans w a b none p q = tt
Stamped_trans w a b (some m) p (inr l) = inr l
Stamped_trans w a b (some m) p (inl e) = subst (Stamped w a) e p

-- A write to the files of one attempt.
module _ {w t : World} (g : Grows w t) (r : Ref) (s : Slot) (extends : Extends (lookup t.slots r) s)
    (stamps : Stamped w (marker_in (lookup t.slots r)) s.marker) where
  put-Kept : (k : Ref) → Kept (lookup w.slots k) (if same_ref r k then some s else lookup t.slots k)
  put-Kept k = elim (Bool-cases (same_ref r k)) [
    | inl e ↦ rw e (
        subst (λ x. Kept (lookup w.slots x) (some s)) ((same_ref_iff r k).0 e)
          (Kept-trans _ (lookup t.slots r) (some s) (g.kept r) extends))
    | inr e ↦ rw e (g.kept k)
  ]

  put-Stamped :
      (k : Ref)
      → Stamped w
          (marker_in (lookup w.slots k))
          (marker_in (if same_ref r k then some s else lookup t.slots k))
  put-Stamped k = elim (Bool-cases (same_ref r k)) [
    | inl e ↦ rw e (
        subst (λ x. Stamped w (marker_in (lookup w.slots x)) s.marker) ((same_ref_iff r k).0 e)
          (Stamped_trans w _ (marker_in (lookup t.slots r)) s.marker (g.stamped r) stamps))
    | inr e ↦ rw e (g.stamped k)
  ]

  pub put-Grows : Grows w (put r s t)
  put-Grows = record {
    controller = g.controller;
    alive = g.alive;
    kept = λ k. rw (lookup-insert r k s t.slots) (put-Kept k);
    stamped = λ k. rw (lookup-insert r k s t.slots) (put-Stamped k);
  }

-- A command after which what stood at `w` has only grown.
module _ (w : World) where
  pub record Keeps {A : Type 0} (m : Verb A) : Type 0 where
    pub run : (t : World) → Grows w t → Grows w (end (m t))

  module _ {A B : Type 0} where
    pub Grows-then :
        (k : A → Verb B)
        → ((a : A) → Keeps (k a))
        → (o : Run Fault World A) → Grows w (end o)
        → Grows w (end (and_then o k))
    Grows-then k h (ok a t) g = (h a).run t g
    Grows-then k h (err e t) g = g

    pub then-Keeps :
        (m : Verb A) (k : A → Verb B) → Keeps m → ((a : A) → Keeps (k a)) → Keeps (m >>= k)
    then-Keeps m k p h = record { run = λ t g. Grows-then k h (m t) (p.run t g) }

  pub when-Keeps :
      {A : Type 0} (b : Bool) (m n : Verb A) → Keeps m → Keeps n → Keeps (if b then m else n)
  when-Keeps true m n p q = p
  when-Keeps false m n p q = q

  pub pure-Keeps : {A : Type 0} (a : A) → Keeps (pure a)
  pure-Keeps a = record { run = λ t g. g }

  pub throw-Keeps : {A : Type 0} (e : Fault) → Keeps (throw {A = A} e)
  throw-Keeps e = record { run = λ t g. g }

  pub guard-Keeps : (b : Bool) (e : Fault) → Keeps (guard b e)
  guard-Keeps true e = pure-Keeps tt
  guard-Keeps false e = throw-Keeps e
