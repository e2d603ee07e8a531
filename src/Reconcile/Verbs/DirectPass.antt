-- ===== src/Reconcile/Verbs/DirectPass.antt =====
-- The daemon's pass of reconcile.go's `desired` over the markers that the verbs write.
use mathlib.Core.Path.{subst}
use draiver.Prelude.{
  String, ◌≡◌, refl, sym, ap, ◌∙◌, ◌⊎◌, inl, inr, Bool, true, false, not, false≢true, Option, none,
  some, List, [], ◌∷◌, Memᴰ, eq_iff, if◌then◌else◌, Bool-cases,
}
use draiver.Prelude.Maps.{string_key, nat_key, ref_key, lookup}
use draiver.Prelude.Commands.{ok, err}
use draiver.Project.State.{Parsed, ok, err}
use draiver.Project.Axes.{derive_enabled}
use draiver.Project.Fleet.{Attempt, is_running, Ref, ref}
use draiver.Reconcile.Desired.{Site, Direct, holds_nonce, on_marker, direct_step, direct_from}
use draiver.Reconcile.Desired.Passes.{keys, honoured, Mem-insert}
use draiver.Reconcile.Verbs.{Controller, Marker, Slot, World, live_controller}
use draiver.Reconcile.Verbs.Grows.{marker_in}
use draiver.Reconcile.Verbs.Handed.{Marked, HandedSlot, Handed}

abbrev pub nonce_in : Option Marker → Option String
nonce_in none = none
nonce_in (some m) = some m.nonce

abbrev pub nonce_of : Option Controller → Option String
nonce_of none = none
nonce_of (some c) = some c.nonce

-- The markers and the controller, as the pass reads them.
pub record Shows (s : Site) (w : World) : Type 0 where
  pub markers : (r : Ref) → s.marker r ≡ ok (nonce_in (marker_in (lookup w.slots r)))
  pub controller : s.controller ≡ nonce_of (live_controller w)

abbrev pub enabled_in : Option Slot → Bool
enabled_in none = false
enabled_in (some s) = derive_enabled s.events

abbrev pub nothing_yet : Direct
nothing_yet = record { out = []; swept = [] }

split :
    (P : Direct → Type 0) (b : Bool) (x y : Direct)
    → (b ≡ true → P x)
    → (b ≡ false → P y)
    → P (if b then x else y)
split P true x y f g = f refl
split P false x y f g = g refl

module _ (s : Site) where
  module _ (r : Ref) where
    on_marker_keeps :
        (a : Attempt) (p : Parsed (Option String)) (d : Direct)
        → Memᴰ r (keys d.out)
        → Memᴰ r (keys (on_marker s a p d).out)
    unfolding on_marker
    on_marker_keeps a (err e) d m = m
    on_marker_keeps a (ok none) d m = m
    on_marker_keeps a (ok (some nonce)) d m = elim (Bool-cases (holds_nonce s.controller nonce)) [
      | inl e ↦ rw e ((Mem-insert (ref a) a d.out r).1 (inr m))
      | inr e ↦ rw e m
    ]

    direct_step_keeps :
        (a : Attempt) (d : Direct) → Memᴰ r (keys d.out) → Memᴰ r (keys (direct_step s d a).out)
    unfolding direct_step
    direct_step_keeps a d m =
        split (λ x. Memᴰ r (keys x.out)) (not (is_running a.state)) _ _ (λ _. m)
          (λ _.
            split (λ x. Memᴰ r (keys x.out)) a.enabled _ _
              (λ _. (Mem-insert (ref a) a d.out r).1 (inr m))
              (λ _. on_marker_keeps a (s.marker (ref a)) d m))

    direct_from_keeps :
        (attempts : List Attempt) (d : Direct)
        → Memᴰ r (keys d.out)
        → Memᴰ r (keys (direct_from s d attempts).out)
    unfolding direct_from
    direct_from_keeps [] d m = m
    direct_from_keeps (a ∷ attempts) d m =
        direct_from_keeps attempts (direct_step s d a) (direct_step_keeps a d m)

  module _ (a : Attempt) (runs : is_running a.state ≡ true)
      (wanted : (a.enabled ≡ true) ⊎ (honoured s (s.marker (ref a)) ≡ true)) where
    on_marker_takes :
        (p : Parsed (Option String)) (d : Direct)
        → honoured s p ≡ true
        → Memᴰ (ref a) (keys (on_marker s a p d).out)
    unfolding on_marker
    on_marker_takes (err e) d h = cc
    on_marker_takes (ok none) d h = cc
    on_marker_takes (ok (some nonce)) d h = rw h ((Mem-insert (ref a) a d.out (ref a)).1 (inl refl))

    direct_step_takes : (d : Direct) → Memᴰ (ref a) (keys (direct_step s d a).out)
    unfolding direct_step
    direct_step_takes d =
        split (λ x. Memᴰ (ref a) (keys x.out)) (not (is_running a.state)) _ _
          (λ e. absurd (false≢true (ap not (sym runs) ∙ e)))
          (λ _.
            split (λ x. Memᴰ (ref a) (keys x.out)) a.enabled _ _
              (λ _. (Mem-insert (ref a) a d.out (ref a)).1 (inl refl))
              (λ f. elim wanted [
                | inl e ↦ absurd (false≢true (sym f ∙ e))
                | inr h ↦ on_marker_takes (s.marker (ref a)) d h
              ]))

    direct_from_takes :
        (attempts : List Attempt) (d : Direct)
        → Memᴰ a attempts
        → Memᴰ (ref a) (keys (direct_from s d attempts).out)
    unfolding direct_from
    direct_from_takes [] d m = elim m [ ]
    direct_from_takes (b ∷ attempts) d (Memᴰ.head e) =
        direct_from_keeps (ref a) attempts _
          (subst (λ x. Memᴰ (ref a) (keys (direct_step s d x).out)) e (direct_step_takes d))
    direct_from_takes (b ∷ attempts) d (Memᴰ.tail m) =
        direct_from_takes attempts (direct_step s d b) m

  module _ {w : World} (shows : Shows s w) where
    Marked-honoured : (o : Option Marker) → Marked w o → honoured s (ok (nonce_in o)) ≡ true
    Marked-honoured none l = elim l [ ]
    Marked-honoured (some m) (c, l, e) = rw (shows.controller, l) ((eq_iff c.nonce m.nonce).1 e)

    Handed-wanted :
        (a : Attempt) (o : Option Slot)
        → lookup w.slots (ref a) ≡ o
        → HandedSlot w o
        → a.enabled ≡ enabled_in o
        → (a.enabled ≡ true) ⊎ (honoured s (s.marker (ref a)) ≡ true)
    Handed-wanted a none e h i = elim h [ ]
    Handed-wanted a (some x) e (inl on) i = inl (i ∙ on)
    Handed-wanted a (some x) e (inr l) i =
        inr (rw (shows.markers (ref a), e) (Marked-honoured x.marker l))

    -- The next pass admits a Running attempt that was handed over.
    pub Handed-desired :
        (attempts : List Attempt) (a : Attempt) (d : Direct)
        → Handed w (ref a)
        → Memᴰ a attempts
        → is_running a.state ≡ true
        → a.enabled ≡ enabled_in (lookup w.slots (ref a))
        → Memᴰ (ref a) (keys (direct_from s d attempts).out)
    Handed-desired attempts a d h m runs i =
        direct_from_takes a runs (Handed-wanted a (lookup w.slots (ref a)) refl h i) attempts d m
