-- ===== src/Reconcile/Verbs/Grows/Verbs.antt =====
-- Each command of the verbs keeps what was there.
use draiver.Prelude.{
  ℕ, String, ◌≡◌, refl, sym, inl, inr, not, ◌&&◌, Option, none, some, [], append-nil, ◌==◌, eqb,
  Bool-cases,
}
use draiver.Prelude.Maps.{string_key, nat_key, ref_key, has, lookup}
use draiver.Prelude.Commands.{Run, ok, err, and_then, ◌>>=◌}
use draiver.Project.Axes.{derive_enabled}
use draiver.Project.Fleet.{Ref}
use draiver.Reconcile.Verbs.{
  Controller, Marker, Identity, Slot, World, Write, terminate, Options, Fault, no_controller,
  no_attempt, no_repo, Verb, StopResult, live_controller, or_throw, require_controller, load, write,
  append_event, note, write_marker, remove_marker, write_identity, hand_off, start, enable_now,
  signal, clear_pid, reap_identity, reap, stop, park_attempt, discard, flush_session, repo_for,
  remove_checkout, flush_worktree,
}
use draiver.Reconcile.Verbs.Grows.{
  end, marker_in, Live, Extends, Stamped, Grows, Stamped_refl, live-Grows, put-Grows, Keeps,
  then-Keeps, when-Keeps, pure-Keeps, throw-Keeps, guard-Keeps,
}
use draiver.Attempt.{Meta}

module _ (w : World) where
  pub load-Keeps :
      {A : Type 0} (r : Ref) (k : Slot → Verb A)
      → ((s : Slot) (t : World) → Grows w t → lookup t.slots r ≡ some s → Grows w (end (k s t)))
      → Keeps w (load r >>= k)
  unfolding load
  load-Keeps {A} r k h = record { run = λ t g. at_slot t g (lookup t.slots r) refl }
    where
      at_slot :
          (t : World)
          → Grows w t
          → (o : Option Slot) → lookup t.slots r ≡ o
          → Grows w (end (and_then (or_throw no_attempt o t) k))
      at_slot t g none e = g
      at_slot t g (some s) e = h s t g e

  pub load_lem-Keeps : (r : Ref) → Keeps w (load r)
  unfolding load
  load_lem-Keeps r = record { run = λ t g. at_slot t g (lookup t.slots r) }
    where
      at_slot :
          (t : World) → Grows w t → (o : Option Slot) → Grows w (end (or_throw no_attempt o t))
      at_slot t g none = g
      at_slot t g (some s) = g

  pub controller-Keeps :
      {A : Type 0} (k : Controller → Verb A)
      → ((c : Controller) → live_controller w ≡ some c → Keeps w (k c))
      → Keeps w (require_controller >>= k)
  unfolding require_controller
  controller-Keeps {A} k h = record {
    run = λ t g. rw (live-Grows g) (found t g (live_controller w) refl);
  }
    where
      found :
          (t : World)
          → Grows w t
          → (o : Option Controller) → live_controller w ≡ o
          → Grows w (end (and_then (or_throw no_controller o t) k))
      found t g none e = g
      found t g (some c) e = (h c e).run t g

  module _ (opt : Options) where
    pub write-Grows :
        (op : Write) (r : Ref) (s : Slot) {t : World}
        → Grows w t
        → Extends (lookup t.slots r) s
        → Stamped w (marker_in (lookup t.slots r)) s.marker
        → Grows w (end (write opt op r s t))
    unfolding write
    write-Grows op r s {t} g x y = elim (Bool-cases (opt.fails op)) [
      | inl e ↦ rw e g
      | inr e ↦ rw e (put-Grows g r s x y)
    ]

    -- A file of an attempt is read and written.
    edit-Keeps :
        (op : Write) (r : Ref) (f : Slot → Slot)
        → ((s : Slot) → Extends (some s) (f s))
        → ((s : Slot) → Stamped w s.marker (f s).marker)
        → Keeps w (load r >>= λ s. write opt op r (f s))
    edit-Keeps op r f x y =
        load-Keeps r _ (λ s t g e. write-Grows op r (f s) g (rw e (x s)) (rw e (y s)))

    append_event-Keeps : (r : Ref) (kind body : String) → Keeps w (append_event opt r kind body)
    unfolding append_event
    append_event-Keeps r kind body =
        edit-Keeps _ r _ (λ s. (refl, (_, refl))) (λ s. Stamped_refl w s.marker)

    pub note-Keeps : (r : Ref) (body : String) → Keeps w (note opt r body)
    unfolding note
    note-Keeps r body = record {
      run = λ t g.
          logged (append_event opt r "note" body t) ((append_event-Keeps r "note" body).run t g);
    }
      where
        logged :
            (o : Run Fault World (Unit {0}))
            → Grows w (end o)
            → Grows w (
                end (elim o as (λ _. Run Fault World (Unit {0})) [
                  | ok u t ↦ ok u t
                  | err e t ↦ ok tt t
                ]))
        logged (ok u t) g = g
        logged (err e t) g = g

    write_marker-Keeps : (r : Ref) (m : Marker) → Live w m.nonce → Keeps w (write_marker opt r m)
    unfolding write_marker
    write_marker-Keeps r m l =
        edit-Keeps _ r _ (λ s. (refl, ([], sym (append-nil s.events)))) (λ s. inr l)

    remove_marker-Keeps : (r : Ref) → Keeps w (remove_marker opt r)
    unfolding remove_marker
    remove_marker-Keeps r =
        edit-Keeps _ r _ (λ s. (refl, ([], sym (append-nil s.events)))) (λ s. tt)

    write_identity-Keeps : (r : Ref) (id : Identity) → Keeps w (write_identity opt r id)
    unfolding write_identity
    write_identity-Keeps r id =
        edit-Keeps _ r _ (λ s. (refl, ([], sym (append-nil s.events))))
          (λ s. Stamped_refl w s.marker)

    pub hand_off-Keeps :
        (c : Controller) (r : Ref) → live_controller w ≡ some c → Keeps w (hand_off opt c r)
    unfolding hand_off
    hand_off-Keeps c r l = load-Keeps r _ (λ s t g e.
        (when-Keeps w (derive_enabled s.events) _ _ (pure-Keeps w tt)
            (write_marker-Keeps r _ (c, l, refl))).run
          t g)

    pub start-Keeps : (r : Ref) → Keeps w (start opt r)
    unfolding start
    start-Keeps r = load-Keeps r _ (λ s t g e.
        (controller-Keeps _
            (λ c l. then-Keeps w _ _ (hand_off-Keeps c r l) (λ _. pure-Keeps w _))).run
          t g)

    pub enable_now-Keeps : (r : Ref) → Keeps w (enable_now opt r)
    unfolding enable_now
    enable_now-Keeps r = load-Keeps r _ (λ s t g e.
        (controller-Keeps _
            (λ c l. then-Keeps w _ _ (append_event-Keeps r _ _) (λ _. pure-Keeps w _))).run
          t g)

    signal-Keeps : (pid : ℕ) → Keeps w (signal opt pid)
    unfolding signal
    signal-Keeps pid = record {
      run = λ t g. elim (Bool-cases (opt.fails (terminate pid))) [
        | inl e ↦ rw e g
        | inr e ↦ rw e (record {
          controller = g.controller;
          alive = g.alive;
          kept = g.kept;
          stamped = g.stamped;
        })
      ];
    }

    clear_pid-Keeps :
        (r : Ref) (id : Identity) (res : StopResult) → Keeps w (clear_pid opt r id res)
    unfolding clear_pid
    clear_pid-Keeps r id res =
        when-Keeps w (eqb id.pid 0) _ _ (pure-Keeps w res)
          (then-Keeps w _ _ (write_identity-Keeps r _) (λ _. pure-Keeps w res))

    reap_identity-Keeps : (r : Ref) (o : Option Identity) → Keeps w (reap_identity opt r o)
    unfolding reap_identity
    reap_identity-Keeps r none = pure-Keeps w _
    reap_identity-Keeps r (some id) = record {
      run = λ t g.
          (when-Keeps w (not (eqb id.pid 0) && has t.alive id.pid) _ _
              (then-Keeps w _ _ (signal-Keeps id.pid) (λ _. clear_pid-Keeps r id _))
              (clear_pid-Keeps r id _)).run
            t g;
    }

    pub reap-Keeps : (r : Ref) → Keeps w (reap opt r)
    unfolding reap
    reap-Keeps r = load-Keeps r _ (λ s t g e. (reap_identity-Keeps r s.identity).run t g)

    pub stop-Keeps : (r : Ref) → Keeps w (stop opt r)
    unfolding stop
    stop-Keeps r =
        then-Keeps w _ _ (reap-Keeps r)
          (λ res. then-Keeps w _ _ (remove_marker-Keeps r) (λ _. pure-Keeps w res))

    pub park_attempt-Keeps : (r : Ref) → Keeps w (park_attempt opt r)
    unfolding park_attempt
    park_attempt-Keeps r = then-Keeps w _ _ (append_event-Keeps r _ _) (λ _. remove_marker-Keeps r)

    discard-Keeps : (r : Ref) (o : Option Identity) → Keeps w (discard opt r o)
    unfolding discard
    discard-Keeps r none = pure-Keeps w tt
    discard-Keeps r (some id) =
        when-Keeps w (id.session_id == "") _ _ (pure-Keeps w tt) (write_identity-Keeps r _)

    pub flush_session-Keeps : (r : Ref) → Keeps w (flush_session opt r)
    unfolding flush_session
    flush_session-Keeps r = load-Keeps r _ (λ s t g e. (discard-Keeps r s.identity).run t g)

    repo_for-Keeps : (m : Meta) → Keeps w (repo_for opt m)
    unfolding repo_for
    repo_for-Keeps m =
        when-Keeps w (not (m.repo == "")) _ _ (pure-Keeps w m.repo)
          (when-Keeps w (not (opt.default_repo == "")) _ _ (pure-Keeps w _) (throw-Keeps w no_repo))

    remove_checkout-Keeps : (r : Ref) → Keeps w (remove_checkout opt r)
    unfolding remove_checkout
    remove_checkout-Keeps r =
        edit-Keeps _ r _ (λ s. (refl, ([], sym (append-nil s.events))))
          (λ s. Stamped_refl w s.marker)

    pub flush_worktree-Keeps : (r : Ref) → Keeps w (flush_worktree opt r)
    unfolding flush_worktree
    flush_worktree-Keeps r = load-Keeps r _ (λ s t g e.
        (then-Keeps w _ _ (repo_for-Keeps s.meta)
            (λ repo. then-Keeps w _ _ (guard-Keeps w _ _) (λ _. remove_checkout-Keeps r))).run
          t g)
