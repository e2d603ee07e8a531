-- ===== src/Scenarios/Verbs.antt =====
-- One attempt with a live session, under two daemons that follow each other.
use mathlib.Core.List.Memᴰ
use draiver.Prelude.{
  ℕ, String, ◌≡◌, refl, ◌↔◌, inl, inr, true, false, false≢true, Option, none, some, [], ◌∷◌, Memᴰ,
  ◌==◌, eq_iff, if◌then◌else◌, Bool-cases,
}
use draiver.Prelude.Maps.{string_key, nat_key, same_ref, ref_key, has, lookup, insert}
use draiver.Prelude.Commands.{ok}
use draiver.Project.State.{running, ok}
use draiver.Project.Fleet.{Attempt, Ref}
use draiver.Attempt.{next_id}
use draiver.Attempt.Numbers.{next_id-new}
use draiver.Reconcile.Desired.{Site, direct_from}
use draiver.Reconcile.Verbs.{
  Controller, Slot, World, Options, level_session, level_attempt, StopResult, live_controller, put,
  stop,
}
use draiver.Reconcile.Verbs.Grows.{marker_in, Grows}
use draiver.Reconcile.Verbs.Daemons.{
  start_of, restart_of, called, called-Grows, boot, Lived, fresh, asked, booted,
}
use draiver.Reconcile.Verbs.Handed.{marked}
use draiver.Reconcile.Verbs.DirectPass.{nonce_in, nonce_of, Shows, nothing_yet}
use draiver.Reconcile.Verbs.Lifetime.{plain, flushed, hand_over, hand_over-desired, boot-forgets}
use draiver.Reconcile.Verbs.Reaped.{Stopped}
use draiver.Reconcile.Verbs.Outcomes.{Refused, hand_over-Refused, start-ok}
use draiver.Reconcile.Verbs.Restart.Parked.{ForksOver, restart-Forked}
use draiver.Reconcile.Verbs.Halts.{stop-Stopped}
use draiver.Project.Axes.{derive_enabled, unset}
use draiver.Reconcile.Desired.Passes.{keys, Directly}
use draiver.Reconcile.Verbs.Restart.{restart}

abbrev the_ref : Ref
the_ref = ("T-1", "0001")

abbrev the_slot : Slot
the_slot = record {
  meta = record {
    tool = "claude";
    model = "";
    repo = "/repo";
    base = "main";
    actor = "ann";
    from = "";
  };
  events = [];
  identity = some (record { session_id = "s-1"; pid = 7 });
  marker = none;
  checkout = true;
}

abbrev first_daemon : Controller
first_daemon = record { pid = 42; nonce = "n1" }

abbrev second_daemon : Controller
second_daemon = record { pid = 43; nonce = "n2" }

abbrev no_daemon : World
no_daemon = record {
  controller = none;
  alive = 42 ∷ 43 ∷ 7 ∷ [];
  signaled = [];
  slots = (the_ref, the_slot) ∷ [];
}

abbrev supervised : World
supervised = record no_daemon { controller = some first_daemon }

abbrev to_number : String → Option ℕ
to_number id = if id == "0001" then some 1 else if id == "0002" then some 2 else none

abbrev options : Options
options = record { actor = "ann"; default_repo = ""; now = 5; atoi = to_number; fails = λ x. false }

called-Grows_example :
    Grows supervised (called options (restart_of level_attempt the_ref) supervised)
called-Grows_example = called-Grows options (restart_of level_attempt the_ref) supervised

hand_over-Refused_example :
    Refused no_daemon (hand_over options (flushed level_session the_ref) no_daemon)
unfolding live_controller
hand_over-Refused_example = hand_over-Refused options no_daemon (flushed level_session the_ref) refl

stop-Stopped_example :
    (res : StopResult) × (t : World) × (stop options the_ref supervised ≡ ok res t)
    × Stopped supervised the_ref res t
unfolding lookup
stop-Stopped_example = stop-Stopped options the_ref (λ x. refl) supervised the_slot refl

next_id-new_example : ¬ Memᴰ (next_id to_number ("0001" ∷ [])) ("0001" ∷ [])
unfolding next_id
next_id-new_example = next_id-new to_number ("0001" ∷ []) refl

-- The world after a start.
abbrev started : World
started = put the_ref (marked options first_daemon the_ref supervised the_slot) supervised

abbrev site_of : World → Site
site_of w = record {
  marker = λ r. ok (nonce_in (marker_in (lookup w.slots r)));
  controller = nonce_of (live_controller w);
  edges = ok [];
  default_repo = "";
  mint = λ ticket. none;
  admitted = λ r. false;
  live = [];
  actor = "ann";
  default_supervision = unset;
  append_error = λ r e. none;
}

site_of-Shows : (w : World) → Shows (site_of w) w
site_of-Shows w = record { markers = λ r. refl; controller = refl }

abbrev the_attempt : Attempt
the_attempt = record {
  ticket = "T-1";
  id = "0001";
  state = running;
  enabled = false;
  supervision = unset;
  events = [];
}

hand_over-desired_example :
    Memᴰ the_ref (keys (direct_from (site_of started) nothing_yet (the_attempt ∷ [])).out)
unfolding lookup insert live_controller derive_enabled has
hand_over-desired_example =
    hand_over-desired options (plain the_ref) supervised started
      (record { controller_pid = 42; attempt = the_ref; forked = false })
      (start-ok options supervised the_ref the_slot first_daemon refl refl refl) (site_of started)
      (site_of-Shows started) (the_attempt ∷ []) the_attempt nothing_yet refl (Memᴰ.head refl) refl
      refl

abbrev under_first : World
under_first = called options (start_of the_ref) (boot first_daemon no_daemon)

under_first-Lived : Lived ("n1" ∷ []) under_first
unfolding lookup
under_first-Lived =
    asked (booted (fresh unmarked refl) first_daemon refl) options (start_of the_ref) refl
  where
    unmarked : (r : Ref) → marker_in (lookup no_daemon.slots r) ≡ none
    unmarked r = elim (Bool-cases (same_ref the_ref r)) [ inl e ↦ rw e refl | inr e ↦ rw e refl ]

boot-forgets_example :
    Memᴰ the_ref (
      keys
        (direct_from (site_of (boot second_daemon under_first)) nothing_yet (the_attempt ∷ [])).out)
    ↔ Directly (the_attempt ∷ []) the_ref
boot-forgets_example =
    boot-forgets under_first-Lived second_daemon
      (λ m. elim (Memᴰ.cases_cons m) [ inl e ↦ absurd (other_nonce e) | inr i ↦ elim i [ ] ])
      (site_of (boot second_daemon under_first)) (site_of-Shows (boot second_daemon under_first))
      (the_attempt ∷ []) the_ref
  where
    other_nonce : ¬ (◌≡◌ {A = String} "n2" "n1")
    other_nonce e = false≢true ((eq_iff "n2" "n1").1 e)

restart-Forked_example :
    ForksOver options supervised the_ref (restart options level_attempt the_ref supervised)
restart-Forked_example = restart-Forked options supervised the_ref
