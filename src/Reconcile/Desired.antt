-- ===== src/Reconcile/Desired.antt =====
-- reconcile.go: the desired set of one tick, from its six passes.
-- What the disk and other processes hold is `Site`: the imperative markers (the nonce of each), the
-- nonce of the live controller, the edges, the minting of a child's first attempt, the session ids.
pub mod Passes
pub mod Twin
use draiver.Prelude.{
  String, Bool, false, not, Option, none, some, List, [], ◌∷◌, ◌++◌, map, ◌==◌, if◌then◌else◌,
}
use draiver.Prelude.Maps.{string_key, nat_key, ref_key, insert}
use draiver.Prelude.Text.{trim_space, sort_strings}
use draiver.Event.{Event}
use draiver.Project.State.{Parsed, ok, err, is_empty}
use draiver.Project.Axes.{Supervision}
use draiver.Project.Edges.{EdgeMap, wants_closure}
use draiver.Project.Fleet.{Attempt, is_running, latest, Ref, ref}
use draiver.Reconcile.Gates.{Desired, apply_forward_gate, apply_coordinator_gate}
use draiver.Reconcile.Activation.{Pass, activate_reverse_wants}
use draiver.Reconcile.Async.{reconcile_async_jobs}

pub record Site : Type 0 where
  pub marker : Ref → Parsed (Option String)
  pub controller : Option String
  pub edges : Parsed EdgeMap
  pub default_repo : String
  pub mint : String → Option Attempt
  pub admitted : Ref → Bool
  pub live : List Ref
  pub actor : String
  pub default_supervision : Supervision
  pub append_error : Ref → Event → Option String

-- The desired set and the stale markers that were removed.
pub record Direct : Type 0 where
  pub out : Desired
  pub swept : List Ref

abbrev pub holds_nonce : Option String → String → Bool
holds_nonce none nonce = false
holds_nonce (some live) nonce = live == nonce

unfoldable pub on_marker : Site → Attempt → Parsed (Option String) → Direct → Direct
on_marker s a (err e) d = d
on_marker s a (ok none) d = d
on_marker s a (ok (some nonce)) d =
    if holds_nonce s.controller nonce
    then record d { out = insert (ref a) a d.out }
    else record d { swept = d.swept ++ ref a ∷ [] }

unfoldable pub direct_step : Site → Direct → Attempt → Direct
unfolding on_marker
direct_step s d a =
    if not (is_running a.state)
    then d
    else if a.enabled
    then record d { out = insert (ref a) a d.out }
    else on_marker s a (s.marker (ref a)) d

-- The first loop of `desired`.
unfoldable pub direct_from : Site → Direct → List Attempt → Direct
unfolding direct_step
direct_from s d [] = d
direct_from s d (a ∷ attempts) = direct_from s (direct_step s d a) attempts

-- `mintWantedChild`
mint_wanted_child : Site → String → Desired → Desired
unfolding trim_space
mint_wanted_child s child out =
    if trim_space s.default_repo == ""
    then out
    else elim (s.mint child) [ none ↦ out | some a ↦ insert (ref a) a out ]

-- `desireWantedChild`
desire_wanted_child : Site → String → Option Attempt → Desired → Desired
unfolding mint_wanted_child
desire_wanted_child s child none out = mint_wanted_child s child out
desire_wanted_child s child (some a) out = if is_running a.state then insert (ref a) a out else out

pub desire_each : Site → List Attempt → List String → Desired → Desired
unfolding desire_wanted_child
desire_each s attempts [] out = out
desire_each s attempts (child ∷ cs) out =
    desire_each s attempts cs (desire_wanted_child s child (latest attempts child) out)

pub sources_of : Desired → List String
sources_of out = map (λ entry. entry.0.0) out

-- `none` is a walk out of its fuel.
desire_wanted : Site → List Attempt → Option (List String) → Desired → Parsed Desired
unfolding desire_each sort_strings
desire_wanted s attempts none out = err "walk"
desire_wanted s attempts (some wanted) out = ok (desire_each s attempts (sort_strings wanted) out)

with_edges : Site → List Attempt → Parsed EdgeMap → Desired → Parsed Desired
unfolding desire_wanted sources_of
with_edges s attempts (err e) out = err e
with_edges s attempts (ok edges) out =
    desire_wanted s attempts (wants_closure (sources_of out) edges) out

-- `propagateWants`
unfoldable pub propagate_wants : Site → List Attempt → Desired → Parsed Desired
unfolding with_edges
propagate_wants s attempts out = if is_empty out then ok out else with_edges s attempts s.edges out

-- The last four passes, which read the edges again.
gated : Site → List Attempt → EdgeMap → Desired → Parsed Pass
gated s attempts edges out =
    activate_reverse_wants s.actor s.default_supervision s.append_error edges attempts s.live
      (record {
        out =
            apply_coordinator_gate attempts edges
              (apply_forward_gate attempts edges s.admitted out);
        authored = [];
      })

then_async : Site → List Attempt → Parsed Pass → Parsed Pass
then_async s attempts (err e) = err e
then_async s attempts (ok pass) = reconcile_async_jobs s.actor s.append_error attempts s.live pass

after_wants : Site → List Attempt → Parsed EdgeMap → Parsed Desired → Parsed Pass
unfolding gated then_async
after_wants s attempts edges (err e) = err e
after_wants s attempts (err e) (ok out) = err e
after_wants s attempts (ok edges) (ok out) = then_async s attempts (gated s attempts edges out)

-- `desired` on the attempts that project.LoadAll returns.
unfoldable pub desired : Site → List Attempt → Parsed Pass
unfolding direct_from propagate_wants after_wants
desired s attempts =
    let d = direct_from s (record { out = []; swept = [] }) attempts in
    after_wants s attempts s.edges (propagate_wants s attempts d.out)
