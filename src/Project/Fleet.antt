-- ===== src/Project/Fleet.antt =====
-- internal/project/edges.go: what the attempts of all tickets and their edges say together.
-- `Attempt` keeps the fields that these functions read; a map's iteration order is its list's.
pub mod Desired
pub mod Waiting
pub mod Escalated
use draiver.Prelude.{
  String, ◌<>◌, Bool, true, false, not, ◌&&◌, Option, none, some, List, [], ◌∷◌, ◌++◌, map, ◌==◌,
  if◌then◌else◌, last, select,
}
use draiver.Prelude.Text.{sort_strings, join}
use draiver.Prelude.Maps.{string_key, nat_key, ref_key, has, lookup, insert}
use draiver.Event.{Event}
use draiver.Project.State.{State, running, needs_me, review, done, ticket, is_empty}
use draiver.Project.Axes.{Supervision, pre_digest, effective}
use draiver.Project.Edges.{Edges, EdgeMap, edges_at, all, wants_closure}

pub record Attempt : Type 0 where
  pub ticket : String
  pub id : String
  pub state : State
  pub enabled : Bool
  pub supervision : Supervision
  pub events : List Event

-- Comparisons with a constant of `State`.
abbrev pub is_running : State → Bool
is_running running = true
is_running s = false

abbrev pub is_done : State → Bool
is_done done = true
is_done s = false

abbrev pub is_review : State → Bool
is_review review = true
is_review s = false

abbrev pub is_needs_me : State → Bool
is_needs_me needs_me = true
is_needs_me s = false

abbrev pub is_pre_digest : Supervision → Bool
is_pre_digest pre_digest = true
is_pre_digest s = false

-- `byTicket[t]` and its last element.
abbrev pub by_ticket : List Attempt → String → List Attempt
by_ticket all t = select (λ a. a.ticket == t) all

abbrev pub latest : List Attempt → String → Option Attempt
latest all t = last (by_ticket all t)

-- `Ref`
abbrev pub Ref : Type 0
Ref = String × String

abbrev pub ref : Attempt → Ref
ref a = (a.ticket, a.id)

-- The attempts that the first loop of `DeriveDesired` takes, and their tickets.
abbrev pub is_direct : Attempt → Bool
is_direct a = a.enabled && is_running a.state

unfoldable pub sources : List Attempt → List String
sources all = map (λ a. a.ticket) (select is_direct all)

add_running : Option Attempt → List Ref → List Ref
add_running none refs = refs
add_running (some a) refs = if is_running a.state then ref a ∷ refs else refs

pub wanted_refs : List Attempt → List String → List Ref
unfolding add_running
wanted_refs all [] = []
wanted_refs all (child ∷ cs) = let rest = wanted_refs all cs in add_running (latest all child) rest

desired_of : List Attempt → Option (List String) → Option (List Ref)
unfolding wanted_refs
desired_of all none = none
desired_of all (some wanted) = some (map ref (select is_direct all) ++ wanted_refs all wanted)

unfoldable pub derive_desired : List Attempt → EdgeMap → Option (List Ref)
unfolding sources desired_of
derive_desired all edges = desired_of all (wants_closure (sources all) edges)

-- `reachedThreshold`, of this package and, as reachedState, of reconcile.
pub record Reached : Type 0 where
  pub review : Bool
  pub done : Bool

abbrev pub reached_or_zero : Option Reached → Reached
reached_or_zero none = record { review = false; done = false }
reached_or_zero (some r) = r

abbrev pub ReachedMap : Type 0
ReachedMap = List (String × Reached)

abbrev pub reached_at : ReachedMap → String → Reached
reached_at out t = reached_or_zero (lookup out t)

reach : Reached → State → Reached
reach rs done = record { review = true; done = true }
reach rs review = record rs { review = true }
reach rs s = rs

best_reached_from : ReachedMap → List Attempt → ReachedMap
unfolding reach
best_reached_from out [] = out
best_reached_from out (a ∷ all) =
    best_reached_from (insert a.ticket (reach (reached_at out a.ticket) a.state) out) all

unfoldable pub best_reached : List Attempt → ReachedMap
unfolding best_reached_from
best_reached all = best_reached_from [] all

-- An element added to a set that a list holds.
pub add_new : List String → String → List String
add_new unmet x = if has unmet x then unmet else unmet ++ x ∷ []

add_short : (String → Bool) → List String → List String → List String
unfolding add_new
add_short enough unmet [] = unmet
add_short enough unmet (x ∷ xs) = add_short enough (if enough x then unmet else add_new unmet x) xs

-- The predecessors that `WaitingReason` names.
unfoldable pub unmet : Edges → ReachedMap → List String
unfolding add_short
unmet e reached =
    add_short (λ x. (reached_at reached x).done)
      (add_short (λ x. (reached_at reached x).review) [] e.after) e.requires

unfoldable pub waiting_reason : String → List Attempt → EdgeMap → String
unfolding unmet best_reached join
waiting_reason name all edges =
    let u = unmet (edges_at edges name) (best_reached all) in
    if is_empty u then "waiting to start" else "waiting on " <> join u ", "

-- `reverseWants`
abbrev pub or_nil : Option (List String) → List String
or_nil none = []
or_nil (some l) = l

abbrev pub Reverse : Type 0
Reverse = List (String × List String)

add_wanter : String → Reverse → String → Reverse
unfolding add_new
add_wanter x rev y = insert y (add_new (or_nil (lookup rev y)) x) rev

add_wants : String → Reverse → List String → Reverse
unfolding add_wanter
add_wants x rev [] = rev
add_wants x rev (y ∷ ys) = add_wants x (add_wanter x rev y) ys

reverse_from : Reverse → EdgeMap → Reverse
unfolding add_wants
reverse_from rev [] = rev
reverse_from rev ((x, e) ∷ all) = reverse_from (add_wants x rev e.wants) all

unfoldable pub reverse_wants : EdgeMap → Reverse
unfolding reverse_from sort_strings
reverse_wants all = map (λ (y, ws). (y, sort_strings ws)) (reverse_from [] all)

-- The predicate on which a parent carries a child's escalation.
unfoldable pub takes_escalation : Supervision → Attempt → Bool
unfolding effective
takes_escalation def a =
    a.enabled && is_running a.state && is_pre_digest (effective a.supervision def)

abbrev pub parent_takes : Supervision → Option Attempt → Bool
parent_takes def none = false
parent_takes def (some a) = takes_escalation def a

parent_of : List String → List Attempt → Supervision → String
parent_of [] all def = ""
parent_of (w ∷ ws) all def =
    let rest = parent_of ws all def in if parent_takes def (latest all w) then w else rest

unfoldable pub escalation_parent : String → List Attempt → Reverse → Supervision → String
unfolding parent_of
escalation_parent child all reverse def = parent_of (or_nil (lookup reverse child)) all def

escalated_from :
    List (Ref × String) → List Attempt → List Attempt → Reverse → Supervision → List (Ref × String)
escalated_from out [] all reverse def = out
escalated_from out (a ∷ rest) all reverse def =
    let p = escalation_parent a.ticket all reverse def in
    escalated_from (if is_needs_me a.state && not (p == "") then insert (ref a) p out else out) rest
      all reverse def

unfoldable pub derive_escalated : List Attempt → EdgeMap → Supervision → List (Ref × String)
unfolding escalated_from
derive_escalated all edges def = escalated_from [] all all (reverse_wants edges) def
