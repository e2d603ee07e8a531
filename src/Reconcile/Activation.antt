-- ===== src/Reconcile/Activation.antt =====
-- reverse_wants.go: a child's lifecycle wakes the coordinator that wants it, one doorbell a wake.
-- The run table is the list of its keys; whether ticketlog.Append fails is a parameter.
pub mod Queue
pub mod Replay
use draiver.Prelude.{
  ℕ, ◌/◌, String, ◌<>◌, Bool, not, ◌&&◌, ◌||◌, Option, none, some, List, [], ◌∷◌, ◌++◌, map, ◌==◌,
  ltb, eqb, if◌then◌else◌, select,
}
use draiver.Prelude.Text.{str_lt, sort_strings, itoa}
use draiver.Prelude.Maps.{string_key, nat_key, ref_key, has, insert}
use draiver.Event.{Event, second}
use draiver.Project.Fleet.{Attempt, is_running, is_pre_digest, latest, Ref, ref}
use draiver.Reconcile.Gates.{Desired}
use draiver.Project.State.{ticket, Parsed, ok, err, is_empty}
use draiver.Project.Axes.{Supervision, effective}
use draiver.Project.Edges.{EdgeMap, edges_at}

abbrev pub is_doorbell : String → Bool
is_doorbell t = t == "escalation" || t == "review" || t == "done"

-- `doorbell`; `ts` counts whole seconds from Go's zero time, in the order of Unix().
pub record Doorbell : Type 0 where
  pub child : String
  pub seq : ℕ
  pub kind : String
  pub ts : ℕ

unfoldable pub doorbell_key : String → ℕ → String
doorbell_key child seq = child <> "#" <> itoa seq

-- The variables of the scan of the coordinator's own log.
pub record Phase : Type 0 where
  pub activation : ℕ
  pub park : ℕ
  pub handled : List String

abbrev max : ℕ → ℕ → ℕ
max a b = if ltb a b then b else a

pub phase_step : Phase → Event → Phase
unfolding doorbell_key
phase_step p e =
    if e.kind == "woken-by"
    then record {
      activation = max p.activation e.seq;
      park = p.park;
      handled =
          if not (e.woken_child == "") && ltb 0 e.woken_seq
          then doorbell_key e.woken_child e.woken_seq ∷ p.handled
          else p.handled;
    }
    else if e.kind == "park"
    then record p { park = max p.park e.seq }
    else p

pub phase_from : Phase → List Event → Phase
unfolding phase_step
phase_from p [] = p
phase_from p (e ∷ es) = phase_from (phase_step p e) es

unfoldable pub phase : List Event → Phase
unfolding phase_from
phase events = phase_from (record { activation = 0; park = 0; handled = [] }) events

-- The order of `sort.Slice`.
abbrev pub before : Doorbell → Doorbell → Bool
before a b =
    if not (eqb a.ts b.ts)
    then ltb a.ts b.ts
    else if not (a.child == b.child)
    then str_lt a.child b.child
    else ltb a.seq b.seq

insert_doorbell : Doorbell → List Doorbell → List Doorbell
insert_doorbell d [] = d ∷ []
insert_doorbell d (x ∷ xs) =
    let rest = insert_doorbell d xs in if before x d then x ∷ rest else d ∷ x ∷ xs

sort_doorbells : List Doorbell → List Doorbell
unfolding insert_doorbell
sort_doorbells [] = []
sort_doorbells (d ∷ ds) = insert_doorbell d (sort_doorbells ds)

-- The inner loop, over the events of one child.
rings : String → List String → List Event → List Doorbell
unfolding doorbell_key
rings child handled [] = []
rings child handled (e ∷ es) =
    let rest = rings child handled es in
    if is_doorbell e.kind && not (has handled (doorbell_key child e.seq))
    then record { child = child; seq = e.seq; kind = e.kind; ts = e.ts / second } ∷ rest
    else rest

abbrev events_of : Option Attempt → List Event
events_of none = []
events_of (some a) = a.events

queue : List String → List Attempt → List String → List Doorbell
unfolding rings
queue [] attempts handled = []
queue (child ∷ cs) attempts handled =
    rings child handled (events_of (latest attempts child)) ++ queue cs attempts handled

unfoldable pub pending_doorbells : List String → List Attempt → List String → List Doorbell
unfolding queue sort_doorbells
pending_doorbells wants attempts handled = sort_doorbells (queue wants attempts handled)

unfoldable pub woken_by_body : Doorbell → String
woken_by_body d =
    "Woken by `"
    <> d.child
    <> "` #"
    <> itoa d.seq
    <> " — a child `"
    <> d.kind
    <> "` lifecycle doorbell. Authored by the reconciler at wake time: the dedup marker for this doorbell and the wake-reason tail of this brief."

-- The zero value of `Event`.
abbrev pub zero_event : Event
zero_event = record {
  seq = 0;
  kind = "";
  ts = 0;
  actor = "";
  ticket = "";
  attempt = "";
  refs = [];
  artefacts = [];
  links = [];
  outcome = "";
  rung = "";
  commit = "";
  environment = "";
  supersedes = [];
  tags = [];
  woken_child = "";
  woken_seq = 0;
  prev = "";
  hash = "";
  body = "";
}

-- The event that a wake hands to ticketlog.Append.
unfoldable pub woken_by : String → Doorbell → Event
unfolding woken_by_body
woken_by actor d = record zero_event {
  kind = "woken-by";
  actor = actor;
  woken_child = d.child;
  woken_seq = d.seq;
  body = woken_by_body d;
}

-- What a pass leaves: the desired set and the events that it appended, by attempt.
pub record Pass : Type 0 where
  pub out : Desired
  pub authored : List (Ref × Event)

abbrev pub in_flight : Phase → Bool
in_flight p = ltb 0 p.activation && ltb p.park p.activation

-- What the controller is configured with, and the error of ticketlog.Append, if it has one.
module _ (actor : String) (def : Supervision) (append_error : Ref → Event → Option String) where
  author : Option String → Attempt → Doorbell → Pass → Parsed Pass
  unfolding woken_by
  author (some e) w d pass = err e
  author none w d pass = ok (record {
    out = insert (ref w) w pass.out;
    authored = pass.authored ++ (ref w, woken_by actor d) ∷ [];
  })

  admit_oldest : Attempt → List Doorbell → Pass → Parsed Pass
  unfolding author woken_by
  admit_oldest w [] pass = ok pass
  admit_oldest w (d ∷ ds) pass = author (append_error (ref w) (woken_by actor d)) w d pass

  unfoldable pub activate_coordinator :
      Attempt → List String → List Attempt → List Ref → Pass → Parsed Pass
  unfolding admit_oldest phase pending_doorbells effective
  activate_coordinator w wants attempts live pass =
      let p = phase w.events in
      if not w.enabled || not (is_running w.state)
      then ok pass
      else if not (is_pre_digest (effective w.supervision def))
      then ok pass
      else if in_flight p
      then ok (record pass { out = insert (ref w) w pass.out })
      else if has live (ref w)
      then ok pass
      else admit_oldest w (pending_doorbells wants attempts p.handled) pass

  -- The coordinators that `activateReverseWants` considers.
  coordinators : EdgeMap → List String
  unfolding sort_strings
  coordinators edges = sort_strings (map (λ e. e.0) (select (λ e. not (is_empty e.1.wants)) edges))

  activate_next : List String → List Attempt → List Ref → Option Attempt → Pass → Parsed Pass
  activate_next wants attempts live none pass = ok pass
  activate_next wants attempts live (some w) pass = activate_coordinator w wants attempts live pass

  activate_each : EdgeMap → List Attempt → List Ref → List String → Parsed Pass → Parsed Pass
  unfolding activate_next
  activate_each edges attempts live cs (err e) = err e
  activate_each edges attempts live [] (ok pass) = ok pass
  activate_each edges attempts live (t ∷ cs) (ok pass) =
      activate_each edges attempts live cs
        (activate_next (edges_at edges t).wants attempts live (latest attempts t) pass)

  -- `activateReverseWants`
  unfoldable pub activate_reverse_wants : EdgeMap → List Attempt → List Ref → Pass → Parsed Pass
  unfolding activate_each coordinators
  activate_reverse_wants edges attempts live pass =
      activate_each edges attempts live (coordinators edges) (ok pass)
