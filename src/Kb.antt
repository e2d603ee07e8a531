-- ===== src/Kb.antt =====
-- internal/kb: the knowledge projection of a log, folded over the supersedes edge.
pub mod Live
pub mod Headline
pub mod Agreement
pub mod Chain
use draiver.Prelude.{
  ℕ, String, Bool, true, false, Option, none, some, List, [], ◌∷◌, ◌++◌, map, ◌==◌, eqb,
  if◌then◌else◌, select,
}
use draiver.Prelude.Maps.{string_key, nat_key, ref_key, lookup, insert}
use draiver.Event.{Event}
use draiver.Kb.Headline.{headline}

-- `Fact`
pub record Fact : Type 0 where
  pub event : Event
  pub live : Bool
  pub headline : String
  pub superseded_by : ℕ

-- `retires` and `supersededBy`, the maps of the first pass.
pub record Edges : Type 0 where
  pub retires : List (ℕ × List ℕ)
  pub superseded_by : List (ℕ × ℕ)

-- `View`; `bySeq` is `get`.
pub record View : Type 0 where
  pub facts : List Fact
  pub retires : List (ℕ × List ℕ)

-- `retiredBy`
unfoldable pub retired_by : Event → List ℕ
retired_by e = e.supersedes ++ (if e.kind == "resolution" then e.refs else [])

abbrev pub or_nil : Option (List ℕ) → List ℕ
or_nil none = []
or_nil (some l) = l

abbrev is_some {ℓ} : {A : Type ℓ} → Option A → Bool
is_some none = false
is_some (some x) = true

-- The inner loop of the first pass: one target retired by the event `seq`.
retire : ℕ → Edges → ℕ → Edges
retire seq m target = record {
  retires = insert seq (or_nil (lookup m.retires seq) ++ target ∷ []) m.retires;
  superseded_by =
      if is_some (lookup m.superseded_by target)
      then m.superseded_by
      else insert target seq m.superseded_by;
}

retire_all : ℕ → Edges → List ℕ → Edges
unfolding retire
retire_all seq m [] = m
retire_all seq m (t ∷ ts) = retire_all seq (retire seq m t) ts

pub first_pass : Edges → List Event → Edges
unfolding retire_all
first_pass m [] = m
first_pass m (e ∷ es) = first_pass (retire_all e.seq m (retired_by e)) es

abbrev pub no_edges : Edges
no_edges = record { retires = []; superseded_by = [] }

abbrev or_0 : Option ℕ → ℕ
or_0 none = 0
or_0 (some n) = n

pub fact : Edges → Event → Fact
fact m e =
    let by = or_0 (lookup m.superseded_by e.seq) in
    record { event = e; live = eqb by 0; headline = headline e.body; superseded_by = by }

unfoldable pub fold : List Event → View
unfolding first_pass fact
fold events =
    let m = first_pass no_edges events in
    record { facts = map (fact m) events; retires = m.retires }

-- `Live` and `LiveEscalations`
unfoldable pub live_facts : View → List Fact
live_facts v = select (λ f. f.live) v.facts

unfoldable pub live_escalations : View → List Fact
unfolding live_facts
live_escalations v = select (λ f. f.event.kind == "escalation") (live_facts v)

-- `Get`: the map bySeq holds the last fact of a seq.
get_from : Option Fact → List Fact → ℕ → Option Fact
get_from found [] seq = found
get_from found (f ∷ fs) seq = get_from (if eqb f.event.seq seq then some f else found) fs seq

unfoldable pub get : View → ℕ → Option Fact
unfolding get_from
get v seq = get_from none v.facts seq
