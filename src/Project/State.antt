-- ===== src/Project/State.antt =====
-- internal/project/project.go: the control state that an attempt's log stands for.
pub mod Laws
pub mod Control
pub mod Moves
use draiver.Prelude.{
  ℕ, String, Bool, true, false, not, ◌&&◌, ◌||◌, Option, none, some, List, [], ◌∷◌, ◌++◌, ◌==◌,
  if◌then◌else◌,
}
use draiver.Prelude.Maps.{string_key, nat_key, has}
use draiver.Prelude.Text.{trim_space}
use draiver.Event.{Event}

pub data State : Type 0 where
  running pending needs_me review done : State

pub data TicketType : Type 0 where
  ticket codebase : TicketType

-- The outcome of a validation in this package; the error's text is not modelled.
pub data Parsed {ℓ} (A : Type ℓ) : Type ℓ where
  ok : A → Parsed A
  err : String → Parsed A

unfoldable pub normalize_type : String → Parsed TicketType
normalize_type raw =
    let t = trim_space raw in
    if t == ""
    then ok ticket
    else if t == "ticket"
    then ok ticket
    else if t == "codebase"
    then ok codebase
    else err raw

unfoldable pub is_lifecycle : String → Bool
is_lifecycle t = t == "escalation" || t == "review" || t == "decision" || t == "done"

-- The first loop of `Derive`: the seqs that resolutions refer to.
unfoldable pub resolved_seqs : List Event → List ℕ
resolved_seqs [] = []
resolved_seqs (e ∷ es) =
    let rest = resolved_seqs es in if e.kind == "resolution" then e.refs ++ rest else rest

abbrev pub is_open : List ℕ → Event → Bool
is_open resolved e = e.kind == "escalation" && not (has resolved e.seq)

-- The second loop: `open` and `lastLifecycle`.
pub scan : List ℕ → List Event → List Event → Option Event → List Event × Option Event
scan resolved [] opened latest = (opened, latest)
scan resolved (e ∷ es) opened latest =
    scan resolved es (if is_open resolved e then opened ++ e ∷ [] else opened)
      (if is_lifecycle e.kind then some e else latest)

abbrev pub kind_is : String → Option Event → Bool
kind_is k none = false
kind_is k (some e) = e.kind == k

abbrev pub is_empty {ℓ} : {A : Type ℓ} → List A → Bool
is_empty [] = true
is_empty (x ∷ xs) = false

-- The switch on what the loops found.
unfoldable pub decide_state : List Event × Option Event → State × List Event
decide_state (opened, latest) =
    if kind_is "done" latest
    then (done, opened)
    else if not (is_empty opened)
    then (needs_me, opened)
    else if kind_is "review" latest
    then (review, opened)
    else (running, opened)

unfoldable pub derive : List Event → State × List Event
unfolding scan decide_state is_lifecycle resolved_seqs
derive events = decide_state (scan (resolved_seqs events) events [] none)

unfoldable pub resting_state : State → TicketType → State
resting_state state ticket = state
resting_state running codebase = pending
resting_state done codebase = pending
resting_state state codebase = state

-- The package-level `Control`.
unfoldable pub control : State → Bool → Bool → State
control running true false = pending
control state desired live = state
