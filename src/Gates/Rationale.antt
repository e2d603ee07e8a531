-- ===== src/Gates/Rationale.antt =====
-- internal/protocol: the gate that withholds an edit until the log holds its rationale.
use draiver.Prelude.{
  ℕ, String, Bool, true, false, not, ◌||◌, Option, none, some, List, [], ◌∷◌, ◌==◌, leb,
  if◌then◌else◌,
}
use draiver.Prelude.Maps.{string_key, nat_key, ref_key, lookup}
use draiver.Event.{Event}
use draiver.Log.{Result, ok, err, Dir, read, last_event}
pub mod Withheld

-- `Requirement`, whose values are the two constants and the empty string.
pub data Requirement : Type 0 where
  unset free justified : Requirement

pub record Policy : Type 0 where
  pub fallback : Requirement
  pub tools : List (String × Requirement)

abbrev is_justified : Requirement → Bool
is_justified justified = true
is_justified r = false

abbrev demands : Requirement → Requirement → Bool
demands unset fallback = is_justified fallback
demands r fallback = is_justified r

abbrev requirement_or_unset : Option Requirement → Requirement
requirement_or_unset none = unset
requirement_or_unset (some r) = r

-- `Policy.Requires`
unfoldable pub requires_rationale : Policy → String → Bool
requires_rationale p tool = demands (requirement_or_unset (lookup p.tools tool)) p.fallback

unfoldable pub justifies : String → Bool
justifies t = t == "decision" || t == "gotcha"

pub record Gate : Type 0 where
  pub policy : Policy
  pub baseline : ℕ

abbrev seq_or_0 : Option Event → ℕ
seq_or_0 none = 0
seq_or_0 (some e) = e.seq

abbrev gate_of : Policy → Result (Option Event) → Result Gate
gate_of p (err x) = err x
gate_of p (ok tail) = ok (record { policy = p; baseline = seq_or_0 tail })

-- `New` with a decider, on the log that the directory holds.
unfoldable pub new_gate : Policy → Dir → Result Gate
new_gate p log = gate_of p (last_event log)

-- `hasRationale` on the events of the log.
unfoldable pub has_rationale : ℕ → List Event → Bool
unfolding justifies
has_rationale baseline [] = false
has_rationale baseline (e ∷ es) =
    let rest = has_rationale baseline es in
    if leb e.seq baseline then rest else if justifies e.kind then true else rest

pub data Outcome : Type 0 where
  ignored cleared withheld : Outcome

-- What `Consider` returned: its outcome, whether with an error, and whether it denied the call.
pub record Considered : Type 0 where
  pub outcome : Outcome
  pub failed : Bool
  pub denied : Bool

abbrev on_log : Gate → Result (List Event) → Bool → Considered
on_log g (err x) decide_fails = record { outcome = ignored; failed = true; denied = false }
on_log g (ok es) decide_fails =
    if has_rationale g.baseline es
    then record { outcome = cleared; failed = false; denied = false }
    else if decide_fails
    then record { outcome = ignored; failed = true; denied = true }
    else record { outcome = withheld; failed = false; denied = true }

-- `Consider`; `tool` is the tool of a permission request, `none` another frame.
unfoldable pub consider : Gate → Option String → Dir → Bool → Considered
unfolding requires_rationale
consider g none log decide_fails = record { outcome = ignored; failed = false; denied = false }
consider g (some tool) log decide_fails =
    if not (requires_rationale g.policy tool)
    then record { outcome = cleared; failed = false; denied = false }
    else on_log g (read log) decide_fails
