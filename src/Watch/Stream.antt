-- ===== src/Watch/Stream.antt =====
-- internal/watch/watch.go: `Watcher`, which journals, meters and promotes one session's stream.
-- The session's files are a record; a time and a cost are numbers. Which writes fail is an argument:
-- the disk is not the model's.
pub mod Failure
pub mod Folded
pub mod Metered
use Prim.Native.Char.{Char, code}
use draiver.Prelude.{
  ℕ, ◌+◌, String, Bool, true, false, ◌||◌, Option, none, some, List, [], ◌∷◌, ◌++◌, ◌==◌, ltb, eqb,
  if◌then◌else◌,
}
use draiver.Prelude.Text.{trim_right, contains}
use draiver.Event.{Event}
use draiver.Reconcile.Activation.{zero_event}
use draiver.Watch.Recognize.{Promotion, AgentEvent}

pub record Usage : Type 0 where
  pub input_tokens : ℕ
  pub output_tokens : ℕ
  pub cache_read_tokens : ℕ
  pub cache_creation_tokens : ℕ
  pub context_tokens : ℕ
  pub cost_usd : ℕ

pub record Totals : Type 0 where
  pub input_tokens : ℕ
  pub output_tokens : ℕ
  pub cache_read_tokens : ℕ
  pub cache_creation_tokens : ℕ

pub record Meter : Type 0 where
  pub usage : Usage
  pub totals : Totals
  pub respawns : ℕ
  pub last_event_at : ℕ

-- The fields of an agent.Event that `Process` reads besides the recogniser's.
pub record Frame : Type 0 where
  pub event : AgentEvent
  pub usage : Option Usage
  pub raw : String

-- The watcher's own variable and what it writes: the journal's lines, meter.json and the events
-- handed to ticketlog.Append.
pub record Session : Type 0 where
  pub last_raw : String
  pub stream : List String
  pub meter : Meter
  pub log : List Event

-- Which of the writes of one `Process` fail.
pub record Faults : Type 0 where
  pub tee_fails : Bool
  pub meter_fails : Bool
  pub append_fails : Bool
  pub beat_fails : Bool

-- What `Process` returns: `failed` is an error.
pub data Outcome : Type 0 where
  failed not_promoted promoted : Outcome

pub record Processed : Type 0 where
  pub outcome : Outcome
  pub session : Session

pub is_newline : Char → Bool
is_newline c = eqb (code c) 10

-- `Totals.Add`
pub add_usage : Totals → Usage → Totals
add_usage t u = record {
  input_tokens = t.input_tokens + u.input_tokens;
  output_tokens = t.output_tokens + u.output_tokens;
  cache_read_tokens = t.cache_read_tokens + u.cache_read_tokens;
  cache_creation_tokens = t.cache_creation_tokens + u.cache_creation_tokens;
}

with_cost : ℕ → Usage → Usage
with_cost cost u = record {
  input_tokens = u.input_tokens;
  output_tokens = u.output_tokens;
  cache_read_tokens = u.cache_read_tokens;
  cache_creation_tokens = u.cache_creation_tokens;
  context_tokens = u.context_tokens;
  cost_usd = cost;
}

-- The function that `meter` hands to UpdateMeter.
pub fold_usage : Usage → Meter → Meter
unfolding add_usage with_cost
fold_usage u m =
    let cost = if ltb m.usage.cost_usd u.cost_usd then u.cost_usd else m.usage.cost_usd in
    if ltb 0 u.context_tokens
    then record {
      usage = with_cost cost u;
      totals = add_usage m.totals u;
      respawns = m.respawns;
      last_event_at = m.last_event_at;
    }
    else record {
      usage = with_cost cost m.usage;
      totals = m.totals;
      respawns = m.respawns;
      last_event_at = m.last_event_at;
    }

pub teed : String → Session → Session
teed raw s = record {
  last_raw = raw;
  stream = s.stream ++ trim_right is_newline raw ∷ [];
  meter = s.meter;
  log = s.log;
}

pub metered : Meter → Session → Session
metered m s = record { last_raw = s.last_raw; stream = s.stream; meter = m; log = s.log }

-- `tee` with `AppendStream`; none is an error. A line with a newline inside is refused.
pub tee : Bool → Frame → Session → Option Session
unfolding teed is_newline
tee fails f s =
    if f.raw == "" || f.raw == s.last_raw
    then some s
    else if contains (trim_right is_newline f.raw) "\n" || fails
    then none
    else some (teed f.raw s)

-- `meter`
pub meter_usage : Bool → Option Usage → Session → Option Session
unfolding fold_usage metered
meter_usage fails none s = some s
meter_usage fails (some u) s = if fails then none else some (metered (fold_usage u s.meter) s)

pub promoted_event : String → Promotion → Event
promoted_event actor p = record zero_event {
  kind = p.kind;
  actor = actor;
  refs = p.refs;
  artefacts = p.artefacts;
  body = p.body;
}

pub logged : Event → Session → Session
logged e s = record {
  last_raw = s.last_raw;
  stream = s.stream;
  meter = s.meter;
  log = s.log ++ e ∷ [];
}

beat : ℕ → Meter → Meter
beat now m = record {
  usage = m.usage;
  totals = m.totals;
  respawns = m.respawns;
  last_event_at = now;
}

processed : Outcome → Session → Processed
processed o s = record { outcome = o; session = s }

-- `promote`, and what `Process` returns after it.
pub promote : Faults → String → ℕ → Promotion → Session → Processed
unfolding logged metered beat processed promoted_event
promote faults actor now p s =
    let t = logged (promoted_event actor p) s in
    if faults.append_fails
    then processed failed s
    else if faults.beat_fails
    then processed failed t
    else processed promoted (metered (beat now t.meter) t)

pub promote_if : Faults → String → ℕ → Option Promotion → Session → Processed
unfolding promote processed
promote_if faults actor now none s = processed not_promoted s
promote_if faults actor now (some p) s = promote faults actor now p s

pub after_tee :
    (AgentEvent → Option Promotion)
    → Faults
    → String
    → ℕ
    → Frame
    → Session
    → Option Session
    → Processed
unfolding meter_usage promote_if processed
after_tee rec faults actor now f s none = processed failed s
after_tee rec faults actor now f s (some t) = elim (meter_usage faults.meter_fails f.usage t) [
  | none ↦ processed failed t
  | some u ↦ promote_if faults actor now (rec f.event) u
]

-- `Process`
unfoldable pub process :
    (AgentEvent → Option Promotion) → Faults → String → ℕ → Frame → Session → Processed
unfolding tee after_tee
process rec faults actor now f s = after_tee rec faults actor now f s (tee faults.tee_fails f s)

pub is_failed : Outcome → Bool
is_failed failed = true
is_failed o = false

-- `Ingest` up to the end of the stream: each frame with the time and the faults it meets.
unfoldable pub ingest :
    (AgentEvent → Option Promotion) → String → List (Frame × ℕ × Faults) → Session → Session
unfolding is_failed
ingest rec actor [] s = s
ingest rec actor ((f, now, faults) ∷ frames) s =
    let p = process rec faults actor now f s in
    let rest = ingest rec actor frames p.session in if is_failed p.outcome then p.session else rest
