-- ===== src/Gates/Context.antt =====
-- internal/limit: the gate that stops a session whose context window fills up.
-- A threshold of 0 or below is 0. Whether the append and the halt fail is a parameter.
pub mod Once
use draiver.Prelude.{
  ℕ, zero, suc, ◌/◌, ◌%◌, String, ◌<>◌, Bool, true, false, ◌&&◌, ◌||◌, Option, none, some, List, [],
  ◌∷◌, ◌++◌, ltb, eqb, if◌then◌else◌,
}
use draiver.Prelude.Text.{itoa, pad}
use draiver.Event.{Event}
use draiver.Reconcile.Activation.{zero_event}

-- The fields of `Gate` that `Consider` reads; `halt` tells whether there is one.
pub record Gate : Type 0 where
  pub actor : String
  pub threshold : ℕ
  pub has_halt : Bool
  pub fired : Bool

pub data Outcome : Type 0 where
  ignored stopped : Outcome

-- `commas` on fuel; a number has no more groups than its own size.
commas_from : ℕ → ℕ → String
commas_from zero n = itoa n
commas_from (suc fuel) n =
    let rest = commas_from fuel (n / 1000) in
    if ltb n 1000 then itoa n else rest <> "," <> pad 3 (n % 1000)

unfoldable pub commas : ℕ → String
unfolding commas_from
commas n = commas_from n n

unfoldable pub stop_body : ℕ → ℕ → String
unfolding commas
stop_body tokens threshold =
    "Context-window auto-stop: the session's context fill reached **"
    <> commas tokens
    <> " tokens**, crossing the configured limit of **"
    <> commas threshold
    <> "**. The supervisor halted it to keep a runaway session from burning tokens with no human in the loop.\n\nResolve this escalation to resume the attempt — it comes back up from a fresh cold-start brief (a clean context window). If the work genuinely needs a larger window, raise `context_limit` in the draiver config first."

unfoldable pub auto_stop : Gate → ℕ → Event
unfolding stop_body
auto_stop g tokens = record zero_event {
  kind = "escalation";
  actor = g.actor;
  body = stop_body tokens g.threshold;
  tags = "context-auto-stop" ∷ [];
}

-- What one call of `Consider` did: its results, the gate after it, the events handed to Append and
-- whether it halted the session.
pub record Considered : Type 0 where
  pub outcome : Outcome
  pub failed : Bool
  pub gate : Gate
  pub appended : List Event
  pub halted : Bool

abbrev ignores : Gate → Option ℕ → Bool
ignores g none = true
ignores g (some tokens) = g.fired || eqb g.threshold 0 || ltb tokens g.threshold

stop : Gate → ℕ → Bool → Bool → Considered
unfolding auto_stop
stop g tokens append_fails halt_fails =
    let latched = record g { fired = true } in
    if append_fails
    then record {
      outcome = ignored;
      failed = true;
      gate = latched;
      appended = auto_stop g tokens ∷ [];
      halted = false;
    }
    else record {
      outcome = stopped;
      failed = g.has_halt && halt_fails;
      gate = latched;
      appended = auto_stop g tokens ∷ [];
      halted = g.has_halt;
    }

pass_over : Gate → Considered
pass_over g = record { outcome = ignored; failed = false; gate = g; appended = []; halted = false }

-- `Consider`; a frame is the ContextTokens of its usage, if it has one.
unfoldable pub consider : Gate → Option ℕ → Bool → Bool → Considered
unfolding stop pass_over
consider g none append_fails halt_fails = pass_over g
consider g (some tokens) append_fails halt_fails =
    if ignores g (some tokens) then pass_over g else stop g tokens append_fails halt_fails

-- The frames of a session in order, each with whether its append and its halt fail.
unfoldable pub session : Gate → List (Option ℕ × Bool × Bool) → List Event
unfolding consider
session g [] = []
session g ((f, a, h) ∷ frames) = let c = consider g f a h in c.appended ++ session c.gate frames
