-- ===== src/Scenarios/Calls.antt =====
-- A ring of edges, shell lines, a session's stream and a report.
use draiver.Cucumber.{Step, Report, passed, summary}
use draiver.Cucumber.Counts.{Balanced, all_of, background_green, summary-passed}
use draiver.Prelude.{
  ℕ, String, ◌≡◌, Bool, true, false, ◌&&◌, Option, none, some, List, [], ◌∷◌, ◌++◌, ◌==◌, eqb,
  if◌then◌else◌,
}
use draiver.Prelude.Maps.{string_key, nat_key, ref_key}
use draiver.Project.Edges.{Edges, EdgeMap}
use draiver.Project.Edges.Cycle.{check_cycle}
use draiver.Watch.Quoting.{command_line}
use draiver.Watch.Recognize.{Promotion, ProtocolRecognizer, Codecs, ToolEvent, AgentEvent}
use draiver.Watch.Recognize.Lossless.{log_verb, Call, argv}
use draiver.Project.Edges.Cycle.Verdict.{Verdict, check_cycle-Verdict}
use draiver.Watch.Stream.{Usage, Frame, Session, Faults, ingest}
use draiver.Watch.Stream.Folded.{recognised, handed_on, ingest-recognised}
use draiver.Watch.Stream.Metered.{Charged, usages, billed, ingest-Charged}
use draiver.Watch.Stream.Failure.{figures, up_to_failure, partial}

abbrev wants : String → Edges
wants t = record { wants = t ∷ []; after = []; requires = [] }

abbrev ring : EdgeMap
ring = ("A", wants "B") ∷ ("B", wants "C") ∷ ("C", wants "B") ∷ []

check_cycle-Verdict_example :
    (v : Option (List String)) × (check_cycle ring ≡ some v) × Verdict ring v
check_cycle-Verdict_example = check_cycle-Verdict ring

-- A log call with a ref that retires an event, as an agent runs it.
abbrev gotcha : Call
gotcha = record {
  verb = log_verb;
  typ = "gotcha";
  ticket = "T-1";
  text = "the cache isn't warm; retry";
  refs = 7 ∷ [];
  artefacts = "artefacts/a.png" ∷ [];
  others = ("--supersedes", "2") ∷ [];
}

-- A reader of numbers that knows the one of the call.
abbrev known_ints : Codecs
known_ints = record {
  command = λ input. some input;
  atoi = λ s. if s == "7" then some 7 else none;
  equal_fold = λ s t. s == t;
}

abbrev for_ticket : ProtocolRecognizer
for_ticket = record { ticket = "T-1"; bin = ""; shell_tools = none }

abbrev bash_call : ToolEvent
bash_call = record { name = "Bash"; input = command_line ("/usr/bin/draiver" ∷ argv gotcha) }

abbrev promotes_text : AgentEvent → Option Promotion
promotes_text ev =
    if ev.is_tool_call
    then some (record { kind = "note"; body = "n"; refs = []; artefacts = [] })
    else none

abbrev usage_of : ℕ → ℕ → Usage
usage_of context cost = record {
  input_tokens = 5;
  output_tokens = 3;
  cache_read_tokens = 100;
  cache_creation_tokens = 10;
  context_tokens = context;
  cost_usd = cost;
}

abbrev frame : Bool → Option Usage → String → Frame
frame tool usage raw = record {
  event = record { is_tool_call = tool; tool = none };
  usage = usage;
  raw = raw;
}

abbrev no_faults : Faults
no_faults = record {
  tee_fails = false;
  meter_fails = false;
  append_fails = false;
  beat_fails = false;
}

abbrev no_heartbeat : Faults
no_heartbeat = record {
  tee_fails = false;
  meter_fails = false;
  append_fails = false;
  beat_fails = true;
}

-- A request, a promotion, the end of the turn, a promotion whose heartbeat fails, and one more.
abbrev turn : List (Frame × ℕ × Faults)
turn =
    (frame false (some (usage_of 900 0)) "a\n", 10, no_faults)
    ∷ (frame true none "b\n", 11, no_faults)
    ∷ (frame false (some (usage_of 0 42)) "c\n", 12, no_faults)
    ∷ (frame true none "d\n", 13, no_heartbeat)
    ∷ (frame true (some (usage_of 950 0)) "e\n", 14, no_faults)
    ∷ []

abbrev fresh_session : Session
fresh_session = record {
  last_raw = "";
  stream = [];
  meter = record {
    usage = usage_of 0 0;
    totals = record {
      input_tokens = 0;
      output_tokens = 0;
      cache_read_tokens = 0;
      cache_creation_tokens = 0;
    };
    respawns = 0;
    last_event_at = 0;
  };
  log = [];
}

ingest-recognised_example :
    (ingest promotes_text "agent:a" turn fresh_session).log
    ≡ []
      ++ (recognised promotes_text "agent:a" (up_to_failure promotes_text "agent:a" "" turn)
          ++ partial promotes_text "agent:a" (handed_on promotes_text "agent:a") "" turn)
ingest-recognised_example = ingest-recognised promotes_text "agent:a" turn fresh_session

ingest-Charged_example :
    Charged
      (figures fresh_session.meter)
      (usages (up_to_failure promotes_text "agent:a" "" turn)
        ++ partial promotes_text "agent:a" (billed promotes_text "agent:a") "" turn)
      (figures (ingest promotes_text "agent:a" turn fresh_session).meter)
ingest-Charged_example = ingest-Charged promotes_text "agent:a" turn fresh_session

abbrev ran : String → Step
ran status = record { status = status; embeddings = [] }

-- A background that fails and a scenario that passes.
abbrev red_background : Report
red_background =
    record {
      elements =
          record { kind = "background"; steps = ran "failed" ∷ [] }
          ∷ record { kind = "scenario"; steps = ran "passed" ∷ ran "" ∷ [] }
          ∷ [];
    }
    ∷ []

summary-passed_example :
    Balanced (summary red_background)
    × (passed red_background ≡ (
        eqb (summary red_background).scenarios_failed 0
        && all_of (λ f. all_of background_green f.elements) red_background))
summary-passed_example = summary-passed red_background
