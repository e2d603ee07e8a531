-- ===== src/Scenarios/Requests.antt =====
-- A frame with a request for a tool that the policy hands to a human.
use draiver.Prelude.{◌≤◌, true, false, some, [], ◌∷◌, Memᴰ, length}
use draiver.Project.State.{ok}
use draiver.Gates.Permission.{allow, escalate, Policy}
use draiver.Gates.Rationale
use draiver.Gates.Dispatch.{Frame, Gates, Answers, dispatch}
use draiver.Gates.Dispatch.Once.{Approved, dispatch-Approved}

abbrev reads : Policy
reads = record { fallback = escalate; tools = ("Read", allow) ∷ [] }

abbrev gates : Gates
gates = record {
  ticket = "t";
  limit = record { actor = "draiverctld"; threshold = 100; has_halt = true; fired = false };
  completion = record {
    actor = "draiverctld";
    baseline = 0;
    has_nudge = true;
    has_halt = true;
    nudges = 0;
    max_nudges = 1;
    fired = false;
  };
  rationale = record { policy = record { fallback = Rationale.free; tools = [] }; baseline = 0 };
  policy = reads;
}

abbrev answers : Answers
answers = record {
  append_fails = false;
  halt_fails = false;
  world = record {
    edges = ok (record { wants = []; after = []; requires = [] });
    attempts = ok [];
    log = [];
  };
  faults = record { nudge_fails = false; append_fails = false; halt_fails = false };
  log = [];
  deny_fails = false;
  decide_fails = false;
  hand_over_fails = false;
  has_halt = true;
  reap_fails = false;
}

abbrev read_request : Frame
read_request = record { tokens = some 50; success = false; tool = some "Read" }

dispatch-Approved_example :
    (length (dispatch gates answers read_request).answered ≤ 1)
    × (Memᴰ true (dispatch gates answers read_request).answered
        → Approved gates answers read_request)
dispatch-Approved_example = dispatch-Approved gates answers read_request
