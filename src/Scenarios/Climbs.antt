-- ===== src/Scenarios/Climbs.antt =====
-- A pyramid of two rungs and a promotion.
use draiver.Prelude.{
  String, ◌<>◌, ◌≡◌, refl, Bool, false, ◌&&◌, Option, none, some, List, [], ◌∷◌, ◌++◌, ◌==◌,
  if◌then◌else◌, any,
}
use draiver.Prelude.Maps.{string_key, nat_key, ref_key}
use draiver.Project.State.{is_empty}
use draiver.Pyramid.Check.{validate}
use draiver.Pyramid.{Level, Environment, Promotion, Pyramid, TestResult, required_status}
use draiver.Pyramid.Check.Valid.{well_formed, is_none, validate-well_formed}
use draiver.Pyramid.Climb.{clears, required_status-clears}
use draiver.Promote.{pass, Shell, run_qa}
use draiver.Promote.Order.{
  declared_scripts, teardown, until_failure, all_pass, run_qa-until_failure,
}

abbrev rung : String → Option Bool → Level
rung name required = record {
  name = name;
  run = "make " <> name;
  environment = "";
  cucumber_json = "";
  artifacts = [];
  required = required;
}

abbrev staging : Environment
staging = record {
  name = "staging";
  up = "up.sh";
  down = "down.sh";
  healthchecks = record { name = "ping"; script = "ping.sh" } ∷ [];
  url = "";
  params = [];
}

abbrev to_staging : Promotion
to_staging = record { environment = "staging"; base = ""; qa = "qa.sh" }

abbrev two_rungs : Pyramid
two_rungs = record {
  levels = rung "unit" none ∷ rung "e2e" (some false) ∷ [];
  environments = staging ∷ [];
  promotions = to_staging ∷ [];
}

validate-well_formed_example : is_none (validate two_rungs) ≡ well_formed two_rungs
validate-well_formed_example = validate-well_formed two_rungs

abbrev at_head : List TestResult
at_head = record { rung = "unit"; commit = "c1" } ∷ record { rung = "e2e"; commit = "c0" } ∷ []

required_status-clears_example :
    is_empty (required_status two_rungs at_head "c1").1
    ≡ any (λ r. (r.commit == "c1") && clears r.rung two_rungs.levels) at_head
required_status-clears_example = required_status-clears two_rungs at_head "c1" refl

abbrev red_ping : Shell
red_ping before s = if s == "ping.sh" then some "exit status 1" else none

run_qa-until_failure_example :
    ((run_qa red_ping to_staging (some staging)).scripts
      ≡ until_failure red_ping [] (declared_scripts (some staging) to_staging)
        ++ teardown (some staging))
    × (pass (run_qa red_ping to_staging (some staging)).outcome.status
        ≡ all_pass red_ping [] (declared_scripts (some staging) to_staging))
run_qa-until_failure_example = run_qa-until_failure red_ping to_staging (some staging)
