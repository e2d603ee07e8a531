-- ===== src/Promote.antt =====
-- internal/promote: the scripts of one promotion, `RunQA`, and what `Run` decides before them.
-- The shell answers with an error or none, on the scripts run so far and the next one; git, the
-- configuration and the overlay are arguments of `run`. The texts of the outcome are left out.
pub mod Order
use draiver.Prelude.{
  String, Bool, true, false, Option, none, some, List, [], ◌∷◌, ◌++◌, if◌then◌else◌,
}
use draiver.Project.State.{Parsed, ok, err}
use draiver.Pyramid.{
  Healthcheck, Environment, Promotion, Pyramid, is_blank, promotion, environment_by_name,
}

-- `Status`
pub data Status : Type 0 where
  green blocked env_fault qa_failed no_promotion : Status

-- `Status.Pass`
abbrev pub pass : Status → Bool
pass green = true
pass s = false

pub record Outcome : Type 0 where
  pub status : Status
  pub environment : String
  pub base : String
  pub commit : String

-- An outcome and the scripts that ran, in order.
pub record Ran : Type 0 where
  pub outcome : Outcome
  pub scripts : List String

abbrev pub Shell : Type 0
Shell = List String → String → Option String

module _ (sh : Shell) (promo : Promotion) where
  ended : Status → List String → Ran
  ended status scripts = record {
    outcome = record {
      status = status;
      environment = promo.environment;
      base = promo.base;
      commit = "";
    };
    scripts = scripts;
  }

  after_qa : List String → Option String → Ran
  unfolding ended
  after_qa scripts (some e) = ended qa_failed scripts
  after_qa scripts none = ended green scripts

  qa_script : List String → Ran
  unfolding after_qa
  qa_script scripts = after_qa (scripts ++ promo.qa ∷ []) (sh scripts promo.qa)

  after_check : List String → Ran → Option String → Ran
  unfolding ended
  after_check scripts rest none = rest
  after_check scripts rest (some e) = ended blocked scripts

  -- The loop over the healthchecks, and what follows it.
  check_health : List String → List Healthcheck → Ran
  unfolding qa_script after_check
  check_health scripts [] = qa_script scripts
  check_health scripts (hc ∷ hcs) =
      let ran = scripts ++ hc.script ∷ [] in
      let rest = check_health ran hcs in after_check ran rest (sh scripts hc.script)

  after_up : Environment → List String → Option String → Ran
  unfolding ended check_health
  after_up env scripts (some e) = ended env_fault scripts
  after_up env scripts none = check_health scripts env.healthchecks

  in_environment : Environment → Ran
  unfolding after_up
  in_environment env =
      if is_blank env.up then after_up env [] none else after_up env (env.up ∷ []) (sh [] env.up)

  -- The deferred teardown, whose error is ignored.
  torn_down : Environment → Ran → Ran
  torn_down env ran =
      if is_blank env.down then ran else record ran { scripts = ran.scripts ++ env.down ∷ [] }

  -- `RunQA`
  unfoldable pub run_qa : Option Environment → Ran
  unfolding qa_script in_environment torn_down
  run_qa none = qa_script []
  run_qa (some env) = torn_down env (in_environment env)

not_declared : String → String → Ran
not_declared env commit = record {
  outcome = record { status = no_promotion; environment = env; base = ""; commit = commit };
  scripts = [];
}

at_commit : String → Ran → Ran
at_commit commit ran = record ran { outcome = record ran.outcome { commit = commit } }

with_promotion : Shell → Pyramid → String → String → Option Promotion → Ran
unfolding not_declared at_commit
with_promotion sh p env commit none = not_declared env commit
with_promotion sh p env commit (some promo) =
    at_commit commit (run_qa sh promo (environment_by_name p promo.environment))

with_pyramid : Shell → String → String → Parsed (Option Pyramid) → Parsed Ran
unfolding not_declared with_promotion
with_pyramid sh env commit (err e) = err e
with_pyramid sh env commit (ok none) = ok (not_declared env commit)
with_pyramid sh env commit (ok (some p)) = ok (with_promotion sh p env commit (promotion p env))

-- `Run`, on the reviewed commit, the cut of its worktree, and what the overlay resolves at it.
unfoldable pub run :
    Shell → String → Parsed String → Option String → Parsed (Option Pyramid) → Parsed Ran
unfolding with_pyramid
run sh env (err e) cut_error resolved = err e
run sh env (ok commit) (some e) resolved = err e
run sh env (ok commit) none resolved = with_pyramid sh env commit resolved
