-- ===== src/Pyramid/Check.antt =====
-- internal/pyramid: `validate`, on the pyramid that yaml.Unmarshal reads; its error is a `Fault`.
pub mod Valid
use draiver.Prelude.{
  ℕ, suc, String, not, ◌&&◌, Option, none, some, List, [], ◌∷◌, ◌==◌, if◌then◌else◌, any,
}
use draiver.Prelude.Maps.{string_key, nat_key, ref_key, has}
use draiver.Prelude.Text.{trim_space}
use draiver.Project.State.{is_empty}
use draiver.Pyramid.{Level, is_required, Healthcheck, Environment, Promotion, Pyramid, is_blank}

pub data Fault : Type 0 where
  no_levels none_required : Fault
  environment_unnamed : ℕ → Fault
  environment_twice : ℕ → String → Fault
  healthcheck_unnamed : String → ℕ → Fault
  healthcheck_empty : String → String → Fault
  level_unnamed : ℕ → Fault
  level_twice : ℕ → String → Fault
  level_empty : ℕ → String → Fault
  level_undeclared : String → String → Fault
  promotion_unnamed : ℕ → Fault
  promotion_undeclared promotion_twice : ℕ → String → Fault
  promotion_empty : String → Fault

-- The first fault, or the set that the loop has filled.
pub data Checked : Type 0 where
  bad : Fault → Checked
  good : List String → Checked

check_healthchecks : String → ℕ → List Healthcheck → Option Fault
check_healthchecks env j [] = none
check_healthchecks env j (hc ∷ hcs) =
    let rest = check_healthchecks env (suc j) hcs in
    if is_blank hc.name
    then some (healthcheck_unnamed env j)
    else if is_blank hc.script
    then some (healthcheck_empty env (trim_space hc.name))
    else rest

unless : Option Fault → Checked → Checked
unless none c = c
unless (some f) c = bad f

check_environments : ℕ → List String → List Environment → Checked
unfolding check_healthchecks unless
check_environments i envs [] = good envs
check_environments i envs (e ∷ es) =
    let name = trim_space e.name in
    let rest = check_environments (suc i) (name ∷ envs) es in
    if name == ""
    then bad (environment_unnamed i)
    else if has envs name
    then bad (environment_twice i name)
    else unless (check_healthchecks name 0 e.healthchecks) rest

check_levels : List String → ℕ → List String → List Level → Option Fault
check_levels envs i seen [] = none
check_levels envs i seen (lv ∷ levels) =
    let name = trim_space lv.name in
    let env = trim_space lv.environment in
    let rest = check_levels envs (suc i) (name ∷ seen) levels in
    if name == ""
    then some (level_unnamed i)
    else if has seen name
    then some (level_twice i name)
    else if is_blank lv.run
    then some (level_empty i name)
    else if not (env == "") && not (has envs env)
    then some (level_undeclared name env)
    else rest

check_promotions : List String → ℕ → List String → List Promotion → Option Fault
check_promotions envs i promoted [] = none
check_promotions envs i promoted (pr ∷ prs) =
    let env = trim_space pr.environment in
    let rest = check_promotions envs (suc i) (env ∷ promoted) prs in
    if env == ""
    then some (promotion_unnamed i)
    else if not (has envs env)
    then some (promotion_undeclared i env)
    else if has promoted env
    then some (promotion_twice i env)
    else if is_blank pr.qa
    then some (promotion_empty env)
    else rest

or_promotions : Option Fault → Option Fault → Option Fault
or_promotions (some f) o = some f
or_promotions none o = o

with_environments : Pyramid → Checked → Option Fault
unfolding check_levels check_promotions or_promotions
with_environments p (bad f) = some f
with_environments p (good envs) = or_promotions (check_levels envs 0 [] p.levels) (
    if not (any is_required p.levels)
    then some none_required
    else check_promotions envs 0 [] p.promotions)

-- `validate`
unfoldable pub validate : Pyramid → Option Fault
unfolding check_environments with_environments
validate p =
    if is_empty p.levels
    then some no_levels
    else with_environments p (check_environments 0 [] p.environments)
