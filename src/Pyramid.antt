-- ===== src/Pyramid.antt =====
-- internal/pyramid: the rungs of a repository's tests, its environments and its promotions.
pub mod Check
pub mod Climb
use draiver.Prelude.{
  ℕ, zero, suc, String, Bool, true, not, ◌&&◌, Option, none, some, List, [], ◌∷◌, ◌++◌, map, ◌==◌,
  ltb, if◌then◌else◌, last, select,
}
use draiver.Prelude.Maps.{string_key, nat_key, ref_key, has, lookup, insert}
use draiver.Prelude.Text.{trim_space}
use draiver.Project.State.{is_empty}

pub record Level : Type 0 where
  pub name : String
  pub run : String
  pub environment : String
  pub cucumber_json : String
  pub artifacts : List String
  pub required : Option Bool

-- `IsRequired`
abbrev pub is_required : Level → Bool
is_required l = elim l.required [ none ↦ true | some b ↦ b ]

pub record Healthcheck : Type 0 where
  pub name : String
  pub script : String

pub record Param : Type 0 where
  pub name : String
  pub default_value : String

pub record Environment : Type 0 where
  pub name : String
  pub up : String
  pub down : String
  pub healthchecks : List Healthcheck
  pub url : String
  pub params : List Param

pub record Promotion : Type 0 where
  pub environment : String
  pub base : String
  pub qa : String

pub record Pyramid : Type 0 where
  pub levels : List Level
  pub environments : List Environment
  pub promotions : List Promotion

abbrev pub is_blank : String → Bool
is_blank s = trim_space s == ""

promotion_among : String → List Promotion → Option Promotion
promotion_among want [] = none
promotion_among want (pr ∷ prs) =
    let rest = promotion_among want prs in
    if trim_space pr.environment == want then some pr else rest

-- `Pyramid.Promotion`
unfoldable pub promotion : Pyramid → String → Option Promotion
unfolding promotion_among
promotion p env = if is_blank env then none else promotion_among (trim_space env) p.promotions

environment_among : String → List Environment → Option Environment
environment_among want [] = none
environment_among want (e ∷ es) =
    let rest = environment_among want es in if trim_space e.name == want then some e else rest

-- `EnvironmentByName`
unfoldable pub environment_by_name : Pyramid → String → Option Environment
unfolding environment_among
environment_by_name p name =
    if is_blank name then none else environment_among (trim_space name) p.environments

-- `EnvironmentFor`
unfoldable pub environment_for : Pyramid → Level → Option Environment
unfolding environment_among
environment_for p lv =
    if is_blank lv.environment
    then none
    else environment_among (trim_space lv.environment) p.environments

-- What `ReviewReady` finds missing.
unfoldable pub missing_for_review : Environment → List String
missing_for_review e =
    (if is_blank e.up then "up" ∷ [] else [])
    ++ (if is_blank e.down then "down" ∷ [] else [])
    ++ (if is_empty e.healthchecks then "at least one healthcheck" ∷ [] else [])

-- `Result`; `PromotionResult` is the same pair of an environment and a commit.
pub record TestResult : Type 0 where
  pub rung : String
  pub commit : String

-- `PromotedAtHEAD`
unfoldable pub promoted_at_head : Pyramid → List TestResult → String → List String
promoted_at_head p results head =
    let declared = map (λ pr. trim_space pr.environment) p.promotions in
    map (λ r. r.rung) (select (λ r. (r.commit == head) && has declared r.rung) results)

-- The loop that indexes the levels by name.
index_from : ℕ → List Level → List (String × ℕ) → List (String × ℕ)
index_from i [] index = index
index_from i (lv ∷ levels) index = index_from (suc i) levels (insert lv.name i index)

-- An int that starts at -1 and grows: 0 is -1, and `suc i` is `i`.
climb : ℕ → Option ℕ → ℕ
climb best none = best
climb best (some i) = if ltb best (suc i) then suc i else best

climb_from : List (String × ℕ) → String → ℕ → List TestResult → ℕ
unfolding climb
climb_from index head best [] = best
climb_from index head best (r ∷ results) =
    climb_from index head (if r.commit == head then climb best (lookup index r.rung) else best)
      results

-- One above the highest index that a result at the head names.
height : Pyramid → List TestResult → String → ℕ
unfolding index_from climb_from
height p results head = climb_from (index_from 0 p.levels []) head 0 results

level_at : List Level → ℕ → Option Level
level_at [] i = none
level_at (lv ∷ levels) zero = some lv
level_at (lv ∷ levels) (suc i) = level_at levels i

below : List Level → ℕ → Option Level
unfolding level_at
below levels zero = none
below levels (suc i) = level_at levels i

-- `HighestAtHEAD`
unfoldable pub highest_at_head : Pyramid → List TestResult → String → Option Level
unfolding height below
highest_at_head p results head = below p.levels (height p results head)

into_status : Bool → Level → List Level × List Level → List Level × List Level
into_status ran lv (satisfied, outstanding) =
    if ran then (lv ∷ satisfied, outstanding) else (satisfied, lv ∷ outstanding)

status_from : ℕ → ℕ → List Level → List Level × List Level
unfolding into_status
status_from i top [] = ([], [])
status_from i top (lv ∷ levels) =
    let rest = status_from (suc i) top levels in
    if not (is_required lv) then rest else into_status (ltb i top) lv rest

-- `RequiredStatus`
unfoldable pub required_status : Pyramid → List TestResult → String → List Level × List Level
unfolding height status_from
required_status p results head = status_from 0 (height p results head) p.levels

abbrev zero_level : Level
zero_level = record {
  name = "";
  run = "";
  environment = "";
  cucumber_json = "";
  artifacts = [];
  required = none;
}

highest_from : Level → List Level → Level
highest_from hi [] = hi
highest_from hi (lv ∷ levels) = highest_from (if is_required lv then lv else hi) levels

-- `HighestRequired`
unfoldable pub highest_required : Pyramid → Level
unfolding highest_from
highest_required p = highest_from zero_level p.levels

-- `Target`, which panics without a level.
unfoldable pub target : Pyramid → Option Level
target p = last p.levels
