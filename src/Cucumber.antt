-- ===== src/Cucumber.antt =====
-- internal/cucumber/cucumber.go: the verdict and the counts of a cucumber-JSON report.
-- Decoding is a library's; a record has the fields that the verdict and the counts read.
pub mod Counts
use draiver.Prelude.{
  ℕ, suc, ◌+◌, String, ◌<>◌, Bool, true, false, ◌&&◌, ◌||◌, List, [], ◌∷◌, map, ◌==◌, ltb, eqb,
  if◌then◌else◌, length,
}
use draiver.Prelude.Text.{sort_strings, join, itoa}

pub record Step : Type 0 where
  pub status : String
  pub embeddings : List String

pub record Element : Type 0 where
  pub kind : String
  pub steps : List Step

pub record Feature : Type 0 where
  pub elements : List Element

abbrev pub Report : Type 0
Report = List Feature

pub record Summary : Type 0 where
  pub features : ℕ
  pub scenarios : ℕ
  pub scenarios_passed : ℕ
  pub scenarios_failed : ℕ
  pub steps : ℕ
  pub step_status : List (String × ℕ)
  pub embeddings : ℕ

-- `stepGreen`
pub step_green : String → Bool
step_green status = status == "passed" || status == "skipped" || status == ""

pub steps_pass : List Step → Bool
unfolding step_green
steps_pass [] = true
steps_pass (st ∷ steps) = step_green st.status && steps_pass steps

pub elements_pass : List Element → Bool
unfolding steps_pass
elements_pass [] = true
elements_pass (el ∷ elements) = steps_pass el.steps && elements_pass elements

-- `Passed`; the loops return at the first step that is not green.
unfoldable pub passed : Report → Bool
unfolding elements_pass
passed [] = true
passed (f ∷ report) = elements_pass f.elements && passed report

-- `m[k]++`
pub bump : String → List (String × ℕ) → List (String × ℕ)
bump k [] = (k, 1) ∷ []
bump k ((j, n) ∷ m) = let rest = bump k m in if j == k then (j, suc n) ∷ m else (j, n) ∷ rest

pub count_step : Step → Summary → Summary
unfolding bump
count_step st s = record {
  features = s.features;
  scenarios = s.scenarios;
  scenarios_passed = s.scenarios_passed;
  scenarios_failed = s.scenarios_failed;
  steps = suc s.steps;
  step_status = bump (if st.status == "" then "unknown" else st.status) s.step_status;
  embeddings = s.embeddings + length st.embeddings;
}

-- The loop over the steps, with its variable `ok`.
pub count_steps : List Step → Bool → Summary → Summary × Bool
unfolding count_step step_green
count_steps [] ok s = (s, ok)
count_steps (st ∷ steps) ok s =
    count_steps steps (if step_green st.status then ok else false) (count_step st s)

pub count_scenario : Bool → Summary → Summary
count_scenario ok s = record {
  features = s.features;
  scenarios = suc s.scenarios;
  scenarios_passed = if ok then suc s.scenarios_passed else s.scenarios_passed;
  scenarios_failed = if ok then s.scenarios_failed else suc s.scenarios_failed;
  steps = s.steps;
  step_status = s.step_status;
  embeddings = s.embeddings;
}

pub count_kind : String → Summary × Bool → Summary
unfolding count_scenario
count_kind kind (s, ok) = if kind == "background" then s else count_scenario ok s

pub count_elements : List Element → Summary → Summary
unfolding count_kind count_steps
count_elements [] s = s
count_elements (el ∷ elements) s =
    count_elements elements (count_kind el.kind (count_steps el.steps true s))

pub count_feature : Summary → Summary
count_feature s = record {
  features = suc s.features;
  scenarios = s.scenarios;
  scenarios_passed = s.scenarios_passed;
  scenarios_failed = s.scenarios_failed;
  steps = s.steps;
  step_status = s.step_status;
  embeddings = s.embeddings;
}

pub count_features : Report → Summary → Summary
unfolding count_elements count_feature
count_features [] s = s
count_features (f ∷ report) s = count_features report (count_elements f.elements (count_feature s))

abbrev no_counts : Summary
no_counts = record {
  features = 0;
  scenarios = 0;
  scenarios_passed = 0;
  scenarios_failed = 0;
  steps = 0;
  step_status = [];
  embeddings = 0;
}

-- `Report.Summary`
unfoldable pub summary : Report → Summary
unfolding count_features
summary report = count_features report no_counts

pub plural : ℕ → String → String
plural n noun = if eqb n 1 then "1 " <> noun else itoa n <> " " <> noun <> "s"

status_count : List (String × ℕ) → String → ℕ
status_count [] k = 0
status_count ((j, n) ∷ m) k = if j == k then n else status_count m k

status_parts : List (String × ℕ) → List String → List String
unfolding status_count
status_parts m [] = []
status_parts m (k ∷ keys) = (k <> " " <> itoa (status_count m k)) ∷ status_parts m keys

status_clause : List (String × ℕ) → String
unfolding status_parts
status_clause [] = ""
status_clause (e ∷ m) =
    " [" <> join (status_parts (e ∷ m) (sort_strings (map (λ p. p.0) (e ∷ m)))) ", " <> "]"

-- `Summary.String`
unfoldable pub render : Summary → String
unfolding plural status_clause
render s =
    plural s.features "feature"
    <> ", "
    <> plural s.scenarios "scenario"
    <> (if ltb 0 s.scenarios
        then " (" <> itoa s.scenarios_passed <> " passed, " <> itoa s.scenarios_failed <> " failed)"
        else "")
    <> ", "
    <> plural s.steps "step"
    <> status_clause s.step_status
    <> (if ltb 0 s.embeddings then ", " <> plural s.embeddings "embedding" else "")
