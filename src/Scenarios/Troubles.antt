-- ===== src/Scenarios/Troubles.antt =====
-- An attempt whose worktree cannot be cut for two ticks.
use draiver.Prelude.{String, ◌≡◌, not, ◌&&◌, [], ◌∷◌, ◌++◌, ◌==◌}
use draiver.Prelude.Maps.{string_key, nat_key, ref_key, has}
use draiver.Reconcile.Health.Edges.{read_edges, health_log, report_health-health_log}

abbrev wedged : String × String
wedged = ("worktree-clash", "branch is checked out")

report_health-health_log_example :
    has
      (read_edges [] (health_log [] ((wedged ∷ wedged ∷ []) ++ ("admit-failed", "no model") ∷ [])))
      "admit-failed"
    ≡ (("admit-failed" == "admit-failed") && not ("admit-failed" == ""))
report_health-health_log_example =
    report_health-health_log (wedged ∷ wedged ∷ []) "admit-failed" "no model" "admit-failed"
