-- ===== src/Project/Axes/Promotions.antt =====
-- `DerivePromotions`: environments do not disturb one another, and a check leaves the verdict.
use draiver.Prelude.{
  String, ◌≡◌, refl, ap, ◌∙◌, true, false, not, ◌&&◌, List, [], ◌∷◌, ◌++◌, arith, ◌==◌, eq_iff,
  if◌then◌else◌,
}
use draiver.Prelude.Maps.{string_key, nat_key, insert, lookup-insert}
use draiver.Event.{Event}
use draiver.Prelude.Text.{trim_space}
use draiver.Project.Axes.{
  PromotionStatus, Promotions, or_zero, status_at, promotion_step, promotions_from,
  derive_promotions,
}

promotions_from-append :
    (out : Promotions) (es : List Event) (e : Event)
    → promotions_from out (es ++ e ∷ []) ≡ promotion_step (promotions_from out es) e
unfolding promotions_from
promotions_from-append out [] e = refl
promotions_from-append out (x ∷ es) e = promotions_from-append (promotion_step out x) es e

-- What one event makes of the status of its environment.
abbrev pub next_status : PromotionStatus → Event → PromotionStatus
next_status s e =
    if e.kind == "promotion-result"
    then record { commit = e.commit; outcome = e.outcome; in_progress = false; started_at = 0 }
    else if e.kind == "promotion-check"
    then (if trim_space e.outcome == "started"
        then record s { in_progress = true; started_at = e.ts }
        else record s { in_progress = false; started_at = 0 })
    else s

status-insert :
    (out : Promotions) (k env : String) (s : PromotionStatus)
    → status_at (insert k s out) env ≡ (if k == env then s else status_at out env)
unfolding status_at
status-insert out k env s = ap or_zero (lookup-insert k env s out) ∙ ground arith

-- The three statuses that a step may write.
abbrev verdict : Event → PromotionStatus
verdict e = record { commit = e.commit; outcome = e.outcome; in_progress = false; started_at = 0 }

abbrev started : PromotionStatus → Event → PromotionStatus
started s e = record s { in_progress = true; started_at = e.ts }

abbrev cleared : PromotionStatus → PromotionStatus
cleared s = record s { in_progress = false; started_at = 0 }

status_step :
    (out : Promotions) (e : Event) (env : String)
    → status_at (promotion_step out e) env ≡ (
        if trim_space e.environment == env && not (trim_space e.environment == "")
        then next_status (status_at out env) e
        else status_at out env)
unfolding promotion_step
status_step out e env =
    let t = trim_space e.environment in
    ground (
      arith,
      eq_iff t env,
      status-insert out t env (verdict e),
      status-insert out t env (started (status_at out t) e),
      status-insert out t env (cleared (status_at out t)),
    )

-- One more event changes the status of the environment that it names, and of no other: a result
-- sets commit and outcome and ends the check, a check keeps the last commit and outcome, and
-- every other event, or one with a blank environment, changes nothing.
pub promotions-append :
    (es : List Event) (e : Event) (env : String)
    → status_at (derive_promotions (es ++ e ∷ [])) env ≡ (
        if trim_space e.environment == env && not (trim_space e.environment == "")
        then next_status (status_at (derive_promotions es) env) e
        else status_at (derive_promotions es) env)
unfolding derive_promotions
promotions-append es e env = rw promotions_from-append (status_step (promotions_from [] es) e env)
