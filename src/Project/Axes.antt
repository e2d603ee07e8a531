-- ===== src/Project/Axes.antt =====
-- internal/project: the bits that a log derives beside its control state. Each is a fold over the
-- events in seq order (project.go, supervision.go).
pub mod Latest
pub mod Promotions
use draiver.Prelude.{
  ℕ, String, Bool, true, false, not, Option, none, some, List, [], ◌∷◌, ◌==◌, if◌then◌else◌,
}
use draiver.Prelude.Maps.{string_key, nat_key, ref_key, lookup, insert}
use draiver.Prelude.Text.{trim_space}
use draiver.Event.{Event}

unfoldable pub enable_step : Bool → Event → Bool
enable_step enabled e =
    if e.kind == "enable" then true else if e.kind == "disable" then false else enabled

-- `DeriveEnabled`, from the bit so far
unfoldable pub enabled_from : Bool → List Event → Bool
unfolding enable_step
enabled_from enabled [] = enabled
enabled_from enabled (e ∷ es) = enabled_from (enable_step enabled e) es

unfoldable pub derive_enabled : List Event → Bool
unfolding enabled_from
derive_enabled events = enabled_from false events

archive_step : Bool → Event → Bool
archive_step archived e =
    if e.kind == "archive" then true else if e.kind == "unarchive" then false else archived

archived_from : Bool → List Event → Bool
unfolding archive_step
archived_from archived [] = archived
archived_from archived (e ∷ es) = archived_from (archive_step archived e) es

unfoldable pub derive_archived : List Event → Bool
unfolding archived_from
derive_archived events = archived_from false events

-- `Supervision`; `unset` is SupervisionDefault, the empty string.
pub data Supervision : Type 0 where
  unset passthrough pre_digest : Supervision

-- `ParseSupervision`; `none` is either error.
unfoldable pub parse_supervision : String → Option Supervision
parse_supervision s =
    let t = trim_space s in
    if t == "passthrough"
    then some passthrough
    else if t == "pre-digest"
    then some pre_digest
    else none

supervision_step : Supervision → Event → Supervision
supervision_step mode e =
    if not (e.kind == "supervision")
    then mode
    else elim (parse_supervision e.outcome) [ some m ↦ m | none ↦ mode ]

supervision_from : Supervision → List Event → Supervision
unfolding supervision_step
supervision_from mode [] = mode
supervision_from mode (e ∷ es) = supervision_from (supervision_step mode e) es

unfoldable pub derive_supervision : List Event → Supervision
unfolding supervision_from
derive_supervision events = supervision_from unset events

abbrev is_concrete : Supervision → Bool
is_concrete unset = false
is_concrete passthrough = true
is_concrete pre_digest = true

unfoldable pub effective : Supervision → Supervision → Supervision
effective override default_mode =
    if is_concrete override
    then override
    else if is_concrete default_mode
    then default_mode
    else passthrough

-- `PromotionStatus`
pub record PromotionStatus : Type 0 where
  pub commit : String
  pub outcome : String
  pub in_progress : Bool
  pub started_at : ℕ

-- The zero value, which a map without the key yields.
abbrev pub no_status : PromotionStatus
no_status = record { commit = ""; outcome = ""; in_progress = false; started_at = 0 }

abbrev pub Promotions : Type 0
Promotions = List (String × PromotionStatus)

abbrev or_zero : Option PromotionStatus → PromotionStatus
or_zero none = no_status
or_zero (some s) = s

unfoldable pub status_at : Promotions → String → PromotionStatus
status_at m env = or_zero (lookup m env)

-- The body of the loop of `DerivePromotions`.
promotion_step : Promotions → Event → Promotions
promotion_step out e =
    let env = trim_space e.environment in
    let s = status_at out env in
    if env == ""
    then out
    else if e.kind == "promotion-result"
    then insert env
        (record s { commit = e.commit; outcome = e.outcome; in_progress = false; started_at = 0 })
        out
    else if e.kind == "promotion-check"
    then (if trim_space e.outcome == "started"
        then insert env (record s { in_progress = true; started_at = e.ts }) out
        else insert env (record s { in_progress = false; started_at = 0 }) out)
    else out

promotions_from : Promotions → List Event → Promotions
unfolding promotion_step
promotions_from out [] = out
promotions_from out (e ∷ es) = promotions_from (promotion_step out e) es

unfoldable pub derive_promotions : List Event → Promotions
unfolding promotions_from
derive_promotions events = promotions_from [] events
