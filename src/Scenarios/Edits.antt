-- ===== src/Scenarios/Edits.antt =====
-- A session that wants to edit before and after it logs its decision.
use draiver.Prelude.{◌≡◌, refl, true, some, [], ◌∷◌}
use draiver.Prelude.Maps.{string_key, nat_key, ref_key, lookup}
use draiver.Prelude.Text.{has_suffix}
use draiver.Event.{Event}
use draiver.Scenarios.Logs.{blank}
use draiver.Log.{ok, file, Dir, insert_by_seq, sort_by_seq, read}
use draiver.Gates.Rationale.{free, justified, requires_rationale, Gate}

abbrev edits : Gate
edits = record {
  policy = record { fallback = free; tools = ("Edit", justified) ∷ [] };
  baseline = 1;
}

abbrev started : Event
started = record blank { seq = 1; kind = "decision" }

abbrev chosen : Event
chosen = record blank { seq = 2; kind = "gotcha" }

abbrev log : Dir
log = ("1.md", file (some started)) ∷ ("2.md", file (some chosen)) ∷ []

needs : requires_rationale edits.policy "Edit" ≡ true
unfolding requires_rationale lookup
needs = refl

readable : read log ≡ ok (started ∷ chosen ∷ [])
unfolding read has_suffix sort_by_seq insert_by_seq
readable = refl
