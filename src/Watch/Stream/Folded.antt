-- ===== src/Watch/Stream/Folded.antt =====
-- What `Ingest` leaves of a stream in the log.
use draiver.Prelude.{
  ℕ, String, ◌≡◌, refl, sym, ap, ◌∙◌, inl, inr, Bool, true, false, Option, List, [], ◌∷◌, ◌++◌,
  append_assoc, append-nil, if◌then◌else◌, Bool-cases,
}
use draiver.Event.{Event}
use draiver.Watch.Recognize.{Promotion, AgentEvent}
use draiver.Watch.Stream.{Frame, Session, Faults, process, ingest}
use draiver.Watch.Stream.Failure.{
  Frames, events_of, process-Effect, hands_on, passes, up_to_failure, partial, process-Passed,
}

if_or_nothing {ℓ} :
    {A : Type ℓ} (b : Bool) (xs ys : List A)
    → (if b then xs ++ ys else xs) ≡ xs ++ (if b then ys else [])
if_or_nothing true xs ys = refl
if_or_nothing false xs ys = sym (append-nil xs)

module _ (rec : AgentEvent → Option Promotion) (actor : String) where
  -- The events of all the promotions of a stream, in its order.
  abbrev pub recognised : Frames → List Event
  recognised [] = []
  recognised ((f, now, faults) ∷ frames) = events_of actor (rec f.event) ++ recognised frames

  -- The event of a frame whose write to the log takes place.
  abbrev pub handed_on : String → Frame × ℕ × Faults → List Event
  handed_on prior (f, now, faults) =
      if hands_on rec actor prior (f, now, faults) then events_of actor (rec f.event) else []

  -- The events that a watcher hands to the log are exactly those of the promotions of the frames
  -- before the first frame of which a write fails, in the stream's order and each once, and then that
  -- frame's if its journal line, its usage and its event were written and only its last write failed.
  pub ingest-recognised :
      (frames : Frames) (s : Session)
      → (ingest rec actor frames s).log
        ≡ s.log
          ++ (recognised (up_to_failure rec actor s.last_raw frames)
              ++ partial rec actor handed_on s.last_raw frames)
  unfolding ingest
  ingest-recognised [] s = sym (append-nil s.log)
  ingest-recognised ((f, now, faults) ∷ frames) s =
      let p = process rec faults actor now f s in
      let e = process-Effect rec actor faults now f s in
      elim (Bool-cases (passes rec actor s.last_raw (f, now, faults))) [
        | inr n ↦ rw n (
            rw (e.failing, n)
              (e.log
                ∙ if_or_nothing (hands_on rec actor s.last_raw (f, now, faults)) s.log
                    (events_of actor (rec f.event))))
        | inl y ↦
            let q = process-Passed rec actor faults now f s y in
            rw (y, q.went_on)
              (ingest-recognised frames p.session
                ∙ rw (q.log, q.journalled)
                    (append_assoc s.log _ _
                      ∙ ap (λ z. s.log ++ z)
                          (sym (append_assoc (events_of actor (rec f.event)) _ _))))
      ]
