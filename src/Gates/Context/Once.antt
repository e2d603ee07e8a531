-- ===== src/Gates/Context/Once.antt =====
-- The context gate stops a session once, at the first frame over the threshold.
use draiver.Prelude.{
  ℕ, ◌<◌, ◌≡◌, refl, ap, ap₂, ◌∙◌, inl, inr, Bool, true, false, Option, none, some, List, [], ◌∷◌,
  ◌++◌, arith, ltb, if◌then◌else◌, Bool-cases,
}
use draiver.Event.{Event}
use draiver.Gates.Context.{Gate, auto_stop, ignores, stop, pass_over, consider, session}

-- The tokens of the first frame that reaches the threshold.
abbrev pub first_over : ℕ → List (Option ℕ × Bool × Bool) → Option ℕ
first_over t [] = none
first_over t ((none, a, b) ∷ frames) = first_over t frames
first_over t ((some n, a, b) ∷ frames) =
    let rest = first_over t frames in if ltb n t then rest else some n

abbrev pub stops : Gate → Option ℕ → List Event
stops g none = []
stops g (some n) = auto_stop g n ∷ []

ignored_frame :
    (g : Gate) (n : ℕ) (a b : Bool)
    → ignores g (some n) ≡ true
    → consider g (some n) a b ≡ pass_over g
unfolding consider
ignored_frame g n a b h = rw h refl

stopping_frame :
    (g : Gate) (n : ℕ) (a b : Bool)
    → ignores g (some n) ≡ false
    → ((consider g (some n) a b).appended ≡ auto_stop g n ∷ [])
      × ((consider g (some n) a b).gate ≡ record g { fired = true })
unfolding consider stop
stopping_frame g n a b h =
    rw h (elim (Bool-cases a) [ inl t ↦ rw t (refl, refl) | inr f ↦ rw f (refl, refl) ])

fired_session :
    (g : Gate) (frames : List (Option ℕ × Bool × Bool)) → g.fired ≡ true → session g frames ≡ []
unfolding session consider pass_over
fired_session g [] h = refl
fired_session g ((none, a, b) ∷ frames) h = fired_session g frames h
fired_session g ((some n, a, b) ∷ frames) h =
    ap (λ c. c.appended ++ session c.gate frames) (ignored_frame g n a b (rw h refl))
    ∙ fired_session g frames h

-- A fresh gate with a threshold above 0 hands exactly one escalation of a session to the log, for
-- the first frame that reaches the threshold, or none if no frame does; a failed append or a
-- failed halt changes nothing of that.
pub session-first_over :
    (g : Gate) (frames : List (Option ℕ × Bool × Bool))
    → g.fired ≡ false
    → 0 < g.threshold
    → session g frames ≡ stops g (first_over g.threshold frames)
unfolding session consider pass_over stop
session-first_over g [] h p = refl
session-first_over g ((none, a, b) ∷ frames) h p = session-first_over g frames h p
session-first_over g ((some n, a, b) ∷ frames) h p = elim (Bool-cases (ltb n g.threshold)) [
  | inl t ↦
      ap (λ c. c.appended ++ session c.gate frames) (ignored_frame g n a b (ground arith))
      ∙ session-first_over g frames h p
      ∙ rw t refl
  | inr f ↦
      let (x, y) = stopping_frame g n a b (ground arith) in
      ap₂ (λ es k. es ++ session k frames) x y
      ∙ ap (λ es. auto_stop g n ∷ es) (fired_session (record g { fired = true }) frames refl)
      ∙ rw f refl
]
