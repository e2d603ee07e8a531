-- ===== src/Gates/Completion/Latch.antt =====
-- What the completion gate may do over a whole session.
use draiver.Prelude.{
  ℕ, ◌+◌, ◌≤◌, String, ◌≡◌, refl, sym, ap, ◌∙◌, ◌⊎◌, inl, inr, Bool, true, false, not, ◌&&◌,
  false≢true, Option, none, some, List, [], ◌∷◌, ◌++◌, arith, ltb, if◌then◌else◌, Bool-cases,
  length, length-append,
}
use draiver.Project.State.{Parsed, ok, err, is_empty}
use draiver.Event.{Event}
use draiver.Wake.{Source, World, pending_sources}
use draiver.Gates.Completion.{
  Gate, has_async_source, Faults, Considered, ignore, send_nudge, suspend, hand_to_human,
  unmet_turn, on_sources, consider,
}
use draiver.Log.{Result, ok, err, read}

-- A session's frames in order, with what the gate reads and what fails at each.
abbrev pub Frames : Type 0
Frames = List (Bool × World × Faults)

-- The events that the gate hands to the log, and the number of its nudges.
abbrev pub session_writes : String → Gate → Frames → List Event
session_writes t g [] = []
session_writes t g ((success, w, f) ∷ frames) =
    (consider t g success w f).appended ++ session_writes t (consider t g success w f).gate frames

abbrev count_some : Option String → ℕ
count_some none = 0
count_some (some s) = 1

abbrev pub session_nudges : String → Gate → Frames → ℕ
session_nudges t g [] = 0
session_nudges t g ((success, w, f) ∷ frames) =
    count_some (consider t g success w f).prompted
    + session_nudges t (consider t g success w f).gate frames

-- What one call of `Consider` keeps, whatever it reads: a write fires the gate, a nudge counts.
record Kept (g : Gate) (c : Considered) : Type 0 where
  same_limit : c.gate.max_nudges ≡ g.max_nudges
  spent : c.gate.nudges ≡ g.nudges + count_some c.prompted
  within : g.nudges ≤ g.max_nudges → c.gate.nudges ≤ g.max_nudges
  once : length c.appended ≤ 1
  latched : (length c.appended ≡ 0) ⊎ (c.gate.fired ≡ true)
  quiet : g.fired ≡ true → (c.gate.fired ≡ true) × (c.appended ≡ []) × (c.prompted ≡ none)

Kept-ignore : (g : Gate) (failed : Bool) → Kept g (ignore g failed)
unfolding ignore
Kept-ignore g failed = record {
  same_limit = refl;
  spent = omega arith;
  within = λ h. h;
  once = omega arith;
  latched = inl refl;
  quiet = λ h. (h, refl, refl);
}

unfired : (g : Gate) {P : Type 0} → g.fired ≡ false → g.fired ≡ true → P
unfired g fresh h = absurd (false≢true (sym fresh ∙ h))

Kept-send_nudge :
    (t : String) (g : Gate) (f : Faults) (parkable : Bool)
    → g.fired ≡ false
    → ltb g.nudges g.max_nudges ≡ true
    → Kept g (send_nudge t g f parkable)
unfolding send_nudge
Kept-send_nudge t g f parkable fresh y = record {
  same_limit = refl;
  spent = refl;
  within = λ h. ground (arith, y);
  once = omega arith;
  latched = inl refl;
  quiet = unfired g fresh;
}

Kept-suspend : (g : Gate) (f : Faults) (job : Bool) → g.fired ≡ false → Kept g (suspend g f job)
unfolding suspend
Kept-suspend g f job fresh = record {
  same_limit = refl;
  spent = omega arith;
  within = λ h. h;
  once = ground arith;
  latched = inr refl;
  quiet = unfired g fresh;
}

Kept-hand_to_human : (g : Gate) (f : Faults) → g.fired ≡ false → Kept g (hand_to_human g f)
unfolding hand_to_human
Kept-hand_to_human g f fresh = record {
  same_limit = refl;
  spent = omega arith;
  within = λ h. h;
  once = omega arith;
  latched = inr refl;
  quiet = unfired g fresh;
}

if_keeps :
    (g : Gate) (b : Bool) {c d : Considered}
    → (b ≡ true → Kept g c)
    → (b ≡ false → Kept g d)
    → Kept g (if b then c else d)
if_keeps g b h k = elim (Bool-cases b) [ inl t ↦ rw t (h t) | inr n ↦ rw n (k n) ]

Kept-unmet_turn :
    (t : String) (g : Gate) (f : Faults) (sources : List Source)
    → g.fired ≡ false
    → Kept g (unmet_turn t g f sources)
unfolding unmet_turn
Kept-unmet_turn t g f sources fresh =
    if_keeps g (g.has_nudge && ltb g.nudges g.max_nudges)
      (λ y. Kept-send_nudge t g f (not (is_empty sources)) fresh (ground (arith, y)))
      (λ n.
        if_keeps g (not (is_empty sources)) (λ y. Kept-suspend g f (has_async_source sources) fresh)
          (λ m. Kept-hand_to_human g f fresh))

Kept-on_sources :
    (t : String) (g : Gate) (f : Faults) (log : Result (List Event))
    (sources : Parsed (List Source))
    → g.fired ≡ false
    → Kept g (on_sources t g f log sources)
Kept-on_sources t g f log (err e) fresh = Kept-ignore g true
Kept-on_sources t g f (err x) (ok sources) fresh = Kept-ignore g true
Kept-on_sources t g f (ok events) (ok sources) fresh =
    if_keeps g _ (λ y. Kept-ignore g false) (λ n. Kept-unmet_turn t g f sources fresh)

Kept-consider :
    (t : String) (g : Gate) (success : Bool) (w : World) (f : Faults)
    → Kept g (consider t g success w f)
unfolding consider
Kept-consider t g success w f =
    if_keeps g _ (λ y. Kept-ignore g false)
      (λ n. Kept-on_sources t g f (read w.log) (pending_sources w) (ground (arith, n)))

fired_session :
    (t : String) (g : Gate) (frames : Frames) → g.fired ≡ true → session_writes t g frames ≡ []
fired_session t g [] h = refl
fired_session t g ((success, w, f) ∷ frames) h =
    let k = Kept-consider t g success w f in
    let (a, b, c) = k.quiet h in
    ap (λ (es : List Event). es ++ session_writes t (consider t g success w f).gate frames) b
    ∙ fired_session t (consider t g success w f).gate frames a

-- Over a session of any length the gate hands at most one event to the log, and it never sends
-- more nudges than its budget has left, whatever the log, the wake sources and the failures are.
pub session_writes-session_nudges :
    (t : String) (g : Gate) (frames : Frames)
    → g.nudges ≤ g.max_nudges
    → (length (session_writes t g frames) ≤ 1)
      × (g.nudges + session_nudges t g frames ≤ g.max_nudges)
session_writes-session_nudges t g [] h = (omega arith, omega (arith, h))
session_writes-session_nudges t g ((success, w, f) ∷ frames) h =
    let c = consider t g success w f in
    let k = Kept-consider t g success w f in
    let (a, b) =
      session_writes-session_nudges t c.gate frames (omega (arith, k.same_limit, k.within h)) in
    (
      elim k.latched [
        | inl z ↦ rw length-append (omega (arith, z, a))
        | inr y ↦ rw (length-append, fired_session t c.gate frames y) (omega (arith, k.once))
      ],
      omega (arith, k.spent, k.same_limit, b),
    )
