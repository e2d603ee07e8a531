-- ===== src/Watch/Stream/Failure.antt =====
-- Which writes of a frame take place, told from the frame, the line before it and the faults alone,
-- and that `Process` goes exactly so far.
use draiver.Prelude.{
  ℕ, String, ◌≡◌, refl, sym, inl, inr, Bool, true, false, not, ◌&&◌, ◌||◌, Option, none, some, List,
  [], ◌∷◌, ◌++◌, append-nil, arith, ◌==◌, if◌then◌else◌, Bool-cases,
}
use draiver.Event.{Event}
use draiver.Watch.Recognize.{Promotion, AgentEvent}
use draiver.Watch.Stream.{
  Usage, Totals, Meter, Frame, Session, Faults, failed, Processed, is_newline, fold_usage, teed,
  metered, meter_usage, promoted_event, logged, beat, processed, promote, promote_if, after_tee,
  process, is_failed,
}
use draiver.Prelude.Text.{trim_right, contains}

abbrev pub Frames : Type 0
Frames = List (Frame × ℕ × Faults)

abbrev pub events_of : String → Option Promotion → List Event
events_of actor none = []
events_of actor (some p) = promoted_event actor p ∷ []

-- The two parts of a meter that a stream's usage moves.
abbrev pub figures : Meter → Usage × Totals
figures m = (m.usage, m.totals)

-- What a frame's usage makes of the meter.
abbrev pub metered_by : Option Usage → Meter → Meter
metered_by none m = m
metered_by (some u) m = fold_usage u m

-- A line that repeats the one before it, or is empty, is not written.
abbrev pub repeats : String → Frame → Bool
repeats prior f = f.raw == "" || f.raw == prior

abbrev pub raw_after : String → Frame → String
raw_after prior f = if repeats prior f then prior else f.raw

-- Each write takes place: the frame has none of its kind, or it does not fail.
abbrev pub tees : String → Frame → Faults → Bool
tees prior f faults =
    repeats prior f || not (contains (trim_right is_newline f.raw) "\n" || faults.tee_fails)

abbrev pub meters : Option Usage → Bool → Bool
meters none fails = true
meters (some u) fails = not fails

abbrev pub logs : Option Promotion → Faults → Bool
logs none faults = true
logs (some p) faults = not faults.append_fails

abbrev pub beats : Option Promotion → Faults → Bool
beats none faults = true
beats (some p) faults = not faults.beat_fails

-- A frame's processing from `s`, where its journal line and its usage are written or not.
pub record Effect (t m l b : Bool) (events : List Event) (u : Option Usage) (raw : String)
    (s : Session) (p : Processed) : Type 0 where
  pub failing : is_failed p.outcome ≡ not (t && (m && (l && b)))
  pub log : p.session.log ≡ (if t && (m && l) then s.log ++ events else s.log)
  pub meter :
      figures p.session.meter ≡ (if t && m then figures (metered_by u s.meter) else figures s.meter)
  pub journalled : (if t then p.session.last_raw else raw) ≡ raw

module _ (actor : String) (faults : Faults) where
  promote_if-Effect :
      (now : ℕ) (o : Option Promotion) (s : Session)
      → Effect true true
          (logs o faults)
          (beats o faults)
          (events_of actor o)
          none
          s.last_raw
          s
          (promote_if faults actor now o s)
  unfolding promote_if promote processed logged metered beat is_failed
  promote_if-Effect now none s = record {
    failing = refl;
    log = sym (append-nil s.log);
    meter = refl;
    journalled = refl;
  }
  promote_if-Effect now (some p) s = elim (Bool-cases faults.append_fails) [
    | inl a ↦
        rw a
          (record { failing = ground arith; log = ground arith; meter = refl; journalled = refl })
    | inr a ↦ elim (Bool-cases faults.beat_fails) [
      | inl b ↦
          rw (a, b)
            (record { failing = ground arith; log = ground arith; meter = refl; journalled = refl })
      | inr b ↦
          rw (a, b)
            (record { failing = ground arith; log = ground arith; meter = refl; journalled = refl })
    ]
  ]

  after_meter-Effect :
      (now : ℕ) (fails : Bool) (u : Option Usage) (o : Option Promotion) (s : Session)
      → Effect true
          (meters u fails)
          (logs o faults)
          (beats o faults)
          (events_of actor o)
          u
          s.last_raw
          s
          (elim (meter_usage fails u s) as (λ _. Processed) [
            | none ↦ processed failed s
            | some v ↦ promote_if faults actor now o v
          ])
  unfolding meter_usage metered processed is_failed
  after_meter-Effect now fails none o s =
      let e = promote_if-Effect now o s in
      record { failing = e.failing; log = e.log; meter = e.meter; journalled = e.journalled }
  after_meter-Effect now true (some u) o s = record {
    failing = refl;
    log = refl;
    meter = refl;
    journalled = refl;
  }
  after_meter-Effect now false (some u) o s =
      let e = promote_if-Effect now o (metered (fold_usage u s.meter) s) in
      record { failing = e.failing; log = e.log; meter = e.meter; journalled = e.journalled }

module _ (rec : AgentEvent → Option Promotion) (actor : String) where
  pub process-Effect :
      (faults : Faults) (now : ℕ) (f : Frame) (s : Session)
      → Effect
          (tees s.last_raw f faults)
          (meters f.usage faults.meter_fails)
          (logs (rec f.event) faults)
          (beats (rec f.event) faults)
          (events_of actor (rec f.event))
          f.usage
          (raw_after s.last_raw f)
          s
          (process rec faults actor now f s)
  unfolding process teed processed is_failed
  process-Effect faults now f s =
      after (repeats s.last_raw f) (contains (trim_right is_newline f.raw) "\n" || faults.tee_fails)
    where
      after :
          (again broken : Bool)
          → Effect
              (again || not broken)
              (meters f.usage faults.meter_fails)
              (logs (rec f.event) faults)
              (beats (rec f.event) faults)
              (events_of actor (rec f.event))
              f.usage
              (if again then s.last_raw else f.raw)
              s
              (after_tee rec faults actor now f s
                (if again then some s else if broken then none else some (teed f.raw s)))
      after true broken =
          let e = after_meter-Effect actor faults now faults.meter_fails f.usage (rec f.event) s in
          record { failing = e.failing; log = e.log; meter = e.meter; journalled = e.journalled }
      after false true = record { failing = refl; log = refl; meter = refl; journalled = refl }
      after false false =
          let e =
            after_meter-Effect actor faults now faults.meter_fails f.usage (rec f.event)
              (teed f.raw s) in
          record { failing = e.failing; log = e.log; meter = e.meter; journalled = e.journalled }

  -- Which of a frame's parts take place.
  abbrev pub charges : String → Frame × ℕ × Faults → Bool
  charges prior (f, now, faults) = tees prior f faults && meters f.usage faults.meter_fails

  abbrev pub hands_on : String → Frame × ℕ × Faults → Bool
  hands_on prior (f, now, faults) =
      tees prior f faults && (meters f.usage faults.meter_fails && logs (rec f.event) faults)

  abbrev pub passes : String → Frame × ℕ × Faults → Bool
  passes prior (f, now, faults) =
      tees prior f faults
      && (meters f.usage faults.meter_fails
          && (logs (rec f.event) faults && beats (rec f.event) faults))

  -- The frames before the first of which a write fails.
  abbrev pub up_to_failure : String → Frames → Frames
  up_to_failure prior [] = []
  up_to_failure prior (x ∷ frames) =
      let rest = up_to_failure (raw_after prior x.0) frames in
      if passes prior x then x ∷ rest else []

  -- What that first frame, if there is one, still leaves.
  abbrev pub partial {ℓ} :
      {A : Type ℓ} → (String → Frame × ℕ × Faults → List A) → String → Frames → List A
  partial part prior [] = []
  partial part prior (x ∷ frames) =
      let rest = partial part (raw_after prior x.0) frames in
      if passes prior x then rest else part prior x

  -- A frame all of whose writes take place.
  pub record Passed (f : Frame) (s : Session) (p : Processed) : Type 0 where
    pub went_on : is_failed p.outcome ≡ false
    pub log : p.session.log ≡ s.log ++ events_of actor (rec f.event)
    pub meter : figures p.session.meter ≡ figures (metered_by f.usage s.meter)
    pub journalled : p.session.last_raw ≡ raw_after s.last_raw f

  Effect-Passed :
      (t m l b : Bool) (f : Frame) (s : Session) (p : Processed)
      → Effect t m l b (events_of actor (rec f.event)) f.usage (raw_after s.last_raw f) s p
      → (t && (m && (l && b))) ≡ true
      → Passed f s p
  Effect-Passed true true true true f s p e h = record {
    went_on = e.failing;
    log = e.log;
    meter = e.meter;
    journalled = e.journalled;
  }
  Effect-Passed true true true false f s p e h = cc
  Effect-Passed true true false b f s p e h = cc
  Effect-Passed true false l b f s p e h = cc
  Effect-Passed false m l b f s p e h = cc

  pub process-Passed :
      (faults : Faults) (now : ℕ) (f : Frame) (s : Session)
      → passes s.last_raw (f, now, faults) ≡ true
      → Passed f s (process rec faults actor now f s)
  process-Passed faults now f s h =
      Effect-Passed (tees s.last_raw f faults) (meters f.usage faults.meter_fails)
        (logs (rec f.event) faults) (beats (rec f.event) faults) f s _
        (process-Effect faults now f s) h
