-- ===== src/Reconcile/Activation/Replay.antt =====
-- One wake, one doorbell: what a wake writes holds off the next, and no doorbell is answered twice.
use draiver.Prelude.{
  ◌<◌, String, ◌≡◌, refl, sym, ap, ◌∙◌, ◌≢◌, ◌⊎◌, inl, inr, Bool, true, false, false≢true, Option,
  List, [], ◌∷◌, ◌++◌, Memᴰ, arith, ◌==◌, eq_iff, if◌then◌else◌, Bool-cases, Option-cases,
  not_equal,
}
use draiver.Prelude.Maps.{string_key, nat_key, ref_key, has, insert}
use draiver.Event.{Event}
use draiver.Project.Axes.{Supervision}
use draiver.Project.State.{Parsed, ok, err}
use draiver.Reconcile.Activation.{
  Doorbell, doorbell_key, Phase, phase_step, phase_from, phase, before, pending_doorbells, woken_by,
  Pass, in_flight, author, admit_oldest, activate_coordinator,
}
use draiver.Project.Fleet.{Attempt, Ref, ref, takes_escalation}
use draiver.Reconcile.Activation.Queue.{Rings, pending_doorbells-Rings}

phase_from-append :
    (p : Phase) (es : List Event) (e : Event)
    → phase_from p (es ++ e ∷ []) ≡ phase_step (phase_from p es) e
unfolding phase_from
phase_from-append p [] e = refl
phase_from-append p (x ∷ es) e = phase_from-append (phase_step p x) es e

phase-append : (es : List Event) (e : Event) → phase (es ++ e ∷ []) ≡ phase_step (phase es) e
unfolding phase
phase-append es e = phase_from-append _ es e

phase_from_split :
    (p : Phase) (before after : List Event) (e : Event)
    → phase_from p (before ++ e ∷ after) ≡ phase_from (phase_step (phase_from p before) e) after
unfolding phase_from
phase_from_split p [] after e = refl
phase_from_split p (x ∷ before) after e = phase_from_split (phase_step p x) before after e

phase_split :
    (before after : List Event) (e : Event)
    → phase (before ++ e ∷ after) ≡ phase_from (phase_step (phase before) e) after
unfolding phase
phase_split before after e = phase_from_split _ before after e

-- The activation of a wake, as the log holds it: Append sets its seq and leaves these.
abbrev pub Answers : Event → Doorbell → Type 0
Answers e d = (e.kind ≡ "woken-by") × (e.woken_child ≡ d.child) × (e.woken_seq ≡ d.seq)

woken_in_flight :
    (p : Phase) (e : Event)
    → e.kind ≡ "woken-by"
    → p.park < e.seq
    → in_flight (phase_step p e) ≡ true
unfolding phase_step
woken_in_flight p e k h = rw k (ground arith)

kept :
    (p : Phase) (e : Event) (k : String)
    → has p.handled k ≡ true
    → has (phase_step p e).handled k ≡ true
unfolding phase_step has
kept p e k h = ground arith

kept_from :
    (p : Phase) (es : List Event) (k : String)
    → has p.handled k ≡ true
    → has (phase_from p es).handled k ≡ true
unfolding phase_from
kept_from p [] k h = h
kept_from p (e ∷ es) k h = kept_from (phase_step p e) es k (kept p e k h)

answered :
    (p : Phase) (e : Event) (d : Doorbell)
    → Answers e d
    → d.child ≢ ""
    → 0 < d.seq
    → has (phase_step p e).handled (doorbell_key d.child d.seq) ≡ true
unfolding phase_step has
answered p e d (k, c, s) n z =
    let key : String = doorbell_key d.child d.seq in
    let same : (key == key) ≡ true = (eq_iff key key).1 refl in
    rw (k, c, s, not_equal n) (ground (arith, same))

-- A doorbell of a named child that an activation of the log answers, with a seq from 1, never
-- stands in the queue again, whatever the children's logs say.
pub phase-Answers :
    (before after : List Event) (e : Event) (d : Doorbell) (wants : List String)
    (attempts : List Attempt)
    → Answers e d
    → d.child ≢ ""
    → 0 < d.seq
    → ¬ Memᴰ d (pending_doorbells wants attempts (phase (before ++ e ∷ after)).handled)
phase-Answers before after e d wants attempts a n z m =
    let p : Phase = phase (before ++ e ∷ after) in
    let key : String = doorbell_key d.child d.seq in
    let (child, i, r) = ((pending_doorbells-Rings wants attempts p.handled).0 d).0 m in
    let (x, j, v, f, q) = r in
    let same : key ≡ doorbell_key child x.seq =
      ap (λ (y : Doorbell). doorbell_key y.child y.seq) q in
    let yes : has p.handled key ≡ true =
      ap (λ (y : Phase). has y.handled key) (phase_split before after e)
      ∙ kept_from (phase_step (phase before) e) after key (answered (phase before) e d a n z) in
    false≢true (sym f ∙ ap (has p.handled) (sym same) ∙ yes)

abbrev entries : List (Ref × Event) → Parsed Pass → List (Ref × Event)
entries none_kept (ok p) = p.authored
entries none_kept (err e) = none_kept

abbrev returns : Parsed Pass → Bool
returns (ok p) = true
returns (err e) = false

module _ (actor : String) (def : Supervision) (append_error : Ref → Event → Option String) where
  -- What one run of the phase machine for a coordinator wrote: nothing, or one activation.
  abbrev pub Woke : Attempt → List String → List Attempt → List Ref → Pass → Pass → Type 0
  Woke w wants attempts live old new =
      (d : Doorbell) × (new.authored ≡ old.authored ++ (ref w, woken_by actor d) ∷ [])
      × Rings wants attempts (phase w.events).handled d
      × (takes_escalation def w ≡ true)
      × (has live (ref w) ≡ false)
      × (in_flight (phase w.events) ≡ false)

  activate_lem :
      (w : Attempt) (wants : List String) (attempts : List Attempt) (live : List Ref) (pass : Pass)
      → activate_coordinator actor def append_error w wants attempts live pass ≡ (
          if takes_escalation def w
          then (if in_flight (phase w.events)
              then ok (record pass { out = insert (ref w) w pass.out })
              else if has live (ref w)
              then ok pass
              else admit_oldest actor def append_error w
                  (pending_doorbells wants attempts (phase w.events).handled)
                  pass)
          else ok pass)
  unfolding activate_coordinator takes_escalation
  activate_lem w wants attempts live pass = ground arith

  admitted_one :
      (w : Attempt) (q : List Doorbell) (old new : Pass)
      → admit_oldest actor def append_error w q old ≡ ok new
      → (new.authored ≡ old.authored)
        ⊎ ((d : Doorbell) × Memᴰ d q
            × (new.authored ≡ old.authored ++ (ref w, woken_by actor d) ∷ []))
  unfolding admit_oldest author
  admitted_one w [] old new h = inl (ground arith)
  admitted_one w (d ∷ q) old new h = elim (Option-cases (append_error (ref w) (woken_by actor d))) [
    | inl n ↦ inr (
      d,
      Memᴰ.head refl,
      ap (entries []) (sym h) ∙ ap (λ o. entries [] (author actor def append_error o w d old)) n,
    )
    | inr (e, s) ↦ absurd (
        false≢true
          (sym (ap (λ o. returns (author actor def append_error o w d old)) s) ∙ ap returns h))
  ]

  -- A run of the phase machine for a coordinator that returns either wrote nothing, or it wrote
  -- one activation, of a doorbell of its queue, for an attempt that is enabled, Running, in
  -- effective mode pre-digest, without a live session and without an activation in flight.
  pub activate_coordinator-Woke :
      (w : Attempt) (wants : List String) (attempts : List Attempt) (live : List Ref)
      (old new : Pass)
      → activate_coordinator actor def append_error w wants attempts live old ≡ ok new
      → (new.authored ≡ old.authored) ⊎ Woke w wants attempts live old new
  activate_coordinator-Woke w wants attempts live old new h =
      elim (Bool-cases (takes_escalation def w)) [
        | inr n ↦ inl (ap (entries []) (sym h ∙ activate_lem w wants attempts live old) ∙ rw n refl)
        | inl t ↦ elim (Bool-cases (in_flight (phase w.events))) [
          | inl f ↦
              inl
                (ap (entries []) (sym h ∙ activate_lem w wants attempts live old) ∙ rw (t, f) refl)
          | inr f ↦ elim (Bool-cases (has live (ref w))) [
            | inl l ↦ inl (
                ap (entries []) (sym h ∙ activate_lem w wants attempts live old)
                ∙ rw (t, f, l) refl)
            | inr l ↦
                let q = pending_doorbells wants attempts (phase w.events).handled in
                let one =
                  admitted_one w q old new
                    (sym (activate_lem w wants attempts live old ∙ rw (t, f, l) refl) ∙ h) in
                elim one [
                  | inl same ↦ inl same
                  | inr (d, m, a) ↦ inr (
                    d,
                    a,
                    ((pending_doorbells-Rings wants attempts (phase w.events).handled).0 d).0 m,
                    t,
                    l,
                    f,
                  )
                ]
          ]
        ]
      ]

  -- While an activation is in flight, the attempt of an enabled, Running, pre-digest coordinator
  -- stays desired and nothing is written; a logged activation that is later than every park is in
  -- flight.
  pub activate_coordinator-in_flight :
      (w : Attempt) (e : Event) (wants : List String) (attempts : List Attempt) (live : List Ref)
      (pass : Pass)
      → takes_escalation def w ≡ true
      → e.kind ≡ "woken-by"
      → (phase w.events).park < e.seq
      → activate_coordinator actor def append_error
          (record w { events = w.events ++ e ∷ [] })
          wants
          attempts
          live
          pass
        ≡ ok (record pass {
          out = insert (ref w) (record w { events = w.events ++ e ∷ [] }) pass.out;
        })
  unfolding takes_escalation
  activate_coordinator-in_flight w e wants attempts live pass t k l =
      activate_lem (record w { events = w.events ++ e ∷ [] }) wants attempts live pass
      ∙ rw (t, phase-append, woken_in_flight (phase w.events) e k l) refl
