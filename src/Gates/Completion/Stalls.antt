-- ===== src/Gates/Completion/Stalls.antt =====
-- When the completion gate hands a session to a human.
use draiver.Prelude.{
  ℕ, String, ◌≡◌, refl, sym, ap, ◌∙◌, inl, inr, Bool, true, false, not, ◌&&◌, ◌||◌, false≢true,
  List, [], ◌∷◌, arith, ◌==◌, ltb, leb, if◌then◌else◌, Bool-cases, any,
}
use draiver.Event.{Event}
use draiver.Project.State.{Parsed, ok, err, is_empty}
use draiver.Log.{Result, ok, err, read}
use draiver.Wake.{Source, World, pending_sources}
use draiver.Gates.Completion.{
  Gate, handed_off_from, handed_off, has_async_source, Outcome, escalated, Faults, ignore,
  send_nudge, suspend, hand_to_human, unmet_turn, on_sources, consider,
}

-- A newer hand-off of the log: a review or an escalation, or a park if the attempt is parkable.
abbrev pub hands_off : ℕ → Bool → Event → Bool
hands_off baseline parkable e =
    ltb baseline e.seq
    && (e.kind == "review" || e.kind == "escalation" || (parkable && e.kind == "park"))

newer : (a b : ℕ) → leb a b ≡ not (ltb b a)
newer a b = ground arith

table :
    (n r d p saw parkable seen : Bool)
    → (if not n
        then seen || (saw && parkable)
        else if r || d
        then true
        else if p
        then seen || parkable
        else seen || (saw && parkable))
      ≡ (((n && (r || d || (parkable && p))) || seen) || (saw && parkable))
table true true d p saw parkable seen = refl
table true false true p saw parkable seen = refl
table true false false true saw true true = refl
table true false false true saw true false = refl
table true false false true saw false true = refl
table true false false true saw false false = ground arith
table true false false false saw true seen = refl
table true false false false saw false seen = refl
table false r d p saw parkable seen = refl

handed_off_from_lem :
    (b : ℕ) (parkable saw : Bool) (es : List Event)
    → handed_off_from b parkable saw es ≡ (any (hands_off b parkable) es || (saw && parkable))
unfolding handed_off_from
handed_off_from_lem b parkable saw [] = refl
handed_off_from_lem b parkable saw (e ∷ es) =
    rw (newer, handed_off_from_lem b parkable saw es, handed_off_from_lem b parkable true es)
      (table (ltb b e.seq) (e.kind == "review") (e.kind == "escalation") (e.kind == "park") saw
        parkable (any (hands_off b parkable) es))

or_false : (b : Bool) → (b || false) ≡ b
or_false true = refl
or_false false = refl

handed_off_lem :
    (b : ℕ) (parkable : Bool) (es : List Event)
    → handed_off b parkable es ≡ any (hands_off b parkable) es
unfolding handed_off
handed_off_lem b parkable es =
    handed_off_from_lem b parkable false es ∙ or_false (any (hands_off b parkable) es)

is_escalated : Outcome → Bool
is_escalated escalated = true
is_escalated o = false

-- The session ended a turn in success, nothing can wake the attempt, the log has no newer review
-- and no newer escalation, and the nudges are spent.
pub record Stalled (g : Gate) (success : Bool) (w : World) : Type 0 where
  pub unlatched : g.fired ≡ false
  pub ended : success ≡ true
  pub asleep : pending_sources w ≡ ok []
  pub log : List Event
  pub held : read w.log ≡ ok log
  pub no_hand_off : any (hands_off g.baseline false) log ≡ false
  pub spent : (g.has_nudge && ltb g.nudges g.max_nudges) ≡ false

not_nudge :
    (t : String) (g : Gate) (f : Faults) (parkable : Bool)
    → is_escalated (send_nudge t g f parkable).outcome ≡ false
unfolding send_nudge is_escalated
not_nudge t g f parkable = elim (Bool-cases f.nudge_fails) [ inl y ↦ rw y refl | inr n ↦ rw n refl ]

calm :
    (g : Gate) (f : Faults) (sources : List Source)
    → is_escalated
        (if not (is_empty sources)
          then suspend g f (has_async_source sources)
          else hand_to_human g f).outcome
      ≡ true
    → sources ≡ []
unfolding suspend is_escalated
calm g f [] h = refl
calm g f (x ∷ xs) h = absurd (false≢true h)

escalates_unmet :
    (t : String) (g : Gate) (f : Faults) (sources : List Source)
    → is_escalated (unmet_turn t g f sources).outcome ≡ true
    → (sources ≡ []) × ((g.has_nudge && ltb g.nudges g.max_nudges) ≡ false)
unfolding unmet_turn suspend is_escalated
escalates_unmet t g f sources h = elim (Bool-cases (g.has_nudge && ltb g.nudges g.max_nudges)) [
  | inl y ↦ absurd (false≢true (sym (not_nudge t g f (not (is_empty sources))) ∙ (rw y at h)))
  | inr n ↦ (calm g f sources (rw n at h), n)
]

escalates_on :
    (t : String) (g : Gate) (f : Faults) (log : Result (List Event))
    (sources : Parsed (List Source))
    → is_escalated (on_sources t g f log sources).outcome ≡ true
    → (es : List Event) × (sources ≡ ok [])
      × (log ≡ ok es)
      × (any (hands_off g.baseline false) es ≡ false)
      × ((g.has_nudge && ltb g.nudges g.max_nudges) ≡ false)
unfolding ignore is_escalated
escalates_on t g f log (err e) h = cc
escalates_on t g f (err x) (ok sources) h = cc
escalates_on t g f (ok es) (ok sources) h =
    elim (Bool-cases (handed_off g.baseline (not (is_empty sources)) es)) [
      | inl y ↦ absurd (false≢true (sym (rw y refl) ∙ h))
      | inr n ↦
          let (a, b) = escalates_unmet t g f sources (rw n at h) in
          (
            es,
            ap (λ (l : List Source). ok l) a,
            refl,
            sym (handed_off_lem g.baseline false es)
                ∙ ap (λ (l : List Source). handed_off g.baseline (not (is_empty l)) es) (sym a)
                ∙ n,
            b,
          )
    ]

-- A session is escalated to a human only if it ended a turn in success, nothing can wake the
-- attempt, the log holds no newer review or escalation, the nudges are spent and the gate has
-- not fired before.
pub consider-Stalled :
    (t : String) (g : Gate) (success : Bool) (w : World) (f : Faults)
    → (consider t g success w f).outcome ≡ escalated
    → Stalled g success w
unfolding consider ignore is_escalated
consider-Stalled t g success w f h = elim (Bool-cases (g.fired || not success)) [
  | inl y ↦ absurd (false≢true (ap is_escalated (rw y at h)))
  | inr n ↦
      let (es, a, b, c, d) =
        escalates_on t g f (read w.log) (pending_sources w) (ap is_escalated (rw n at h)) in
      record {
        unlatched = ground (arith, n);
        ended = ground (arith, n);
        asleep = a;
        log = es;
        held = b;
        no_hand_off = c;
        spent = d;
      }
]
