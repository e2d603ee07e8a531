-- ===== src/Watch/Stream/Metered.antt =====
-- What `Ingest` leaves in the meter.
use mathlib.Core.Path.{subst}
use draiver.Prelude.{
  ℕ, String, ◌≡◌, refl, sym, ap, ◌∙◌, inl, inr, Bool, true, false, Option, none, some, List, [],
  ◌∷◌, ◌++◌, append_assoc, ltb, if◌then◌else◌, Bool-cases,
}
use draiver.Watch.Recognize.{Promotion, AgentEvent}
use draiver.Watch.Stream.{
  Usage, Totals, Meter, Frame, Session, Faults, add_usage, with_cost, fold_usage, process, ingest,
}
use draiver.Watch.Stream.Failure.{
  Frames, figures, metered_by, process-Effect, charges, passes, up_to_failure, partial,
  process-Passed,
}

-- The highest cost of a meter and of the frames it has seen.
abbrev pub highest : ℕ → List Usage → ℕ
highest c [] = c
highest c (u ∷ us) = highest (if ltb c u.cost_usd then u.cost_usd else c) us

-- The tokens of the frames that are requests.
abbrev pub requests : Totals → List Usage → Totals
requests t [] = t
requests t (u ∷ us) = requests (if ltb 0 u.context_tokens then add_usage t u else t) us

-- The context that the last request filled.
abbrev pub last_context : ℕ → List Usage → ℕ
last_context n [] = n
last_context n (u ∷ us) = last_context (if ltb 0 u.context_tokens then u.context_tokens else n) us

-- The meter's figures are those of the frames.
pub Charged : Usage × Totals → List Usage → Usage × Totals → Type 0
Charged a us b =
    (b.0.cost_usd ≡ highest a.0.cost_usd us)
    × (b.0.context_tokens ≡ last_context a.0.context_tokens us)
    × (b.1 ≡ requests a.1 us)

fold_usage-Charged :
    (u : Usage) (m : Meter) → Charged (figures m) (u ∷ []) (figures (fold_usage u m))
unfolding Charged fold_usage with_cost
fold_usage-Charged u m = elim (Bool-cases (ltb 0 u.context_tokens)) [
  | inl t ↦ rw t (refl, refl, refl)
  | inr f ↦ rw f (refl, refl, refl)
]

highest-append : (us vs : List Usage) (c : ℕ) → highest c (us ++ vs) ≡ highest (highest c us) vs
highest-append [] vs c = refl
highest-append (u ∷ us) vs c = highest-append us vs _

last-append :
    (us vs : List Usage) (n : ℕ) → last_context n (us ++ vs) ≡ last_context (last_context n us) vs
last-append [] vs n = refl
last-append (u ∷ us) vs n = last-append us vs _

requests-append :
    (us vs : List Usage) (t : Totals) → requests t (us ++ vs) ≡ requests (requests t us) vs
requests-append [] vs t = refl
requests-append (u ∷ us) vs t = requests-append us vs _

Charged-trans :
    (a b c : Usage × Totals) (us vs : List Usage)
    → Charged a us b
    → Charged b vs c
    → Charged a (us ++ vs) c
unfolding Charged
Charged-trans a b c us vs (p, q, r) (x, y, z) = (
  x ∙ ap (λ n. highest n vs) p ∙ sym (highest-append us vs a.0.cost_usd),
  y ∙ ap (λ n. last_context n vs) q ∙ sym (last-append us vs a.0.context_tokens),
  z ∙ ap (λ n. requests n vs) r ∙ sym (requests-append us vs a.1),
)

abbrev pub usages_of : Option Usage → List Usage
usages_of none = []
usages_of (some u) = u ∷ []

-- The usage of all the frames of a stream.
abbrev pub usages : Frames → List Usage
usages [] = []
usages ((f, now, faults) ∷ frames) = usages_of f.usage ++ usages frames

metered_by-Charged :
    (o : Option Usage) (m : Meter) → Charged (figures m) (usages_of o) (figures (metered_by o m))
unfolding Charged
metered_by-Charged none m = (refl, refl, refl)
metered_by-Charged (some u) m = fold_usage-Charged u m

if_or_nothing-Charged :
    (b : Bool) (o : Option Usage) (m : Meter) (a : Usage × Totals)
    → a ≡ (if b then figures (metered_by o m) else figures m)
    → Charged (figures m) (if b then usages_of o else []) a
if_or_nothing-Charged true o m a e =
    subst (Charged (figures m) (usages_of o)) (sym e) (metered_by-Charged o m)
if_or_nothing-Charged false o m a e =
    subst (Charged (figures m) []) (sym e) (metered_by-Charged none m)

module _ (rec : AgentEvent → Option Promotion) (actor : String) where
  -- The usage of a frame whose write to the meter takes place.
  abbrev pub billed : String → Frame × ℕ × Faults → List Usage
  billed prior (f, now, faults) =
      if charges rec actor prior (f, now, faults) then usages_of f.usage else []

  -- The meter's figures are exactly those of the frames before the first frame of which a write fails
  -- and of that frame, if its journal line and its usage were written: the cost is the highest that
  -- the meter or one of these frames has reported, the context is that of the last of them with one,
  -- and the totals have the tokens of each of them with one added once and of no other frame.
  pub ingest-Charged :
      (frames : Frames) (s : Session)
      → Charged
          (figures s.meter)
          (usages (up_to_failure rec actor s.last_raw frames)
            ++ partial rec actor billed s.last_raw frames)
          (figures (ingest rec actor frames s).meter)
  unfolding ingest
  ingest-Charged [] s = metered_by-Charged none s.meter
  ingest-Charged ((f, now, faults) ∷ frames) s =
      let p = process rec faults actor now f s in
      let e = process-Effect rec actor faults now f s in
      elim (Bool-cases (passes rec actor s.last_raw (f, now, faults))) [
        | inr n ↦ rw n (
            rw (e.failing, n)
              (if_or_nothing-Charged (charges rec actor s.last_raw (f, now, faults)) f.usage s.meter
                _ e.meter))
        | inl y ↦
            let q = process-Passed rec actor faults now f s y in
            let here =
              subst (Charged (figures s.meter) (usages_of f.usage)) (sym q.meter)
                (metered_by-Charged f.usage s.meter) in
            let rest = figures (ingest rec actor frames p.session).meter in
            let later =
              subst
                (λ raw.
                  Charged (figures p.session.meter)
                    (usages (up_to_failure rec actor raw frames)
                      ++ partial rec actor billed raw frames)
                    rest)
                q.journalled (ingest-Charged frames p.session) in
            rw (y, q.went_on)
              (subst (λ us. Charged (figures s.meter) us rest)
                (sym (append_assoc (usages_of f.usage) _ _))
                (Charged-trans _ _ _ (usages_of f.usage) _ here later))
      ]
