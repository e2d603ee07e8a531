-- ===== src/Project/State/Laws.antt =====
-- The control state against its description: the last lifecycle event and the open escalations.
use mathlib.Core.Path.{subst}
use mathlib.Core.List.Memᴰ
use draiver.Prelude.{
  ℕ, ◌≡◌, refl, sym, ap, ◌∙◌, inl, inr, Bool, true, false, Option, none, some, List, [], ◌∷◌, ◌++◌,
  append_assoc, append-nil, Memᴰ, arith, ◌==◌, eq_iff, if◌then◌else◌, Bool-cases, Option-cases,
  select, All,
}
use draiver.Event.{Event}
use draiver.Project.State.{is_lifecycle, resolved_seqs, is_open, scan, decide_state, derive}
use draiver.Prelude.Maps.{string_key, nat_key}

-- The last event of a log that passes a test.
abbrev pub last_where : (Event → Bool) → List Event → Option Event
last_where p [] = none
last_where p (e ∷ es) = elim (last_where p es) [
  | some x ↦ some x
  | none ↦ if p e then some e else none
]

abbrev or_else : Option Event → Option Event → Option Event
or_else (some x) y = some x
or_else none y = y

or_else-none : (o : Option Event) → or_else o none ≡ o
or_else-none none = refl
or_else-none (some x) = refl

unfoldable pub lifecycle : Event → Bool
lifecycle e = is_lifecycle e.kind

scan_lem :
    (resolved : List ℕ) (es opened : List Event) (latest : Option Event)
    → scan resolved es opened latest
      ≡ (opened ++ select (is_open resolved) es, or_else (last_where lifecycle es) latest)
unfolding scan lifecycle
scan_lem resolved [] opened latest = simp append-nil
scan_lem resolved (e ∷ es) opened latest = ground (
  arith,
  scan_lem resolved es opened latest,
  scan_lem resolved es opened (some e),
  scan_lem resolved es (opened ++ e ∷ []) latest,
  scan_lem resolved es (opened ++ e ∷ []) (some e),
  append_assoc opened (e ∷ []) (select (is_open resolved) es),
)

pub derive_lem :
    (es : List Event)
    → derive es ≡ decide_state (select (is_open (resolved_seqs es)) es, last_where lifecycle es)
unfolding derive
derive_lem es = rw (scan_lem, or_else-none)

pub derive-open : (es : List Event) → (derive es).1 ≡ select (is_open (resolved_seqs es)) es
unfolding decide_state
derive-open es = rw derive_lem (ground arith)

-- The events that a resolution of the log refers to.
abbrev pub Resolves : List Event → ℕ → Type 0
Resolves es n = (r : Event) × Memᴰ r es × (r.kind ≡ "resolution") × Memᴰ n r.refs

pub of_Mem-resolved_seqs : (es : List Event) (n : ℕ) → Memᴰ n (resolved_seqs es) → Resolves es n
unfolding resolved_seqs
of_Mem-resolved_seqs [] n m = elim m [ ]
of_Mem-resolved_seqs (e ∷ es) n m = elim (Bool-cases (e.kind == "resolution")) [
  | inl t ↦ elim (Memᴰ.append_cases e.refs (rw t at m)) [
    | inl here ↦ (e, Memᴰ.head refl, (eq_iff e.kind "resolution").0 t, here)
    | inr later ↦ let (r, k, h, l) = of_Mem-resolved_seqs es n later in (r, Memᴰ.tail k, h, l)
  ]
  | inr f ↦ let (r, k, h, l) = of_Mem-resolved_seqs es n (rw f at m) in (r, Memᴰ.tail k, h, l)
]

pub Mem-resolved_seqs : (es : List Event) (n : ℕ) → Resolves es n → Memᴰ n (resolved_seqs es)
unfolding resolved_seqs
Mem-resolved_seqs [] n (r, m, h, l) = elim m [ ]
Mem-resolved_seqs (e ∷ es) n (r, Memᴰ.head p, h, l) =
    rw ((eq_iff e.kind "resolution").1 (ap (λ (x : Event). x.kind) (sym p) ∙ h))
      (Memᴰ.append_left (resolved_seqs es) (subst (λ (x : Event). Memᴰ n x.refs) p l))
Mem-resolved_seqs (e ∷ es) n (r, Memᴰ.tail m, h, l) = elim (Bool-cases (e.kind == "resolution")) [
  | inl t ↦ rw t (Memᴰ.append_right e.refs (Mem-resolved_seqs es n (r, m, h, l)))
  | inr f ↦ rw f (Mem-resolved_seqs es n (r, m, h, l))
]

-- A log whose last event that moves the control state is `e`.
pub record LastLifecycle (es : List Event) (e : Event) : Type 0 where
  pub before : List Event
  pub after : List Event
  pub split : es ≡ before ++ e ∷ after
  pub moves : is_lifecycle e.kind ≡ true
  pub latest : All (λ x. is_lifecycle x.kind ≡ false) after

last_where-none :
    (es : List Event) → last_where lifecycle es ≡ none → All (λ x. is_lifecycle x.kind ≡ false) es
unfolding lifecycle
last_where-none [] h = tt
last_where-none (e ∷ es) h = (ground arith, last_where-none es (ground arith))

pub last_where-LastLifecycle :
    (es : List Event) (e : Event) → last_where lifecycle es ≡ some e → LastLifecycle es e
unfolding lifecycle
last_where-LastLifecycle [] e h = cc
last_where-LastLifecycle (x ∷ es) e h = elim (Option-cases (last_where lifecycle es)) [
  | inr (y, p) ↦
      let w = last_where-LastLifecycle es e (ground arith) in
      record {
        before = x ∷ w.before;
        after = w.after;
        split = ap (λ (t : List Event). x ∷ t) w.split;
        moves = w.moves;
        latest = w.latest;
      }
  | inl p ↦
      let eq : (x ≡ e) × (is_lifecycle x.kind ≡ true) = ground arith in
      record {
        before = [];
        after = es;
        split = ap (λ (t : Event). t ∷ es) eq.0;
        moves = subst (λ (t : Event). is_lifecycle t.kind ≡ true) eq.0 eq.1;
        latest = last_where-none es p;
      }
]

last_where-none_of_All :
    (es : List Event) → All (λ x. is_lifecycle x.kind ≡ false) es → last_where lifecycle es ≡ none
unfolding lifecycle
last_where-none_of_All [] h = refl
last_where-none_of_All (e ∷ es) h = ground (arith, last_where-none_of_All es h.1)

split_last_where :
    (before after : List Event) (e : Event)
    → is_lifecycle e.kind ≡ true
    → All (λ x. is_lifecycle x.kind ≡ false) after
    → last_where lifecycle (before ++ e ∷ after) ≡ some e
unfolding lifecycle
split_last_where [] after e m h = ground (arith, last_where-none_of_All after h)
split_last_where (x ∷ before) after e m h = ground (arith, split_last_where before after e m h)

pub LastLifecycle-last_where :
    (es : List Event) (e : Event) → LastLifecycle es e → last_where lifecycle es ≡ some e
LastLifecycle-last_where es e w =
    subst (λ t. last_where lifecycle t ≡ some e) (sym w.split)
      (split_last_where w.before w.after e w.moves w.latest)
