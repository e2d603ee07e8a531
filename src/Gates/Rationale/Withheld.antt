-- ===== src/Gates/Rationale/Withheld.antt =====
-- When the gate withholds a tool, and what clears it.
use mathlib.Core.List.Memᴰ
use draiver.Prelude.{
  ℕ, ◌<◌, String, ◌≡◌, refl, sym, ap, ◌∙◌, ◌↔◌, inl, inr, Bool, true, false, not, ◌&&◌, false≢true,
  some, List, [], ◌∷◌, Memᴰ, arith, leb, if◌then◌else◌, Bool-cases, false_iff,
}
use draiver.Event.{Event}
use draiver.Log.{Result, ok, err, Dir, read}
use draiver.Gates.Rationale.{
  requires_rationale, justifies, Gate, has_rationale, cleared, withheld, Considered, on_log,
  consider,
}

-- The log holds a decision or a gotcha that is newer than the session.
abbrev pub Justified : ℕ → List Event → Type 0
Justified baseline es = (e : Event) × Memᴰ e es × (baseline < e.seq) × (justifies e.kind ≡ true)

has_rationale-Justified :
    (baseline : ℕ) (es : List Event) → (has_rationale baseline es ≡ true) ↔ Justified baseline es
unfolding has_rationale
has_rationale-Justified b [] = (λ h. cc, λ w. elim w.1 [ ])
has_rationale-Justified b (e ∷ es) =
    let (f, g) = has_rationale-Justified b es in
    let own : Bool = not (leb e.seq b) && justifies e.kind in
    elim (Bool-cases own) [
      | inl t ↦ (λ h. (e, Memᴰ.head refl, ground arith, ground arith), λ w. ground arith)
      | inr n ↦ (
        λ h. let (x, m, l, j) = f (ground arith) in (x, Memᴰ.tail m, l, j),
        λ (x, m, l, j). elim (Memᴰ.cases_cons m) [
          | inl p ↦
              let same : leb e.seq b ≡ leb x.seq b = ap (λ (y : Event). leb y.seq b) (sym p) in
              let kind : justifies e.kind ≡ justifies x.kind =
                ap (λ (y : Event). justifies y.kind) (sym p) in
              absurd (false≢true (sym n ∙ ground arith))
          | inr k ↦ ground (arith, g (x, k, l, j))
        ],
      )
    ]

consider_lem :
    (g : Gate) (tool : String) (log : Dir) (es : List Event)
    → requires_rationale g.policy tool ≡ true
    → read log ≡ ok es
    → (consider g (some tool) log false).outcome
      ≡ (if has_rationale g.baseline es then cleared else withheld)
unfolding consider
consider_lem g tool log es r h = rw (r, h) (ground arith)

-- On a log that can be read and with a working decider, a tool that needs a rationale is withheld
-- exactly if no decision and no gotcha of the log is newer than the session, and cleared exactly if
-- one is.
pub consider-Justified :
    (g : Gate) (tool : String) (log : Dir) (es : List Event)
    → requires_rationale g.policy tool ≡ true
    → read log ≡ ok es
    → ((consider g (some tool) log false).outcome ≡ withheld ↔ (¬ Justified g.baseline es))
      × ((consider g (some tool) log false).outcome ≡ cleared ↔ Justified g.baseline es)
consider-Justified g tool log es r h =
    let b : Bool = has_rationale g.baseline es in
    let (f, k) = has_rationale-Justified g.baseline es in
    let n = false_iff b (f, k) in
    rw (consider_lem g tool log es r h) (
      (λ e. n.0 (ground arith), λ j. ground (arith, n.1 j)),
      (λ e. f (ground arith), λ j. ground (arith, k j)),
    )

-- A request is cleared without an answer, or the gate failed, or it is withheld.
pub data Way (c : Considered) : Type 0 where
  clears : c.outcome ≡ cleared → c.failed ≡ false → c.denied ≡ false → Way c
  fails : c.failed ≡ true → Way c
  withholds : c.outcome ≡ withheld → c.failed ≡ false → Way c

Way-on_log : (g : Gate) (r : Result (List Event)) (f : Bool) → Way (on_log g r f)
Way-on_log g (err x) f = fails refl
Way-on_log g (ok es) f = elim (Bool-cases (has_rationale g.baseline es)) [
  | inl t ↦ rw t (clears refl refl refl)
  | inr n ↦ elim (Bool-cases f) [
    | inl t ↦ rw (n, t) (fails refl)
    | inr m ↦ rw (n, m) (withholds refl refl)
  ]
]

pub Way-consider :
    (g : Gate) (tool : String) (log : Dir) (f : Bool) → Way (consider g (some tool) log f)
unfolding consider
Way-consider g tool log f = elim (Bool-cases (requires_rationale g.policy tool)) [
  | inl t ↦ rw t (Way-on_log g (read log) f)
  | inr n ↦ rw n (clears refl refl refl)
]
