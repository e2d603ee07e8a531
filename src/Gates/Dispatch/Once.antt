-- ===== src/Gates/Dispatch/Once.antt =====
-- What one frame's gates answer the agent.
use mathlib.Core.List.Memᴰ
use draiver.Prelude.{
  ◌≤◌, String, ◌≡◌, refl, sym, ap, inl, inr, Bool, true, false, false≢true, Option, none, some,
  List, [], ◌∷◌, Memᴰ, arith, if◌then◌else◌, Bool-cases, length,
}
use draiver.Gates.Permission.{allow, decide}
use draiver.Gates.Permission.Request.{consider-decide}
use draiver.Gates.Context
use draiver.Gates.Completion
use draiver.Gates.Rationale
use draiver.Gates.Rationale.Withheld.{clears, fails, withholds, Way-consider}
use draiver.Gates.Dispatch.{
  Frame, Gates, Answers, answer_list, is_stopped, is_escalated, is_withheld, ask, on_request,
  dispatch,
}

-- The policy allows the tool of the frame, and the rationale gate clears it.
abbrev pub Approved : Gates → Answers → Frame → Type 0
Approved g a f =
    (tool : String) × (f.tool ≡ some tool)
    × (decide g.policy tool ≡ allow)
    × ((Rationale.consider g.rationale (some tool) a.log a.deny_fails).outcome ≡ Rationale.cleared)

Once : List Bool → Type 0 → Type 0
Once bs P = (length bs ≤ 1) × (Memᴰ true bs → P)

nothing_said : (P : Type 0) → Once [] P
unfolding Once
nothing_said P = (omega arith, λ m. elim m [ ])

denied_once : (P : Type 0) (b : Bool) → Once (if b then false ∷ [] else []) P
unfolding Once
denied_once P true = (
  omega arith,
  λ m. elim (Memᴰ.cases_cons m) [ inl e ↦ absurd (false≢true (sym e)) | inr n ↦ elim n [ ] ],
)
denied_once P false = nothing_said P

answered_once : (P : Type 0) (o : Option Bool) → (o ≡ some true → P) → Once (answer_list o) P
unfolding Once answer_list
answered_once P none f = nothing_said P
answered_once P (some b) f = (
  omega arith,
  λ m. elim (Memᴰ.cases_cons m) [ inl e ↦ f (ap some (sym e)) | inr n ↦ elim n [ ] ],
)

withheld_lem : (c : Rationale.Considered) → c.outcome ≡ Rationale.withheld → is_withheld c ≡ true
withheld_lem c e = rw e refl

cleared_lem : (c : Rationale.Considered) → c.outcome ≡ Rationale.cleared → is_withheld c ≡ false
cleared_lem c e = rw e refl

Once-ask :
    (g : Gates) (a : Answers) (tool : String) (P : Type 0)
    → (decide g.policy tool ≡ allow
        → (Rationale.consider g.rationale (some tool) a.log a.deny_fails).outcome
          ≡ Rationale.cleared
        → P)
    → Once (ask g a tool) P
unfolding ask
Once-ask g a tool P f =
    let c = Rationale.consider g.rationale (some tool) a.log a.deny_fails in
    elim (Way-consider g.rationale tool a.log a.deny_fails) [
      | fails e ↦ rw e (denied_once P c.denied)
      | withholds e h ↦ rw (h, withheld_lem c e) (denied_once P c.denied)
      | clears e h d ↦
          rw (h, cleared_lem c e, d)
            (answered_once P _ λ y.
              f
                ((consider-decide g.policy tool a.decide_fails a.hand_over_fails a.has_halt
                    a.reap_fails).0.0
                  y)
                e)
    ]

Once-on_request :
    (past g : Gates) (a : Answers) (f : Frame) (o : Option String)
    → f.tool ≡ o
    → Once (on_request past g a o).answered (Approved g a f)
unfolding on_request
Once-on_request past g a f none e = nothing_said (Approved g a f)
Once-on_request past g a f (some tool) e = Once-ask g a tool (Approved g a f) λ p q. (tool, e, p, q)

-- One frame of a session answers the agent at most once, and it allows a tool only if it is the
-- frame's, the policy allows it and the rationale gate clears it.
pub dispatch-Approved :
    (g : Gates) (a : Answers) (f : Frame)
    → (length (dispatch g a f).answered ≤ 1)
      × (Memᴰ true (dispatch g a f).answered → Approved g a f)
unfolding dispatch Once
dispatch-Approved g a f =
    elim (Bool-cases (is_stopped (Context.consider g.limit f.tokens a.append_fails a.halt_fails))) [
      | inl t ↦ rw t (nothing_said (Approved g a f))
      | inr n ↦
          elim (Bool-cases
            (is_escalated (Completion.consider g.ticket g.completion f.success a.world a.faults))) [
              | inl t ↦ rw (n, t) (nothing_said (Approved g a f))
              | inr m ↦ rw (n, m) (Once-on_request _ g a f f.tool refl)
            ]
    ]
