-- ===== src/Gates/Permission/Request.antt =====
-- internal/gate/gate.go: what the gate does with a permission request.
-- Whether the answer to the agent, the append and the halt fail is a parameter.
use draiver.Prelude.{
  String, ◌≡◌, refl, sym, ap, ◌∙◌, ◌≢◌, ◌↔◌, Bool, true, false, not, ◌&&◌, false≢true, Option, none,
  some, arith, if◌then◌else◌, false_iff,
}
use draiver.Gates.Permission.{Rule, unset, allow, escalate, Policy, decide}

pub data Outcome : Type 0 where
  ignored allowed escalated : Outcome

-- What `Consider` did: its outcome, whether with an error, what it answered the agent, whether it
-- handed an escalation to the log and whether it halted the session.
pub record Considered : Type 0 where
  pub outcome : Outcome
  pub failed : Bool
  pub answer : Option Bool
  pub appended : Bool
  pub halted : Bool

abbrev is_allow : Rule → Bool
is_allow allow = true
is_allow r = false

approve : Bool → Considered
approve decide_fails = record {
  outcome = if decide_fails then ignored else allowed;
  failed = decide_fails;
  answer = some true;
  appended = false;
  halted = false;
}

hand_over : Bool → Bool → Bool → Considered
hand_over append_fails has_halt halt_fails =
    if append_fails
    then record { outcome = ignored; failed = true; answer = none; appended = true; halted = false }
    else record {
      outcome = escalated;
      failed = has_halt && halt_fails;
      answer = some false;
      appended = true;
      halted = has_halt;
    }

-- `Consider`; `tool` is the tool of a permission request, `none` another frame.
unfoldable pub consider : Policy → Option String → Bool → Bool → Bool → Bool → Considered
unfolding approve hand_over decide
consider p none decide_fails append_fails has_halt halt_fails = record {
  outcome = ignored;
  failed = false;
  answer = none;
  appended = false;
  halted = false;
}
consider p (some tool) decide_fails append_fails has_halt halt_fails =
    if is_allow (decide p tool)
    then approve decide_fails
    else hand_over append_fails has_halt halt_fails

is_allow_iff : (r : Rule) → (is_allow r ≡ true) ↔ (r ≡ allow)
is_allow_iff unset = (λ e. absurd (false≢true e), λ e. absurd (false≢true (ap is_allow e)))
is_allow_iff allow = (λ e. refl, λ e. refl)
is_allow_iff escalate = (λ e. absurd (false≢true e), λ e. absurd (false≢true (ap is_allow e)))

said_yes : Option Bool → Bool
said_yes none = false
said_yes (some b) = b

said : {o : Option Bool} → o ≡ some true → said_yes o ≡ true
unfolding said_yes
said e = ap said_yes e

negated : {b : Bool} → not b ≡ true → b ≡ false
negated e = ground arith

answer_lem :
    (p : Policy) (tool : String) (d a b c : Bool)
    → said_yes (consider p (some tool) d a b c).answer ≡ is_allow (decide p tool)
unfolding consider approve hand_over said_yes
answer_lem p tool d a b c = ground arith

yes :
    (p : Policy) (tool : String) (d a b c : Bool)
    → is_allow (decide p tool) ≡ true
    → (consider p (some tool) d a b c).answer ≡ some true
unfolding consider approve
yes p tool d a b c t = rw t refl

appended_lem :
    (p : Policy) (tool : String) (d a b c : Bool)
    → (consider p (some tool) d a b c).appended ≡ not (is_allow (decide p tool))
unfolding consider approve hand_over
appended_lem p tool d a b c = ground arith

-- The agent is told to go on with a tool exactly if the policy allows the tool, and an escalation
-- is handed to the log exactly if it does not, whatever fails.
pub consider-decide :
    (p : Policy) (tool : String) (decide_fails append_fails has_halt halt_fails : Bool)
    → ((consider p (some tool) decide_fails append_fails has_halt halt_fails).answer ≡ some true
        ↔ decide p tool ≡ allow)
      × ((consider p (some tool) decide_fails append_fails has_halt halt_fails).appended ≡ true
          ↔ decide p tool ≢ allow)
consider-decide p tool d a b c =
    let (f, g) = is_allow_iff (decide p tool) in
    let refused = false_iff (is_allow (decide p tool)) (f, g) in
    (
      (λ e. f (sym (answer_lem p tool d a b c) ∙ said e), λ e. yes p tool d a b c (g e)),
      (
        λ e. refused.0 (negated (sym (appended_lem p tool d a b c) ∙ e)),
        λ n. appended_lem p tool d a b c ∙ ap not (refused.1 n),
      ),
    )
