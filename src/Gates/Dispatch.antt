-- ===== src/Gates/Dispatch.antt =====
-- reconcile.go: `dispatch`, which takes one frame of a session through its four gates.
-- The watcher's pass comes before and is left out; what the gates read and which of their calls fail
-- is `Answers`. A permission request is a frame with a tool.
pub mod Once
use draiver.Prelude.{
  ℕ, String, Bool, true, false, not, Option, none, some, List, [], ◌∷◌, ◌++◌, if◌then◌else◌,
}
use draiver.Project.State.{ticket}
use draiver.Log.{Dir}
use draiver.Wake.{World}
use draiver.Gates.Permission.{Policy}
use draiver.Gates.Permission.Request
use draiver.Gates.Context
use draiver.Gates.Completion
use draiver.Gates.Rationale

pub record Frame : Type 0 where
  pub tokens : Option ℕ
  pub success : Bool
  pub tool : Option String

pub record Gates : Type 0 where
  pub ticket : String
  pub limit : Context.Gate
  pub completion : Completion.Gate
  pub rationale : Rationale.Gate
  pub policy : Policy

pub record Answers : Type 0 where
  pub append_fails : Bool
  pub halt_fails : Bool
  pub world : World
  pub faults : Completion.Faults
  pub log : Dir
  pub deny_fails : Bool
  pub decide_fails : Bool
  pub hand_over_fails : Bool
  pub has_halt : Bool
  pub reap_fails : Bool

-- The gates after the frame, and what the agent was answered: true allows, false denies.
pub record Dispatched : Type 0 where
  pub gates : Gates
  pub answered : List Bool

answer_list : Option Bool → List Bool
answer_list none = []
answer_list (some b) = b ∷ []

abbrev is_stopped : Context.Considered → Bool
is_stopped c = elim c.outcome [ Context.stopped ↦ not c.failed | o ↦ false ]

abbrev is_escalated : Completion.Considered → Bool
is_escalated c = elim c.outcome [ Completion.escalated ↦ not c.failed | o ↦ false ]

abbrev is_withheld : Rationale.Considered → Bool
is_withheld c = elim c.outcome [ Rationale.withheld ↦ true | o ↦ false ]

-- The two gates on a permission request.
ask : Gates → Answers → String → List Bool
unfolding answer_list
ask g a tool =
    let c = Rationale.consider g.rationale (some tool) a.log a.deny_fails in
    let d =
      Request.consider g.policy (some tool) a.decide_fails a.hand_over_fails a.has_halt
        a.reap_fails in
    let denial = if c.denied then false ∷ [] else [] in
    if c.failed then denial else if is_withheld c then denial else denial ++ answer_list d.answer

-- Behind the limit and the turn end: `past` are the gates after them.
on_request : Gates → Gates → Answers → Option String → Dispatched
unfolding ask
on_request past g a none = record { gates = past; answered = [] }
on_request past g a (some tool) = record { gates = past; answered = ask g a tool }

-- `dispatch`
unfoldable pub dispatch : Gates → Answers → Frame → Dispatched
unfolding on_request
dispatch g a f =
    let l = Context.consider g.limit f.tokens a.append_fails a.halt_fails in
    let c = Completion.consider g.ticket g.completion f.success a.world a.faults in
    let past_limit = record g { limit = l.gate } in
    let past_turn = record past_limit { completion = c.gate } in
    if is_stopped l
    then record { gates = past_limit; answered = [] }
    else if is_escalated c
    then record { gates = past_turn; answered = [] }
    else on_request past_turn g a f.tool
