-- ===== src/Watch/Recognize.antt =====
-- internal/watch/recognize.go: `ProtocolRecognizer`, the protocol verbs among the shell calls.
-- The JSON decoding of a tool's input and strconv.Atoi are parameters; a ref is what Atoi gives.
pub mod Lossless
use draiver.Prelude.{
  ℕ, String, Bool, true, false, not, ◌&&◌, ◌||◌, Option, none, some, List, [], ◌∷◌, ◌++◌, ◌==◌, eqb,
  if◌then◌else◌,
}
use draiver.Prelude.Text.{trim_right, has_prefix, contains}
use Prim.Native.Char.{Char, code}
use Prim.Native.String
use draiver.Watch.{tokenize}

pub record Promotion : Type 0 where
  pub kind : String
  pub body : String
  pub refs : List ℕ
  pub artefacts : List String

-- `shell_tools` is nil where there is none.
pub record ProtocolRecognizer : Type 0 where
  pub ticket : String
  pub bin : String
  pub shell_tools : Option (List String)

-- What the packages encoding/json, strconv and strings do: the command field of a tool's input,
-- nothing where it does not decode; Atoi; EqualFold.
pub record Codecs : Type 0 where
  pub command : String → Option String
  -- strconv.Atoi; a negative number, which the code takes too, is left out
  pub atoi : String → Option ℕ
  pub equal_fold : String → String → Bool

-- The fields of an agent.Event that the recognizer reads: the kind's test, and the tool.
pub record ToolEvent : Type 0 where
  pub name : String
  pub input : String

pub record AgentEvent : Type 0 where
  pub is_tool_call : Bool
  pub tool : Option ToolEvent

-- The variables of the loop over the arguments.
pub record Parsed : Type 0 where
  pub pos : List String
  pub typ : String
  pub refs : List ℕ
  pub arts : List String

-- What an argument is, in the order of the switch.
pub data Arg : Type 0 where
  type_flag ref_flag artefact_flag unknown_flag operand : Arg
  type_is ref_is artefact_is : String → Arg

-- `t[len(p):]`
pub drop_prefix : String → String → String
drop_prefix String.[] t = t
drop_prefix (String.◌∷◌ c p) String.[] = ""
drop_prefix (String.◌∷◌ c p) (String.◌∷◌ d t) = drop_prefix p t

unfoldable pub arg : String → Arg
unfolding drop_prefix
arg t =
    if t == "--type"
    then type_flag
    else if has_prefix "--type=" t
    then type_is (drop_prefix "--type=" t)
    else if t == "--ref"
    then ref_flag
    else if has_prefix "--ref=" t
    then ref_is (drop_prefix "--ref=" t)
    else if t == "--artefact"
    then artefact_flag
    else if has_prefix "--artefact=" t
    then artefact_is (drop_prefix "--artefact=" t)
    else if has_prefix "-" t
    then unknown_flag
    else operand

pub set_type : String → Parsed → Parsed
set_type t p = record { pos = p.pos; typ = t; refs = p.refs; arts = p.arts }

pub add_ref : Option ℕ → Parsed → Option Parsed
add_ref none p = none
add_ref (some n) p =
    some (record { pos = p.pos; typ = p.typ; refs = p.refs ++ n ∷ []; arts = p.arts })

pub add_artefact : String → Parsed → Parsed
add_artefact a p = record { pos = p.pos; typ = p.typ; refs = p.refs; arts = p.arts ++ a ∷ [] }

pub add_operand : String → Parsed → Parsed
add_operand t p = record { pos = p.pos ++ t ∷ []; typ = p.typ; refs = p.refs; arts = p.arts }

-- What a flag does that takes the next argument as its value.
pub with_value : Codecs → Arg → String → Parsed → Option Parsed
unfolding set_type add_ref add_artefact
with_value k type_flag v p = some (set_type v p)
with_value k ref_flag v p = add_ref (k.atoi v) p
with_value k artefact_flag v p = some (add_artefact v p)
with_value k a v p = some p

-- An argument that stands alone.
pub alone : Codecs → Arg → String → Parsed → Option Parsed
unfolding set_type add_ref add_artefact add_operand
alone k (type_is v) t p = some (set_type v p)
alone k (ref_is v) t p = add_ref (k.atoi v) p
alone k (artefact_is v) t p = some (add_artefact v p)
alone k unknown_flag t p = some p
alone k operand t p = some (add_operand t p)
alone k type_flag t p = none
alone k ref_flag t p = none
alone k artefact_flag t p = none

pub takes_value : Arg → Bool
takes_value type_flag = true
takes_value ref_flag = true
takes_value artefact_flag = true
takes_value a = false

-- The loop; a flag whose value is missing fails.
pub parse_args : Codecs → List String → Parsed → Option Parsed
unfolding arg with_value alone takes_value
parse_args k [] p = some p
parse_args k (t ∷ []) p = alone k (arg t) t p
parse_args k (t ∷ v ∷ rest) p =
    let next = parse_args k rest in
    let here = parse_args k (v ∷ rest) in
    if takes_value (arg t)
    then elim (with_value k (arg t) v p) [ none ↦ none | some q ↦ next q ]
    else elim (alone k (arg t) t p) [ none ↦ none | some q ↦ here q ]

pub promotion : String → String → Parsed → Promotion
promotion kind body p = record { kind = kind; body = body; refs = p.refs; artefacts = p.arts }

-- The switch on the verb; the operands behind the ticket.
pub of_verb : String → List String → Parsed → Option Promotion
unfolding promotion
of_verb verb [] p =
    if verb == "review"
    then some (promotion "review" "Agent claims the ticket is complete; ready for review." p)
    else if verb == "park"
    then some (promotion "park" "Parked: suspending to Pending until a wake source fires." p)
    else none
of_verb verb (body ∷ rest) p =
    if verb == "log"
    then (if p.typ == "" then none else some (promotion p.typ body p))
    else if verb == "escalate"
    then some (promotion "escalation" body p)
    else if verb == "review"
    then some (promotion "review" body p)
    else if verb == "park"
    then some (promotion "park" body p)
    else none

pub of_ticket : ProtocolRecognizer → String → List String → Parsed → Option Promotion
unfolding of_verb
of_ticket r verb [] p = none
of_ticket r verb (ticket ∷ rest) p =
    if not (r.ticket == "") && not (ticket == r.ticket) then none else of_verb verb rest p

-- `fromArgs`
unfoldable pub from_args : Codecs → ProtocolRecognizer → List String → Option Promotion
unfolding parse_args of_ticket
from_args k r [] = none
from_args k r (verb ∷ rest) =
    elim (parse_args k rest (record { pos = []; typ = ""; refs = []; arts = [] })) [
      | none ↦ none
      | some p ↦ of_ticket r verb p.pos p
    ]

-- `bin`
unfoldable pub bin_name : ProtocolRecognizer → String
bin_name r = if r.bin == "" then "draiver" else r.bin

pub any_tool : Codecs → List String → String → Bool
any_tool k [] name = false
any_tool k (t ∷ ts) name = k.equal_fold t name || any_tool k ts name

-- `isShellTool`
unfoldable pub is_shell_tool : Codecs → ProtocolRecognizer → String → Bool
unfolding any_tool
is_shell_tool k r name = elim r.shell_tools [
  | none ↦ any_tool k ("Bash" ∷ []) name
  | some tools ↦ any_tool k tools name
]

is_slash : Char → Bool
is_slash c = eqb (code c) 47

after_slash : String → String
unfolding contains
after_slash String.[] = ""
after_slash (String.◌∷◌ c s) =
    let rest = after_slash s in if contains (String.◌∷◌ c s) "/" then rest else String.◌∷◌ c s

-- `path.Base`
pub base_name : String → String
unfolding trim_right after_slash is_slash
base_name p =
    let q = trim_right is_slash p in if p == "" then "." else if q == "" then "/" else after_slash q

starts_suffix : String → Bool
starts_suffix String.[] = false
starts_suffix (String.◌∷◌ c s) = eqb (code c) 45 || eqb (code c) 46 || eqb (code c) 95

-- `matchesBin`
unfoldable pub matches_bin : String → String → Bool
unfolding base_name drop_prefix starts_suffix
matches_bin tok bin =
    let base = base_name tok in
    base == bin || (has_prefix bin base && starts_suffix (drop_prefix bin base))

-- `shellCommand`; an empty command is none.
unfoldable pub shell_command : Codecs → String → Option String
shell_command k input =
    if input == ""
    then none
    else elim (k.command input) [ none ↦ none | some cmd ↦ if cmd == "" then none else some cmd ]

-- The tokens of a line: the binary and at least one argument.
pub of_tokens : Codecs → ProtocolRecognizer → Option (List String) → Option Promotion
unfolding matches_bin bin_name
of_tokens k r none = none
of_tokens k r (some []) = none
of_tokens k r (some (tok ∷ [])) = none
of_tokens k r (some (tok ∷ verb ∷ rest)) =
    if matches_bin tok (bin_name r) then from_args k r (verb ∷ rest) else none

pub of_tool : Codecs → ProtocolRecognizer → ToolEvent → Option Promotion
unfolding is_shell_tool shell_command of_tokens
of_tool k r tool =
    if is_shell_tool k r tool.name
    then elim (shell_command k tool.input) [ none ↦ none | some cmd ↦ of_tokens k r (tokenize cmd) ]
    else none

-- `Recognize`
unfoldable pub recognize : Codecs → ProtocolRecognizer → AgentEvent → Option Promotion
unfolding of_tool
recognize k r ev = elim ev.tool [
  | none ↦ none
  | some tool ↦ if ev.is_tool_call then of_tool k r tool else none
]
