-- ===== src/Watch/Recognize/Lossless.antt =====
-- `Recognize` at the protocol calls that a shell quotation of their arguments writes.
use draiver.Prelude.{
  ℕ, String, ◌≡◌, Bool, true, false, not, some, List, [], ◌∷◌, ◌==◌, if◌then◌else◌,
}
use draiver.Prelude.Text.{has_prefix, itoa}
use draiver.Watch.Recognize.{Promotion, Codecs, Parsed, unknown_flag, arg}

abbrev pub ref_flags : List ℕ → List String → List String
ref_flags [] rest = rest
ref_flags (n ∷ refs) rest = "--ref" ∷ itoa n ∷ ref_flags refs rest

abbrev pub artefact_flags : List String → List String → List String
artefact_flags [] rest = rest
artefact_flags (a ∷ arts) rest = "--artefact" ∷ a ∷ artefact_flags arts rest

abbrev pub type_flags : String → List String → List String
type_flags typ rest = if typ == "" then rest else "--type" ∷ typ ∷ rest

pub data Verb : Type 0 where
  log_verb escalate_verb review_verb park_verb : Verb

abbrev pub word : Verb → String
word log_verb = "log"
word escalate_verb = "escalate"
word review_verb = "review"
word park_verb = "park"

-- The type of the event that a verb writes.
abbrev pub event_kind : Verb → String → String
event_kind log_verb typ = typ
event_kind escalate_verb typ = "escalation"
event_kind review_verb typ = "review"
event_kind park_verb typ = "park"

-- A log call names a type.
abbrev pub is_typed : Verb → String → Bool
is_typed log_verb typ = not (typ == "")
is_typed verb typ = true

-- Flags of other names, each with its value, as `log` takes --supersedes and --tag.
abbrev pub other_flags : List (String × String) → List String
other_flags [] = []
other_flags ((flag, value) ∷ others) = flag ∷ value ∷ other_flags others

abbrev pub values : List (String × String) → List String
values [] = []
values ((flag, value) ∷ others) = value ∷ values others

-- The recogniser knows none of these flags, and no value starts with a dash.
abbrev pub Unknown : List (String × String) → Type 0
Unknown [] = Unit
Unknown ((flag, value) ∷ others) =
    (arg flag ≡ unknown_flag) × (has_prefix "-" value ≡ false) × Unknown others

-- A protocol call: the verb, the type where it is a log, and the rest.
pub record Call : Type 0 where
  pub verb : Verb
  pub typ : String
  pub ticket : String
  pub text : String
  pub refs : List ℕ
  pub artefacts : List String
  pub others : List (String × String)

abbrev pub operands_of : Call → List String
operands_of c = c.ticket ∷ c.text ∷ other_flags c.others

-- Its arguments: the flags that are recognised, the operands, and the other flags.
abbrev pub argv : Call → List String
argv c =
    word c.verb ∷ type_flags c.typ (ref_flags c.refs (artefact_flags c.artefacts (operands_of c)))

abbrev parsed : List String → String → List ℕ → List String → Parsed
parsed pos typ refs arts = record { pos = pos; typ = typ; refs = refs; arts = arts }

-- Atoi reads back what Itoa prints of some numbers.
abbrev pub ReadsBack : Codecs → List ℕ → Type 0
ReadsBack k [] = Unit
ReadsBack k (n ∷ ns) = (k.atoi (itoa n) ≡ some n) × ReadsBack k ns

abbrev pub promoted : Call → Promotion
promoted c = record {
  kind = event_kind c.verb c.typ;
  body = c.text;
  refs = c.refs;
  artefacts = c.artefacts;
}
