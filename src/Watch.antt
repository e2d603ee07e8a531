-- ===== src/Watch.antt =====
-- internal/watch/recognize.go: `tokenize`, the split of a shell line into its arguments.
-- A Go string is a list of code points here, as the loop over the runes reads it.
pub mod Quoting
pub mod Recognize
pub mod Stream
use Prim.Native.Char.{Char, code}
use Prim.Native.String
use draiver.Prelude.{
  String, ◌<>◌, ◌≡◌, refl, Bool, true, false, ◌||◌, Option, none, some, List, [], ◌∷◌, ◌++◌, eqb,
  if◌then◌else◌,
}
use draiver.Prelude.Text.{contains}

-- What a rune means outside quotes.
pub data Rune : Type 0 where
  blank breaks quotes double_quotes escapes plain : Rune

-- What a rune means inside double quotes.
pub data Inner : Type 0 where
  closes inner_escape expands literal : Inner

abbrev is : Char → Char → Bool
is c d = eqb (code c) (code d)

-- The cases of the switch; `breaks` is every rune at which the line is refused.
pub rune : Char → Rune
rune c =
    if is c " " || is c "\t"
    then blank
    else if is c "\n" || is c "\r"
    then breaks
    else if is c "|" || is c "&" || is c ";" || is c "<" || is c ">" || is c "(" || is c ")"
    then breaks
    else if is c "'"
    then quotes
    else if is c "\""
    then double_quotes
    else if is c "\\"
    then escapes
    else if is c "$"
    then breaks
    else plain

pub inner : Char → Inner
inner c =
    if is c "\""
    then closes
    else if is c "\\"
    then inner_escape
    else if is c "$" || is c "`"
    then expands
    else literal

-- The four runes that a backslash escapes inside double quotes.
pub unescaped : Char → Bool
unescaped n = is n "\"" || is n "\\" || is n "$" || is n "`"

pub record Scanner : Type 0 where
  pub tokens : List String
  pub cur : String
  pub in_tok : Bool

pub flush : Scanner → Scanner
flush s =
    if s.in_tok then record { tokens = s.tokens ++ s.cur ∷ []; cur = ""; in_tok = false } else s

pub open_tok : Scanner → Scanner
open_tok s = record { tokens = s.tokens; cur = s.cur; in_tok = true }

-- `cur.WriteRune(c)`
pub write : Char → Scanner → Scanner
write c s = record { tokens = s.tokens; cur = s.cur <> String.◌∷◌ c ""; in_tok = s.in_tok }

-- The place of the loop: outside quotes, behind a backslash there, inside the quotes, and
-- behind a backslash inside double quotes.
pub data Mode : Type 0 where
  bare bare_escape single double double_escape : Mode

-- The end of the line.
pub finish : Mode → Scanner → Option (List String)
unfolding flush
finish bare s = some (flush s).tokens
finish bare_escape s = some (flush s).tokens
finish single s = none
finish double s = none
finish double_escape s = none

-- A rune outside quotes: the next place, or nothing where the line is refused.
pub bare_rune : Rune → Char → Scanner → Option (Mode × Scanner)
unfolding flush open_tok write
bare_rune blank c s = some (bare, flush s)
bare_rune breaks c s = none
bare_rune quotes c s = some (single, open_tok s)
bare_rune double_quotes c s = some (double, open_tok s)
bare_rune escapes c s = some (bare_escape, s)
bare_rune plain c s = some (bare, write c (open_tok s))

pub inner_rune : Inner → Char → Scanner → Option (Mode × Scanner)
unfolding write
inner_rune closes c s = some (bare, s)
inner_rune inner_escape c s = some (double_escape, s)
inner_rune expands c s = none
inner_rune literal c s = some (double, write c s)

pub scan_rune : Mode → Char → Scanner → Option (Mode × Scanner)
unfolding bare_rune inner_rune rune inner unescaped write open_tok
scan_rune bare c s = bare_rune (rune c) c s
scan_rune bare_escape c s = some (bare, open_tok (write c s))
scan_rune single c s = some (if is c "'" then (bare, s) else (single, write c s))
scan_rune double c s = inner_rune (inner c) c s
scan_rune double_escape c s =
    some (double, if unescaped c then write c s else write c (write "\\" s))

pub scan : Mode → Scanner → String → Option (List String)
unfolding finish scan_rune
scan mode s String.[] = finish mode s
scan mode s (String.◌∷◌ c line) =
    let next = λ (m : Mode) (t : Scanner). scan m t line in
    elim (scan_rune mode c s) [ none ↦ none | some at ↦ next at.0 at.1 ]

-- The constructs that refuse a line wherever they stand.
unfoldable pub dangerous : String → Bool
unfolding contains
dangerous line = contains line "$(" || contains line "`" || contains line "<<"

-- `tokenize`
unfoldable pub tokenize : String → Option (List String)
unfolding scan dangerous
tokenize line =
    if dangerous line
    then none
    else scan bare (record { tokens = []; cur = ""; in_tok = false }) line

tokenize_example :
    tokenize "draiver log --type=note T 'it'\\''s' \"a \\\" b\" c\\ d"
    ≡ some ("draiver" ∷ "log" ∷ "--type=note" ∷ "T" ∷ "it's" ∷ "a \" b" ∷ "c d" ∷ [])
unfolding tokenize
tokenize_example = refl
