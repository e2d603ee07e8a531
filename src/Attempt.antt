-- ===== src/Attempt.antt =====
-- internal/attempt: the names and numbers of attempts, and what `Create` writes.
-- strconv.Atoi is a parameter; an id that it does not read as a positive number counts as 0.
pub mod Numbers
use Prim.Native.Char.{Char, code}
use Prim.Native.String
use draiver.Prelude.{
  ℕ, ◌+◌, String, ◌<>◌, Bool, false, not, ◌||◌, Option, none, some, List, [], ◌∷◌, ◌==◌, ltb, eqb,
  if◌then◌else◌,
}
use draiver.Prelude.Text.{is_space, pad}

-- The fields of `Meta` that the verbs read.
pub record Meta : Type 0 where
  pub tool : String
  pub model : String
  pub repo : String
  pub base : String
  pub actor : String
  pub from : String

-- A rune that no name may hold.
pub bad_rune : Char → Bool
bad_rune c =
    eqb (code c) (code "/") || eqb (code c) (code "\\") || eqb (code c) (code "@") || is_space c

pub any_bad : String → Bool
unfolding bad_rune
any_bad String.[] = false
any_bad (String.◌∷◌ c s) = bad_rune c || any_bad s

-- `ValidateName`, with true for no error.
unfoldable pub validate_name : String → Bool
unfolding any_bad
validate_name name = not (name == "" || name == "." || name == ".." || any_bad name)

pub or_zero : Option ℕ → ℕ
or_zero none = 0
or_zero (some n) = n

-- The loop of `nextID`.
pub max_id : (String → Option ℕ) → List String → ℕ → ℕ
unfolding or_zero
max_id atoi [] max = max
max_id atoi (id ∷ ids) max =
    max_id atoi ids (if ltb max (or_zero (atoi id)) then or_zero (atoi id) else max)

-- `nextID`
unfoldable pub next_id : (String → Option ℕ) → List String → String
unfolding max_id pad
next_id atoi ids = pad 4 (max_id atoi ids 0 + 1)

-- The body of the event that opens an attempt's log.
unfoldable pub created_body : String → String → String → String
created_body id tool model =
    "Attempt "
    <> id
    <> " started"
    <> (if tool == ""
        then ""
        else " (tool: " <> tool <> (if model == "" then "" else ", model: " <> model) <> ")")
