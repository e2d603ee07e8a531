-- ===== src/Kb/Headline.antt =====
-- The searchable key of a fact: the first line of a body that has text, stripped and capped.
use Prim.Native.Char.{Char, code}
use Prim.Native.String.{count}
use draiver.Prelude.{
  ℕ, zero, suc, String, ◌<>◌, Bool, ◌||◌, List, [], ◌∷◌, ◌==◌, leb, eqb, if◌then◌else◌,
}
use draiver.Prelude.Text.{trim_left, trim_space}

-- A character in front of the first line.
abbrev onto : Char → List String → List String
onto c [] = String.◌∷◌ c "" ∷ []
onto c (l ∷ ls) = String.◌∷◌ c l ∷ ls

-- `strings.Split(body, "\n")`
unfoldable pub split_lines : String → List String
split_lines String.[] = "" ∷ []
split_lines (String.◌∷◌ c s) =
    let rest = split_lines s in if eqb (code c) 10 then "" ∷ rest else onto c rest

-- The characters of "#>-*+ \t".
is_markup : Char → Bool
is_markup c =
    let n = code c in
    eqb n b'#' || eqb n b'>' || eqb n b'-' || eqb n b'*' || eqb n b'+' || eqb n 32 || eqb n 9

-- `string(r[:n])`
unfoldable pub first_runes : ℕ → String → String
first_runes zero s = ""
first_runes (suc n) String.[] = ""
first_runes (suc n) (String.◌∷◌ c s) = String.◌∷◌ c (first_runes n s)

unfoldable pub truncate_runes : String → ℕ → String
unfolding first_runes
truncate_runes s n = if leb (count s) n then s else trim_space (first_runes n s) <> "…"

-- One line stripped of its markup.
strip_line : String → String
unfolding is_markup
strip_line ln = trim_space (trim_left is_markup (trim_space ln))

abbrev max_headline : ℕ
max_headline = 100

headline_of : List String → String
headline_of [] = "(no body)"
headline_of (ln ∷ lns) =
    let rest = headline_of lns in
    if strip_line ln == "" then rest else truncate_runes (strip_line ln) 100

unfoldable pub headline : String → String
unfolding split_lines headline_of strip_line truncate_runes
headline body = headline_of (split_lines body)
