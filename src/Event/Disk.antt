-- ===== src/Event/Disk.antt =====
-- internal/event/event.go: the file that an event is written to, and read back from.
-- yaml.Marshal and yaml.Unmarshal are parameters, on the frontmatter without its `---` lines; the
-- two slices of the source around strings.Index are the two halves of `cut`.
pub mod Roundtrip
use Prim.Native.Char.{Char, code}
use draiver.Prelude.{String, ◌<>◌, not, Option, none, some, ◌==◌, if◌then◌else◌}
use draiver.Event.{Event, canonical_body, truncate_second}
use draiver.Prelude.Text.{has_prefix}
use draiver.Project.State.{Parsed, ok, err}

-- `s[len(p):]`, for a prefix `p`.
unfoldable pub drop_prefix : String → String → String
drop_prefix String.[] s = s
drop_prefix (String.◌∷◌ c p) String.[] = ""
drop_prefix (String.◌∷◌ c p) (String.◌∷◌ d s) = drop_prefix p s

into_front : Char → Option (String × String) → Option (String × String)
into_front c none = none
into_front c (some (a, b)) = some (String.◌∷◌ c a, b)

-- What stands before the first `sep` and behind it; `none` is an index below 0.
unfoldable pub cut : String → String → Option (String × String)
unfolding into_front has_prefix drop_prefix
cut sep String.[] = if has_prefix sep "" then some ("", drop_prefix sep "") else none
cut sep (String.◌∷◌ c s) =
    let rest = cut sep s in
    if has_prefix sep (String.◌∷◌ c s)
    then some ("", drop_prefix sep (String.◌∷◌ c s))
    else into_front c rest

-- `strings.CutSuffix`, of which the source writes out the two halves.
unfoldable pub cut_suffix : String → String → Option String
cut_suffix sep String.[] = if sep == "" then some "" else none
cut_suffix sep (String.◌∷◌ c s) =
    let rest = cut_suffix sep s in
    if String.◌∷◌ c s == sep
    then some ""
    else elim rest [ none ↦ none | some a ↦ some (String.◌∷◌ c a) ]

pub record Yaml : Type 0 where
  pub marshal : Event → Parsed String
  pub unmarshal : String → Parsed Event

module _ (yaml : Yaml) where
  framed : String → Parsed String → Parsed String
  framed body (err e) = err ("marshal frontmatter: " <> e)
  framed body (ok front) =
      ok ("---\n" <> front <> "---\n" <> (if body == "" then "" else body <> "\n"))

  -- `Marshal`
  unfoldable pub marshal : Event → Parsed String
  unfolding framed
  marshal e = framed (canonical_body e.body) (yaml.marshal (record e { ts = truncate_second e.ts }))

  with_body : Option String → Parsed Event → Parsed Event
  with_body body (err e) = err ("event: unmarshal frontmatter: " <> e)
  with_body none (ok e) = ok e
  with_body (some body) (ok e) = ok (record e { body = canonical_body body })

  -- A file that its closing line ends.
  unclosed : Option String → Parsed Event
  unfolding with_body
  unclosed none = err "event: missing frontmatter closer"
  unclosed (some front) = with_body none (yaml.unmarshal front)

  closed : String → Option (String × String) → Parsed Event
  unfolding unclosed with_body
  closed rest none = unclosed (cut_suffix "\n---" rest)
  closed rest (some (front, body)) = with_body (some body) (yaml.unmarshal front)

  -- `Parse`
  unfoldable pub parse : String → Parsed Event
  unfolding closed has_prefix drop_prefix
  parse s =
      let rest = drop_prefix "---\n" s in
      if not (has_prefix "---\n" s)
      then err "event: missing frontmatter opener"
      else closed rest (cut "\n---\n" rest)
