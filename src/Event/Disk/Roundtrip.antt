-- ===== src/Event/Disk/Roundtrip.antt =====
-- What `Parse` reads from the file that `Marshal` writes.
use Prim.Native.Char.{Char}
use text.Mathlib.TextLemmas.{nil-append, cons-append, append_assoc as text_assoc}
use draiver.Prelude.{
  String, ◌<>◌, ◌≡◌, refl, sym, ap, ap₂, ◌∙◌, inl, inr, Bool, true, ◌&&◌, Option, none, some, ◌==◌,
  eq_iff, if◌then◌else◌, Bool-cases,
}
use draiver.Event.Disk.{
  drop_prefix, into_front, cut, Yaml, framed, marshal, with_body, closed, parse,
}
use draiver.Prelude.Text.{trim_right, has_prefix}
use draiver.Event.{
  Event, Codec, is_newline, canonical_body, truncate_second, hashable, digest, compute_hash,
}
use draiver.Project.State.{ok}

abbrev closer : String → String
closer b = String.◌∷◌ "\n" (String.◌∷◌ "-" (String.◌∷◌ "-" (String.◌∷◌ "-" (String.◌∷◌ "\n" b))))

closer_lem : (b : String) → "\n---\n" <> b ≡ closer b
closer_lem b =
    rw
      (
        cons-append "\n" "---\n" b,
        cons-append "-" "--\n" b,
        cons-append "-" "-\n" b,
        cons-append "-" "\n" b,
        cons-append "\n" "" b,
        nil-append b,
      )
      refl

-- Joining two texts by clauses.
glue : String → String → String
glue String.[] u = u
glue (String.◌∷◌ c s) u = String.◌∷◌ c (glue s u)

glue_lem : (s u : String) → s <> u ≡ glue s u
unfolding glue
glue_lem String.[] u = nil-append u
glue_lem (String.◌∷◌ c s) u = cons-append c s u ∙ ap (String.◌∷◌ c) (glue_lem s u)

-- The closing line of the frontmatter adds no earlier occurrence of itself.
has_prefix-closer :
    (c : Char) (t b : String)
    → has_prefix "\n---\n" (String.◌∷◌ c (glue t (closer b)))
      ≡ has_prefix "\n---\n" (String.◌∷◌ c (glue t "\n"))
unfolding has_prefix glue
has_prefix-closer c String.[] b = refl
has_prefix-closer c (String.◌∷◌ d String.[]) b = refl
has_prefix-closer c (String.◌∷◌ d (String.◌∷◌ e String.[])) b = refl
has_prefix-closer c (String.◌∷◌ d (String.◌∷◌ e (String.◌∷◌ f String.[]))) b = refl
has_prefix-closer c (String.◌∷◌ d (String.◌∷◌ e (String.◌∷◌ f (String.◌∷◌ g t)))) b = refl

into_front-none : (c : Char) (o : Option (String × String)) → into_front c o ≡ none → o ≡ none
unfolding into_front
into_front-none c none h = refl
into_front-none c (some (a, b)) h = cc

-- A text that does not hold the closing line is what stands before the first one.
cut-closer :
    (t b : String)
    → cut "\n---\n" (glue t "\n") ≡ none
    → cut "\n---\n" (glue t (closer b)) ≡ some (t, b)
unfolding cut has_prefix drop_prefix into_front glue
cut-closer String.[] b h = refl
cut-closer (String.◌∷◌ c t) b h =
    elim (Bool-cases (has_prefix "\n---\n" (String.◌∷◌ c (glue t "\n")))) [
      | inl e ↦ cc
      | inr f ↦
          rw
            (
              has_prefix-closer c t b,
              f,
              cut-closer t b (into_front-none c (cut "\n---\n" (glue t "\n")) (rw f at h)),
            )
            refl
    ]

trim_right-newline :
    (p : Char → Bool) (s : String)
    → p "\n" ≡ true
    → trim_right p (glue (trim_right p s) "\n") ≡ trim_right p s
unfolding trim_right glue
trim_right-newline p String.[] h = rw h refl
trim_right-newline p (String.◌∷◌ c s) h = elim (Bool-cases (trim_right p s == "" && p c)) [
  | inl e ↦ rw (e, h) refl
  | inr f ↦ rw (f, trim_right-newline p s h, f) refl
]

trim_right_again : (p : Char → Bool) (s : String) → trim_right p (trim_right p s) ≡ trim_right p s
unfolding trim_right
trim_right_again p String.[] = refl
trim_right_again p (String.◌∷◌ c s) = elim (Bool-cases (trim_right p s == "" && p c)) [
  | inl e ↦ rw e refl
  | inr f ↦ rw (f, trim_right_again p s, f) refl
]

opener_lem :
    (b : String)
    → "---\n" <> b ≡ String.◌∷◌ "-" (String.◌∷◌ "-" (String.◌∷◌ "-" (String.◌∷◌ "\n" b)))
opener_lem b =
    rw
      (
        cons-append "-" "--\n" b,
        cons-append "-" "-\n" b,
        cons-append "-" "\n" b,
        cons-append "\n" "" b,
        nil-append b,
      )
      refl

-- The file's text behind the opening line.
behind_opener : (front b : String) → (front <> "\n") <> "---\n" <> b ≡ glue front (closer b)
behind_opener front b =
    text_assoc front "\n" ("---\n" <> b)
    ∙ ap (λ s. front <> s)
        (ap (λ s. "\n" <> s) (opener_lem b)
          ∙ cons-append "\n" "" _
          ∙ ap (String.◌∷◌ "\n") (nil-append _))
    ∙ glue_lem front (closer b)

body_text : String → String
body_text body = if body == "" then "" else body <> "\n"

canonical_body-body_text :
    (s : String) → canonical_body (body_text (canonical_body s)) ≡ canonical_body s
unfolding canonical_body body_text
canonical_body-body_text s = elim (Bool-cases (canonical_body s == "")) [
  | inl e ↦ rw (e, (eq_iff (canonical_body s) "").0 e) refl
  | inr f ↦ rw (f, glue_lem (canonical_body s) "\n", trim_right-newline is_newline s refl) refl
]

parse_file :
    (yaml : Yaml) (front b : String) (e : Event)
    → cut "\n---\n" (front <> "\n") ≡ none
    → yaml.unmarshal front ≡ ok e
    → parse yaml ("---\n" <> (front <> "\n") <> "---\n" <> b)
      ≡ ok (record e { body = canonical_body b })
unfolding parse has_prefix drop_prefix closed with_body
parse_file yaml front b e n h =
    rw
      (
        opener_lem ((front <> "\n") <> "---\n" <> b),
        behind_opener front b,
        cut-closer front b (ap (cut "\n---\n") (sym (glue_lem front "\n")) ∙ n),
        h,
      )
      refl

-- When yaml writes the event's frontmatter as lines none of which is `---`, and reads the same
-- frontmatter back, and RFC3339 shows whole seconds, the file of an event is written, and it reads
-- back as the event with its time cut to the second and its body without trailing newlines, which
-- has the event's hash.
pub parse-marshal :
    (yaml : Yaml) (codec : Codec) (e : Event) (front : String)
    → yaml.marshal (record e { ts = truncate_second e.ts }) ≡ ok (front <> "\n")
    → cut "\n---\n" (front <> "\n") ≡ none
    → yaml.unmarshal front ≡ ok (record e { ts = truncate_second e.ts; body = "" })
    → codec.rfc3339 (truncate_second e.ts) ≡ codec.rfc3339 e.ts
    → (file : String) × (marshal yaml e ≡ ok file)
      × (parse yaml file
          ≡ ok (record e { ts = truncate_second e.ts; body = canonical_body e.body }))
      × (compute_hash codec (record e { ts = truncate_second e.ts; body = canonical_body e.body })
          ≡ compute_hash codec e)
unfolding marshal framed body_text compute_hash hashable canonical_body
parse-marshal yaml codec e front w n r t =
    let b = body_text (canonical_body e.body) in
    let back : Event = record e { ts = truncate_second e.ts; body = "" } in
    (
      "---\n" <> (front <> "\n") <> "---\n" <> b,
      rw w refl,
      parse_file yaml front b back n r
          ∙ ap (λ s. ok (record back { body = s })) (canonical_body-body_text e.body),
      ap₂ (digest codec) (ap (λ z. record (hashable codec e) { ts = z }) t)
          (trim_right_again is_newline e.body),
    )
