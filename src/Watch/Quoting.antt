-- ===== src/Watch/Quoting.antt =====
-- `tokenize` against a shell quotation of its arguments.
use Prim.Native.Char.{Char, code}
use text.Mathlib.TextLemmas.{
  nil-append, cons-append, append-nil as text_append-nil, append_assoc as text_assoc,
}
use text.Mathlib.TextEquality.{Char-path}
use draiver.Prelude.{
  String, ◌<>◌, ◌≡◌, refl, sym, ap, ◌∙◌, inl, inr, Bool, true, false, Option, none, some, List, [],
  ◌∷◌, ◌++◌, append_assoc, if◌then◌else◌, Bool-cases, eqb→eq,
}
use draiver.Watch.{
  is, rune, Scanner, flush, open_tok, write, Mode, bare, single, finish, bare_rune, scan_rune, scan,
  dangerous, tokenize,
}

-- The text of an argument between single quotes, each quote of it written as '\'', and then the
-- closing quote and the rest of the line.
abbrev pub inside : String → String → String
inside String.[] line = String.◌∷◌ "'" line
inside (String.◌∷◌ c t) line =
    let rest = inside t line in
    if is c "'"
    then String.◌∷◌ "'" (String.◌∷◌ "\\" (String.◌∷◌ "'" (String.◌∷◌ "'" rest)))
    else String.◌∷◌ c rest

-- An argument as the shell's own quotation of it, before the rest of the line.
abbrev pub quoted : String → String → String
quoted t line = String.◌∷◌ "'" (inside t line)

abbrev pub more : List String → String
more [] = ""
more (t ∷ ts) = String.◌∷◌ " " (quoted t (more ts))

-- A command line of quoted arguments.
abbrev pub command_line : List String → String
command_line [] = ""
command_line (t ∷ ts) = quoted t (more ts)

abbrev scanner : List String → String → Bool → Scanner
scanner tokens cur b = record { tokens = tokens; cur = cur; in_tok = b }

scan-step :
    (mode m : Mode) (s t : Scanner) (c : Char) (line : String)
    → scan_rune mode c s ≡ some (m, t)
    → scan mode s (String.◌∷◌ c line) ≡ scan m t line
unfolding scan
scan-step mode m s t c line h =
    ap (λ (o : Option (Mode × Scanner)). elim o [ none ↦ none | some at ↦ scan at.0 at.1 line ]) h

snoc-append : (cur t : String) (c : Char) → (cur <> String.◌∷◌ c "") <> t ≡ cur <> String.◌∷◌ c t
snoc-append cur t c =
    text_assoc cur (String.◌∷◌ c "") t
    ∙ ap (λ z. cur <> z) (cons-append c "" t ∙ ap (λ z. String.◌∷◌ c z) (nil-append t))

module _ (ts : List String) where
  single_plain :
      (cur : String) (c : Char)
      → is c "'" ≡ false
      → scan_rune single c (scanner ts cur true)
        ≡ some (single, scanner ts (cur <> String.◌∷◌ c "") true)
  unfolding scan_rune write
  single_plain cur c e = rw e refl

  -- '\'' reads as one quote.
  scan-quote :
      (cur line : String)
      → scan single
          (scanner ts cur true)
          (String.◌∷◌ "'" (String.◌∷◌ "\\" (String.◌∷◌ "'" (String.◌∷◌ "'" line))))
        ≡ scan single (scanner ts (cur <> "'") true) line
  unfolding scan scan_rune bare_rune rune write open_tok
  scan-quote cur line = refl

  scan-close :
      (cur line : String)
      → scan single (scanner ts cur true) (String.◌∷◌ "'" line)
        ≡ scan bare (scanner ts cur true) line
  unfolding scan scan_rune
  scan-close cur line = refl

  -- The body of a quoted argument is read back rune by rune.
  scan-inside :
      (t cur line : String)
      → scan single (scanner ts cur true) (inside t line)
        ≡ scan bare (scanner ts (cur <> t) true) line
  scan-inside String.[] cur line =
      scan-close cur line ∙ ap (λ z. scan bare (scanner ts z true) line) (sym (text_append-nil cur))
  scan-inside (String.◌∷◌ c t) cur line = elim (Bool-cases (is c "'")) [
    | inl e ↦ rw e (
        scan-quote cur (inside t line)
        ∙ scan-inside t (cur <> "'") line
        ∙ ap (λ z. scan bare (scanner ts z true) line)
            (snoc-append cur t "'"
              ∙ ap (λ d. cur <> String.◌∷◌ d t) (sym (Char-path c "'" (eqb→eq (code c) 39 e)))))
    | inr e ↦ rw e (
        scan-step single single (scanner ts cur true) _ c (inside t line) (single_plain cur c e)
        ∙ scan-inside t (cur <> String.◌∷◌ c "") line
        ∙ ap (λ z. scan bare (scanner ts z true) line) (snoc-append cur t c))
  ]

  scan-quoted :
      (b : Bool) (t line : String)
      → scan bare (scanner ts "" b) (quoted t line) ≡ scan bare (scanner ts t true) line
  unfolding scan scan_rune bare_rune rune open_tok
  scan-quoted b t line =
      scan-inside t "" line ∙ ap (λ z. scan bare (scanner ts z true) line) (nil-append t)

  scan-blank :
      (cur line : String)
      → scan bare (scanner ts cur true) (String.◌∷◌ " " line)
        ≡ scan bare (scanner (ts ++ cur ∷ []) "" false) line
  unfolding scan scan_rune bare_rune rune flush
  scan-blank cur line = refl

  scan-end : (cur : String) → scan bare (scanner ts cur true) "" ≡ some (ts ++ cur ∷ [])
  unfolding scan finish flush
  scan-end cur = refl

scan-more :
    (ts : List String) (cur : String) (xs : List String)
    → scan bare (scanner ts cur true) (more xs) ≡ some (ts ++ cur ∷ xs)
scan-more ts cur [] = scan-end ts cur
scan-more ts cur (x ∷ xs) =
    scan-blank ts cur (quoted x (more xs))
    ∙ scan-quoted (ts ++ cur ∷ []) false x (more xs)
    ∙ scan-more (ts ++ cur ∷ []) x xs
    ∙ ap some (append_assoc ts (cur ∷ []) (x ∷ xs))

-- Arguments that are quoted for the shell and joined with spaces are read back unchanged, the
-- empty one and those with quotes, spaces and operators too, unless the line holds one of `$(`,
-- a backtick and `<<`, where it is refused.
pub tokenize-command_line :
    (args : List String)
    → tokenize (command_line args) ≡ (if dangerous (command_line args) then none else some args)
unfolding tokenize
tokenize-command_line [] = refl
tokenize-command_line (t ∷ ts) =
    ap (λ o. if dangerous (command_line (t ∷ ts)) then none else o)
      (scan-quoted [] false t (more ts) ∙ scan-more [] t ts)
