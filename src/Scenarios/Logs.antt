-- ===== src/Scenarios/Logs.antt =====
-- A small codec and a two-event log, and the theorems on logs and audits at them.
use text.Mathlib.TextLemmas.{cons-append, cons-ne-nil}
use draiver.Prelude.{
  ℕ, String, ◌<>◌, ◌≡◌, refl, sym, ◌∙◌, ◌≢◌, ◌↔◌, ◌⊎◌, true, false, false≢true, none, some, [], ◌∷◌,
  ◌++◌, map, eq_iff,
}
use draiver.Prelude.Text.{itoa}
use draiver.Event.{
  Event, Codec, canonical_body, truncate_second, hashable, digest, compute_hash, filename,
}
use draiver.Log.{ok, file, Dir, last_event, is_taken, link, stamped, append}
use draiver.Log.Append.{Written, append-Written}
use draiver.Audit.{verify}
use draiver.Audit.Chain.{Chain, FirstBreak, verify-intact_iff, verify-FirstBreak}
use draiver.Audit.Growth.{verify-link, append_race}
use draiver.Audit.Tamper.{Content, content, Collision, verify-same_tail}

abbrev pub toy : Codec
toy = record {
  yaml = λ h. h.kind <> "," <> h.prev;
  sha256_hex = λ s. "1" <> s;
  rfc3339 = itoa;
  stamp = itoa;
}

abbrev pub blank : Event
blank = record {
  seq = 0;
  kind = "";
  ts = 0;
  actor = "";
  ticket = "";
  attempt = "";
  refs = [];
  artefacts = [];
  links = [];
  outcome = "";
  rung = "";
  commit = "";
  environment = "";
  supersedes = [];
  tags = [];
  woken_child = "";
  woken_seq = 0;
  prev = "";
  hash = "";
  body = "";
}

abbrev note : Event
note = record blank { kind = "note"; ts = 5; body = "hello" }

abbrev ask : Event
ask = record blank { kind = "escalation"; ts = 5; body = "which?" }

abbrev first : Event
first = link toy none note

abbrev second : Event
second = link toy (some first) ask

two_intact : (verify toy (first ∷ second ∷ [])).intact ≡ true
unfolding verify link compute_hash hashable digest canonical_body truncate_second filename
two_intact = refl

verify-intact_iff_example : ((verify toy (first ∷ [])).intact ≡ true) ↔ Chain toy "" (first ∷ [])
verify-intact_iff_example = verify-intact_iff toy (first ∷ [])

edited_breaks : (verify toy (first ∷ record second { kind = "note" } ∷ [])).intact ≡ false
unfolding verify link compute_hash hashable digest canonical_body truncate_second filename
edited_breaks = refl

verify-FirstBreak_example :
    FirstBreak toy ""
      (first ∷ record second { kind = "note" } ∷ [])
      (verify toy (first ∷ record second { kind = "note" } ∷ [])).broken_seq
verify-FirstBreak_example =
    verify-FirstBreak toy (first ∷ record second { kind = "note" } ∷ []) edited_breaks

verify-link_example :
    (verify toy ((first ∷ second ∷ []) ++ link toy (some second) note ∷ [])).intact ≡ true
verify-link_example = verify-link toy (first ∷ second ∷ []) note two_intact

one-ne-nil : (s : String) → ("1" <> s) ≢ ""
one-ne-nil s e = cons-ne-nil _ _ (sym (cons-append _ "" s) ∙ e)

toy_nonempty : (c : Content) → digest toy c.0 c.1 ≢ ""
unfolding digest
toy_nonempty c = one-ne-nil _

verify-same_tail_example :
    (map (content toy) (first ∷ second ∷ []) ≡ map (content toy) (first ∷ second ∷ []))
    ⊎ Collision toy
verify-same_tail_example =
    verify-same_tail toy toy_nonempty (first ∷ second ∷ []) (first ∷ second ∷ []) two_intact
      two_intact refl

abbrev quiet : ℕ → Dir × Dir
quiet n = ([], [])

abbrev written : Event × Dir
written =
    let e = link toy none (stamped toy "T-1" "0001" 7 note) in
    (e, (filename toy e, file (some e)) ∷ [])

append-quiet : append toy true "T-1" "0001" 7 quiet note ≡ ok written
unfolding append link compute_hash hashable digest canonical_body truncate_second filename
    last_event is_taken stamped
append-quiet = refl

append-Written_example :
    Written toy 0 8 quiet (stamped toy "T-1" "0001" 7 note) written.0 written.1
    × (true ≡ true)
    × (note.kind ≢ "")
append-Written_example =
    append-Written toy true "T-1" "0001" 7 quiet note written.0 written.1 append-quiet

note_named : note.kind ≢ ""
note_named e = false≢true ((eq_iff "note" "").1 e)

ask_named : ask.kind ≢ ""
ask_named e = false≢true ((eq_iff "escalation" "").1 e)

-- Two appends in one second on an empty log, a note and an escalation.
abbrev raced : Event → Event
raced e = link toy none (stamped toy "T-1" "0001" 7 e)

kinds_differ : note.kind ≢ ask.kind
kinds_differ e = false≢true ((eq_iff "note" "escalation").1 e)

hash_moves : (e : Event) → (raced e).prev ≢ (raced e).hash
unfolding link compute_hash digest
hash_moves e p = one-ne-nil _ (sym p)

raced_names :
    (is_taken [] (filename toy (raced note)) ≡ false)
    × (is_taken [] (filename toy (raced ask)) ≡ false)
unfolding is_taken
raced_names = (refl, refl)

same_second : (raced note).ts ≡ (raced ask).ts
unfolding link stamped truncate_second
same_second = refl

empty_tail : last_event [] ≡ ok none
unfolding last_event
empty_tail = refl

append_race_example :
    (append toy true "T-1" "0001" 7 (λ _. ([], [])) note
      ≡ ok (raced note, (filename toy (raced note), file (some (raced note))) ∷ []))
    × (append toy true "T-1" "0001" 7
          (λ _. ([], (filename toy (raced note), file (some (raced note))) ∷ []))
          ask
        ≡ ok (
          raced ask,
          (filename toy (raced note), file (some (raced note)))
              ∷ (filename toy (raced ask), file (some (raced ask)))
              ∷ [],
        ))
    × ((raced note).seq ≡ (raced ask).seq)
    × ((raced note).prev ≡ (raced ask).prev)
    × ((verify toy (raced note ∷ raced ask ∷ [])).intact ≡ false)
    × ((verify toy (raced ask ∷ raced note ∷ [])).intact ≡ false)
append_race_example =
    append_race toy [] none "T-1" "0001" 7 7 note ask [] empty_tail note_named ask_named
      kinds_differ same_second raced_names.0 raced_names.1 (hash_moves note) (hash_moves ask)
