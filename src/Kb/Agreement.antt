-- ===== src/Kb/Agreement.antt =====
-- Derive and the knowledge base agree on the open escalations of a log.
use draiver.Prelude.{
  ℕ, ◌≡◌, refl, sym, ap, ◌∙◌, inl, inr, Bool, false, not, ◌&&◌, List, [], ◌∷◌, map, Memᴰ, arith,
  ◌==◌, eq_iff, eqb, if◌then◌else◌, Bool-cases, Option-cases, select, All, select-cong,
  select-select,
}
use draiver.Prelude.Maps.{string_key, nat_key, has, has→Mem, lookup, has-append}
use draiver.Prelude.{
  ℕ, ◌≡◌, refl, sym, ap, ◌∙◌, inl, inr, Bool, false, not, ◌&&◌, List, [], ◌∷◌, map, Memᴰ, arith,
  ◌==◌, eq_iff, eqb, if◌then◌else◌, Bool-cases, Option-cases, select, All, select-cong,
  select-select,
}
use draiver.Event.{Event}
use draiver.Kb.{
  Fact, Edges, retired_by, is_some, first_pass, no_edges, or_0, fact, fold, live_facts,
  live_escalations,
}
use draiver.Kb.Live.{first_retirer, superseded_by-first_pass, Numbered, first_retirer-pos}
use draiver.Project.State.{resolved_seqs, is_open, derive}
use draiver.Project.State.Laws.{derive-open}

-- No event of the log supersedes `n` by name.
abbrev pub Unnamed : List Event → ℕ → Type 0
Unnamed es n = All (λ (e : Event). ¬ Memᴰ n e.supersedes) es

or_0-is_some :
    (es : List Event) (n : ℕ)
    → Numbered es
    → eqb (or_0 (first_retirer es n)) 0 ≡ not (is_some (first_retirer es n))
or_0-is_some es n p = elim (Option-cases (first_retirer es n)) [
  | inl e ↦ rw e refl
  | inr (b, s) ↦ let q = first_retirer-pos es n b p s in rw s (ground arith)
]

unnamed_has : (s : List ℕ) (n : ℕ) → ¬ Memᴰ n s → has s n ≡ false
unnamed_has s n h = elim (Bool-cases (has s n)) [ inl t ↦ absurd (h (has→Mem s n t)) | inr f ↦ f ]

retired_by-has :
    (e : Event) (n : ℕ)
    → ¬ Memᴰ n e.supersedes
    → has (retired_by e) n ≡ (e.kind == "resolution" && has e.refs n)
unfolding retired_by has
retired_by-has e n u =
    has-append e.supersedes (if e.kind == "resolution" then e.refs else []) n
    ∙ ground (arith, unnamed_has e.supersedes n u)

first_retirer-has :
    (es : List Event) (n : ℕ)
    → Unnamed es n
    → is_some (first_retirer es n) ≡ has (resolved_seqs es) n
unfolding resolved_seqs has
first_retirer-has [] n u = refl
first_retirer-has (e ∷ es) n u = ground (
  arith,
  first_retirer-has es n u.1,
  retired_by-has e n u.0,
  has-append e.refs (resolved_seqs es) n,
)

fact_live :
    (es : List Event) (e : Event)
    → Numbered es
    → (fact (first_pass no_edges es) e).live ≡ not (is_some (first_retirer es e.seq))
unfolding fact lookup
fact_live es e p =
    ap (λ o. eqb (or_0 o) 0) (superseded_by-first_pass no_edges es e.seq) ∙ or_0-is_some es e.seq p

select_facts :
    (m : Edges) (p : Fact → Bool) (es : List Event)
    → map (λ f. f.event) (select p (map (fact m) es)) ≡ select (λ e. p (fact m e)) es
unfolding fact
select_facts m p [] = refl
select_facts m p (e ∷ es) = ground (arith, select_facts m p es)

agree :
    (log es : List Event)
    → Numbered log
    → All (λ e. e.kind ≡ "escalation" → Unnamed log e.seq) es
    → All
        (λ e.
          ((fact (first_pass no_edges log) e).live && (e.kind == "escalation"))
          ≡ is_open (resolved_seqs log) e)
        es
agree log [] p u = tt
agree log (e ∷ es) p u = (
  elim (Bool-cases (e.kind == "escalation")) [
    | inl t ↦
        let q = u.0 ((eq_iff e.kind "escalation").0 t) in
        ground (arith, fact_live log e p, first_retirer-has log e.seq q)
    | inr f ↦ ground arith
  ],
  agree log es p u.1,
)

-- In a log with seqs from 1 in which no event supersedes an escalation by name, the escalations
-- that the knowledge base calls live are exactly the open escalations of the control state, in
-- the same order.
pub live_escalations-derive :
    (es : List Event)
    → Numbered es
    → All (λ e. e.kind ≡ "escalation" → Unnamed es e.seq) es
    → map (λ f. f.event) (live_escalations (fold es)) ≡ (derive es).1
unfolding live_escalations live_facts fold fact
live_escalations-derive es p u =
    let m = first_pass no_edges es in
    ap (map (λ f. f.event))
      (select-select (λ f. f.event.kind == "escalation") (λ f. f.live) (map (fact m) es))
    ∙ select_facts m (λ f. f.live && (f.event.kind == "escalation")) es
    ∙ select-cong (λ e. (fact m e).live && ((fact m e).event.kind == "escalation"))
        (is_open (resolved_seqs es)) es (agree es es p u)
    ∙ sym (derive-open es)
