-- ===== src/Kb/Live.antt =====
-- Which facts the fold calls live, and which event it says retired a fact.
use mathlib.Core.Path.{subst}
use mathlib.Core.List.Memᴰ
use draiver.Prelude.{
  ℕ, ◌<◌, ◌≡◌, refl, sym, ap, ◌∙◌, ◌⊎◌, inl, inr, true, false, false≢true, Option, none, some, List,
  [], ◌∷◌, ◌++◌, Memᴰ, arith, eqb, if◌then◌else◌, Bool-cases, Option-cases, All,
}
use draiver.Prelude.Maps.{
  string_key, nat_key, ref_key, has, has→Mem, Mem→has, lookup, lookup-insert,
}
use draiver.Event.{Event}
use draiver.Kb.{Fact, Edges, retired_by, retire, retire_all, first_pass, no_edges, fact, fold}

-- The seq of the first event of the log that retires `n`.
abbrev pub first_retirer : List Event → ℕ → Option ℕ
first_retirer [] n = none
first_retirer (e ∷ es) n =
    let rest = first_retirer es n in if has (retired_by e) n then some e.seq else rest

abbrev or_else : Option ℕ → Option ℕ → Option ℕ
or_else (some x) o = some x
or_else none o = o

superseded_by-retire :
    (seq : ℕ) (m : Edges) (t n : ℕ)
    → lookup (retire seq m t).superseded_by n
      ≡ or_else (lookup m.superseded_by n) (if eqb t n then some seq else none)
unfolding retire
superseded_by-retire seq m t n = ground (arith, lookup-insert t n seq m.superseded_by)

superseded_by-retire_all :
    (seq : ℕ) (m : Edges) (ts : List ℕ) (n : ℕ)
    → lookup (retire_all seq m ts).superseded_by n
      ≡ or_else (lookup m.superseded_by n) (if has ts n then some seq else none)
unfolding retire_all has
superseded_by-retire_all seq m [] n = ground arith
superseded_by-retire_all seq m (t ∷ ts) n =
    superseded_by-retire_all seq (retire seq m t) ts n
    ∙ ground (arith, superseded_by-retire seq m t n)

pub superseded_by-first_pass :
    (m : Edges) (es : List Event) (n : ℕ)
    → lookup (first_pass m es).superseded_by n
      ≡ or_else (lookup m.superseded_by n) (first_retirer es n)
unfolding first_pass
superseded_by-first_pass m [] n = ground arith
superseded_by-first_pass m (e ∷ es) n =
    superseded_by-first_pass (retire_all e.seq m (retired_by e)) es n
    ∙ ground (arith, superseded_by-retire_all e.seq m (retired_by e) n)

-- The first event of the log that retires `n` has the seq `by`.
pub record FirstRetirer (es : List Event) (n by : ℕ) : Type 0 where
  pub before : List Event
  pub event : Event
  pub after : List Event
  pub split : es ≡ before ++ event ∷ after
  pub retires : Memᴰ n (retired_by event)
  pub first : All (λ r. ¬ Memᴰ n (retired_by r)) before
  pub named : by ≡ event.seq

not-has : (s : List ℕ) (n : ℕ) → has s n ≡ false → ¬ Memᴰ n s
not-has s n h m = false≢true (sym h ∙ Mem→has s n m)

unretired :
    (es : List Event) (n : ℕ) → first_retirer es n ≡ none → All (λ r. ¬ Memᴰ n (retired_by r)) es
unretired [] n h = tt
unretired (e ∷ es) n h = (not-has (retired_by e) n (ground arith), unretired es n (ground arith))

first_retirer-FirstRetirer :
    (es : List Event) (n by : ℕ) → first_retirer es n ≡ some by → FirstRetirer es n by
first_retirer-FirstRetirer [] n by h = cc
first_retirer-FirstRetirer (e ∷ es) n by h = elim (Bool-cases (has (retired_by e) n)) [
  | inl t ↦ record {
    before = [];
    event = e;
    after = es;
    split = refl;
    retires = has→Mem (retired_by e) n t;
    first = tt;
    named = ground arith;
  }
  | inr f ↦
      let w = first_retirer-FirstRetirer es n by (ground arith) in
      record {
        before = e ∷ w.before;
        event = w.event;
        after = w.after;
        split = ap (λ (l : List Event). e ∷ l) w.split;
        retires = w.retires;
        first = (not-has (retired_by e) n f, w.first);
        named = w.named;
      }
]

abbrev pub Numbered : List Event → Type 0
Numbered = All (λ (e : Event). 0 < e.seq)

pub first_retirer-pos :
    (es : List Event) (n by : ℕ) → Numbered es → first_retirer es n ≡ some by → 0 < by
first_retirer-pos [] n by p h = cc
first_retirer-pos (e ∷ es) n by p h = ground (arith, first_retirer-pos es n by p.1)

-- A fact as the fold annotates it, by the first event that retires it.
abbrev pub Annotated : List Event → Fact → Type 0
Annotated es f =
    ((f.live ≡ true) × (f.superseded_by ≡ 0) × All (λ r. ¬ Memᴰ f.event.seq (retired_by r)) es)
    ⊎ ((f.live ≡ false) × FirstRetirer es f.event.seq f.superseded_by)

fact-Annotated :
    (es : List Event) (e : Event) → Numbered es → Annotated es (fact (first_pass no_edges es) e)
unfolding fact lookup
fact-Annotated es e p = elim (Option-cases (first_retirer es e.seq)) [
  | inl n ↦ inl (ground (arith, by), ground (arith, by), unretired es e.seq n)
  | inr (b, s) ↦
      let pos = first_retirer-pos es e.seq b p s in
      inr (
        ground (arith, by),
        subst (FirstRetirer es e.seq) (ground (arith, by))
            (first_retirer-FirstRetirer es e.seq b s),
      )
]
  where
    by : lookup (first_pass no_edges es).superseded_by e.seq ≡ first_retirer es e.seq
    by = superseded_by-first_pass no_edges es e.seq

-- In a log with seqs from 1, every fact of the fold is live, names no event that superseded it and
-- is retired by no event of the log; or it is not live, and the event that it names is the first
-- of the log that retires it. A resolution retires what it refers to. Any event of the log counts,
-- earlier than the fact, the fact itself or later.
pub fold-Annotated :
    (es : List Event) (f : Fact) → Numbered es → Memᴰ f (fold es).facts → Annotated es f
unfolding fold
fold-Annotated es f p m =
    let (e, k, q) = Memᴰ.of_map (fact (first_pass no_edges es)) es m in
    subst (Annotated es) q (fact-Annotated es e p)

-- Every event retires earlier events only.
abbrev pub Backward : List Event → Type 0
Backward = All (λ (e : Event). (n : ℕ) → Memᴰ n (retired_by e) → n < e.seq)

middle :
    (before after : List Event) (e : Event)
    → Backward (before ++ e ∷ after)
    → (n : ℕ) → Memᴰ n (retired_by e)
    → n < e.seq
middle [] after e h = h.0
middle (x ∷ before) after e h = middle before after e h.1

-- Then a fact that is not live names a later event, as the comment on `SupersededBy` says.
superseded-later :
    (es : List Event) (f : Fact)
    → Numbered es
    → Backward es
    → Memᴰ f (fold es).facts
    → f.live ≡ false
    → f.event.seq < f.superseded_by
superseded-later es f p back m dead = elim (fold-Annotated es f p m) [
  | inl (live, by, none_retires) ↦ absurd (false≢true (sym dead ∙ live))
  | inr (off, w) ↦
      let lt =
        middle w.before w.after w.event (subst Backward w.split back) f.event.seq w.retires in
      subst (λ n. f.event.seq < n) (sym w.named) lt
]
