-- ===== src/Kb/Chain/History.antt =====
-- `Chain`: the facts of a history, in the order of their seqs.
use mathlib.Core.List.Memᴰ
use draiver.Prelude.{
  ℕ, suc, ◌≤◌, ◌≡◌, refl, sym, ap, ap₂, ◌∙◌, ◌↔◌, ◌⊎◌, inl, inr, true, false, Option, none, some,
  List, [], ◌∷◌, Memᴰ, arith, ltb, Bool-cases, Option-cases, length,
}
use draiver.Kb.{Fact, View, get}
use draiver.Kb.Chain.{
  walk_chain, all_older, add_fact, facts_of, insert_fact, sort_facts, chain_of, if_known, chain,
}
use draiver.Kb.Chain.Seen.{Retires}
use draiver.Kb.Chain.Reached.{walk_chain-history}

-- Oldest to newest.
abbrev pub Ascending : List Fact → Type 0
Ascending [] = Unit
Ascending (f ∷ []) = Unit
Ascending (f ∷ g ∷ fs) = (f.event.seq ≤ g.event.seq) × Ascending (g ∷ fs)

ltb-not : (a b : ℕ) → ltb a b ≡ false → b ≤ a
ltb-not a b h = ground arith

ltb-le : (a b : ℕ) → ltb a b ≡ true → a ≤ b
ltb-le a b h = ground arith

abbrev Above : ℕ → List Fact → Type 0
Above n [] = Unit
Above n (f ∷ fs) = n ≤ f.event.seq

cons-Ascending :
    (f : Fact) (fs : List Fact) → Above f.event.seq fs → Ascending fs → Ascending (f ∷ fs)
cons-Ascending f [] a b = tt
cons-Ascending f (g ∷ fs) a b = (a, b)

Ascending-tail :
    (f : Fact) (fs : List Fact) → Ascending (f ∷ fs) → Above f.event.seq fs × Ascending fs
Ascending-tail f [] a = (tt, tt)
Ascending-tail f (g ∷ fs) a = a

insert-Above :
    (n : ℕ) (f : Fact) (fs : List Fact) → n ≤ f.event.seq → Above n fs → Above n (insert_fact f fs)
unfolding insert_fact
insert-Above n f [] h a = h
insert-Above n f (g ∷ fs) h a = elim (Bool-cases (ltb g.event.seq f.event.seq)) [
  | inl t ↦ rw t a
  | inr o ↦ rw o h
]

insert-Ascending : (f : Fact) (fs : List Fact) → Ascending fs → Ascending (insert_fact f fs)
unfolding insert_fact
insert-Ascending f [] a = tt
insert-Ascending f (g ∷ fs) a =
    let (b, c) = Ascending-tail g fs a in
    elim (Bool-cases (ltb g.event.seq f.event.seq)) [
      | inl t ↦ rw t (
          cons-Ascending g (insert_fact f fs)
            (insert-Above g.event.seq f fs (ltb-le g.event.seq f.event.seq t) b)
            (insert-Ascending f fs c))
      | inr n ↦ rw n (ltb-not g.event.seq f.event.seq n, a)
    ]

sort_facts-Ascending : (fs : List Fact) → Ascending (sort_facts fs)
unfolding sort_facts
sort_facts-Ascending [] = tt
sort_facts-Ascending (f ∷ fs) = insert-Ascending f (sort_facts fs) (sort_facts-Ascending fs)

Mem-insert_fact : (x f : Fact) (fs : List Fact) → Memᴰ x (insert_fact f fs) ↔ ((x ≡ f) ⊎ Memᴰ x fs)
unfolding insert_fact
Mem-insert_fact x f [] =
    (λ m. Memᴰ.cases_cons m, λ o. elim o [ inl e ↦ Memᴰ.head e | inr m ↦ elim m [ ] ])
Mem-insert_fact x f (g ∷ fs) = elim (Bool-cases (ltb g.event.seq f.event.seq)) [
  | inl t ↦
      let (a, b) = Mem-insert_fact x f fs in
      rw t (
        λ m. elim (Memᴰ.cases_cons m) [
          | inl e ↦ inr (Memᴰ.head e)
          | inr k ↦ elim (a k) [ inl e ↦ inl e | inr i ↦ inr (Memᴰ.tail i) ]
        ],
        λ o. elim o [
          | inl e ↦ Memᴰ.tail (b (inl e))
          | inr k ↦ elim (Memᴰ.cases_cons k) [ inl e ↦ Memᴰ.head e | inr i ↦ Memᴰ.tail (b (inr i)) ]
        ],
      )
  | inr n ↦ rw n (λ m. Memᴰ.cases_cons m, λ o. elim o [ inl e ↦ Memᴰ.head e | inr k ↦ Memᴰ.tail k ])
]

Mem-sort_facts : (x : Fact) (fs : List Fact) → Memᴰ x (sort_facts fs) ↔ Memᴰ x fs
unfolding sort_facts
Mem-sort_facts x [] = (λ m. m, λ m. m)
Mem-sort_facts x (f ∷ fs) =
    let (a, b) = Mem-insert_fact x f (sort_facts fs) in
    let (c, d) = Mem-sort_facts x fs in
    (
      λ m. elim (a m) [ inl e ↦ Memᴰ.head e | inr k ↦ Memᴰ.tail (c k) ],
      λ m. elim (Memᴰ.cases_cons m) [ inl e ↦ b (inl e) | inr k ↦ b (inr (d k)) ],
    )

Mem-add_fact :
    (x : Fact) (o : Option Fact) (facts : List Fact)
    → Memᴰ x (add_fact o facts) ↔ ((o ≡ some x) ⊎ Memᴰ x facts)
unfolding add_fact
Mem-add_fact x none facts = (λ m. inr m, λ o. elim o [ inl e ↦ absurd (not_none e) | inr m ↦ m ])
  where
    not_none : ¬ (none ≡ some x)
    not_none e = cc
Mem-add_fact x (some f) facts = (
  λ m. elim (Memᴰ.cases_cons m) [ inl e ↦ inl (ap some (sym e)) | inr k ↦ inr k ],
  λ o. elim o [ inl e ↦ Memᴰ.head (sym (same_fact e)) | inr m ↦ Memᴰ.tail m ],
)
  where
    same_fact : some f ≡ some x → f ≡ x
    same_fact e = cc

Mem-facts_of :
    (v : View) (seen : List ℕ) (x : Fact)
    → Memᴰ x (facts_of v seen) ↔ ((s : ℕ) × Memᴰ s seen × (get v s ≡ some x))
unfolding facts_of
Mem-facts_of v [] x = (λ m. elim m [ ], λ (s, m, e). elim m [ ])
Mem-facts_of v (s ∷ seen) x =
    let (a, b) = Mem-facts_of v seen x in
    let (c, d) = Mem-add_fact x (get v s) (facts_of v seen) in
    (
      λ m. elim (c m) [
        | inl e ↦ (s, Memᴰ.head refl, e)
        | inr k ↦ let (t, i, e) = a k in (t, Memᴰ.tail i, e)
      ],
      λ (t, i, e). elim (Memᴰ.cases_cons i) [
        | inl p ↦ d (inl (ap (get v) (sym p) ∙ e))
        | inr k ↦ d (inr (b (t, k, e)))
      ],
    )

-- A fact of the view whose seq the event of a seq retires, over any number of steps.
pub OfHistory : View → ℕ → Fact → Type 0
OfHistory v seq f =
    ((first : Fact) × (get v seq ≡ some first))
    × (s : ℕ) × Retires v.retires seq s
    × (get v s ≡ some f)

history_facts :
    (v : View) (seq : ℕ) (first : Fact) (seen : List ℕ)
    → get v seq ≡ some first
    → ((x : ℕ) → Memᴰ x seen ↔ Retires v.retires seq x)
    → (f : Fact) → Memᴰ f (sort_facts (facts_of v seen)) ↔ OfHistory v seq f
unfolding OfHistory
history_facts v seq first seen h k f =
    let (a, b) = Mem-sort_facts f (facts_of v seen) in
    let (c, d) = Mem-facts_of v seen f in
    (
      λ m. let (s, i, e) = c (a m) in ((first, h), s, (k s).0 i, e),
      λ (z, s, r, e). b (d (s, (k s).1 r, e)),
    )

-- `Chain` always returns; of a seq without a fact it is empty, and otherwise its facts are exactly
-- those of the seqs that the seq's event retires over any number of steps, the seq's own included,
-- from the oldest to the newest.
pub chain-OfHistory :
    (v : View) (seq : ℕ)
    → (facts : List Fact) × (chain v seq ≡ some facts)
      × Ascending facts
      × ((f : Fact) → Memᴰ f facts ↔ OfHistory v seq f)
unfolding chain chain_of if_known OfHistory
chain-OfHistory v seq =
    let (after, e, k) = walk_chain-history v.retires seq in
    let fuel = suc (suc (length (all_older v.retires))) in
    elim (Option-cases (get v seq)) [
      | inl n ↦ (
        [],
        ap (λ o. if_known o (chain_of v (walk_chain fuel v.retires seq []))) n,
        tt,
        λ f. (λ m. elim m [ ], λ w. absurd (unknown v seq f n w.0)),
      )
      | inr (first, h) ↦ (
        sort_facts (facts_of v after),
        ap₂ (λ o w. if_known o (chain_of v w)) h e,
        sort_facts-Ascending (facts_of v after),
        history_facts v seq first after h k,
      )
    ]
  where
    unknown :
        (u : View) (s : ℕ) (f : Fact) → get u s ≡ none → ¬ ((first : Fact) × (get u s ≡ some first))
    unknown u s f n (first, h) = cc
