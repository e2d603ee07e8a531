-- ===== src/Project/Edges/Closure.antt =====
-- The walk down `wants:` against reachability.
use mathlib.Core.List.Memᴰ
use mathlib.Core.Path.{subst}
use draiver.Prelude.{
  ℕ, zero, suc, String, ◌≡◌, refl, sym, ◌∙◌, ◌↔◌, ◌⊎◌, inl, inr, true, false, false≢true, some,
  List, [], ◌∷◌, Memᴰ, arith, if◌then◌else◌, Bool-cases,
}
use draiver.Prelude.Maps.{string_key, nat_key, has, has→Mem, Mem→has}
use draiver.Prelude.{
  ℕ, zero, suc, String, ◌≡◌, refl, sym, ◌∙◌, ◌↔◌, ◌⊎◌, inl, inr, true, false, false≢true, some,
  List, [], ◌∷◌, Memᴰ, arith, if◌then◌else◌, Bool-cases,
}
use draiver.Project.Edges.Fuel.{wants_closure_ends}
use draiver.Project.Edges.{EdgeMap, edges_at, Walk, see, see_all, walk, wants_closure}

-- The tickets that a walk from the sources down `wants:` can reach.
pub data Reaches (sources : List String) (edges : EdgeMap) : String → Type 0 where
  source : {s : String} → Memᴰ s sources → Reaches sources edges s
  down :
      {t c : String}
      → Reaches sources edges t
      → Memᴰ c (edges_at edges t).wants
      → Reaches sources edges c

module _ (sources : List String) (edges : EdgeMap) where
  -- Half-way through the children of `t`, with `cs` still to see.
  record Walked (t : String) (cs : List String) (w : Walk) : Type 0 where
    roots : (s : String) → Memᴰ s sources → Memᴰ s w.seen
    reached : (s : String) → Memᴰ s w.seen → Reaches sources edges s
    queued : (s : String) → Memᴰ s w.frontier → Memᴰ s w.seen
    closed :
        (s c : String)
        → Memᴰ s w.seen
        → Memᴰ c (edges_at edges s).wants
        → Memᴰ s w.frontier ⊎ Memᴰ c w.seen ⊎ ((s ≡ t) × Memᴰ c cs)
    output : (s : String) → Memᴰ s w.wanted ↔ (Memᴰ s w.seen × (¬ Memᴰ s sources))

  new_output :
      (t c : String) (cs : List String) (w : Walk)
      → has w.seen c ≡ false
      → Walked t (c ∷ cs) w
      → (s : String)
      → Memᴰ s (if has sources c then w.wanted else c ∷ w.wanted)
        ↔ (Memᴰ s (c ∷ w.seen) × (¬ Memᴰ s sources))
  new_output t c cs w f i s = elim (Bool-cases (has sources c)) [
    | inl h ↦ absurd (false≢true (sym f ∙ Mem→has w.seen c (i.roots c (has→Mem sources c h))))
    | inr h ↦ rw h (
      λ m. elim (Memᴰ.cases_cons m) [
        | inl p ↦ (
          Memᴰ.head p,
          λ x. false≢true (sym h ∙ Mem→has sources c (subst (λ y. Memᴰ y sources) p x)),
        )
        | inr p ↦ let (a, b) = (i.output s).0 p in (Memᴰ.tail a, b)
      ],
      λ (a, b). elim (Memᴰ.cases_cons a) [
        | inl p ↦ Memᴰ.head p
        | inr p ↦ Memᴰ.tail ((i.output s).1 (p, b))
      ],
    )
  ]

  fresh :
      (t c : String) (cs : List String) (w : Walk)
      → Reaches sources edges c
      → has w.seen c ≡ false
      → Walked t (c ∷ cs) w
      → Walked t cs (see sources w c)
  unfolding see
  fresh t c cs w r f i = rw f (record {
    roots = λ s m. Memᴰ.tail (i.roots s m);
    reached = λ s m. elim (Memᴰ.cases_cons m) [
      | inl p ↦ subst (Reaches sources edges) (sym p) r
      | inr p ↦ i.reached s p
    ];
    queued = λ s m. elim (Memᴰ.append_cases w.frontier m) [
      | inl q ↦ Memᴰ.tail (i.queued s q)
      | inr q ↦ elim (Memᴰ.cases_cons q) [ inl p ↦ Memᴰ.head p | inr p ↦ elim p [ ] ]
    ];
    output = new_output t c cs w f i;
    closed = λ s d m k. elim (Memᴰ.cases_cons m) [
      | inl p ↦ inl (Memᴰ.append_right w.frontier (Memᴰ.head p))
      | inr p ↦ elim (i.closed s d p k) [
        | inl q ↦ inl (Memᴰ.append_left (c ∷ []) q)
        | inr (inl q) ↦ inr (inl (Memᴰ.tail q))
        | inr (inr (e, q)) ↦ elim (Memᴰ.cases_cons q) [
          | inl j ↦ inr (inl (Memᴰ.head j))
          | inr j ↦ inr (inr (e, j))
        ]
      ]
    ];
  })

  known :
      (t c : String) (cs : List String) (w : Walk)
      → has w.seen c ≡ true
      → Walked t (c ∷ cs) w
      → Walked t cs (see sources w c)
  unfolding see
  known t c cs w h i = rw h (record {
    roots = i.roots;
    reached = i.reached;
    queued = i.queued;
    output = i.output;
    closed = λ s d m k. elim (i.closed s d m k) [
      | inl q ↦ inl q
      | inr (inl q) ↦ inr (inl q)
      | inr (inr (e, q)) ↦ elim (Memᴰ.cases_cons q) [
        | inl p ↦ inr (inl (subst (λ x. Memᴰ x w.seen) (sym p) (has→Mem w.seen c h)))
        | inr p ↦ inr (inr (e, p))
      ]
    ];
  })

  see_all-Walked :
      (t : String) (cs : List String) (w : Walk)
      → ((c : String) → Memᴰ c cs → Reaches sources edges c)
      → Walked t cs w
      → Walked t [] (see_all sources w cs)
  unfolding see_all
  see_all-Walked t [] w r i = i
  see_all-Walked t (c ∷ cs) w r i =
      see_all-Walked t cs (see sources w c) (λ d k. r d (Memᴰ.tail k))
        (elim (Bool-cases (has w.seen c)) [
          | inl h ↦ known t c cs w h i
          | inr h ↦ fresh t c cs w (r c (Memᴰ.head refl)) h i
        ])

  -- Taking `t` from the frontier.
  take_next :
      (t u : String) (ts seen wanted : List String)
      → Walked u [] (record { seen = seen; frontier = t ∷ ts; wanted = wanted })
      → Walked t (edges_at edges t).wants (record { seen = seen; frontier = ts; wanted = wanted })
  take_next t u ts seen wanted i = record {
    roots = i.roots;
    reached = i.reached;
    queued = λ s m. i.queued s (Memᴰ.tail m);
    output = i.output;
    closed = λ s d m k. elim (i.closed s d m k) [
      | inl q ↦ elim (Memᴰ.cases_cons q) [
        | inl p ↦ inr (inr (p, subst (λ x. Memᴰ d (edges_at edges x).wants) p k))
        | inr p ↦ inl p
      ]
      | inr (inl q) ↦ inr (inl q)
      | inr (inr (e, q)) ↦ elim q [ ]
    ];
  }

  complete :
      (u : String) (seen wanted : List String)
      → Walked u [] (record { seen = seen; frontier = []; wanted = wanted })
      → (s : String) → Reaches sources edges s
      → Memᴰ s seen
  complete u seen wanted i s (source m) = i.roots s m
  complete u seen wanted i s (down {t} r k) = elim (i.closed t s (complete u seen wanted i t r) k) [
    | inl q ↦ elim q [ ]
    | inr (inl q) ↦ q
    | inr (inr (e, q)) ↦ elim q [ ]
  ]

  walk-Reaches :
      (n : ℕ) (u : String) (seen frontier wanted r : List String)
      → Walked u [] (record { seen = seen; frontier = frontier; wanted = wanted })
      → walk n sources edges seen frontier wanted ≡ some r
      → (s : String) → Memᴰ s r ↔ (Reaches sources edges s × (¬ Memᴰ s sources))
  unfolding walk
  walk-Reaches n u seen [] wanted r i h s =
      let same : wanted ≡ r = ground arith in
      subst (λ x. Memᴰ s x ↔ (Reaches sources edges s × (¬ Memᴰ s sources))) same
        (
          λ m. let (a, b) = (i.output s).0 m in (i.reached s a, b),
          λ (a, b). (i.output s).1 (complete u seen wanted i s a, b),
        )
  walk-Reaches zero u seen (t ∷ ts) wanted r i h s = cc
  walk-Reaches (suc n) u seen (t ∷ ts) wanted r i h s =
      let w : Walk = record { seen = seen; frontier = ts; wanted = wanted } in
      let v = see_all sources w (edges_at edges t).wants in
      walk-Reaches n t v.seen v.frontier v.wanted r
        (see_all-Walked t (edges_at edges t).wants w
          (λ c k. down (i.reached t (i.queued t (Memᴰ.head refl))) k)
          (take_next t u ts seen wanted i))
        h s

-- What the closure returns is exactly the tickets that the walk from the sources down `wants:`
-- can reach, the sources themselves left out; and it does return, on a cyclic graph too.
pub wants_closure-Reaches :
    (sources : List String) (edges : EdgeMap)
    → (r : List String) × (wants_closure sources edges ≡ some r)
      × ((s : String) → Memᴰ s r ↔ (Reaches sources edges s × (¬ Memᴰ s sources)))
unfolding wants_closure
wants_closure-Reaches sources edges =
    let (r, h) = wants_closure_ends sources edges in
    let start : Walked sources edges "" []
        (record { seen = sources; frontier = sources; wanted = [] }) =
      record {
        roots = λ s m. m;
        reached = λ s m. source m;
        queued = λ s m. m;
        closed = λ s c m k. inl m;
        output = λ s. (λ m. elim m [ ], λ (a, b). absurd (b a));
      } in
    (r, h, walk-Reaches sources edges _ "" sources sources [] r start h)
