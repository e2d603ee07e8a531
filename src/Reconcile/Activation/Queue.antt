-- ===== src/Reconcile/Activation/Queue.antt =====
-- The queue of doorbells of a coordinator: what it holds, and which comes first.
use mathlib.Core.List.Memᴰ
use mathlib.Core.Path.{subst}
use draiver.Prelude.{
  ℕ, ◌/◌, ◌≤◌, String, ◌≡◌, refl, sym, ap, ◌∙◌, ◌↔◌, ◌⊎◌, inl, inr, Bool, true, false, not, ◌&&◌,
  false≢true, List, [], ◌∷◌, Memᴰ, arith, Bool-cases, All,
}
use draiver.Prelude.Maps.{string_key, nat_key, ref_key, has}
use draiver.Event.{Event, second}
use draiver.Reconcile.Activation.{
  is_doorbell, Doorbell, doorbell_key, before, insert_doorbell, sort_doorbells, rings, events_of,
  queue, pending_doorbells,
}
use draiver.Project.Fleet.{Attempt, latest}

Mem-insert_doorbell :
    (d x : Doorbell) (l : List Doorbell) → Memᴰ x (insert_doorbell d l) ↔ ((x ≡ d) ⊎ Memᴰ x l)
unfolding insert_doorbell
Mem-insert_doorbell d x [] =
    (λ m. Memᴰ.cases_cons m, λ o. elim o [ inl e ↦ Memᴰ.head e | inr m ↦ elim m [ ] ])
Mem-insert_doorbell d x (y ∷ l) =
    let (f, g) = Mem-insert_doorbell d x l in
    elim (Bool-cases (before y d)) [
      | inl t ↦ rw t (
        λ m. elim (Memᴰ.cases_cons m) [
          | inl e ↦ inr (Memᴰ.head e)
          | inr k ↦ elim (f k) [ inl e ↦ inl e | inr j ↦ inr (Memᴰ.tail j) ]
        ],
        λ o. elim o [
          | inl e ↦ Memᴰ.tail (g (inl e))
          | inr m ↦ elim (Memᴰ.cases_cons m) [ inl e ↦ Memᴰ.head e | inr k ↦ Memᴰ.tail (g (inr k)) ]
        ],
      )
      | inr n ↦
          rw n (λ m. Memᴰ.cases_cons m, λ o. elim o [ inl e ↦ Memᴰ.head e | inr m ↦ Memᴰ.tail m ])
    ]

Mem-sort_doorbells : (x : Doorbell) (l : List Doorbell) → Memᴰ x (sort_doorbells l) ↔ Memᴰ x l
unfolding sort_doorbells
Mem-sort_doorbells x [] = (λ m. m, λ m. m)
Mem-sort_doorbells x (d ∷ l) =
    let (f, g) = Mem-sort_doorbells x l in
    let (h, k) = Mem-insert_doorbell d x (sort_doorbells l) in
    (
      λ m. elim (h m) [ inl e ↦ Memᴰ.head e | inr j ↦ Memᴰ.tail (f j) ],
      λ m. elim (Memᴰ.cases_cons m) [ inl e ↦ k (inl e) | inr j ↦ k (inr (g j)) ],
    )

-- A list whose seconds never fall.
abbrev Ordered : List Doorbell → Type 0
Ordered [] = Unit
Ordered (d ∷ l) = All (λ x. d.ts ≤ x.ts) l × Ordered l

before-ts : (a b : Doorbell) → before a b ≡ true → a.ts ≤ b.ts
before-ts a b h = ground arith

not_before-ts : (a b : Doorbell) → before a b ≡ false → b.ts ≤ a.ts
not_before-ts a b h = ground arith

at_most : (t u : ℕ) (l : List Doorbell) → t ≤ u → All (λ x. u ≤ x.ts) l → All (λ x. t ≤ x.ts) l
at_most t u [] h k = tt
at_most t u (x ∷ l) h k = (omega (arith, h, k.0), at_most t u l h k.1)

All-insert_doorbell :
    (t : ℕ) (d : Doorbell) (l : List Doorbell)
    → t ≤ d.ts
    → All (λ x. t ≤ x.ts) l
    → All (λ x. t ≤ x.ts) (insert_doorbell d l)
unfolding insert_doorbell
All-insert_doorbell t d [] h k = (h, tt)
All-insert_doorbell t d (x ∷ l) h k = elim (Bool-cases (before x d)) [
  | inl b ↦ rw b (k.0, All-insert_doorbell t d l h k.1)
  | inr n ↦ rw n (h, k)
]

insert_doorbell-Ordered :
    (d : Doorbell) (l : List Doorbell) → Ordered l → Ordered (insert_doorbell d l)
unfolding insert_doorbell
insert_doorbell-Ordered d [] o = (tt, tt)
insert_doorbell-Ordered d (x ∷ l) o = elim (Bool-cases (before x d)) [
  | inl b ↦
      rw b (All-insert_doorbell x.ts d l (before-ts x d b) o.0, insert_doorbell-Ordered d l o.1)
  | inr n ↦ rw n ((not_before-ts x d n, at_most d.ts x.ts l (not_before-ts x d n) o.0), o)
]

sort_doorbells-Ordered : (l : List Doorbell) → Ordered (sort_doorbells l)
unfolding sort_doorbells
sort_doorbells-Ordered [] = tt
sort_doorbells-Ordered (d ∷ l) =
    insert_doorbell-Ordered d (sort_doorbells l) (sort_doorbells-Ordered l)

abbrev bell : String → Event → Doorbell
bell child e = record { child = child; seq = e.seq; kind = e.kind; ts = e.ts / second }

-- A doorbell of a wanted ticket: a lifecycle event of its latest attempt whose key no activation
-- has handled.
abbrev Rung : List String → List Event → String → Doorbell → Type 0
Rung handled events child d =
    (e : Event) × Memᴰ e events
    × (is_doorbell e.kind ≡ true)
    × (has handled (doorbell_key child e.seq) ≡ false)
    × (d ≡ bell child e)

abbrev pub Rings : List String → List Attempt → List String → Doorbell → Type 0
Rings wants attempts handled d =
    (child : String) × Memᴰ child wants × Rung handled (events_of (latest attempts child)) child d

rings_iff :
    (child : String) (handled : List String) (es : List Event) (d : Doorbell)
    → Memᴰ d (rings child handled es) ↔ Rung handled es child d
unfolding rings
rings_iff child handled [] d = (λ m. elim m [ ], λ r. elim r.1 [ ])
rings_iff child handled (e ∷ es) d =
    let (f, g) = rings_iff child handled es d in
    let test : Event → Bool =
      λ x. is_doorbell x.kind && not (has handled (doorbell_key child x.seq)) in
    elim (Bool-cases (test e)) [
      | inl t ↦ rw t (
        λ m. elim (Memᴰ.cases_cons m) [
          | inl p ↦ (e, Memᴰ.head refl, ground arith, ground arith, p)
          | inr k ↦ let (x, y, z, v, q) = f k in (x, Memᴰ.tail y, z, v, q)
        ],
        λ (x, y, z, v, q). elim (Memᴰ.cases_cons y) [
          | inl s ↦ Memᴰ.head (q ∙ ap (bell child) s)
          | inr k ↦ Memᴰ.tail (g (x, k, z, v, q))
        ],
      )
      | inr n ↦ rw n (
        λ m. let (x, y, z, v, q) = f m in (x, Memᴰ.tail y, z, v, q),
        λ (x, y, z, v, q). elim (Memᴰ.cases_cons y) [
          | inl s ↦ absurd (false≢true (sym n ∙ ap test (sym s) ∙ rw (z, v) refl))
          | inr k ↦ g (x, k, z, v, q)
        ],
      )
    ]

queue_iff :
    (wants : List String) (attempts : List Attempt) (handled : List String) (d : Doorbell)
    → Memᴰ d (queue wants attempts handled) ↔ Rings wants attempts handled d
unfolding queue
queue_iff [] attempts handled d = (λ m. elim m [ ], λ r. elim r.1 [ ])
queue_iff (c ∷ cs) attempts handled d =
    let (f, g) = queue_iff cs attempts handled d in
    let (h, k) = rings_iff c handled (events_of (latest attempts c)) d in
    let bells = rings c handled (events_of (latest attempts c)) in
    (
      λ m. elim (Memᴰ.append_cases bells m) [
        | inl r ↦ (c, Memᴰ.head refl, h r)
        | inr r ↦ let (x, y, z) = f r in (x, Memᴰ.tail y, z)
      ],
      λ (x, y, z). elim (Memᴰ.cases_cons y) [
        | inl e ↦
            Memᴰ.append_left (queue cs attempts handled)
              (k (subst (λ t. Rung handled (events_of (latest attempts t)) t d) e z))
        | inr j ↦ Memᴰ.append_right bells (g (x, j, z))
      ],
    )

-- The queue of doorbells holds exactly the lifecycle events of the wanted tickets' latest attempts
-- that no activation has handled, and its first is of the earliest second.
pub pending_doorbells-Rings :
    (wants : List String) (attempts : List Attempt) (handled : List String)
    → ((d : Doorbell)
        → Memᴰ d (pending_doorbells wants attempts handled) ↔ Rings wants attempts handled d)
      × ((d : Doorbell) (rest : List Doorbell)
          → pending_doorbells wants attempts handled ≡ d ∷ rest
          → All (λ x. d.ts ≤ x.ts) rest)
unfolding pending_doorbells
pending_doorbells-Rings wants attempts handled =
    let q = queue wants attempts handled in
    (
      λ d.
          let (f, g) = Mem-sort_doorbells d q in
          let (h, k) = queue_iff wants attempts handled d in (λ m. h (f m), λ r. g (k r)),
      λ d rest e. (subst Ordered e (sort_doorbells-Ordered q)).0,
    )
