-- ===== src/Reconcile/Async/Wake.antt =====
-- What a run for one worker writes, and that no result wakes it twice.
use mathlib.Core.List.Memᴰ
use mathlib.Core.Path.{subst}
use draiver.Prelude.{
  ℕ, ◌≤◌, String, ◌≡◌, refl, sym, ap, ◌∙◌, ◌≢◌, ◌⊎◌, inl, inr, Bool, true, false, not, ◌&&◌,
  false≢true, Option, none, some, List, [], ◌∷◌, ◌++◌, Memᴰ, arith, ◌==◌, eq_iff, ltb, eqb,
  Bool-cases,
}
use draiver.Prelude.Maps.{string_key, nat_key, ref_key, has}
use draiver.Event.{Event}
use draiver.Reconcile.Async.{
  job, oldest_from, oldest_unhandled_async_result, woken_by_own, author_own, reconcile_async_worker,
}
use draiver.Log.{ok, err, insert_by_seq, sort_by_seq}
use draiver.Project.State.{Parsed, ok, err}
use draiver.Project.Fleet.{Attempt, is_running, Ref, ref}
use draiver.Reconcile.Activation.{Pass}

-- A result of the log with the seq `n`, that no activation has handled.
abbrev pub Waits : List ℕ → List Event → ℕ → Type 0
Waits handled es n =
    (e : Event) × Memᴰ e es × (e.kind ≡ "test-result") × (has handled e.seq ≡ false) × (n ≡ e.seq)

later :
    (handled : List ℕ) (e : Event) (es : List Event) (n : ℕ)
    → Waits handled es n
    → Waits handled (e ∷ es) n
later handled e es n (x, m, k, f, p) = (x, Memᴰ.tail m, k, f, p)

-- What the loop's step returns.
oldest_step :
    (handled : List ℕ) (o : Bool) (e : Event) (es : List Event)
    → ((r : Bool) × (oldest_from handled o (e ∷ es) ≡ oldest_from handled r es))
      ⊎ (((e.kind == "test-result") ≡ true)
          × (has handled e.seq ≡ false)
          × (oldest_from handled o (e ∷ es) ≡ e.seq))
unfolding oldest_from
oldest_step handled o e es =
    let a : Bool = e.kind == "async-job" in
    let b : Bool = e.kind == "test-result" in
    let h : Bool = has handled e.seq in
    elim (Bool-cases a) [
      | inl t ↦ inl (true, ground arith)
      | inr n ↦ elim (Bool-cases b) [
        | inr m ↦ inl (o, ground arith)
        | inl t ↦ elim (Bool-cases (o && not h)) [
          | inl y ↦ inr (t, ground arith, ground arith)
          | inr y ↦ inl (false, ground arith)
        ]
      ]
    ]

oldest_from-Waits :
    (handled : List ℕ) (o : Bool) (es : List Event)
    → (oldest_from handled o es ≡ 0) ⊎ Waits handled es (oldest_from handled o es)
unfolding oldest_from
oldest_from-Waits handled o [] = inl refl
oldest_from-Waits handled o (e ∷ es) = elim (oldest_step handled o e es) [
  | inl (r, p) ↦ elim (oldest_from-Waits handled r es) [
    | inl z ↦ inl (p ∙ z)
    | inr w ↦
        inr
          (subst (Waits handled (e ∷ es)) (sym p) (later handled e es (oldest_from handled r es) w))
  ]
  | inr (t, f, p) ↦ inr (e, Memᴰ.head refl, (eq_iff e.kind "test-result").0 t, f, p)
]

Mem-insert_by_seq : (d x : Event) (l : List Event) → Memᴰ x (insert_by_seq d l) → (x ≡ d) ⊎ Memᴰ x l
unfolding insert_by_seq
Mem-insert_by_seq d x [] m = Memᴰ.cases_cons m
Mem-insert_by_seq d x (y ∷ l) m = elim (Bool-cases (ltb y.seq d.seq)) [
  | inl t ↦ elim (Memᴰ.cases_cons (rw t at m)) [
    | inl e ↦ inr (Memᴰ.head e)
    | inr k ↦ elim (Mem-insert_by_seq d x l k) [ inl e ↦ inl e | inr j ↦ inr (Memᴰ.tail j) ]
  ]
  | inr n ↦ Memᴰ.cases_cons (rw n at m)
]

Mem-sort_by_seq : (x : Event) (l : List Event) → Memᴰ x (sort_by_seq l) → Memᴰ x l
unfolding sort_by_seq
Mem-sort_by_seq x [] m = m
Mem-sort_by_seq x (d ∷ l) m = elim (Mem-insert_by_seq d x (sort_by_seq l) m) [
  | inl e ↦ Memᴰ.head e
  | inr k ↦ Memᴰ.tail (Mem-sort_by_seq x l k)
]

oldest-Waits :
    (es : List Event) (handled : List ℕ)
    → (oldest_unhandled_async_result es handled ≡ 0)
      ⊎ Waits handled es (oldest_unhandled_async_result es handled)
unfolding oldest_unhandled_async_result
oldest-Waits es handled = elim (oldest_from-Waits handled false (sort_by_seq es)) [
  | inl z ↦ inl z
  | inr (x, m, k, f, p) ↦ inr (x, Mem-sort_by_seq x es m, k, f, p)
]

abbrev pub entries : List (Ref × Event) → Parsed Pass → List (Ref × Event)
entries none_kept (ok p) = p.authored
entries none_kept (err e) = none_kept

abbrev returns : Parsed Pass → Bool
returns (ok p) = true
returns (err e) = false

module _ (actor : String) (append_error : Ref → Event → Option String) where
  -- What one run for a worker wrote, if it wrote: the activation of a result of the worker's own log.
  abbrev pub WokeOwn : Attempt → List Ref → Pass → Pass → Type 0
  WokeOwn w live old new =
      (seq : ℕ) × (new.authored ≡ old.authored ++ (ref w, woken_by_own actor w seq) ∷ [])
      × Waits (job w.ticket w.events).handled w.events seq
      × ((w.enabled && is_running w.state) ≡ true)
      × (has live (ref w) ≡ false)
      × ((job w.ticket w.events).activation ≤ (job w.ticket w.events).park)

  abbrev pub wakes : Attempt → List Ref → Bool
  wakes w live =
      let j = job w.ticket w.events in
      w.enabled
      && is_running w.state
      && not (eqb j.launch 0)
      && not (ltb j.park j.activation)
      && not (eqb (oldest_unhandled_async_result w.events j.handled) 0)
      && not (has live (ref w))

  abbrev pub own_seq : Attempt → ℕ
  own_seq w = oldest_unhandled_async_result w.events (job w.ticket w.events).handled

  pub quiet_or_wakes :
      (w : Attempt) (live : List Ref) (old : Pass)
      → (((wakes w live) ≡ false)
          × (entries [] (reconcile_async_worker actor append_error w live old) ≡ old.authored))
        ⊎ (((wakes w live) ≡ true)
            × (reconcile_async_worker actor append_error w live old
                ≡ author_own actor append_error
                    (append_error (ref w) (woken_by_own actor w (own_seq w)))
                    w
                    (own_seq w)
                    old))
  unfolding reconcile_async_worker
  quiet_or_wakes w live old = elim (Bool-cases (wakes w live)) [
    | inl t ↦ inr (t, ground arith)
    | inr f ↦ inl (f, ground arith)
  ]

  author_own_lem :
      (o : Option String) (w : Attempt) (seq : ℕ) (old new : Pass)
      → author_own actor append_error o w seq old ≡ ok new
      → new.authored ≡ old.authored ++ (ref w, woken_by_own actor w seq) ∷ []
  unfolding author_own
  author_own_lem none w seq old new h = ap (entries []) (sym h)
  author_own_lem (some e) w seq old new h = absurd (false≢true (ap returns h))

  guarded :
      (w : Attempt) (live : List Ref)
      → wakes w live ≡ true
      → ((w.enabled && is_running w.state) ≡ true)
        × (has live (ref w) ≡ false)
        × ((job w.ticket w.events).activation ≤ (job w.ticket w.events).park)
        × (own_seq w ≢ 0)
  guarded w live t = (ground arith, ground arith, ground arith, λ z. ground arith)

  -- A run for one worker that returns either wrote nothing, or it wrote one activation, of a result
  -- of the worker's own log that no activation has handled, for an attempt that is enabled and
  -- Running, without a live session and without an activation later than its last park.
  pub reconcile_async_worker-WokeOwn :
      (w : Attempt) (live : List Ref) (old new : Pass)
      → reconcile_async_worker actor append_error w live old ≡ ok new
      → (new.authored ≡ old.authored) ⊎ WokeOwn w live old new
  reconcile_async_worker-WokeOwn w live old new h = elim (quiet_or_wakes w live old) [
    | inl (f, q) ↦ inl (ap (entries []) (sym h) ∙ q)
    | inr (t, q) ↦
        let (a, b, c, n) = guarded w live t in
        elim (oldest-Waits w.events (job w.ticket w.events).handled) [
          | inl z ↦ absurd (n z)
          | inr r ↦ inr (own_seq w, author_own_lem _ w (own_seq w) old new (sym q ∙ h), r, a, b, c)
        ]
  ]
