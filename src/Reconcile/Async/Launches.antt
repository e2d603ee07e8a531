-- ===== src/Reconcile/Async/Launches.antt =====
-- On a log whose seqs rise, a pending source of the park guard is an open launch of the wake loop.
use mathlib.Core.Path.{subst}
use draiver.Prelude.{
  ℕ, ◌≤◌, ◌<◌, String, ◌≡◌, refl, sym, ap, ◌∙◌, ◌≢◌, ◌⊎◌, inl, inr, Bool, true, false, not, ◌&&◌,
  ◌||◌, false≢true, Option, none, some, List, [], ◌∷◌, ◌++◌, arith, ◌==◌, ltb, if◌then◌else◌,
  Bool-cases, any,
}
use draiver.Event.{Event}
use draiver.Log.{insert_by_seq, sort_by_seq}
use draiver.Prelude.Maps.{string_key, nat_key, ref_key, has}
use draiver.Reconcile.Async.{oldest_from}
use draiver.Wake.{Source, launch_step, last_launch, answers_launch, async_source}

-- Seqs rise along the log, from above `n`.
abbrev pub Rising : ℕ → List Event → Type 0
Rising n [] = Unit
Rising n (e ∷ es) = (n < e.seq) × Rising e.seq es

Rising-weaken : (m n : ℕ) (es : List Event) → m ≤ n → Rising n es → Rising m es
Rising-weaken m n [] h r = tt
Rising-weaken m n (e ∷ es) h r = (omega (arith, h, r.0), r.1)

insert_front : (e : Event) (es : List Event) → Rising e.seq es → insert_by_seq e es ≡ e ∷ es
unfolding insert_by_seq
insert_front e [] r = refl
insert_front e (x ∷ es) r = ground (arith, r.0)

pub sort_by_seq-Rising : (n : ℕ) (es : List Event) → Rising n es → sort_by_seq es ≡ es
unfolding sort_by_seq
sort_by_seq-Rising n [] r = refl
sort_by_seq-Rising n (e ∷ es) r =
    ap (insert_by_seq e) (sort_by_seq-Rising e.seq es r.1) ∙ insert_front e es r.1

-- Whether a launch is open after an event, and after the events, as the loop has it.
abbrev open_step : Bool → Event → Bool
open_step o e = if e.kind == "async-job" then true else if e.kind == "test-result" then false else o

abbrev pub open_after : Bool → List Event → Bool
open_after o [] = o
open_after o (e ∷ es) = open_after (open_step o e) es

oldest_next :
    (handled : List ℕ) (o : Bool) (e : Event) (es : List Event)
    → (oldest_from handled o (e ∷ es) ≡ oldest_from handled (open_step o e) es)
      ⊎ (oldest_from handled o (e ∷ es) ≡ e.seq)
unfolding oldest_from
oldest_next handled o e es =
    let a : Bool = e.kind == "async-job" in
    let b : Bool = e.kind == "test-result" in
    let h : Bool = has handled e.seq in
    elim (Bool-cases a) [
      | inl t ↦ inl (ground arith)
      | inr n ↦ elim (Bool-cases b) [
        | inr m ↦ inl (ground arith)
        | inl t ↦ elim (Bool-cases (o && not h)) [
          | inl y ↦ inr (ground arith)
          | inr y ↦ inl (ground arith)
        ]
      ]
    ]

result_found :
    (handled : List ℕ) (r : Event)
    → r.kind ≡ "test-result"
    → has handled r.seq ≡ false
    → oldest_from handled true (r ∷ []) ≡ r.seq
unfolding oldest_from
result_found handled r k f = rw (k, f) refl

-- The loop ends with a seq other than 0 once a new result follows an open launch.
pub found_from :
    (handled : List ℕ) (o : Bool) (es : List Event) (r : Event) (n : ℕ)
    → Rising n es
    → 0 < r.seq
    → r.kind ≡ "test-result"
    → has handled r.seq ≡ false
    → open_after o es ≡ true
    → oldest_from handled o (es ++ r ∷ []) ≢ 0
found_from handled o [] r n i p k f h z =
    let q : oldest_from handled o (r ∷ []) ≡ r.seq =
      ap (λ b. oldest_from handled b (r ∷ [])) h ∙ result_found handled r k f in
    omega (arith, p, sym q ∙ z)
found_from handled o (e ∷ es) r n i p k f h z = elim (oldest_next handled o e (es ++ r ∷ [])) [
  | inl q ↦ found_from handled (open_step o e) es r e.seq i.1 p k f h (sym q ∙ z)
  | inr q ↦ omega (arith, i.0, sym q ∙ z)
]

abbrev pub launch_from : ℕ → List Event → ℕ
launch_from m [] = m
launch_from m (e ∷ es) =
    launch_from (if (e.kind == "async-job") && ltb m e.seq then e.seq else m) es

launch_step_lem :
    (l : ℕ × String) (e : Event)
    → (launch_step l e).0 ≡ (if (e.kind == "async-job") && ltb l.0 e.seq then e.seq else l.0)
unfolding launch_step
launch_step_lem l e = ground arith

last_launch-from : (l : ℕ × String) (es : List Event) → (last_launch l es).0 ≡ launch_from l.0 es
unfolding last_launch
last_launch-from l [] = refl
last_launch-from l (e ∷ es) =
    last_launch-from (launch_step l e) es ∙ ap (λ k. launch_from k es) (launch_step_lem l e)

launch_from-grows : (m : ℕ) (es : List Event) → m ≤ launch_from m es
launch_from-grows m [] = omega arith
launch_from-grows m (e ∷ es) = elim (Bool-cases ((e.kind == "async-job") && ltb m e.seq)) [
  | inl y ↦
      rw y (let lt : m < e.seq = ground (arith, y) in omega (arith, lt, launch_from-grows e.seq es))
  | inr n ↦ rw n (launch_from-grows m es)
]

abbrev Open : ℕ → Bool → List Event → ℕ → Type 0
Open m o es l = (m < l → open_after o es ≡ true) × (l ≡ m → open_after o es ≡ o)

opened_here :
    (m : ℕ) (o : Bool) (e : Event) (es : List Event) (l : ℕ)
    → (e.kind == "async-job") ≡ true
    → m < e.seq
    → e.seq ≤ l
    → Open e.seq true es l
    → Open m o (e ∷ es) l
opened_here m o e es l a r g (f, k) = (
  λ h. rw a (elim (Bool-cases (ltb e.seq l)) [
    | inl y ↦ f (ground (arith, y))
    | inr n ↦ k (ground (arith, n, g))
  ]),
  λ h. absurd (omega (arith, h, r, g)),
)

passed_by :
    (m : ℕ) (o : Bool) (e : Event) (es : List Event) (l : ℕ)
    → (e.kind == "async-job") ≡ false
    → m < e.seq
    → answers_launch l e ≡ false
    → Open m (open_step o e) es l
    → Open m o (e ∷ es) l
passed_by m o e es l a r n (f, k) = (
  f,
  λ h. k h ∙ elim (Bool-cases (e.kind == "test-result")) [
    | inl y ↦ absurd (false≢true (ground (arith, n, h, r, y)))
    | inr z ↦ rw (a, z) refl
  ],
)

or_parts : (a b : Bool) → (a || b) ≡ false → (a ≡ false) × (b ≡ false)
or_parts a b h = (ground arith, ground arith)

-- A last launch that no result answers leaves the launch open.
open_lem :
    (m : ℕ) (o : Bool) (es : List Event)
    → Rising m es
    → any (answers_launch (launch_from m es)) es ≡ false
    → Open m o es (launch_from m es)
open_lem m o [] r h = (λ l. absurd (omega (arith, l)), λ e. refl)
open_lem m o (e ∷ es) r h = elim (Bool-cases (e.kind == "async-job")) [
  | inl a ↦
      let first : launch_from m (e ∷ es) ≡ launch_from e.seq es =
        ap (λ k. launch_from k es) (ground (arith, a, r.0)) in
      let (x, y) = or_parts _ _ (ap (λ l. any (answers_launch l) (e ∷ es)) (sym first) ∙ h) in
      subst (Open m o (e ∷ es)) (sym first) (
        opened_here m o e es (launch_from e.seq es) a r.0 (launch_from-grows e.seq es)
          (open_lem e.seq true es r.1 y))
  | inr n ↦
      let first : launch_from m (e ∷ es) ≡ launch_from m es =
        ap (λ k. launch_from k es) (ground (arith, n)) in
      let (x, y) = or_parts _ _ (ap (λ l. any (answers_launch l) (e ∷ es)) (sym first) ∙ h) in
      subst (Open m o (e ∷ es)) (sym first) (
        passed_by m o e es (launch_from m es) n r.0 x
          (open_lem m (open_step o e) es (Rising-weaken m e.seq es (omega (arith, r.0)) r.1) y))
]

abbrev pub has_source : Option Source → Bool
has_source none = false
has_source (some s) = true

-- A pending async source leaves the launch open on a rising log.
pub source_open :
    (es : List Event)
    → Rising 0 es
    → has_source (async_source es) ≡ true
    → (open_after false es ≡ true) × (0 < launch_from 0 es)
unfolding async_source
source_open es r h =
    let l : ℕ = (last_launch (0, "") es).0 in
    let same : l ≡ launch_from 0 es = last_launch-from (0, "") es in
    let answered : any (answers_launch l) es ≡ false = ground (arith, h) in
    let pos : 0 < launch_from 0 es = ground (arith, h, same) in
    ((open_lem 0 false es r (ap (λ k. any (answers_launch k) es) (sym same) ∙ answered)).0 pos, pos)
