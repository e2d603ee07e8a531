-- ===== src/Pyramid/Climb.antt =====
-- What the review gate asks of the results at the head: `RequiredStatus`.
use draiver.Prelude.{
  ℕ, suc, ◌≤◌, ◌<◌, String, ◌≡◌, refl, ap, ◌∙◌, ◌⊎◌, inl, inr, Bool, true, false, not, ◌&&◌, ◌||◌,
  Option, none, some, List, [], ◌∷◌, arith, ◌==◌, ltb, leb, eqb, if◌then◌else◌, Bool-cases, any,
}
use draiver.Prelude.Maps.{string_key, nat_key, ref_key, lookup, insert, lookup-insert}
use draiver.Project.State.{is_empty}
use draiver.Pyramid.{
  Level, is_required, Pyramid, TestResult, index_from, climb, climb_from, height, into_status,
  status_from, required_status,
}

-- The rung is a level with no required level above it.
abbrev pub clears : String → List Level → Bool
clears rung [] = false
clears rung (lv ∷ levels) =
    ((lv.name == rung) && not (any is_required levels)) || clears rung levels

-- One above the index of the last required level, or 0.
end_from : ℕ → ℕ → Bool → ℕ
end_from i rest req = if eqb rest 0 then (if req then suc i else 0) else rest

required_end : ℕ → List Level → ℕ
unfolding end_from
required_end i [] = 0
required_end i (lv ∷ levels) = end_from i (required_end (suc i) levels) (is_required lv)

required_end_bound :
    (i : ℕ) (levels : List Level) → (required_end i levels ≡ 0) ⊎ (i < required_end i levels)
unfolding required_end end_from
required_end_bound i [] = inl refl
required_end_bound i (lv ∷ levels) =
    let n = required_end (suc i) levels in
    elim (required_end_bound (suc i) levels) [
      | inr h ↦ inr (ground (arith, h))
      | inl z ↦ elim (Bool-cases (is_required lv)) [
        | inl t ↦ inr (ground (arith, z, t))
        | inr f ↦ inl (ground (arith, z, f))
      ]
    ]

required_end_zero :
    (i : ℕ) (levels : List Level) → eqb (required_end i levels) 0 ≡ not (any is_required levels)
unfolding required_end end_from
required_end_zero i [] = refl
required_end_zero i (lv ∷ levels) = ground (arith, required_end_zero (suc i) levels)

status_step :
    (i top n : ℕ) (req ran e : Bool)
    → (n ≡ 0) ⊎ (suc i < n)
    → e ≡ leb n top
    → (if not req then e else if ltb i top then e else false) ≡ leb (end_from i n req) top
unfolding end_from
status_step i top n req ran e (inl z) h = ground (arith, z, h)
status_step i top n req ran e (inr b) h = ground (arith, b, h)

is_empty-into_status :
    (ran : Bool) (lv : Level) (s : List Level × List Level)
    → is_empty (into_status ran lv s).1 ≡ (if ran then is_empty s.1 else false)
unfolding into_status
is_empty-into_status true lv (a, b) = refl
is_empty-into_status false lv (a, b) = refl

is_empty-status_from :
    (i top : ℕ) (levels : List Level)
    → is_empty (status_from i top levels).1 ≡ leb (required_end i levels) top
unfolding status_from required_end
is_empty-status_from i top [] = ground arith
is_empty-status_from i top (lv ∷ levels) =
    let n = required_end (suc i) levels in
    let step =
      status_step i top n (is_required lv) (ltb i top) (is_empty (status_from (suc i) top levels).1)
        (required_end_bound (suc i) levels) (is_empty-status_from (suc i) top levels) in
    elim (Bool-cases (is_required lv)) [
      | inr f ↦ rw f (rw f at step)
      | inl t ↦
          rw t
            (is_empty-into_status (ltb i top) lv (status_from (suc i) top levels) ∙ (rw t at step))
    ]

or_here : ℕ → Bool → Option ℕ → Option ℕ
or_here i same none = if same then some i else none
or_here i same (some j) = some j

-- The index that the loop leaves at a name.
last_index : ℕ → List Level → String → Option ℕ
unfolding or_here
last_index i [] rung = none
last_index i (lv ∷ levels) rung = or_here i (lv.name == rung) (last_index (suc i) levels rung)

reaches : ℕ → Option ℕ → Bool
reaches n none = false
reaches n (some i) = leb n (suc i)

last_index_bound :
    (i : ℕ) (levels : List Level) (rung : String) (j : ℕ)
    → last_index i levels rung ≡ some j
    → i ≤ j
unfolding last_index or_here
last_index_bound i [] rung j h = cc
last_index_bound i (lv ∷ levels) rung j h =
    bound (last_index (suc i) levels rung) (last_index_bound (suc i) levels rung j) h
  where
    bound :
        (o : Option ℕ) → (o ≡ some j → suc i ≤ j) → or_here i (lv.name == rung) o ≡ some j → i ≤ j
    bound none f h = ground (arith, h)
    bound (some k) f h = omega (arith, f h)

-- The rung at an index clears the levels if the index reaches their end.
clears_step :
    (i n : ℕ) (o : Option ℕ) (same req c : Bool)
    → ((j : ℕ) → o ≡ some j → suc i ≤ j)
    → (n ≡ 0) ⊎ (suc i < n)
    → reaches n o ≡ c
    → reaches (end_from i n req) (or_here i same o) ≡ ((same && eqb n 0) || c)
unfolding reaches or_here end_from
clears_step i n none same req c f (inl z) h = ground (arith, z, h)
clears_step i n none same req c f (inr b) h = ground (arith, b, h)
clears_step i n (some j) same req c f (inl z) h = let b = f j refl in ground (arith, z, h, b)
clears_step i n (some j) same req c f (inr b) h = ground (arith, b, h)

reaches-last_index :
    (i : ℕ) (levels : List Level) (rung : String)
    → reaches (required_end i levels) (last_index i levels rung) ≡ clears rung levels
unfolding required_end last_index reaches
reaches-last_index i [] rung = refl
reaches-last_index i (lv ∷ levels) rung =
    clears_step i (required_end (suc i) levels) (last_index (suc i) levels rung) (lv.name == rung)
      (is_required lv) (clears rung levels) (last_index_bound (suc i) levels rung)
      (required_end_bound (suc i) levels) (reaches-last_index (suc i) levels rung)
    ∙ rw (required_end_zero (suc i) levels) refl

or_else : Option ℕ → Option ℕ → Option ℕ
or_else none o = o
or_else (some i) o = some i

lookup-index_from :
    (i : ℕ) (levels : List Level) (index : List (String × ℕ)) (rung : String)
    → lookup (index_from i levels index) rung
      ≡ or_else (last_index i levels rung) (lookup index rung)
unfolding index_from last_index or_else or_here
lookup-index_from i [] index rung = refl
lookup-index_from i (lv ∷ levels) index rung =
    lookup-index_from (suc i) levels (insert lv.name i index) rung
    ∙ ap (or_else (last_index (suc i) levels rung)) (lookup-insert lv.name rung i index)
    ∙ both (last_index (suc i) levels rung)
  where
    both :
        (o : Option ℕ)
        → or_else o (if lv.name == rung then some i else lookup index rung)
          ≡ or_else (or_here i (lv.name == rung) o) (lookup index rung)
    both none = ground arith
    both (some j) = refl

leb-climb : (e best : ℕ) (o : Option ℕ) → leb e (climb best o) ≡ (leb e best || reaches e o)
unfolding climb reaches
leb-climb e best none = ground arith
leb-climb e best (some i) = ground arith

leb-climb_from :
    (e : ℕ) (index : List (String × ℕ)) (head : String) (best : ℕ) (results : List TestResult)
    → leb e (climb_from index head best results)
      ≡ (leb e best || any (λ r. (r.commit == head) && reaches e (lookup index r.rung)) results)
unfolding climb_from
leb-climb_from e index head best [] = ground arith
leb-climb_from e index head best (r ∷ results) = elim (Bool-cases (r.commit == head)) [
  | inl t ↦ rw t (
      leb-climb_from e index head (climb best (lookup index r.rung)) results
      ∙ rw (leb-climb e best (lookup index r.rung)) (ground arith))
  | inr f ↦ rw f (leb-climb_from e index head best results)
]

any-cong :
    (p q : TestResult → Bool) (xs : List TestResult)
    → ((x : TestResult) → p x ≡ q x)
    → any p xs ≡ any q xs
any-cong p q [] h = refl
any-cong p q (x ∷ xs) h = ground (arith, h x, any-cong p q xs h)

-- In a pyramid with a required level no required level is outstanding exactly if a result at the
-- head names a rung above which no level is required.
pub required_status-clears :
    (p : Pyramid) (results : List TestResult) (head : String)
    → any is_required p.levels ≡ true
    → is_empty (required_status p results head).1
      ≡ any (λ r. (r.commit == head) && clears r.rung p.levels) results
unfolding required_status height or_else lookup
required_status-clears p results head h =
    let index = index_from 0 p.levels [] in
    let e = required_end 0 p.levels in
    let z : eqb e 0 ≡ false = required_end_zero 0 p.levels ∙ ap not h in
    is_empty-status_from 0 (climb_from index head 0 results) p.levels
    ∙ leb-climb_from e index head 0 results
    ∙ rw (positive e z) (
        any-cong _ _ results λ r.
          ap (λ b. (r.commit == head) && b)
            (ap (reaches e) (
                lookup-index_from 0 p.levels [] r.rung
                ∙ or_else_none (last_index 0 p.levels r.rung) r.rung)
              ∙ reaches-last_index 0 p.levels r.rung))
  where
    positive : (e : ℕ) → eqb e 0 ≡ false → leb e 0 ≡ false
    positive e z = ground (arith, z)

    or_else_none : (o : Option ℕ) (rung : String) → or_else o (lookup [] rung) ≡ o
    or_else_none none rung = refl
    or_else_none (some i) rung = refl
