-- ===== src/Reconcile/Tick/Reclaims.antt =====
-- Which checkouts a tick removes.
use mathlib.Core.Path.{subst}
use draiver.Prelude.{
  String, ◌≡◌, refl, sym, ap, ◌∙◌, ◌⊎◌, inl, inr, true, false, false≢true, Option, none, some, List,
  [], ◌∷◌, ◌++◌, map, arith, Bool-cases, any-append,
}
use draiver.Prelude.Maps.{
  string_key, nat_key, same_ref, ref_key, has, lookup, insert, lookup-delete,
}
use draiver.Project.Fleet.{Ref}
use draiver.Reconcile.Gates.{Desired}
use draiver.Reconcile.Health.{HealthEvent, classify_admit, report_health, sweep_health}
use draiver.Reconcile.Retire.{Run, Runs, Act, health_edge, retire}
use draiver.Reconcile.Retire.Reclaims.{is_reclaim, reclaims, MayReclaim, retire-MayReclaim}
use draiver.Reconcile.Tick.{
  BroughtUp, up, no_repo, failed, Boot, Round, classes, report_at, session_admitted,
  escalate_no_repo, readmits, reap_run, reap_spent_run, on_brought_up, admit_step, admit_all,
  state_of, retire_step, retire_all, sweep_all, sweep, tick,
}
use draiver.Reconcile.Tick.Table.{lookup-admit_all}

-- The attempt is not desired, has a run, and its retire may remove the checkout.
abbrev pub MayGo : Boot → List Ref → Runs → Ref → Type 0
MayGo b keys runs k =
    (has keys k ≡ false)
    × (rn : Run) × (lookup runs k ≡ some rn)
    × MayReclaim b.disk k (state_of b k) rn

none_in_edges : (k j : Ref) (es : List HealthEvent) → reclaims k (map (health_edge j) es) ≡ false
none_in_edges k j [] = refl
none_in_edges k j (e ∷ es) = none_in_edges k j es

module _ (b : Boot) (k : Ref) where
  reclaims-append :
      (xs ys : List Act) → reclaims k ys ≡ false → reclaims k (xs ++ ys) ≡ reclaims k xs
  reclaims-append xs ys n = any-append (is_reclaim k) xs ys ∙ ground (arith, n)

  reclaims-report_at :
      (j : Ref) (class message : String) (w : Round)
      → reclaims k (report_at j class message w).acts ≡ reclaims k w.acts
  unfolding report_at
  reclaims-report_at j class message w =
      reclaims-append w.acts _
        (none_in_edges k j (report_health (classes (lookup w.health j)) class message).1)

  none_in-escalate_no_repo : (j : Ref) → reclaims k (escalate_no_repo b j) ≡ false
  unfolding escalate_no_repo
  none_in-escalate_no_repo j = ground arith

  reclaims-on_brought_up :
      (j : Ref) (o : BroughtUp) (w : Round)
      → reclaims k (on_brought_up b j o w).acts ≡ reclaims k w.acts
  unfolding on_brought_up
  reclaims-on_brought_up j (up rn) w =
      let u : Round = record w { runs = insert j rn w.runs } in
      reclaims-append (report_at j "" "" u).acts (session_admitted j ∷ []) refl
      ∙ reclaims-report_at j "" "" u
  reclaims-on_brought_up j no_repo w = reclaims-append w.acts _ (none_in-escalate_no_repo j)
  reclaims-on_brought_up j (failed c m) w = reclaims-report_at j (classify_admit c) m w

  reclaims-reap_run :
      (j : Ref) (o : Option Run) (w : Round)
      → reclaims k (reap_run b j o w).acts ≡ reclaims k w.acts
  unfolding reap_run
  reclaims-reap_run j none w = refl
  reclaims-reap_run j (some rn) w = reclaims-append w.acts _ refl

  reclaims-readmission :
      (j : Ref) (w : Round)
      → reclaims k (on_brought_up b j (b.bring_up j) (reap_spent_run b j w)).acts
        ≡ reclaims k w.acts
  unfolding reap_spent_run
  reclaims-readmission j w =
      reclaims-on_brought_up j (b.bring_up j) (reap_run b j (lookup w.runs j) w)
      ∙ reclaims-reap_run j (lookup w.runs j) w

  reclaims-admit_step :
      (current : List Ref) (j : Ref) (w : Round)
      → reclaims k (admit_step b current j w).acts ≡ reclaims k w.acts
  unfolding admit_step
  reclaims-admit_step current j w = elim (Bool-cases (has current j)) [
    | inr n ↦ rw n (reclaims-on_brought_up j (b.bring_up j) w)
    | inl t ↦ elim (Bool-cases (readmits b j (lookup w.runs j))) [
      | inl r ↦ rw (t, r) (reclaims-readmission j w)
      | inr n ↦ rw (t, n) (reclaims-report_at j "" "" w)
    ]
  ]

  reclaims-admit_all :
      (current keys : List Ref) (w : Round)
      → reclaims k (admit_all b current keys w).acts ≡ reclaims k w.acts
  unfolding admit_all
  reclaims-admit_all current [] w = refl
  reclaims-admit_all current (j ∷ keys) w =
      reclaims-admit_all current keys (admit_step b current j w) ∙ reclaims-admit_step current j w

  none_in-sweep_all :
      (keys : List Ref) (health : List (Ref × List String))
      → reclaims k (sweep_all b keys health).1 ≡ false
  unfolding sweep_all
  none_in-sweep_all keys [] = refl
  none_in-sweep_all keys ((j, active) ∷ health) =
      any-append (is_reclaim k) (map (health_edge j) (sweep_health active (has keys j)).1) _
      ∙ rw (none_in_edges k j (sweep_health active (has keys j)).1) (none_in-sweep_all keys health)

  retire_step-MayGo :
      (keys : List Ref) (j : Ref) (w : Round)
      → reclaims k (retire_step b keys j w).acts ≡ true
      → (reclaims k w.acts ≡ true) ⊎ MayGo b keys w.runs k
  unfolding retire_step
  retire_step-MayGo keys j w h = elim (Bool-cases (has keys j)) [
    | inl t ↦ inl (rw t at h)
    | inr f ↦ elim (Bool-cases (reclaims k w.acts)) [
      | inl y ↦ inl y
      | inr n ↦
          let e = sym (any-append (is_reclaim k) w.acts _) ∙ (rw f at h) in
          let (p, rn, q, m) =
            (retire-MayReclaim b.disk j (state_of b j) k w.runs).0 (ground (arith, e, n)) in
          inr (subst (MayGo b keys w.runs) p (f, rn, q, m))
    ]
  ]

  lookup-retire_step :
      (keys : List Ref) (j : Ref) (w : Round) (rn : Run)
      → lookup (retire_step b keys j w).runs k ≡ some rn
      → lookup w.runs k ≡ some rn
  unfolding retire_step retire
  lookup-retire_step keys j w rn h = elim (Bool-cases (has keys j)) [
    | inl t ↦ rw t at h
    | inr f ↦
        let e = sym (lookup-delete j k w.runs) ∙ (rw f at h) in
        elim (Bool-cases (same_ref j k)) [ inl s ↦ let x = rw s at e in cc | inr s ↦ rw s at e ]
  ]

  retire_all-MayGo :
      (keys current : List Ref) (w : Round)
      → reclaims k (retire_all b keys current w).acts ≡ true
      → (reclaims k w.acts ≡ true) ⊎ MayGo b keys w.runs k
  unfolding retire_all
  retire_all-MayGo keys [] w h = inl h
  retire_all-MayGo keys (j ∷ current) w h =
      elim (retire_all-MayGo keys current (retire_step b keys j w) h) [
        | inl t ↦ retire_step-MayGo keys j w t
        | inr (n, rn, q, m) ↦ inr (n, rn, lookup-retire_step keys j w rn q, m)
      ]

-- A tick removes only the checkout of an attempt that is not desired, stood in the run table, is in
-- another state than Needs me, has no detached test that is known to run, and whose checkout its own
-- repo, which opens, says to be clean. The other states include Running and Pending.
pub tick-MayGo :
    (b : Boot) (desired : Desired) (w : Round) (k : Ref)
    → w.acts ≡ []
    → reclaims k (tick b desired w).acts ≡ true
    → MayGo b (map (λ entry. entry.0) desired) w.runs k
unfolding tick sweep
tick-MayGo b desired w k z h =
    let keys = map (λ entry. entry.0) desired in
    let current = map (λ entry. entry.0) w.runs in
    let v = admit_all b current keys w in
    let u = retire_all b keys current v in
    let e = reclaims-append b k u.acts _ (none_in-sweep_all b k keys u.health) in
    elim (retire_all-MayGo b k keys current v (sym e ∙ h)) [
      | inl t ↦
          absurd
            (false≢true (sym (ap (reclaims k) z) ∙ sym (reclaims-admit_all b k current keys w) ∙ t))
      | inr (n, rn, q, m) ↦ (n, rn, sym (lookup-admit_all b current keys k w n) ∙ q, m)
    ]
