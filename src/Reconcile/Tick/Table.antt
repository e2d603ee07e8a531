-- ===== src/Reconcile/Tick/Table.antt =====
-- The run table that a tick leaves.
use mathlib.Core.Path.{subst}
use draiver.Prelude.{
  ◌≡◌, refl, sym, ap, ◌∙◌, inl, inr, Bool, true, false, not, ◌&&◌, ◌||◌, false≢true, Option, none,
  some, List, [], ◌∷◌, map, arith, if◌then◌else◌, Bool-cases,
}
use draiver.Prelude.Maps.{
  string_key, nat_key, same_ref, same_ref_iff, ref_key, has, lookup, lookup-insert, lookup-delete,
}
use draiver.Project.Fleet.{Ref}
use draiver.Reconcile.Retire.{Run, Runs, retire}
use draiver.Reconcile.Tick.{
  BroughtUp, up, no_repo, failed, Boot, Round, report_at, readmits, reap_run, reap_spent_run,
  on_brought_up, admit_step, admit_all, retire_step, retire_all, sweep, tick,
}
use draiver.Reconcile.Gates.{Desired}

-- No key stands twice.
abbrev pub Distinct : List Ref → Type 0
Distinct [] = Unit
Distinct (k ∷ ks) = (has ks k ≡ false) × Distinct ks

abbrev pub is_some {ℓ} : {A : Type ℓ} → Option A → Bool
is_some none = false
is_some (some a) = true

abbrev pub comes_up : BroughtUp → Bool
comes_up (up rn) = true
comes_up o = false

-- Whether the attempt has a run.
abbrev pub runs_at : Runs → Ref → Bool
runs_at runs k = is_some (lookup runs k)

has-keys : (runs : Runs) (k : Ref) → has (map (λ entry. entry.0) runs) k ≡ runs_at runs k
unfolding has lookup
has-keys [] k = refl
has-keys ((j, rn) ∷ runs) k = ground (arith, has-keys runs k)

module _ (b : Boot) where
  -- Whether the loop brings the attempt up.
  abbrev brings : List Ref → Ref → Runs → Bool
  brings current k runs = not (has current k) || readmits b k (lookup runs k)

  lookup-reap_run :
      (j k : Ref) (o : Option Run) (w : Round)
      → lookup w.runs j ≡ o
      → lookup (reap_run b j o w).runs k ≡ (if same_ref j k then none else lookup w.runs k)
  unfolding reap_run
  lookup-reap_run j k (some rn) w h = lookup-delete j k w.runs
  lookup-reap_run j k none w h = elim (Bool-cases (same_ref j k)) [
    | inl t ↦ rw t (ap (lookup w.runs) (sym ((same_ref_iff j k).0 t)) ∙ h)
    | inr f ↦ rw f refl
  ]

  lookup-on_brought_up :
      (j k : Ref) (o : BroughtUp) (w : Round)
      → same_ref j k ≡ false
      → lookup (on_brought_up b j o w).runs k ≡ lookup w.runs k
  unfolding on_brought_up report_at
  lookup-on_brought_up j k (up rn) w f = lookup-insert j k rn w.runs ∙ rw f refl
  lookup-on_brought_up j k no_repo w f = refl
  lookup-on_brought_up j k (failed c m) w f = refl

  runs_at-on_brought_up :
      (k : Ref) (o : BroughtUp) (w : Round)
      → runs_at (on_brought_up b k o w).runs k ≡ (comes_up o || runs_at w.runs k)
  unfolding on_brought_up report_at
  runs_at-on_brought_up k (up rn) w =
      ap is_some (lookup-insert k k rn w.runs) ∙ rw ((same_ref_iff k k).1 refl) refl
  runs_at-on_brought_up k no_repo w = refl
  runs_at-on_brought_up k (failed c m) w = refl

  lookup-admit_step :
      (current : List Ref) (j k : Ref) (w : Round)
      → same_ref j k ≡ false
      → lookup (admit_step b current j w).runs k ≡ lookup w.runs k
  unfolding admit_step report_at reap_spent_run
  lookup-admit_step current j k w f = elim (Bool-cases (has current j)) [
    | inr n ↦ rw n (lookup-on_brought_up j k (b.bring_up j) w f)
    | inl t ↦ elim (Bool-cases (readmits b j (lookup w.runs j))) [
      | inl r ↦
          rw (t, r)
            (lookup-on_brought_up j k (b.bring_up j) (reap_spent_run b j w) f
              ∙ lookup-reap_run j k (lookup w.runs j) w refl
              ∙ rw f refl)
      | inr n ↦ rw (t, n) refl
    ]
  ]

  -- A run exists after the step if it was brought up, or it existed and was left alone.
  runs_at-admit_step :
      (current : List Ref) (k : Ref) (w : Round)
      → (runs_at w.runs k ≡ true → has current k ≡ true)
      → runs_at (admit_step b current k w).runs k
        ≡ (if brings current k w.runs then comes_up (b.bring_up k) else runs_at w.runs k)
  unfolding admit_step report_at reap_spent_run
  runs_at-admit_step current k w c = elim (Bool-cases (has current k)) [
    | inr n ↦
        let e = runs_at-on_brought_up k (b.bring_up k) w in
        rw n (
          e ∙ elim (Bool-cases (runs_at w.runs k)) [
            | inl x ↦ absurd (false≢true (sym n ∙ c x))
            | inr x ↦ rw x (ground arith)
          ])
    | inl t ↦ elim (Bool-cases (readmits b k (lookup w.runs k))) [
      | inl r ↦
          let v = reap_spent_run b k w in
          let e : lookup v.runs k ≡ none =
            lookup-reap_run k k (lookup w.runs k) w refl ∙ rw ((same_ref_iff k k).1 refl) refl in
          rw (t, r) (runs_at-on_brought_up k (b.bring_up k) v ∙ rw e (ground arith))
      | inr n ↦ rw (t, n) refl
    ]
  ]

  -- What the loop over the desired keys leaves at a key.
  abbrev admitted_at : List Ref → List Ref → Ref → Runs → Bool
  admitted_at current keys k runs =
      if has keys k && brings current k runs then comes_up (b.bring_up k) else runs_at runs k

  pub lookup-admit_all :
      (current keys : List Ref) (k : Ref) (w : Round)
      → has keys k ≡ false
      → lookup (admit_all b current keys w).runs k ≡ lookup w.runs k
  unfolding admit_all has
  lookup-admit_all current [] k w n = refl
  lookup-admit_all current (j ∷ keys) k w n =
      lookup-admit_all current keys k (admit_step b current j w) (ground arith)
      ∙ lookup-admit_step current j k w (ground arith)

  runs_at-admit_all :
      (current keys : List Ref) (k : Ref) (w : Round)
      → Distinct keys
      → (runs_at w.runs k ≡ true → has current k ≡ true)
      → runs_at (admit_all b current keys w).runs k ≡ admitted_at current keys k w.runs
  unfolding admit_all has
  runs_at-admit_all current [] k w d c = refl
  runs_at-admit_all current (j ∷ keys) k w d c = elim (Bool-cases (same_ref j k)) [
    | inl t ↦
        let p = (same_ref_iff j k).0 t in
        subst
          (λ x.
            runs_at (admit_all b current keys (admit_step b current x w)).runs k
            ≡ admitted_at current (x ∷ keys) k w.runs)
          (sym p)
          (ap is_some (
              lookup-admit_all current keys k (admit_step b current k w)
                (ap (has keys) (sym p) ∙ d.0))
            ∙ runs_at-admit_step current k w c
            ∙ rw ((same_ref_iff k k).1 refl) refl)
    | inr f ↦
        let e = lookup-admit_step current j k w f in
        runs_at-admit_all current keys k (admit_step b current j w) d.1
          (λ x. c (sym (ap is_some e) ∙ x))
        ∙ rw (e, f) refl
  ]

  runs_at-retire_step :
      (keys : List Ref) (j k : Ref) (w : Round)
      → runs_at (retire_step b keys j w).runs k
        ≡ (not (same_ref j k && not (has keys j)) && runs_at w.runs k)
  unfolding retire_step retire
  runs_at-retire_step keys j k w = elim (Bool-cases (has keys j)) [
    | inl t ↦ rw t (ground arith)
    | inr f ↦ rw f (ap is_some (lookup-delete j k w.runs) ∙ ground arith)
  ]

  runs_at-retire_all :
      (keys current : List Ref) (k : Ref) (w : Round)
      → runs_at (retire_all b keys current w).runs k
        ≡ (not (has current k && not (has keys k)) && runs_at w.runs k)
  unfolding retire_all has
  runs_at-retire_all keys [] k w = ground arith
  runs_at-retire_all keys (j ∷ current) k w =
      runs_at-retire_all keys current k (retire_step b keys j w)
      ∙ rw (runs_at-retire_step keys j k w) (elim (Bool-cases (same_ref j k)) [
        | inl t ↦ rw (t, ap (has keys) ((same_ref_iff j k).0 t)) (ground arith)
        | inr f ↦ rw f (ground arith)
      ])

  -- A tick leaves a run to exactly the desired attempts that had one which it does not bring up again
  -- and those that it brings up, when no attempt stands twice in the desired set.
  pub runs_at-tick :
      (desired : Desired) (w : Round) (k : Ref)
      → Distinct (map (λ entry. entry.0) desired)
      → runs_at (tick b desired w).runs k ≡ (
          has (map (λ entry. entry.0) desired) k
          && (if runs_at w.runs k && not (readmits b k (lookup w.runs k))
              then true
              else comes_up (b.bring_up k)))
  unfolding tick sweep
  runs_at-tick desired w k d =
      let keys = map (λ entry. entry.0) desired in
      let current = map (λ entry. entry.0) w.runs in
      let e = has-keys w.runs k in
      runs_at-retire_all keys current k (admit_all b current keys w)
      ∙ rw (e, runs_at-admit_all current keys k w d (λ x. e ∙ x), e) (ground arith)
