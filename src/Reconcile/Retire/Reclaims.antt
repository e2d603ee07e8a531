-- ===== src/Reconcile/Retire/Reclaims.antt =====
-- When `retire` removes a checkout.
use mathlib.Core.Path.{subst}
use draiver.Prelude.{
  String, ◌≡◌, refl, sym, ◌∙◌, ◌↔◌, inl, inr, Bool, true, false, not, ◌&&◌, false≢true, Option,
  none, some, List, arith, ◌==◌, Bool-cases, any, any-append,
}
use draiver.Prelude.Maps.{string_key, nat_key, same_ref, same_ref_iff, ref_key, lookup}
use draiver.Wake.{Source, pending_sources}
use draiver.Project.State.{State, Parsed, ok, err}
use draiver.Project.Fleet.{is_needs_me, Ref}
use draiver.Reconcile.Retire.{
  Run, Runs, Act, reclaim, Disk, record_retire, is_async, after_remove, after_dirty, after_manager,
  reclamation, after_sources, stop_run, retire_run, retire,
}

abbrev pub is_reclaim : Ref → Act → Bool
is_reclaim j (reclaim k) = same_ref k j
is_reclaim j a = false

abbrev pub reclaims : Ref → List Act → Bool
reclaims j acts = any (is_reclaim j) acts

-- The attempt does not wait for a human, no detached test of it is known to run, and its checkout is known to be clean.
pub record MayReclaim (d : Disk) (k : Ref) (st : State) (rn : Run) : Type 0 where
  not_parked : is_needs_me st ≡ false
  idle : (srcs : List Source) → pending_sources (d.world k) ≡ ok srcs → any is_async srcs ≡ false
  bound : (rn.repo == "") ≡ false
  opened : d.manager_error rn.repo ≡ none
  clean : d.dirty rn.repo k ≡ ok false

some_run_inj : {a b : Run} → some a ≡ some b → a ≡ b
some_run_inj e = ground arith

module _ (d : Disk) (k : Ref) (st : State) (j : Ref) where
  none_in-after_remove : (o : Option String) → reclaims j (after_remove d k st o) ≡ false
  unfolding after_remove record_retire
  none_in-after_remove none = refl
  none_in-after_remove (some e) = refl

  none_in-stop_run : (rn : Run) → reclaims j (stop_run d k st rn) ≡ false
  unfolding stop_run
  none_in-stop_run rn = ground arith

  after_dirty_iff :
      (repo : String) (p : Parsed Bool)
      → (reclaims j (after_dirty d k st repo p) ≡ true) ↔ ((k ≡ j) × (p ≡ ok false))
  unfolding after_dirty record_retire
  after_dirty_iff repo (err e) = (λ h. cc, λ (h, q). cc)
  after_dirty_iff repo (ok true) = (λ h. cc, λ (h, q). cc)
  after_dirty_iff repo (ok false) =
      let n = none_in-after_remove (d.remove_error repo k) in
      (
        λ h. ((same_ref_iff k j).0 (ground arith), refl),
        λ (p, q). let t = (same_ref_iff k j).1 p in ground arith,
      )

  after_manager_iff :
      (repo : String) (o : Option String)
      → (reclaims j (after_manager d k st repo o) ≡ true)
        ↔ ((k ≡ j) × (o ≡ none) × (d.dirty repo k ≡ ok false))
  unfolding after_manager record_retire
  after_manager_iff repo (some e) = (λ h. cc, λ (h, q, r). cc)
  after_manager_iff repo none =
      let (f, g) = after_dirty_iff repo (d.dirty repo k) in
      (λ h. let (p, q) = f h in (p, refl, q), λ (p, q, r). g (p, r))

  reclamation_iff :
      (rn : Run)
      → (reclaims j (reclamation d k st rn) ≡ true) ↔ (
          (k ≡ j)
          × ((rn.repo == "") ≡ false)
          × (d.manager_error rn.repo ≡ none)
          × (d.dirty rn.repo k ≡ ok false))
  unfolding reclamation record_retire
  reclamation_iff rn = elim (Bool-cases (rn.repo == "")) [
    | inl t ↦ rw t (λ h. cc, λ (p, q, r, s). cc)
    | inr f ↦
        let (g, h) = after_manager_iff rn.repo (d.manager_error rn.repo) in
        rw f (λ x. let (p, q, r) = g x in (p, refl, q, r), λ (p, q, r, s). h (p, r, s))
  ]

  after_sources_iff :
      (rn : Run) (o : Parsed (List Source))
      → (reclaims j (after_sources d k st rn o) ≡ true) ↔ (
          ((srcs : List Source) → o ≡ ok srcs → any is_async srcs ≡ false)
          × (reclaims j (reclamation d k st rn) ≡ true))
  unfolding after_sources record_retire
  after_sources_iff rn (err e) = (λ h. (λ srcs q. cc, h), λ (p, h). h)
  after_sources_iff rn (ok srcs) = elim (Bool-cases (any is_async srcs)) [
    | inl t ↦ rw t (λ h. cc, λ (p, h). absurd (false≢true (sym (p srcs refl) ∙ t)))
    | inr f ↦ rw f (λ h. (λ s q. subst (λ x. any is_async x ≡ false) (ok_inj q) f, h), λ (p, h). h)
  ]
    where
      ok_inj : {a b : List Source} → Path (Parsed (List Source)) (ok a) (ok b) → a ≡ b
      ok_inj e = ground arith

  reclaims-retire_run :
      (rn : Run)
      → reclaims j (retire_run d k st (some rn)) ≡ (
          not (is_needs_me st)
          && reclaims j (after_sources d k st rn (pending_sources (d.world k))))
  unfolding retire_run
  reclaims-retire_run rn =
      any-append (is_reclaim j) (stop_run d k st rn) _ ∙ rw (none_in-stop_run rn) (ground arith)

  retire_run_iff :
      (o : Option Run)
      → (reclaims j (retire_run d k st o) ≡ true)
        ↔ ((k ≡ j) × (rn : Run) × (o ≡ some rn) × MayReclaim d k st rn)
  unfolding retire_run
  retire_run_iff none = (λ h. cc, λ (p, rn, q, r). cc)
  retire_run_iff (some rn) =
      let pending = pending_sources (d.world k) in
      let (f, g) = after_sources_iff rn pending in
      let (h, i) = reclamation_iff rn in
      (
        λ x.
            let y = sym (reclaims-retire_run rn) ∙ x in
            let (idle, a) = f (ground arith) in
            let (p, bound, opened, clean) = h a in
            (
              p,
              rn,
              refl,
              record {
                not_parked = ground arith;
                idle = idle;
                bound = bound;
                opened = opened;
                clean = clean;
              },
            ),
        λ (p, r, e, m).
            let n : MayReclaim d k st rn = subst (MayReclaim d k st) (some_run_inj (sym e)) m in
            let a = g (n.idle, i (p, n.bound, n.opened, n.clean)) in
            let b = n.not_parked in reclaims-retire_run rn ∙ ground arith,
      )

-- A retire removes a checkout exactly if it is the attempt's own, the attempt stood in the run
-- table, it is in another state than Needs me, no detached test of it is known to run, its repo
-- is bound and opens, and git says that the checkout is clean.
pub retire-MayReclaim :
    (d : Disk) (k : Ref) (st : State) (j : Ref) (runs : Runs)
    → (reclaims j (retire d k st runs).1 ≡ true)
      ↔ ((k ≡ j) × (rn : Run) × (lookup runs k ≡ some rn) × MayReclaim d k st rn)
unfolding retire
retire-MayReclaim d k st j runs = retire_run_iff d k st j (lookup runs k)
