-- ===== src/Reconcile/Gates/Laws.antt =====
-- What passes the gates, and that the board's reason agrees with the forward gate.
use mathlib.Core.List.Memᴰ
use draiver.Prelude.{
  String, ◌≡◌, refl, sym, ◌∙◌, ◌↔◌, ◌⊎◌, inl, inr, Bool, true, ◌&&◌, ◌||◌, List, [], ◌∷◌, ◌++◌,
  Memᴰ, arith, if◌then◌else◌, Bool-cases, select, any, every, any-append, Mem-select_of,
  of_Mem-select,
}
use draiver.Prelude.Maps.{string_key, nat_key, ref_key}
use draiver.Project.Edges.{Edges, EdgeMap, edges_at}
use draiver.Project.Fleet.{Attempt, is_done, Ref, ReachedMap, reached_at, best_reached, unmet}
use draiver.Project.Fleet.Waiting.{
  some_attempt, is_success, best_reached-some_attempt, is_empty-unmet,
}
use draiver.Reconcile.Gates.{
  Desired, gate_open, forward_keeps, apply_forward_gate, all_wanted_done, coordinator_keeps,
  apply_coordinator_gate,
}
use draiver.Project.State.{is_empty}

-- A dependent's predecessors have succeeded: those under `after:` have an attempt at Review or
-- Done, those under `requires:` one at Done.
abbrev pub Succeeded : Edges → List Attempt → Type 0
Succeeded e attempts =
    ((x : String) → Memᴰ x e.after → some_attempt is_success x attempts ≡ true)
    × ((x : String) → Memᴰ x e.requires → some_attempt is_done x attempts ≡ true)

every_iff :
    (p q : String → Bool) (xs : List String)
    → ((x : String) → p x ≡ q x)
    → (every p xs ≡ true) ↔ ((x : String) → Memᴰ x xs → q x ≡ true)
every_iff p q [] h = (λ e x m. elim m [ ], λ f. refl)
every_iff p q (y ∷ xs) h =
    let (f, g) = every_iff p q xs h in
    (
      λ e x m. elim (Memᴰ.cases_cons m) [
        | inl s ↦ rw s (sym (h y) ∙ ground (arith))
        | inr k ↦ f (ground arith) x k
      ],
      λ k. ground (arith, h y ∙ k y (Memᴰ.head refl), g (λ x m. k x (Memᴰ.tail m))),
    )

both_iff :
    {a b : Bool} {P Q : Type 0} → (a ≡ true) ↔ P → (b ≡ true) ↔ Q → ((a && b) ≡ true) ↔ (P × Q)
both_iff f g =
    (λ e. (f.0 (ground arith), g.0 (ground arith)), λ (p, q). ground (arith, f.1 p, g.1 q))

gate_open-Succeeded :
    (e : Edges) (attempts : List Attempt)
    → (gate_open e (best_reached attempts) ≡ true) ↔ Succeeded e attempts
unfolding gate_open
gate_open-Succeeded e attempts =
    both_iff
      (every_iff _ (λ x. some_attempt is_success x attempts) e.after
        (λ x. (best_reached-some_attempt attempts x).0))
      (every_iff _ (λ x. some_attempt is_done x attempts) e.requires
        (λ x. (best_reached-some_attempt attempts x).1))

or_iff : {a b : Bool} {P : Type 0} → (a ≡ true) ↔ P → ((a || b) ≡ true) ↔ (P ⊎ (b ≡ true))
or_iff {a} {b} f = (
  λ e. elim (Bool-cases a) [ inl t ↦ inl (f.0 t) | inr n ↦ inr (ground arith) ],
  λ o. elim o [ inl p ↦ ground (arith, f.1 p) | inr t ↦ ground arith ],
)

keeps_lem :
    (edges : EdgeMap) (reached : ReachedMap) (admitted : Ref → Bool) (key : Ref)
    → forward_keeps edges reached admitted key
      ≡ (gate_open (edges_at edges key.0) reached || admitted key)
unfolding forward_keeps gate_open
keeps_lem edges reached admitted key = ground arith

trimmed :
    (p : Ref × Attempt → Bool) (out : Desired)
    → (if is_empty out then out else select p out) ≡ select p out
trimmed p [] = refl
trimmed p (x ∷ out) = refl

trimmed_iff :
    (p : Ref × Attempt → Bool) {P : Type 0} (out : Desired) (entry : Ref × Attempt)
    → (p entry ≡ true) ↔ P
    → Memᴰ entry (if is_empty out then out else select p out) ↔ (Memᴰ entry out × P)
trimmed_iff p out entry h =
    rw trimmed (
      λ m. let (k, t) = of_Mem-select p out m in (k, h.0 t),
      λ (m, q). Mem-select_of p out (h.1 q) m,
    )

-- The forward gate passes exactly the desired attempts whose predecessors have succeeded, and
-- those that were admitted before.
pub apply_forward_gate-Succeeded :
    (attempts : List Attempt) (edges : EdgeMap) (admitted : Ref → Bool) (out : Desired)
    (entry : Ref × Attempt)
    → Memᴰ entry (apply_forward_gate attempts edges admitted out) ↔ (
        Memᴰ entry out
        × (Succeeded (edges_at edges entry.0.0) attempts ⊎ (admitted entry.0 ≡ true)))
unfolding apply_forward_gate
apply_forward_gate-Succeeded attempts edges admitted out entry =
    trimmed_iff _ out entry
      (rw keeps_lem (or_iff (gate_open-Succeeded (edges_at edges entry.0.0) attempts)))

coordinator_keeps_lem :
    (edges : EdgeMap) (reached : ReachedMap) (key : Ref)
    → coordinator_keeps edges reached key
      ≡ every (λ child. (reached_at reached child).done) (edges_at edges key.0).wants
unfolding coordinator_keeps all_wanted_done
coordinator_keeps_lem edges reached key = ground arith

-- The coordinator gate passes exactly the desired attempts of tickets each of whose wanted
-- tickets has an attempt at Done; so it holds back no ticket that wants nothing.
pub apply_coordinator_gate-is_done :
    (attempts : List Attempt) (edges : EdgeMap) (out : Desired) (entry : Ref × Attempt)
    → Memᴰ entry (apply_coordinator_gate attempts edges out) ↔ (
        Memᴰ entry out
        × ((child : String)
            → Memᴰ child (edges_at edges entry.0.0).wants
            → some_attempt is_done child attempts ≡ true))
unfolding apply_coordinator_gate
apply_coordinator_gate-is_done attempts edges out entry = trimmed_iff _ out entry (
    rw coordinator_keeps_lem (
      every_iff _ (λ x. some_attempt is_done x attempts) (edges_at edges entry.0.0).wants
        (λ x. (best_reached-some_attempt attempts x).1)))

any-later : (p : Attempt → Bool) (xs ys : List Attempt) → any p xs ≡ true → any p (xs ++ ys) ≡ true
any-later p xs ys h = rw any-append (ground arith)

-- Further attempts never shut an open gate.
pub gate_open-append :
    (e : Edges) (attempts more : List Attempt)
    → gate_open e (best_reached attempts) ≡ true
    → gate_open e (best_reached (attempts ++ more)) ≡ true
gate_open-append e attempts more h =
    let (f, g) = (gate_open-Succeeded e attempts).0 h in
    (gate_open-Succeeded e (attempts ++ more)).1
      (λ x m. any-later _ attempts more (f x m), λ x m. any-later _ attempts more (g x m))

-- The board names no ticket that a Pending attempt waits for exactly when the forward gate is open.
pub unmet-gate_open :
    (e : Edges) (attempts : List Attempt)
    → is_empty (unmet e (best_reached attempts)) ≡ gate_open e (best_reached attempts)
unfolding gate_open
unmet-gate_open e attempts = is_empty-unmet e (best_reached attempts)
