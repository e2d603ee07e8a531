-- ===== src/Project/Edges/Cycle/Stack.antt =====
-- The stack of the search as a walk along the edges, and the cycle that is cut from it.
use mathlib.Core.List.Memᴰ
use mathlib.Core.Path.{subst}
use draiver.Prelude.{
  String, ◌≡◌, refl, sym, ap, ◌∙◌, inl, inr, false≢true, List, [], ◌∷◌, ◌++◌, append_assoc, Memᴰ,
  ◌==◌, eq_iff, Bool-cases,
}
use draiver.Prelude.Maps.{string_key, nat_key, ref_key}
use draiver.Project.Edges.{EdgeMap, edges_at, all}
use draiver.Project.Edges.Cycle.{from_first}

module _ (edges : EdgeMap) where
  -- One edge of any of the three kinds.
  abbrev pub Edge : String → String → Type 0
  Edge x y = Memᴰ y (all (edges_at edges x))

  -- Each id points at the next.
  abbrev pub Chained : List String → Type 0
  Chained [] = Unit
  Chained (x ∷ []) = Unit
  Chained (x ∷ y ∷ ys) = Edge x y × Chained (y ∷ ys)

  -- A walk along at least one edge that comes back to where it starts.
  abbrev pub IsCycle : List String → Type 0
  IsCycle path = (x : String) × (rest : List String) × (path ≡ x ∷ rest ++ x ∷ []) × Chained path

  Chained-tail : (x : String) (xs : List String) → Chained (x ∷ xs) → Chained xs
  Chained-tail x [] c = tt
  Chained-tail x (y ∷ ys) c = c.1

  Chained-from_first :
      (x : String) (stack : List String) → Chained stack → Chained (from_first x stack)
  unfolding from_first
  Chained-from_first x [] c = tt
  Chained-from_first x (n ∷ stack) c = elim (Bool-cases (n == x)) [
    | inl t ↦ rw t c
    | inr f ↦ rw f (Chained-from_first x stack (Chained-tail n stack c))
  ]

  pub Chained-push :
      (xs : List String) (x y : String)
      → Chained (xs ++ x ∷ [])
      → Edge x y
      → Chained (xs ++ x ∷ y ∷ [])
  Chained-push [] x y c e = (e, tt)
  Chained-push (z ∷ []) x y c e = (c.0, (e, tt))
  Chained-push (z ∷ w ∷ xs) x y c e = (c.0, Chained-push (w ∷ xs) x y c.1 e)

  -- The cut of a stack whose last id is `u`.
  from_first-last :
      (x u : String) (xs : List String)
      → Memᴰ x (xs ++ u ∷ [])
      → ((rest : List String) × (from_first x (xs ++ u ∷ []) ≡ x ∷ rest))
        × ((ys : List String) × (from_first x (xs ++ u ∷ []) ≡ ys ++ u ∷ []))
  unfolding from_first
  from_first-last x u [] m = elim (Memᴰ.cases_cons m) [
    | inl e ↦ rw ((eq_iff u x).1 (sym e)) (([], ap (λ z. z ∷ []) (sym e)), ([], refl))
    | inr n ↦ elim n [ ]
  ]
  from_first-last x u (n ∷ xs) m = elim (Bool-cases (n == x)) [
    | inl t ↦ rw t ((xs ++ u ∷ [], ap (λ z. z ∷ xs ++ u ∷ []) ((eq_iff n x).0 t)), (n ∷ xs, refl))
    | inr f ↦ elim (Memᴰ.cases_cons m) [
      | inl e ↦ absurd (false≢true (sym f ∙ (eq_iff n x).1 (sym e)))
      | inr k ↦ rw f (from_first-last x u xs k)
    ]
  ]

  pub IsCycle-cut :
      (x u : String) (xs : List String)
      → Chained (xs ++ u ∷ [])
      → Memᴰ x (xs ++ u ∷ [])
      → Edge u x
      → IsCycle (from_first x (xs ++ u ∷ []) ++ x ∷ [])
  IsCycle-cut x u xs c m e =
      let ((rest, p), (ys, q)) = from_first-last x u xs m in
      let k : Chained (ys ++ u ∷ []) = subst (Chained) q (Chained-from_first x (xs ++ u ∷ []) c) in
      (
        x,
        rest,
        ap (λ l. l ++ x ∷ []) p,
        subst (Chained) (sym (ap (λ l. l ++ x ∷ []) q ∙ append_assoc ys (u ∷ []) (x ∷ [])))
            (Chained-push ys u x k e),
      )
