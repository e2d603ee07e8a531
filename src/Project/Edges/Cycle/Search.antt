-- ===== src/Project/Edges/Cycle/Search.antt =====
-- One visit of the search: it ends, and what it leaves.
use mathlib.Core.List.Memᴰ
use mathlib.Core.Path.{subst}
use draiver.Prelude.{
  ℕ, ◌<◌, String, ◌≡◌, refl, sym, ap, ◌∙◌, inl, inr, Option, none, some, List, [], ◌∷◌, ◌++◌, Memᴰ,
  arith,
}
use draiver.Prelude.Maps.{string_key, nat_key, ref_key}
use draiver.Project.Edges.{EdgeMap}
use draiver.Project.Edges.Cycle.{
  Color, white, gray, black, Dfs, Found, cycle, clear, color_at, from_first, and_then, on_color,
  explore,
}
use draiver.Project.Edges.Cycle.Stack.{Edge, Chained, IsCycle, IsCycle-cut}
use draiver.Project.Edges.Cycle.Whites.{whites, whites-le}

-- A walk along at least one edge.
pub data Walks (edges : EdgeMap) : String → String → Type 0 where
  edge : {x y : String} → Edge edges x y → Walks edges x y
  step : {x y z : String} → Edge edges x y → Walks edges y z → Walks edges x z

module _ (edges : EdgeMap) where
  -- Black ids point at black ids only and lie on no cycle, and the gray ones are on the stack.
  pub record Sound (d : Dfs) : Type 0 where
    pub closed : (x c : String) → color_at d x ≡ black → Edge edges x c → color_at d c ≡ black
    pub acyclic : (x : String) → color_at d x ≡ black → ¬ Walks edges x x
    pub on_stack : (x : String) → color_at d x ≡ gray → Memᴰ x d.stack

  pub record Kept (d e : Dfs) : Type 0 where
    pub blacks : (x : String) → color_at d x ≡ black → color_at e x ≡ black
    pub grays : (x : String) → color_at d x ≡ gray → color_at e x ≡ gray
    pub no_grays : (x : String) → color_at e x ≡ gray → color_at d x ≡ gray
    pub no_whites : (x : String) → color_at e x ≡ white → color_at d x ≡ white
    pub same_stack : e.stack ≡ d.stack

  pub Kept-refl : (d : Dfs) → Kept d d
  Kept-refl d = record {
    blacks = λ x h. h;
    grays = λ x h. h;
    no_grays = λ x h. h;
    no_whites = λ x h. h;
    same_stack = refl;
  }

  pub Kept-trans : {d e f : Dfs} → Kept d e → Kept e f → Kept d f
  Kept-trans k l = record {
    blacks = λ x h. l.blacks x (k.blacks x h);
    grays = λ x h. l.grays x (k.grays x h);
    no_grays = λ x h. k.no_grays x (l.no_grays x h);
    no_whites = λ x h. k.no_whites x (l.no_whites x h);
    same_stack = l.same_stack ∙ k.same_stack;
  }

  pub black_walk :
      (d : Dfs)
      → Sound d
      → (x y : String) → color_at d x ≡ black
      → Walks edges x y
      → color_at d y ≡ black
  black_walk d s x y b (edge e) = s.closed x y b e
  black_walk d s x y b (step {y = z} e w) = black_walk d s z y (s.closed x z b e) w

  -- The search ends, with a cycle or with variables of which `P` holds.
  abbrev pub Ends : (Dfs → Type 0) → Option Found → Type 0
  Ends P none = ⊥
  Ends P (some (cycle path)) = IsCycle edges path
  Ends P (some (clear d)) = P d

  pub Ends-and_then :
      (P Q : Dfs → Type 0) (next : Dfs → Option Found) (o : Option Found)
      → Ends P o
      → ((d : Dfs) → P d → Ends Q (next d))
      → Ends Q (and_then next o)
  unfolding and_then
  Ends-and_then P Q next none h f = absurd h
  Ends-and_then P Q next (some (cycle path)) h f = h
  Ends-and_then P Q next (some (clear d)) h f = f d h

  -- What a visit of `node` leaves.
  abbrev pub Visited : Dfs → String → Dfs → Type 0
  Visited d node e = Kept d e × Sound e × (color_at e node ≡ black)

  abbrev pub Explored : Dfs → List String → Dfs → Type 0
  Explored d ids e = Kept d e × Sound e × ((c : String) → Memᴰ c ids → color_at e c ≡ black)

  pub Explored-next :
      (d e f : Dfs) (next : String) (ids : List String)
      → Kept d e
      → color_at e next ≡ black
      → Explored e ids f
      → Explored d (next ∷ ids) f
  Explored-next d e f next ids k b (l, s, g) = (
    Kept-trans k l,
    s,
    λ c m. elim (Memᴰ.cases_cons m) [ inl p ↦ l.blacks c (ap (color_at e) p ∙ b) | inr i ↦ g c i ],
  )

  pub Ends-map :
      (P Q : Dfs → Type 0) (o : Option Found) → Ends P o → ((d : Dfs) → P d → Q d) → Ends Q o
  Ends-map P Q none h f = h
  Ends-map P Q (some (cycle path)) h f = h
  Ends-map P Q (some (clear d)) h f = f d h

  on_color-Ends :
      (P : Dfs → Type 0) (c : Color) (path : List String) (visited skipped : Option Found)
      → (c ≡ white → Ends P visited)
      → (c ≡ gray → IsCycle edges path)
      → (c ≡ black → Ends P skipped)
      → Ends P (on_color c path visited skipped)
  unfolding on_color
  on_color-Ends P white path visited skipped w g b = w refl
  on_color-Ends P gray path visited skipped w g b = g refl
  on_color-Ends P black path visited skipped w g b = b refl

  module _ (ids : List String) (n : ℕ) (visit : String → Dfs → Option Found) (node : String)
      (stack : List String) (linked : Chained edges (stack ++ node ∷ []))
      (visits : (x : String) (e : Dfs)
        → Edge edges node x
        → color_at e x ≡ white
        → e.stack ≡ stack ++ node ∷ []
        → Sound e
        → whites ids e < n
        → Ends (Visited e x) (visit x e)) where
    pub explore-Ends :
        (next : List String) (d : Dfs)
        → ((c : String) → Memᴰ c next → Edge edges node c)
        → d.stack ≡ stack ++ node ∷ []
        → Sound d
        → whites ids d < n
        → Ends (Explored d next) (explore visit next d)
    unfolding explore
    explore-Ends [] d p q s lt = (Kept-refl d, s, λ c m. elim m [ ])
    explore-Ends (x ∷ xs) d p q s lt =
        let here = p x (Memᴰ.head refl) in
        let rest = λ (c : String) (m : Memᴰ c xs). p c (Memᴰ.tail m) in
        on_color-Ends (Explored d (x ∷ xs)) (color_at d x) _ _ _
          (λ w.
            Ends-and_then (Visited d x) (Explored d (x ∷ xs)) (explore visit xs) (visit x d)
              (visits x d here w q s lt)
              λ e v.
                Ends-map (Explored e xs) (Explored d (x ∷ xs)) (explore visit xs e)
                  (explore-Ends xs e rest (v.0.same_stack ∙ q) v.1
                    (omega (arith, lt, whites-le ids d e v.0.no_whites)))
                  (λ f g. Explored-next d e f x xs v.0 v.2 g))
          (λ g.
            subst (λ l. IsCycle edges (from_first x l ++ x ∷ [])) (sym q)
              (IsCycle-cut edges x node stack linked (subst (Memᴰ x) q (s.on_stack x g)) here))
          (λ b.
            Ends-map (Explored d xs) (Explored d (x ∷ xs)) (explore visit xs d)
              (explore-Ends xs d rest q s lt) (λ f g. Explored-next d d f x xs (Kept-refl d) b g))
