-- ===== src/Project/Edges/Cycle/Verdict.antt =====
-- `CheckCycle` as a whole: the loop over the ids and what the verdict says of the edges.
use mathlib.Core.List.Memᴰ
use mathlib.Core.Path.{subst}
use mathlib.Core.Option
use draiver.Prelude.{
  ℕ, suc, ◌<◌, String, ◌≡◌, refl, sym, ◌∙◌, ◌≢◌, ◌⊎◌, inl, inr, Option, none, some, List, [], ◌∷◌,
  ◌++◌, Memᴰ, arith, ◌==◌, if◌then◌else◌, Bool-cases, length,
}
use draiver.Prelude.Maps.{string_key, nat_key, ref_key, has, has→Mem, lookup}
use draiver.Project.Edges.{Edges, EdgeMap, edges_at, all}
use draiver.Prelude.Text.{sort_strings}
use draiver.Project.Edges.Cycle.{
  Color, white, gray, black, Dfs, Found, cycle, clear, color_or_white, color_at, dfs, if_white,
  check_from, add_all, node_ids, path_of, check_cycle,
}
use draiver.Project.Edges.Cycle.Stack.{Edge, Chained, IsCycle}
use draiver.Project.Edges.Cycle.Whites.{whites, whites-le}
use draiver.Project.Edges.Cycle.Search.{
  Walks, edge, step, Sound, Kept-refl, Ends, Ends-and_then, Visited, Explored, Explored-next,
  Ends-map,
}
use draiver.Project.Edges.Cycle.Visit.{dfs-Ends}
use draiver.Reconcile.Desired.Passes.{Mem-sort_strings}

Mem-add_all : (xs ids : List String) (x : String) → Memᴰ x ids ⊎ Memᴰ x xs → Memᴰ x (add_all ids xs)
unfolding add_all
Mem-add_all [] ids x (inl m) = m
Mem-add_all [] ids x (inr m) = elim m [ ]
Mem-add_all (y ∷ xs) ids x o =
    Mem-add_all xs (if has ids y then ids else y ∷ ids) x (elim (Bool-cases (has ids y)) [
      | inl t ↦ rw t (elim o [
        | inl m ↦ inl m
        | inr m ↦ elim (Memᴰ.cases_cons m) [
          | inl e ↦ inl (Memᴰ.cast e (has→Mem ids y t))
          | inr k ↦ inr k
        ]
      ])
      | inr f ↦ rw f (elim o [
        | inl m ↦ inl (Memᴰ.tail m)
        | inr m ↦ elim (Memᴰ.cases_cons m) [ inl e ↦ inl (Memᴰ.head e) | inr k ↦ inr k ]
      ])
    ])

edges_at-cons :
    (src : String) (e : Edges) (edges : EdgeMap) (x : String)
    → edges_at ((src, e) ∷ edges) x ≡ (if src == x then e else edges_at edges x)
unfolding lookup
edges_at-cons src e edges x = elim (Bool-cases (src == x)) [ inl t ↦ rw t refl | inr f ↦ rw f refl ]

no_target : (x c : String) → ¬ Edge [] x c
unfolding all lookup
no_target x c m = elim m [ ]

-- Every target of an edge is an id of the search.
Mem-node_ids : (edges : EdgeMap) (x c : String) → Edge edges x c → Memᴰ c (node_ids edges)
unfolding node_ids
Mem-node_ids [] x c m = absurd (no_target x c m)
Mem-node_ids ((src, e) ∷ edges) x c m =
    let k : Memᴰ c (all (if src == x then e else edges_at edges x)) =
      subst (λ z. Memᴰ c (all z)) (edges_at-cons src e edges x) m in
    Mem-add_all (src ∷ all e) (node_ids edges) c (elim (Bool-cases (src == x)) [
      | inl t ↦ inr (Memᴰ.tail (subst (λ b. Memᴰ c (all (if b then e else edges_at edges x))) t k))
      | inr f ↦ inl (
          Mem-node_ids edges x c
            (subst (λ b. Memᴰ c (all (if b then e else edges_at edges x))) f k))
    ])

module _ (edges : EdgeMap) where
  walk-target :
      (ids : List String)
      → ((x c : String) → Edge edges x c → Memᴰ c ids)
      → (x y : String) → Walks edges x y
      → Memᴰ y ids
  walk-target ids known x y (edge e) = known x y e
  walk-target ids known x y (step {y = z} e w) = walk-target ids known z y w

  if_white-Ends :
      (P : Dfs → Type 0) (c : Color) (visited skipped : Option Found)
      → (c ≡ white → Ends edges P visited)
      → (c ≢ white → Ends edges P skipped)
      → Ends edges P (if_white c visited skipped)
  unfolding if_white
  if_white-Ends P white visited skipped w g = w refl
  if_white-Ends P gray visited skipped w g = g (λ e. cc)
  if_white-Ends P black visited skipped w g = g (λ e. cc)

  colored :
      (d : Dfs) (x : String)
      → Sound edges d
      → d.stack ≡ []
      → color_at d x ≢ white
      → color_at d x ≡ black
  colored d x s e n = black_of (color_at d x) n (λ g. not_in (subst (Memᴰ x) e (s.on_stack x g)))
    where
      not_in : ¬ Memᴰ x []
      not_in m = elim m [ ]

      black_of : (c : Color) → c ≢ white → c ≢ gray → c ≡ black
      black_of white n g = absurd (n refl)
      black_of gray n g = absurd (g refl)
      black_of black n g = refl

  check_from-Ends :
      (ids : List String) (n : ℕ)
      → ((x c : String) → Edge edges x c → Memᴰ c ids)
      → (xs : List String) (d : Dfs) → ((c : String) → Memᴰ c xs → Memᴰ c ids)
      → d.stack ≡ []
      → Sound edges d
      → whites ids d < n
      → Ends edges (Explored edges d xs) (check_from n edges xs d)
  unfolding check_from
  check_from-Ends ids n known [] d p q s lt = (Kept-refl edges d, s, λ c m. elim m [ ])
  check_from-Ends ids n known (x ∷ xs) d p q s lt =
      let rest = λ (c : String) (m : Memᴰ c xs). p c (Memᴰ.tail m) in
      if_white-Ends (Explored edges d (x ∷ xs)) (color_at d x) _ _
        (λ w.
          Ends-and_then edges (Visited edges d x) (Explored edges d (x ∷ xs))
            (check_from n edges xs) (dfs n edges x d)
            (dfs-Ends edges ids known n x d w (p x (Memᴰ.head refl))
              (subst (λ st. Chained edges (st ++ x ∷ [])) (sym q) tt) s lt)
            λ e v.
              Ends-map edges (Explored edges e xs) (Explored edges d (x ∷ xs))
                (check_from n edges xs e)
                (check_from-Ends ids n known xs e rest (v.0.same_stack ∙ q) v.1
                  (omega (arith, lt, whites-le ids d e v.0.no_whites)))
                (λ f g. Explored-next edges d e f x xs v.0 v.2 g))
        (λ b.
          Ends-map edges (Explored edges d xs) (Explored edges d (x ∷ xs)) (check_from n edges xs d)
            (check_from-Ends ids n known xs d rest q s lt)
            (λ f g. Explored-next edges d d f x xs (Kept-refl edges d) (colored d x s q b) g))

-- What the verdict of the search says.
pub Verdict : EdgeMap → Option (List String) → Type 0
Verdict edges none = (t : String) → ¬ Walks edges t t
Verdict edges (some path) = IsCycle edges path

abbrev fresh : Dfs
fresh = record { color = []; stack = [] }

fresh-Sound : (edges : EdgeMap) → Sound edges fresh
unfolding color_at color_or_white lookup
fresh-Sound edges = record { closed = λ x c b e. cc; acyclic = λ x b w. cc; on_stack = λ x g. cc }

whites-bound : (ids : List String) (d : Dfs) → whites ids d < suc (length ids)
whites-bound [] d = omega arith
whites-bound (x ∷ xs) d = ground (arith, whites-bound xs d)

verdict :
    (edges : EdgeMap) (ids : List String) (o : Option Found)
    → ((x c : String) → Edge edges x c → Memᴰ c (node_ids edges))
    → ((c : String) → Memᴰ c (node_ids edges) → Memᴰ c ids)
    → Ends edges (Explored edges fresh ids) o
    → (v : Option (List String)) × (Option.map path_of o ≡ some v) × Verdict edges v
unfolding path_of Verdict
verdict edges ids none known p h = absurd h
verdict edges ids (some (cycle path)) known p h = (some path, refl, h)
verdict edges ids (some (clear d)) known p (k, s, g) =
    (none, refl, λ t w. s.acyclic t (g t (p t (walk-target edges (node_ids edges) known t t w))) w)

-- `CheckCycle` always returns: either nil, and then no id has a walk along the edges back to
-- itself, or a path along the edges that ends with the id it starts with.
pub check_cycle-Verdict :
    (edges : EdgeMap) → (v : Option (List String)) × (check_cycle edges ≡ some v) × Verdict edges v
unfolding check_cycle
check_cycle-Verdict edges =
    let ids = node_ids edges in
    let order = sort_strings ids in
    verdict edges order (check_from (suc (length ids)) edges order fresh) (Mem-node_ids edges)
      (λ c m. (Mem-sort_strings ids c).1 m)
      (check_from-Ends edges ids (suc (length ids)) (Mem-node_ids edges) order fresh
        (λ c m. (Mem-sort_strings ids c).0 m) refl (fresh-Sound edges) (whites-bound ids fresh))
