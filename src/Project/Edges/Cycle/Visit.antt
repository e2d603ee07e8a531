-- ===== src/Project/Edges/Cycle/Visit.antt =====
-- `dfs` of one white id: what its colouring and its stack leave.
use mathlib.Core.List.Memᴰ
use mathlib.Core.Path.{subst}
use draiver.Prelude.{
  ℕ, zero, suc, ◌<◌, String, ◌≡◌, refl, sym, ap, ◌∙◌, ◌≢◌, inl, inr, false, false≢true, some, List,
  [], ◌∷◌, ◌++◌, append_assoc, Memᴰ, arith, ◌==◌, eq_iff, if◌then◌else◌, Bool-cases,
}
use draiver.Prelude.Maps.{string_key, nat_key, ref_key, insert}
use draiver.Project.Edges.{EdgeMap, edges_at, all}
use draiver.Project.Edges.Cycle.{
  Color, white, gray, black, Dfs, clear, color_at, drop_last, enter, leave, explore, dfs,
}
use draiver.Project.Edges.Cycle.Whites.{is_white, whites, color_at-insert, whites-lt}
use draiver.Project.Edges.Cycle.Search.{
  Walks, edge, step, Sound, Kept, black_walk, Ends, Ends-and_then, Visited, Explored, explore-Ends,
}
use draiver.Project.Edges.Cycle.Stack.{Edge, Chained, Chained-push}

drop_last-snoc : (xs : List String) (x : String) → drop_last (xs ++ x ∷ []) ≡ xs
unfolding drop_last
drop_last-snoc [] x = refl
drop_last-snoc (y ∷ []) x = refl
drop_last-snoc (y ∷ z ∷ xs) x = ap (λ l. y ∷ l) (drop_last-snoc (z ∷ xs) x)

-- An assignment to the map of colours.
abbrev paint : String → Color → List String → Dfs → Dfs
paint node c stack d = record { color = insert node c d.color; stack = stack }

module _ (d : Dfs) (node : String) (c : Color) (stack : List String) where
  painted_self : color_at (paint node c stack d) node ≡ c
  painted_self = color_at-insert d node node c stack ∙ rw ((eq_iff node node).1 refl) refl

  painted :
      (k : Color) (x : String)
      → color_at d node ≢ k
      → color_at d x ≡ k
      → color_at (paint node c stack d) x ≡ k
  painted k x n h = color_at-insert d node x c stack ∙ elim (Bool-cases (node == x)) [
    | inl t ↦ absurd (n (ap (color_at d) ((eq_iff node x).0 t) ∙ h))
    | inr f ↦ rw f h
  ]

  unpainted :
      (k : Color) (x : String)
      → c ≢ k
      → color_at (paint node c stack d) x ≡ k
      → (node ≢ x) × (color_at d x ≡ k)
  unpainted k x n h = elim (Bool-cases (node == x)) [
    | inl t ↦ absurd (
        n (
          sym (ap (λ y. if y then c else color_at d x) t)
          ∙ sym (color_at-insert d node x c stack)
          ∙ h))
    | inr f ↦ (
      λ e. false≢true (sym f ∙ (eq_iff node x).1 e),
      sym (ap (λ y. if y then c else color_at d x) f) ∙ sym (color_at-insert d node x c stack) ∙ h,
    )
  ]

  -- An id that the assignment does not name keeps its colour.
  unpainted_other :
      (x : String) → (node == x) ≡ false → color_at (paint node c stack d) x ≡ color_at d x
  unpainted_other x f = color_at-insert d node x c stack ∙ rw f refl

  other_id : (x : String) → node ≢ x → color_at (paint node c stack d) x ≡ color_at d x
  other_id x n =
      unpainted_other x
        (elim (Bool-cases (node == x)) [ inl t ↦ absurd (n ((eq_iff node x).0 t)) | inr f ↦ f ])

white≢gray : white ≢ gray
white≢gray e = cc

white≢black : white ≢ black
white≢black e = cc

gray≢black : gray ≢ black
gray≢black e = cc

other : {c k l : Color} → c ≡ k → k ≢ l → c ≢ l
other e n f = n (sym e ∙ f)

below :
    (x node : String) (stack : List String) → node ≢ x → Memᴰ x (stack ++ node ∷ []) → Memᴰ x stack
below x node [] n m = elim (Memᴰ.cases_cons m) [ inl e ↦ absurd (n (sym e)) | inr k ↦ k ]
below x node (y ∷ stack) n m = elim (Memᴰ.cases_cons m) [
  | inl e ↦ Memᴰ.head e
  | inr k ↦ Memᴰ.tail (below x node stack n k)
]

enter-stack : (node : String) (d : Dfs) → (enter node d).stack ≡ d.stack ++ node ∷ []
unfolding enter
enter-stack node d = refl

module _ (edges : EdgeMap) where
  Chained-snoc :
      (xs : List String) (x y : String)
      → Chained edges (xs ++ x ∷ [])
      → Edge edges x y
      → Chained edges ((xs ++ x ∷ []) ++ y ∷ [])
  Chained-snoc xs x y c e =
      subst (Chained edges) (sym (append_assoc xs (x ∷ []) (y ∷ [])))
        (Chained-push edges xs x y c e)

  enter-Sound :
      (node : String) (d : Dfs)
      → color_at d node ≡ white
      → Sound edges d
      → Sound edges (enter node d)
  unfolding enter
  enter-Sound node d w s =
      let push = d.stack ++ node ∷ [] in
      record {
        closed = λ x c b e.
            painted d node gray push black c (other w white≢black)
              (s.closed x c (unpainted d node gray push black x gray≢black b).1 e);
        acyclic = λ x b. s.acyclic x (unpainted d node gray push black x gray≢black b).1;
        on_stack = λ x g. elim (Bool-cases (node == x)) [
          | inl t ↦ Memᴰ.append_right d.stack (Memᴰ.head (sym ((eq_iff node x).0 t)))
          | inr f ↦
              Memᴰ.append_left (node ∷ [])
                (s.on_stack x (sym (unpainted_other d node gray push x f) ∙ g))
        ];
      }

  module _ (node : String) (d f : Dfs) (w : color_at d node ≡ white)
      (k : Kept edges (enter node d) f) (s : Sound edges f)
      (visited : (c : String) → Edge edges node c → color_at f c ≡ black) where
    was_gray : color_at f node ≡ gray
    unfolding enter
    was_gray = k.grays node (painted_self d node gray (d.stack ++ node ∷ []))

    no_walk : ¬ Walks edges node node
    no_walk (edge e) = gray≢black (sym was_gray ∙ visited node e)
    no_walk (step {y = z} e r) =
        gray≢black (sym was_gray ∙ black_walk edges f s z node (visited z e) r)

    leave-Kept : Kept edges d (leave node f)
    unfolding enter leave
    leave-Kept =
        let push = d.stack ++ node ∷ [] in
        let pop = drop_last f.stack in
        record {
          blacks = λ x b.
              painted f node black pop black x (other was_gray gray≢black)
                (k.blacks x (painted d node gray push black x (other w white≢black) b));
          grays = λ x g. elim (Bool-cases (node == x)) [
            | inl t ↦ absurd (white≢gray (sym w ∙ ap (color_at d) ((eq_iff node x).0 t) ∙ g))
            | inr n ↦
                unpainted_other f node black pop x n
                ∙ k.grays x (unpainted_other d node gray push x n ∙ g)
          ];
          no_grays = λ x g.
              let (n, h) = unpainted f node black pop gray x (λ e. gray≢black (sym e)) g in
              sym (other_id d node gray push x n) ∙ k.no_grays x h;
          no_whites = λ x h.
              (unpainted d node gray push white x (λ e. white≢gray (sym e))
                (k.no_whites x
                  (unpainted f node black pop white x (λ e. white≢black (sym e)) h).1)).1;
          same_stack = ap drop_last k.same_stack ∙ drop_last-snoc d.stack node;
        }

    leave-Sound : Sound edges (leave node f)
    unfolding enter leave
    leave-Sound =
        let pop = drop_last f.stack in
        let keep = λ (x : String) (b : color_at f x ≡ black).
          painted f node black pop black x (other was_gray gray≢black) b in
        record {
          closed = λ x c b e. elim (Bool-cases (node == x)) [
            | inl t ↦ keep c (visited c (subst (λ y. Edge edges y c) (sym ((eq_iff node x).0 t)) e))
            | inr n ↦ keep c (s.closed x c (sym (unpainted_other f node black pop x n) ∙ b) e)
          ];
          acyclic = λ x b. elim (Bool-cases (node == x)) [
            | inl t ↦ subst (λ y. ¬ Walks edges y y) ((eq_iff node x).0 t) no_walk
            | inr n ↦ s.acyclic x (sym (unpainted_other f node black pop x n) ∙ b)
          ];
          on_stack = λ x g.
              let (n, h) = unpainted f node black pop gray x (λ e. gray≢black (sym e)) g in
              let m : Memᴰ x (d.stack ++ node ∷ []) =
                subst (Memᴰ x) k.same_stack (s.on_stack x h) in
              subst (Memᴰ x) (sym (ap drop_last k.same_stack ∙ drop_last-snoc d.stack node))
                (below x node d.stack n m);
        }

  leave-Visited :
      (node : String) (d f : Dfs)
      → color_at d node ≡ white
      → Explored edges (enter node d) (all (edges_at edges node)) f
      → Visited edges d node (leave node f)
  unfolding leave
  leave-Visited node d f w (k, s, g) = (
    leave-Kept node d f w k s g,
    leave-Sound node d f w k s g,
    painted_self f node black (drop_last f.stack),
  )

  enter-whites :
      (ids : List String) (node : String) (d : Dfs)
      → color_at d node ≡ white
      → Memᴰ node ids
      → whites ids (enter node d) < whites ids d
  unfolding enter
  enter-whites ids node d w m =
      let push = d.stack ++ node ∷ [] in
      whites-lt ids d (enter node d) node
        (λ x h. (unpainted d node gray push white x (λ e. white≢gray (sym e)) h).1) w
        (ap is_white (painted_self d node gray push)) m

  -- With more fuel than white ids, the visit of a white id ends.
  pub dfs-Ends :
      (ids : List String)
      → ((x c : String) → Edge edges x c → Memᴰ c ids)
      → (n : ℕ) (node : String) (d : Dfs) → color_at d node ≡ white
      → Memᴰ node ids
      → Chained edges (d.stack ++ node ∷ [])
      → Sound edges d
      → whites ids d < n
      → Ends edges (Visited edges d node) (dfs n edges node d)
  unfolding dfs
  dfs-Ends ids known zero node d w m c s lt = omega (arith, lt)
  dfs-Ends ids known (suc n) node d w m c s lt =
      let next = all (edges_at edges node) in
      Ends-and_then edges (Explored edges (enter node d) next) (Visited edges d node)
        (λ e. some (clear (leave node e))) (explore (dfs n edges) next (enter node d))
        (explore-Ends edges ids n (dfs n edges) node d.stack c
          (λ x e here v q t l.
            dfs-Ends ids known n x e v (known node x here)
              (subst (λ st. Chained edges (st ++ x ∷ [])) (sym q)
                (Chained-snoc d.stack node x c here))
              t l)
          next (enter node d) (λ x i. i) (enter-stack node d) (enter-Sound node d w s)
          (omega (arith, lt, enter-whites ids node d w m)))
        (λ f v. leave-Visited node d f w v)
