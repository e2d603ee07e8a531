-- ===== src/Reconcile/Desired/Twin.antt =====
-- The direct pass and the walk of reconcile.go's `desired` against project.DeriveDesired.
use mathlib.Core.List.Memᴰ
use mathlib.Core.Path.{subst}
use draiver.Prelude.{
  String, ◌≡◌, refl, sym, ap, ◌∙◌, ◌↔◌, ◌⊎◌, inl, inr, false, some, List, [], ◌∷◌, map, Memᴰ,
  select, Mem-select_of, of_Mem-select,
}
use draiver.Prelude.Maps.{string_key, nat_key, ref_key}
use draiver.Prelude.Text.{trim_space, sort_strings}
use draiver.Project.State.{ok}
use draiver.Project.Fleet.{Attempt, Ref, ref, is_direct, sources, derive_desired}
use draiver.Project.Fleet.Desired.{LatestRuns, derive_desired-IsDesired}
use draiver.Reconcile.Gates.{Desired}
use draiver.Reconcile.Desired.{
  Site, direct_from, desire_each, sources_of, desire_wanted, with_edges, propagate_wants,
}
use draiver.Project.Edges.{EdgeMap}
use draiver.Project.Edges.Closure.{Reaches, source, down, wants_closure-Reaches}
use draiver.Reconcile.Desired.Passes.{
  keys, honoured, Mem-sort_strings, Directly, direct_from_iff, desire_each_iff,
}

abbrev SameSet {ℓ} : {A : Type ℓ} → List A → List A → Type ℓ
SameSet {A = A} xs ys = (x : A) → Memᴰ x xs ↔ Memᴰ x ys

same_sources :
    (attempts : List Attempt) (out : Desired)
    → ((r : Ref) → Memᴰ r (keys out) ↔ Directly attempts r)
    → SameSet (sources_of out) (sources attempts)
unfolding sources_of sources
same_sources attempts out h x = (
  λ m.
      let (e, i, p) = Memᴰ.of_map (λ entry. entry.0.0) out m in
      let (a, j, t, q) = (h e.0).0 (Memᴰ.map (λ entry. entry.0) i) in
      subst (λ y. Memᴰ y (map (λ b. b.ticket) (select is_direct attempts)))
        (sym (ap (λ k. k.0) q) ∙ p)
        (Memᴰ.map (λ b. b.ticket) (Mem-select_of is_direct attempts t j)),
  λ m.
      let (a, i, p) = Memᴰ.of_map (λ b. b.ticket) (select is_direct attempts) m in
      let (j, t) = of_Mem-select is_direct attempts i in
      let (e, k, q) = Memᴰ.of_map (λ entry. entry.0) out ((h (ref a)).1 (a, j, t, refl)) in
      subst (λ y. Memᴰ y (map (λ entry. entry.0.0) out)) (ap (λ z. z.0) q ∙ p)
        (Memᴰ.map (λ entry. entry.0.0) k),
)

Reaches-sources :
    (xs ys : List String) (edges : EdgeMap)
    → ((x : String) → Memᴰ x xs → Memᴰ x ys)
    → (t : String) → Reaches xs edges t
    → Reaches ys edges t
Reaches-sources xs ys edges f t (source m) = source (f t m)
Reaches-sources xs ys edges f c (down {t} r k) = down (Reaches-sources xs ys edges f t r) k

no_source : (edges : EdgeMap) (t : String) → ¬ Reaches [] edges t
no_source edges t (source m) = elim m [ ]
no_source edges c (down {t} r k) = no_source edges t r

-- The walk's part of `IsDesired`, from any sources.
abbrev Pulled : List Attempt → EdgeMap → List String → Ref → Type 0
Pulled attempts edges xs r =
    (child : String) × (a : Attempt) × Reaches xs edges child
    × (¬ Memᴰ child xs)
    × LatestRuns attempts child a
    × (r ≡ ref a)

Pulled-sources :
    (attempts : List Attempt) (edges : EdgeMap) (xs ys : List String) (r : Ref)
    → SameSet xs ys
    → Pulled attempts edges xs r
    → Pulled attempts edges ys r
Pulled-sources attempts edges xs ys r f (child, a, x, n, l, p) =
    (child, a, Reaches-sources xs ys edges (λ y. (f y).0) child x, λ m. n ((f child).1 m), l, p)

propagate_wants-Pulled :
    (s : Site) (attempts : List Attempt) (edges : EdgeMap) (out : Desired)
    → trim_space s.default_repo ≡ ""
    → s.edges ≡ ok edges
    → (o : Desired) × (propagate_wants s attempts out ≡ ok o)
      × ((r : Ref)
          → Memᴰ r (keys o) ↔ (Pulled attempts edges (sources_of out) r ⊎ Memᴰ r (keys out)))
unfolding propagate_wants with_edges desire_wanted sources_of
propagate_wants-Pulled s attempts edges [] blank e = (
  [],
  refl,
  λ r. (
    λ m. inr m,
    λ o. elim o [ inl (child, a, x, n, l, p) ↦ absurd (no_source edges child x) | inr q ↦ q ],
  ),
)
propagate_wants-Pulled s attempts edges (entry ∷ rest) blank e =
    let out : Desired = entry ∷ rest in
    let (wanted, w, f) = wants_closure-Reaches (sources_of out) edges in
    (
      desire_each s attempts (sort_strings wanted) out,
      rw (e, w) refl,
      λ r.
          let (g, h) = desire_each_iff s blank attempts (sort_strings wanted) out r in
          (
            λ m. elim (g m) [
              | inl (child, a, i, l, p) ↦
                  let (x, n) = (f child).0 ((Mem-sort_strings wanted child).0 i) in
                  inl (child, a, x, n, l, p)
              | inr q ↦ inr q
            ],
            λ o. elim o [
              | inl (child, a, x, n, l, p) ↦
                  h (inl (child, a, (Mem-sort_strings wanted child).1 ((f child).1 (x, n)), l, p))
              | inr q ↦ h (inr q)
            ],
          ),
    )

-- When no marker of a disabled attempt names the live controller, no default repository is bound
-- to mint a child's first attempt in, and the edges are readable, the reconciler's direct pass and
-- its walk return, and they desire exactly the attempts that the project tier derives as desired.
pub propagate_wants-derive_desired :
    (s : Site) (attempts : List Attempt) (edges : EdgeMap)
    → ((a : Attempt) → Memᴰ a attempts → a.enabled ≡ false → honoured s (s.marker (ref a)) ≡ false)
    → trim_space s.default_repo ≡ ""
    → s.edges ≡ ok edges
    → (o : Desired) × (d : List Ref) × (propagate_wants s attempts
          (direct_from s (record { out = []; swept = [] }) attempts).out
        ≡ ok o)
      × (derive_desired attempts edges ≡ some d)
      × ((r : Ref) → Memᴰ r (map (λ entry. entry.0) o) ↔ Memᴰ r d)
propagate_wants-derive_desired s attempts edges n blank e =
    let direct = direct_from s (record { out = []; swept = [] }) attempts in
    let start : (r : Ref) → Memᴰ r (keys direct.out) ↔ Directly attempts r = λ r.
      let (f, g) = direct_from_iff s attempts (record { out = []; swept = [] }) r n in
      (λ m. elim (f m) [ inl p ↦ p | inr q ↦ elim q [ ] ], λ p. g (inl p)) in
    let same = same_sources attempts direct.out start in
    let (o, h, f) = propagate_wants-Pulled s attempts edges direct.out blank e in
    let (d, k, g) = derive_desired-IsDesired attempts edges in
    (
      o,
      d,
      h,
      k,
      λ r. (
        λ m. (g r).1 (elim ((f r).0 m) [
          | inl p ↦ inr (Pulled-sources attempts edges _ _ r same p)
          | inr q ↦ inl ((start r).0 q)
        ]),
        λ m. (f r).1 (elim ((g r).0 m) [
          | inl p ↦ inr ((start r).1 p)
          | inr p ↦ inl (Pulled-sources attempts edges _ _ r (λ y. ((same y).1, (same y).0)) p)
        ]),
      ),
    )
