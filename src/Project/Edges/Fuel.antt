-- ===== src/Project/Edges/Fuel.antt =====
-- The walk down `wants:` ends: a round for each source and each edge is enough.
use mathlib.Core.List.Memᴰ
use draiver.Prelude.{
  ℕ, zero, suc, ◌+◌, ◌≤◌, ◌<◌, String, ◌≡◌, refl, ap, inl, inr, true, false, not, some, List, [],
  ◌∷◌, Memᴰ, arith, ◌==◌, eq_iff, Bool-cases, length, length-append, select,
}
use draiver.Prelude.Maps.{string_key, nat_key, has, lookup}
use draiver.Prelude.{
  ℕ, zero, suc, ◌+◌, ◌≤◌, ◌<◌, String, ◌≡◌, refl, ap, inl, inr, true, false, not, some, List, [],
  ◌∷◌, Memᴰ, arith, ◌==◌, eq_iff, Bool-cases, length, length-append, select,
}
use draiver.Project.Edges.{EdgeMap, edges_at, Walk, see, see_all, walk, all_wants, wants_closure}

-- The named wanted tickets that the walk has not seen.
abbrev unseen : List String → List String → ℕ
unseen seen u = length (select (λ c. not (has seen c)) u)

unseen_bound : (seen u : List String) → unseen seen u ≤ length u
unseen_bound seen [] = omega arith
unseen_bound seen (x ∷ u) = ground (arith, unseen_bound seen u)

unseen_fewer :
    (seen : List String) (c : String) (u : List String) → unseen (c ∷ seen) u ≤ unseen seen u
unfolding has
unseen_fewer seen c [] = omega arith
unseen_fewer seen c (x ∷ u) = ground (arith, unseen_fewer seen c u)

unseen_less :
    (seen : List String) (c : String) (u : List String)
    → Memᴰ c u
    → has seen c ≡ false
    → unseen (c ∷ seen) u < unseen seen u
unfolding has
unseen_less seen c [] m h = elim m [ ]
unseen_less seen c (x ∷ u) (Memᴰ.head p) h =
    let same : (c == x) ≡ true = (eq_iff c x).1 p in
    ground (arith, unseen_fewer seen c u, same, ap (has seen) p)
unseen_less seen c (x ∷ u) (Memᴰ.tail m) h = ground (arith, unseen_less seen c u m h)

abbrev size : List String → Walk → ℕ
size u w = length w.frontier + unseen w.seen u

size-see :
    (sources u : List String) (w : Walk) (c : String)
    → Memᴰ c u
    → size u (see sources w c) ≤ size u w
unfolding see
size-see sources u w c m = elim (Bool-cases (has w.seen c)) [
  | inl t ↦ rw t (omega arith)
  | inr f ↦ rw (f, length-append) (omega (arith, unseen_less w.seen c u m f))
]

size-see_all :
    (sources u : List String) (w : Walk) (cs : List String)
    → ((c : String) → Memᴰ c cs → Memᴰ c u)
    → size u (see_all sources w cs) ≤ size u w
unfolding see_all
size-see_all sources u w [] m = omega arith
size-see_all sources u w (c ∷ cs) m = omega (
  arith,
  size-see sources u w c (m c (Memᴰ.head refl)),
  size-see_all sources u (see sources w c) cs (λ d k. m d (Memᴰ.tail k)),
)

wants-all_wants :
    (edges : EdgeMap) (t c : String) → Memᴰ c (edges_at edges t).wants → Memᴰ c (all_wants edges)
unfolding all_wants lookup
wants-all_wants [] t c m = elim m [ ]
wants-all_wants ((s, e) ∷ edges) t c m = elim (Bool-cases (s == t)) [
  | inl y ↦ Memᴰ.append_left (all_wants edges) (rw y at m)
  | inr n ↦ Memᴰ.append_right e.wants (wants-all_wants edges t c (rw n at m))
]

walk_ends :
    (n : ℕ) (sources : List String) (edges : EdgeMap) (seen frontier wanted : List String)
    → length frontier + unseen seen (all_wants edges) ≤ n
    → (r : List String) × (walk n sources edges seen frontier wanted ≡ some r)
unfolding walk
walk_ends n sources edges seen [] wanted h = (wanted, refl)
walk_ends zero sources edges seen (t ∷ ts) wanted h = absurd (omega (arith, h))
walk_ends (suc n) sources edges seen (t ∷ ts) wanted h =
    let w : Walk = record { seen = seen; frontier = ts; wanted = wanted } in
    let v = see_all sources w (edges_at edges t).wants in
    walk_ends n sources edges v.seen v.frontier v.wanted (
      omega (
        arith,
        h,
        size-see_all sources (all_wants edges) w (edges_at edges t).wants (wants-all_wants edges t),
      ))

-- The walk down `wants:` returns a set of tickets, on a cyclic graph too.
pub wants_closure_ends :
    (sources : List String) (edges : EdgeMap)
    → (r : List String) × (wants_closure sources edges ≡ some r)
unfolding wants_closure
wants_closure_ends sources edges =
    walk_ends _ sources edges sources sources []
      (omega (arith, unseen_bound sources (all_wants edges)))
