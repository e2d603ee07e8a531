-- ===== src/Project/Edges.antt =====
-- internal/project/edges.go: the dependency edges of the tickets and the walk down `wants:`.
-- A map's iteration order is the order of the list that stands for the map.
pub mod Closure
pub mod Cycle
pub mod Fuel
use draiver.Prelude.{
  ℕ, zero, suc, ◌+◌, String, Option, none, some, List, [], ◌∷◌, ◌++◌, if◌then◌else◌, length,
}
use draiver.Prelude.Maps.{string_key, nat_key, ref_key, has, lookup}

pub record Edges : Type 0 where
  pub wants : List String
  pub after : List String
  pub requires : List String

abbrev pub EdgeMap : Type 0
EdgeMap = List (String × Edges)

abbrev pub edges_or_zero : Option Edges → Edges
edges_or_zero none = record { wants = []; after = []; requires = [] }
edges_or_zero (some e) = e

-- `edges[t]`
abbrev pub edges_at : EdgeMap → String → Edges
edges_at edges t = edges_or_zero (lookup edges t)

-- `Edges.All`
unfoldable pub all : Edges → List String
all e = e.wants ++ e.after ++ e.requires

-- The variables of the loop of `WantsClosure` that it does not return at once.
pub record Walk : Type 0 where
  pub seen : List String
  pub frontier : List String
  pub wanted : List String

pub see : List String → Walk → String → Walk
see sources w child = if has w.seen child then w else record {
  seen = child ∷ w.seen;
  frontier = w.frontier ++ child ∷ [];
  wanted = if has sources child then w.wanted else child ∷ w.wanted;
}

-- The inner loop, over the tickets that one ticket wants.
pub see_all : List String → Walk → List String → Walk
unfolding see
see_all sources w [] = w
see_all sources w (c ∷ cs) = see_all sources (see sources w c) cs

-- The outer loop on fuel; `none` is a walk that the fuel does not end.
pub walk :
    ℕ → List String → EdgeMap → List String → List String → List String → Option (List String)
unfolding see_all
walk n sources edges seen [] wanted = some wanted
walk zero sources edges seen (t ∷ ts) wanted = none
walk (suc n) sources edges seen (t ∷ ts) wanted =
    let w =
      see_all sources (record { seen = seen; frontier = ts; wanted = wanted })
        (edges_at edges t).wants in
    walk n sources edges w.seen w.frontier w.wanted

-- Every ticket that an edge of the map names as wanted, an edge counted once.
pub all_wants : EdgeMap → List String
all_wants [] = []
all_wants ((t, e) ∷ edges) = e.wants ++ all_wants edges

-- `WantsClosure`, with a round for each source and for each edge.
unfoldable pub wants_closure : List String → EdgeMap → Option (List String)
unfolding walk all_wants
wants_closure sources edges =
    walk (length sources + length (all_wants edges)) sources edges sources sources []
