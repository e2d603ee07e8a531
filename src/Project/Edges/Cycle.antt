-- ===== src/Project/Edges/Cycle.antt =====
-- internal/project/edges.go: `CheckCycle`, the search for a cycle of the edges' union.
-- An id without a colour in the map is white. The fuel bounds the depth of the recursion.
pub mod Stack
pub mod Whites
pub mod Search
pub mod Visit
pub mod Verdict
use mathlib.Core.Option
use draiver.Prelude.{
  ℕ, zero, suc, String, ◌≡◌, refl, Option, none, some, List, [], ◌∷◌, ◌++◌, ◌==◌, if◌then◌else◌,
  length,
}
use draiver.Prelude.Maps.{string_key, nat_key, ref_key, has, lookup, insert}
use draiver.Prelude.Text.{sort_strings}
use draiver.Project.Edges.{Edges, EdgeMap, edges_at, all}

pub data Color : Type 0 where
  white gray black : Color

pub record Dfs : Type 0 where
  pub color : List (String × Color)
  pub stack : List String

-- What `dfs` returns: a path, or nil and the variables that it leaves.
pub data Found : Type 0 where
  cycle : List String → Found
  clear : Dfs → Found

color_or_white : Option Color → Color
color_or_white none = white
color_or_white (some c) = c

-- `color[x]`
pub color_at : Dfs → String → Color
unfolding color_or_white
color_at d x = color_or_white (lookup d.color x)

-- `stack[i:]`, from the first entry that is `x`.
pub from_first : String → List String → List String
from_first x [] = []
from_first x (n ∷ stack) = let rest = from_first x stack in if n == x then n ∷ stack else rest

-- `stack[:len(stack)-1]`
pub drop_last : List String → List String
drop_last [] = []
drop_last (x ∷ []) = []
drop_last (x ∷ y ∷ ys) = x ∷ drop_last (y ∷ ys)

pub enter : String → Dfs → Dfs
enter node d = record { color = insert node gray d.color; stack = d.stack ++ node ∷ [] }

pub leave : String → Dfs → Dfs
unfolding drop_last
leave node d = record { color = insert node black d.color; stack = drop_last d.stack }

-- What follows the visit of a white id.
pub and_then : (Dfs → Option Found) → Option Found → Option Found
and_then next none = none
and_then next (some (cycle path)) = some (cycle path)
and_then next (some (clear d)) = next d

pub on_color : Color → List String → Option Found → Option Found → Option Found
on_color gray path visited skipped = some (cycle path)
on_color white path visited skipped = visited
on_color black path visited skipped = skipped

-- The loop over the ids that an id points at.
pub explore : (String → Dfs → Option Found) → List String → Dfs → Option Found
unfolding and_then on_color from_first
explore visit [] d = some (clear d)
explore visit (next ∷ ids) d =
    let visited = and_then (explore visit ids) (visit next d) in
    let skipped = explore visit ids d in
    on_color (color_at d next) (from_first next d.stack ++ next ∷ []) visited skipped

-- `dfs`; `none` is a search out of fuel.
pub dfs : ℕ → EdgeMap → String → Dfs → Option Found
unfolding explore enter leave
dfs zero edges node d = none
dfs (suc n) edges node d =
    and_then (λ e. some (clear (leave node e)))
      (explore (dfs n edges) (all (edges_at edges node)) (enter node d))

pub if_white : Color → Option Found → Option Found → Option Found
if_white white visited skipped = visited
if_white c visited skipped = skipped

-- The loop over the ordered ids.
pub check_from : ℕ → EdgeMap → List String → Dfs → Option Found
unfolding dfs if_white
check_from n edges [] d = some (clear d)
check_from n edges (id ∷ ids) d =
    let visited = and_then (check_from n edges ids) (dfs n edges id d) in
    let skipped = check_from n edges ids d in if_white (color_at d id) visited skipped

pub add_all : List String → List String → List String
add_all ids [] = ids
add_all ids (x ∷ xs) = add_all (if has ids x then ids else x ∷ ids) xs

-- The keys of the map `nodes`.
pub node_ids : EdgeMap → List String
unfolding add_all
node_ids [] = []
node_ids ((src, e) ∷ edges) = add_all (node_ids edges) (src ∷ all e)

pub path_of : Found → Option (List String)
path_of (cycle path) = some path
path_of (clear d) = none

-- `CheckCycle`; the inner option is nil or the path.
unfoldable pub check_cycle : EdgeMap → Option (Option (List String))
unfolding check_from node_ids path_of sort_strings
check_cycle edges =
    let ids = node_ids edges in
    Option.map path_of
      (check_from (suc (length ids)) edges (sort_strings ids) (record { color = []; stack = [] }))

abbrev points_at : String → Edges
points_at t = record { wants = t ∷ []; after = []; requires = [] }

check_cycle_ring :
    check_cycle (("A", points_at "B") ∷ ("B", points_at "C") ∷ ("C", points_at "B") ∷ [])
    ≡ some (some ("B" ∷ "C" ∷ "B" ∷ []))
unfolding check_cycle color_at lookup has all insert
check_cycle_ring = refl

check_cycle_line : check_cycle (("A", points_at "B") ∷ ("B", points_at "C") ∷ []) ≡ some none
unfolding check_cycle color_at lookup has all insert
check_cycle_line = refl
