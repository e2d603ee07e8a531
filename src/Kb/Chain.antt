-- ===== src/Kb/Chain.antt =====
-- internal/kb/kb.go: `View.Chain`, the history of a fact along the supersedes edge.
-- The order in which Go's map of the seen seqs is ranged over does not show in the sorted result.
-- The fuel bounds the depth of the walk.
pub mod Seen
pub mod Reached
pub mod History
use draiver.Prelude.{
  ℕ, zero, suc, Option, none, some, List, [], ◌∷◌, ◌++◌, ltb, if◌then◌else◌, length,
}
use draiver.Prelude.Maps.{string_key, nat_key, ref_key, has, lookup}
use draiver.Kb.{Fact, View, or_nil, get}

-- `v.retires[s]`
abbrev pub older : List (ℕ × List ℕ) → ℕ → List ℕ
older retires s = or_nil (lookup retires s)

pub then_seen : Option (List ℕ) → (List ℕ → Option (List ℕ)) → Option (List ℕ)
then_seen none next = none
then_seen (some seen) next = next seen

-- The loop over the seqs that one seq retires.
pub walk_each : (ℕ → List ℕ → Option (List ℕ)) → List ℕ → List ℕ → Option (List ℕ)
unfolding then_seen
walk_each visit [] seen = some seen
walk_each visit (s ∷ rest) seen = then_seen (visit s seen) (walk_each visit rest)

-- `walk`; `none` is a walk out of fuel.
pub walk_chain : ℕ → List (ℕ × List ℕ) → ℕ → List ℕ → Option (List ℕ)
unfolding walk_each
walk_chain zero retires s seen = none
walk_chain (suc n) retires s seen =
    let below = walk_each (walk_chain n retires) (older retires s) (s ∷ seen) in
    if has seen s then some seen else below

-- Every seq that an event retires.
pub all_older : List (ℕ × List ℕ) → List ℕ
all_older [] = []
all_older ((s, targets) ∷ retires) = targets ++ all_older retires

pub add_fact : Option Fact → List Fact → List Fact
add_fact none facts = facts
add_fact (some f) facts = f ∷ facts

-- The facts of the seen seqs.
pub facts_of : View → List ℕ → List Fact
unfolding add_fact
facts_of v [] = []
facts_of v (s ∷ seen) = add_fact (get v s) (facts_of v seen)

pub insert_fact : Fact → List Fact → List Fact
insert_fact f [] = f ∷ []
insert_fact f (g ∷ fs) =
    let rest = insert_fact f fs in if ltb g.event.seq f.event.seq then g ∷ rest else f ∷ g ∷ fs

-- sort.Slice by Seq
pub sort_facts : List Fact → List Fact
unfolding insert_fact
sort_facts [] = []
sort_facts (f ∷ fs) = insert_fact f (sort_facts fs)

chain_of : View → Option (List ℕ) → Option (List Fact)
unfolding facts_of sort_facts
chain_of v none = none
chain_of v (some seen) = some (sort_facts (facts_of v seen))

if_known : Option Fact → Option (List Fact) → Option (List Fact)
if_known none found = some []
if_known (some f) found = found

-- `Chain`
unfoldable pub chain : View → ℕ → Option (List Fact)
unfolding walk_chain all_older chain_of if_known
chain v seq =
    let found =
      chain_of v (walk_chain (suc (suc (length (all_older v.retires)))) v.retires seq []) in
    if_known (get v seq) found
