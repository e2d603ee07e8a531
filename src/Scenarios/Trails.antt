-- ===== src/Scenarios/Trails.antt =====
-- A trail of notes that correct each other.
use draiver.Prelude.{ℕ, ◌≡◌, ◌↔◌, some, List, [], ◌∷◌, Memᴰ}
use draiver.Event.{Event}
use draiver.Reconcile.Activation.{zero_event}
use draiver.Kb.{Fact, View, fold}
use draiver.Kb.Chain.{chain}
use draiver.Kb.Chain.History.{Ascending, OfHistory, chain-OfHistory}

-- Three notes, each correcting the one before.
abbrev note : ℕ → List ℕ → Event
note seq supersedes = record zero_event {
  seq = seq;
  kind = "note";
  supersedes = supersedes;
  body = "n";
}

abbrev trail : View
trail = fold (note 1 [] ∷ note 2 (1 ∷ []) ∷ note 3 (2 ∷ []) ∷ [])

chain-OfHistory_example :
    (facts : List Fact) × (chain trail 3 ≡ some facts)
    × Ascending facts
    × ((f : Fact) → Memᴰ f facts ↔ OfHistory trail 3 f)
chain-OfHistory_example = chain-OfHistory trail 3
