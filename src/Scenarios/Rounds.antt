-- ===== src/Scenarios/Rounds.antt =====
-- A tick over three attempts, the desired set behind it, and an event on disk.
use draiver.Prelude.{
  String, ◌<>◌, ◌≡◌, refl, ◌↔◌, true, false, none, some, List, [], ◌∷◌, map, Memᴰ,
}
use draiver.Prelude.Maps.{string_key, nat_key, ref_key, has, lookup, insert, delete}
use draiver.Event.{Event, canonical_body, truncate_second, compute_hash}
use draiver.Event.Disk.{cut, Yaml, marshal, parse}
use draiver.Event.Disk.Roundtrip.{parse-marshal}
use draiver.Prelude.Text.{trim_space}
use draiver.Scenarios.Logs.{toy, blank}
use draiver.Log.{ok, sort_by_seq, read}
use draiver.Project.State.{running, done, ok}
use draiver.Project.Axes.{unset as no_mode}
use draiver.Project.Edges.{EdgeMap}
use draiver.Project.Fleet.{Attempt, Ref, derive_desired}
use draiver.Reconcile.Gates.{Desired}
use draiver.Reconcile.Desired.{Site, direct_from, propagate_wants}
use draiver.Reconcile.Desired.Twin.{propagate_wants-derive_desired}
use draiver.Reconcile.Retire.{Run, Disk, retire}
use draiver.Reconcile.Retire.Reclaims.{reclaims}
use draiver.Reconcile.Tick.{up, Boot, Round, tick}
use draiver.Reconcile.Tick.Table.{Distinct}
use draiver.Reconcile.Tick.Reclaims.{MayGo, tick-MayGo}
use draiver.Reconcile.Health.{report_health}
use draiver.Wake.{World, async_source, pending_sources}

abbrev working : String → Attempt
working t = record {
  ticket = t;
  id = "0001";
  state = running;
  enabled = true;
  supervision = no_mode;
  events = [];
}

abbrev driven : Run
driven = record { repo = "/repo"; adopted = false; pid = 7; spent = false }

abbrev calm_world : World
calm_world = record {
  edges = ok (record { wants = []; after = []; requires = [] });
  attempts = ok [];
  log = [];
}

abbrev clean_disk : Disk
clean_disk = record {
  actor = "draiverctld";
  alive = λ pid. true;
  world = λ k. calm_world;
  manager_error = λ repo. none;
  dirty = λ repo k. ok false;
  remove_error = λ repo k. none;
  quote = λ s. s;
}

abbrev boot : Boot
boot = record {
  disk = clean_disk;
  bring_up = λ k. up driven;
  pid_of = λ k. some 7;
  load = λ k. ok (done, []);
}

abbrev old_ref : Ref
old_ref = ("old", "0001")

abbrev before_tick : Round
before_tick = record { runs = (old_ref, driven) ∷ []; health = []; acts = [] }

abbrev wanted_set : Desired
wanted_set = (("a", "0001"), working "a") ∷ (("b", "0001"), working "b") ∷ []

wanted_set-Distinct : Distinct (map (λ entry. entry.0) wanted_set)
unfolding has
wanted_set-Distinct = (refl, (refl, tt))

reclaimed : reclaims old_ref (tick boot wanted_set before_tick).acts ≡ true
unfolding tick retire has lookup delete insert sort_by_seq read pending_sources report_health
    async_source
reclaimed = refl

tick-MayGo_example : MayGo boot (map (λ entry. entry.0) wanted_set) before_tick.runs old_ref
tick-MayGo_example = tick-MayGo boot wanted_set before_tick old_ref refl reclaimed

abbrev epic_edges : EdgeMap
epic_edges = ("a", record { wants = "b" ∷ []; after = []; requires = [] }) ∷ []

abbrev site : Site
site = record {
  marker = λ r. ok (some "an earlier boot");
  controller = some "this boot";
  edges = ok epic_edges;
  default_repo = " ";
  mint = λ child. none;
  admitted = λ r. false;
  live = [];
  actor = "draiverctld";
  default_supervision = no_mode;
  append_error = λ r e. none;
}

abbrev two_attempts : List Attempt
two_attempts = working "a" ∷ record (working "b") { enabled = false } ∷ []

blank_repo : trim_space site.default_repo ≡ ""
unfolding trim_space
blank_repo = refl

propagate_wants-derive_desired_example :
    (o : Desired) × (d : List Ref) × (propagate_wants site two_attempts
        (direct_from site (record { out = []; swept = [] }) two_attempts).out
      ≡ ok o)
    × (derive_desired two_attempts epic_edges ≡ some d)
    × ((r : Ref) → Memᴰ r (map (λ entry. entry.0) o) ↔ Memᴰ r d)
propagate_wants-derive_desired_example =
    propagate_wants-derive_desired site two_attempts epic_edges (λ a m e. refl) blank_repo refl

abbrev noted : Event
noted = record blank { seq = 1; kind = "note"; body = "first line\n\n" }

abbrev plain_yaml : Yaml
plain_yaml = record {
  marshal = λ e. ok "type: note\n";
  unmarshal = λ s. ok (record blank { seq = 1; kind = "note"; ts = 0; body = "" });
}

one_document : cut "\n---\n" ("type: note" <> "\n") ≡ none
unfolding cut
one_document = refl

parse-marshal_example :
    (file : String) × (marshal plain_yaml noted ≡ ok file)
    × (parse plain_yaml file
        ≡ ok (record noted { ts = truncate_second noted.ts; body = canonical_body noted.body }))
    × (compute_hash toy
          (record noted { ts = truncate_second noted.ts; body = canonical_body noted.body })
        ≡ compute_hash toy noted)
unfolding truncate_second
parse-marshal_example = parse-marshal plain_yaml toy noted "type: note" refl one_document refl refl
