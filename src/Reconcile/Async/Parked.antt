-- ===== src/Reconcile/Async/Parked.antt =====
-- A worker that may park is woken: the park guard and the wake machine agree on the detached test.
use draiver.Prelude.{
  ℕ, ◌≤◌, ◌<◌, String, ◌≡◌, refl, sym, ap, ◌∙◌, ◌≢◌, inl, inr, true, false, not, ◌&&◌, false≢true,
  Option, none, List, [], ◌∷◌, ◌++◌, arith, ◌==◌, ltb, eqb, if◌then◌else◌,
}
use draiver.Event.{Event}
use draiver.Log.{ok}
use draiver.Prelude.Maps.{string_key, nat_key, ref_key, has, insert}
use draiver.Reconcile.Async.{
  Job, job_step, job_from, job, oldest_from, oldest_unhandled_async_result, woken_by_own,
  author_own, reconcile_async_worker,
}
use draiver.Wake.{async_source}
use draiver.Project.Fleet.{Attempt, is_running, Ref, ref}
use draiver.Project.State.{ok}
use draiver.Reconcile.Async.Wake.{wakes, own_seq, quiet_or_wakes}
use draiver.Reconcile.Activation.{Pass}
use draiver.Reconcile.Async.Launches.{
  Rising, sort_by_seq-Rising, open_after, found_from, launch_from, has_source, source_open,
}

launch_of :
    (own : String) (j : Job) (e : Event)
    → (job_step own j e).launch
      ≡ (if (e.kind == "async-job") && ltb j.launch e.seq then e.seq else j.launch)
unfolding job_step
launch_of own j e = ground arith

job-launch :
    (own : String) (j : Job) (es : List Event)
    → (job_from own j es).launch ≡ launch_from j.launch es
unfolding job_from
job-launch own j [] = refl
job-launch own j (e ∷ es) =
    job-launch own (job_step own j e) es ∙ ap (λ k. launch_from k es) (launch_of own j e)

job_from-result :
    (own : String) (j : Job) (es : List Event) (r : Event)
    → r.kind ≡ "test-result"
    → job_from own j (es ++ r ∷ []) ≡ job_from own j es
unfolding job_from job_step
job_from-result own j [] r k = rw k refl
job_from-result own j (e ∷ es) r k = job_from-result own (job_step own j e) es r k

job-result :
    (own : String) (es : List Event) (r : Event)
    → r.kind ≡ "test-result"
    → job own (es ++ r ∷ []) ≡ job own es
unfolding job
job-result own es r k = job_from-result own _ es r k

-- An enabled, Running worker that the park guard lets park behind a detached test: its log rises,
-- and no activation is later than its last park.
pub record ParkedBehindTest (w : Attempt) : Type 0 where
  pub enabled : w.enabled ≡ true
  pub runs : is_running w.state ≡ true
  pub may_park : has_source (async_source w.events) ≡ true
  pub idle : (job w.ticket w.events).activation ≤ (job w.ticket w.events).park

-- The result of the test, as it lands on the worker's log.
abbrev pub landed : Attempt → Event → Attempt
landed w r = record w { events = w.events ++ r ∷ [] }

job-own_launch : (own : String) (es : List Event) → (job own es).launch ≡ launch_from 0 es
unfolding job
job-own_launch own es = job-launch own _ es

Rising-prefix : (n : ℕ) (es : List Event) (r : Event) → Rising n (es ++ r ∷ []) → Rising n es
Rising-prefix n [] r i = tt
Rising-prefix n (e ∷ es) r i = (i.0, Rising-prefix e.seq es r i.1)

Rising-last : (n : ℕ) (es : List Event) (r : Event) → Rising n (es ++ r ∷ []) → n < r.seq
Rising-last n [] r i = i.0
Rising-last n (e ∷ es) r i = omega (arith, i.0, Rising-last e.seq es r i.1)

found_sorted :
    (handled : List ℕ) (es : List Event) (r : Event)
    → Rising 0 (es ++ r ∷ [])
    → r.kind ≡ "test-result"
    → has handled r.seq ≡ false
    → open_after false es ≡ true
    → oldest_unhandled_async_result (es ++ r ∷ []) handled ≢ 0
unfolding oldest_unhandled_async_result
found_sorted handled es r i k f o z =
    found_from handled false es r 0 (Rising-prefix 0 es r i) (Rising-last 0 es r i) k f o
      (ap (oldest_from handled false) (sym (sort_by_seq-Rising 0 (es ++ r ∷ []) i)) ∙ z)

all_hold :
    (launch park activation oldest : ℕ)
    → 0 < launch
    → activation ≤ park
    → oldest ≢ 0
    → (not (eqb launch 0) && not (ltb park activation) && not (eqb oldest 0) && true) ≡ true
all_hold launch park activation oldest a b c = ground (arith, a, b, c)

module _ (actor : String) (append_error : Ref → Event → Option String) where
  wakes-landed :
      (w : Attempt) (r : Event) (live : List Ref)
      → ParkedBehindTest w
      → r.kind ≡ "test-result"
      → Rising 0 (w.events ++ r ∷ [])
      → has (job w.ticket w.events).handled r.seq ≡ false
      → has live (ref w) ≡ false
      → wakes actor append_error (landed w r) live ≡ true
  wakes-landed w r live p k i f l =
      let t = w.ticket in
      let es = w.events in
      let (o, pos) = source_open es (Rising-prefix 0 es r i) p.may_park in
      let launched : (job t es).launch ≡ launch_from 0 es = job-own_launch t es in
      let found : oldest_unhandled_async_result (es ++ r ∷ []) (job t es).handled ≢ 0 =
        found_sorted (job t es).handled es r i k f o in
      rw (job-result, k, p.enabled, p.runs, l)
        (all_hold _ _ _ _ (omega (arith, launched, pos)) p.idle found)

  -- Once the result of its test lands on its log, a worker that may park is woken by the first run
  -- that finds its session gone, if the append works: the run writes the activation of a result of
  -- the log and makes the worker desired. The result's seq is new, so no activation has handled it.
  pub reconcile_async_worker-ParkedBehindTest :
      (w : Attempt) (r : Event) (live : List Ref) (old : Pass)
      → ParkedBehindTest w
      → r.kind ≡ "test-result"
      → Rising 0 (w.events ++ r ∷ [])
      → has (job w.ticket w.events).handled r.seq ≡ false
      → has live (ref w) ≡ false
      → ((key : Ref) (e : Event) → append_error key e ≡ none)
      → (seq : ℕ) × (reconcile_async_worker actor append_error (landed w r) live old
          ≡ ok (record {
            out = insert (ref w) (landed w r) old.out;
            authored = old.authored ++ (ref w, woken_by_own actor (landed w r) seq) ∷ [];
          }))
  unfolding author_own
  reconcile_async_worker-ParkedBehindTest w r live old p k i f l a =
      elim (quiet_or_wakes actor append_error (landed w r) live old) [
        | inl (n, q) ↦ absurd (false≢true (sym n ∙ wakes-landed w r live p k i f l))
        | inr (y, q) ↦ (own_seq actor append_error (landed w r), q ∙ rw a refl)
      ]
