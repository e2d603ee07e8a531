-- ===== src/Project/Fleet/Waiting.antt =====
-- The thresholds that tickets have reached, and the reason that a Pending card shows.
use draiver.Prelude.{
  String, ◌≡◌, refl, ap, ◌∙◌, inl, inr, Bool, true, false, not, ◌&&◌, ◌||◌, List, [], ◌∷◌, arith,
  ◌==◌, eq_iff, if◌then◌else◌, Bool-cases, any, every,
}
use draiver.Prelude.Maps.{
  string_key, nat_key, ref_key, has, lookup, insert, lookup-insert, has-append,
}
use draiver.Prelude.Maps.{
  string_key, nat_key, ref_key, has, lookup, insert, lookup-insert, has-append,
}
use draiver.Prelude.{
  String, ◌≡◌, refl, ap, ◌∙◌, inl, inr, Bool, true, false, not, ◌&&◌, ◌||◌, List, [], ◌∷◌, arith,
  ◌==◌, eq_iff, if◌then◌else◌, Bool-cases, any, every,
}
use draiver.Project.State.{State, running, pending, needs_me, review, done, is_empty}
use draiver.Project.Edges.{Edges, all}
use draiver.Project.Fleet.{
  Attempt, is_done, is_review, Reached, reached_or_zero, ReachedMap, reached_at, reach,
  best_reached_from, best_reached, add_new, add_short, unmet,
}

-- Some attempt of the ticket passes a test on its state.
abbrev pub some_attempt : (State → Bool) → String → List Attempt → Bool
some_attempt p t all = any (λ a. (a.ticket == t) && p a.state) all

abbrev pub is_success : State → Bool
is_success s = is_review s || is_done s

reached_at-insert :
    (k t : String) (r : Reached) (out : ReachedMap)
    → reached_at (insert k r out) t ≡ (if k == t then r else reached_at out t)
reached_at-insert k t r out = ap reached_or_zero (lookup-insert k t r out) ∙ ground arith

review-reach : (r : Reached) (s : State) → (reach r s).review ≡ (r.review || is_success s)
unfolding reach
review-reach r running = ground arith
review-reach r pending = ground arith
review-reach r needs_me = ground arith
review-reach r review = ground arith
review-reach r done = ground arith

done-reach : (r : Reached) (s : State) → (reach r s).done ≡ (r.done || is_done s)
unfolding reach
done-reach r running = ground arith
done-reach r pending = ground arith
done-reach r needs_me = ground arith
done-reach r review = ground arith
done-reach r done = ground arith

module _ (field : Reached → Bool) (test : State → Bool)
    (step : (r : Reached) (s : State) → field (reach r s) ≡ (field r || test s)) where
  best_reached_from_lem :
      (out : ReachedMap) (all : List Attempt) (t : String)
      → field (reached_at (best_reached_from out all) t)
        ≡ (field (reached_at out t) || some_attempt test t all)
  unfolding best_reached_from
  best_reached_from_lem out [] t = ground arith
  best_reached_from_lem out (a ∷ all) t =
      let r : Reached = reach (reached_at out a.ticket) a.state in
      best_reached_from_lem (insert a.ticket r out) all t
      ∙ rw reached_at-insert (elim (Bool-cases (a.ticket == t)) [
        | inl y ↦
            rw (y, step, ap (λ k. field (reached_at out k)) ((eq_iff a.ticket t).0 y))
              (ground arith)
        | inr n ↦ rw n (ground arith)
      ])

-- A ticket has reached Review exactly if some attempt of it is at Review or Done, and Done exactly
-- if some attempt of it is Done; a later attempt takes nothing back.
pub best_reached-some_attempt :
    (all : List Attempt) (t : String)
    → ((reached_at (best_reached all) t).review ≡ some_attempt is_success t all)
      × ((reached_at (best_reached all) t).done ≡ some_attempt is_done t all)
unfolding best_reached lookup
best_reached-some_attempt all t = (
  best_reached_from_lem (λ r. r.review) is_success review-reach [] all t,
  best_reached_from_lem (λ r. r.done) is_done done-reach [] all t,
)

pub alike : (p : String → Bool) (x y : String) → (x == y) ≡ true → p x ≡ p y
alike p x y h = ap p ((eq_iff x y).0 h)

pub has-add_new : (u : List String) (x y : String) → has (add_new u x) y ≡ (has u y || (x == y))
unfolding add_new has
has-add_new u x y = elim (Bool-cases (has u x)) [
  | inl t ↦ rw t (ground (arith, alike (has u) x y))
  | inr f ↦ rw (f, has-append) (ground arith)
]

has-add_short :
    (enough : String → Bool) (u xs : List String) (y : String)
    → has (add_short enough u xs) y ≡ (has u y || (has xs y && not (enough y)))
unfolding add_short add_new has
has-add_short enough u [] y = ground arith
has-add_short enough u (x ∷ xs) y = elim (Bool-cases (enough x)) [
  | inl t ↦ rw t (has-add_short enough u xs y ∙ ground (arith, alike enough x y))
  | inr f ↦
      rw f (
        has-add_short enough (add_new u x) xs y ∙ rw has-add_new (ground (arith, alike enough x y)))
]

-- A Pending card names a ticket exactly if it stands under `after:` and no attempt of it is at
-- Review or Done, or under `requires:` and no attempt of it is Done.
pub unmet-best_reached :
    (e : Edges) (all : List Attempt) (y : String)
    → has (unmet e (best_reached all)) y ≡ (
        (has e.after y && not (some_attempt is_success y all))
        || (has e.requires y && not (some_attempt is_done y all)))
unfolding unmet has
unmet-best_reached e all y =
    let (a, b) = best_reached-some_attempt all y in rw (has-add_short, has-add_short, a, b)

new_element : (u : List String) (x : String) → is_empty (add_new u x) ≡ false
unfolding add_new has
new_element [] x = refl
new_element (y ∷ u) x = ground arith

is_empty-add_short :
    (enough : String → Bool) (u xs : List String)
    → is_empty (add_short enough u xs) ≡ (is_empty u && every enough xs)
unfolding add_short
is_empty-add_short enough u [] = ground arith
is_empty-add_short enough u (x ∷ xs) = elim (Bool-cases (enough x)) [
  | inl t ↦ rw t (is_empty-add_short enough u xs)
  | inr f ↦ rw f (is_empty-add_short enough (add_new u x) xs ∙ rw new_element (ground arith))
]

pub is_empty-unmet :
    (e : Edges) (reached : ReachedMap)
    → is_empty (unmet e reached) ≡ (
        every (λ x. (reached_at reached x).review) e.after
        && every (λ x. (reached_at reached x).done) e.requires)
unfolding unmet
is_empty-unmet e reached = is_empty-add_short _ _ e.requires ∙ rw is_empty-add_short refl
