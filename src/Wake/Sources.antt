-- ===== src/Wake/Sources.antt =====
-- The park guard's coordinator source against the coordinator gate.
use draiver.Prelude.{
  String, ◌≡◌, refl, sym, ap, ◌∙◌, Bool, not, List, [], ◌∷◌, map, arith, select, every,
}
use draiver.Prelude.Maps.{string_key, nat_key, ref_key, has}
use draiver.Project.State.{is_empty}
use draiver.Project.Fleet.{Attempt, is_done, reached_at, best_reached}
use draiver.Project.Fleet.Waiting.{some_attempt, best_reached-some_attempt}
use draiver.Reconcile.Gates.{all_wanted_done}
use draiver.Wake.{inflight}

has-closed :
    (attempts : List Attempt) (child : String)
    → has (map (λ a. a.ticket) (select (λ a. is_done a.state) attempts)) child
      ≡ some_attempt is_done child attempts
unfolding has
has-closed [] child = refl
has-closed (a ∷ attempts) child = ground (arith, has-closed attempts child)

is_empty-select :
    (p q : String → Bool) (xs : List String)
    → ((x : String) → p x ≡ not (q x))
    → is_empty (select p xs) ≡ every q xs
is_empty-select p q [] h = refl
is_empty-select p q (x ∷ xs) h = ground (arith, h x, is_empty-select p q xs h)

-- A coordinator has no wanted ticket in flight exactly when the coordinator gate lets it pass, so
-- that it is never refused both a park and its final review.
pub inflight-all_wanted_done :
    (children : List String) (attempts : List Attempt)
    → is_empty (inflight children attempts) ≡ all_wanted_done children (best_reached attempts)
unfolding inflight all_wanted_done
inflight-all_wanted_done children attempts =
    is_empty-select _ (λ child. (reached_at (best_reached attempts) child).done) children
      λ child. ap not (has-closed attempts child ∙ sym (best_reached-some_attempt attempts child).1)
