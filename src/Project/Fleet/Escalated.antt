-- ===== src/Project/Fleet/Escalated.antt =====
-- Who takes a child's escalation: a ticket that wants the child, and handles escalations.
use draiver.Prelude.{
  String, ◌≡◌, refl, sym, ap, ◌∙◌, ◌≢◌, inl, inr, Bool, true, false, ◌&&◌, ◌||◌, List, [], ◌∷◌, map,
  arith, ◌==◌, eq_iff, Bool-cases, any,
}
use draiver.Prelude.Text.{insert_string, sort_strings}
use draiver.Prelude.Maps.{string_key, nat_key, ref_key, has, lookup, lookup-insert}
use draiver.Project.Edges.{EdgeMap, all}
use draiver.Prelude.{
  String, ◌≡◌, refl, sym, ap, ◌∙◌, ◌≢◌, inl, inr, Bool, true, false, ◌&&◌, ◌||◌, List, [], ◌∷◌, map,
  arith, ◌==◌, eq_iff, Bool-cases, any,
}
use draiver.Project.Fleet.Waiting.{alike, has-add_new}
use draiver.Project.Fleet.{
  Attempt, latest, add_new, or_nil, Reverse, add_wanter, add_wants, reverse_from, reverse_wants,
  parent_takes, parent_of, escalation_parent,
}
use draiver.Project.Axes.{Supervision}

-- Whether an entry of the map wants `y`, for the ticket `x`.
abbrev pub wants_it : String → String → EdgeMap → Bool
wants_it x y edges = any (λ e. (e.0 == x) && has e.1.wants y) edges

wanters : Reverse → String → List String
wanters rev y = or_nil (lookup rev y)

has-insert_string :
    (x y : String) (l : List String) → has (insert_string x l) y ≡ ((x == y) || has l y)
unfolding insert_string has
has-insert_string x y [] = refl
has-insert_string x y (z ∷ l) = ground (arith, has-insert_string x y l)

pub has-sort_strings : (l : List String) (y : String) → has (sort_strings l) y ≡ has l y
unfolding sort_strings has
has-sort_strings [] y = refl
has-sort_strings (x ∷ l) y =
    has-insert_string x y (sort_strings l) ∙ ground (arith, has-sort_strings l y)

has-add_wanter :
    (x z y : String) (rev : Reverse) (w : String)
    → has (wanters (add_wanter x rev y) z) w ≡ (has (wanters rev z) w || ((y == z) && (x == w)))
unfolding add_wanter wanters has
has-add_wanter x z y rev w =
    let ws = wanters rev y in
    ap (λ o. has (or_nil o) w) (lookup-insert y z (add_new ws x) rev) ∙ elim (Bool-cases (y == z)) [
      | inl t ↦ rw (t, has-add_new) (ground (arith, alike (λ k. has (wanters rev k) w) y z))
      | inr f ↦ rw f (ground arith)
    ]

has-add_wants :
    (x z : String) (rev : Reverse) (ys : List String) (w : String)
    → has (wanters (add_wants x rev ys) z) w ≡ (has (wanters rev z) w || ((x == w) && has ys z))
unfolding add_wants has
has-add_wants x z rev [] w = ground arith
has-add_wants x z rev (y ∷ ys) w =
    has-add_wants x z (add_wanter x rev y) ys w ∙ ground (arith, has-add_wanter x z y rev w)

has-reverse_from :
    (rev : Reverse) (edges : EdgeMap) (z w : String)
    → has (wanters (reverse_from rev edges) z) w ≡ (has (wanters rev z) w || wants_it w z edges)
unfolding reverse_from
has-reverse_from rev [] z w = ground arith
has-reverse_from rev ((x, e) ∷ edges) z w =
    has-reverse_from (add_wants x rev e.wants) edges z w
    ∙ ground (arith, has-add_wants x z rev e.wants w)

lookup-sorted :
    (rev : Reverse) (z : String)
    → or_nil (lookup (map (λ (y, ws). (y, sort_strings ws)) rev) z) ≡ sort_strings (wanters rev z)
unfolding wanters lookup sort_strings
lookup-sorted [] z = refl
lookup-sorted ((y, ws) ∷ rev) z = ground (arith, lookup-sorted rev z)

-- The reverse index names under a ticket exactly the tickets whose `wants:` name it.
pub reverse_wants-wants_it :
    (edges : EdgeMap) (z w : String)
    → has (or_nil (lookup (reverse_wants edges) z)) w ≡ wants_it w z edges
unfolding reverse_wants wanters lookup has
reverse_wants-wants_it edges z w =
    ap (λ l. has l w) (lookup-sorted (reverse_from [] edges) z)
    ∙ has-sort_strings (wanters (reverse_from [] edges) z) w
    ∙ has-reverse_from [] edges z w

first_parent :
    (ws : List String) (all : List Attempt) (def : Supervision) (p : String)
    → parent_of ws all def ≡ p
    → p ≢ ""
    → (has ws p ≡ true) × (parent_takes def (latest all p) ≡ true)
unfolding parent_of has
first_parent [] all def p h n = absurd (n (sym h))
first_parent (w ∷ ws) all def p h n = elim (Bool-cases (parent_takes def (latest all w))) [
  | inl t ↦
      let e : w ≡ p = sym (rw t refl) ∙ h in
      (rw ((eq_iff w p).1 e) refl, ap (λ x. parent_takes def (latest all x)) (sym e) ∙ t)
  | inr f ↦ let (a, b) = first_parent ws all def p (rw f at h) n in (ground arith, b)
]

some_parent :
    (ws : List String) (all : List Attempt) (def : Supervision) (w : String)
    → has ws "" ≡ false
    → has ws w ≡ true
    → parent_takes def (latest all w) ≡ true
    → parent_of ws all def ≢ ""
unfolding parent_of has
some_parent [] all def w n m t e = cc
some_parent (x ∷ ws) all def w n m t e = elim (Bool-cases (parent_takes def (latest all x))) [
  | inl y ↦ let p : (x == "") ≡ true = (eq_iff x "").1 (sym (rw y refl) ∙ e) in ground (arith, p, n)
  | inr f ↦
      let d : (x == w) ≡ false =
        ground (arith, alike (λ k. parent_takes def (latest all k)) x w, f, t) in
      some_parent ws all def w (ground arith) (ground (arith, d, m)) t (rw f at e)
]

-- A child's escalation moves up to a ticket that wants the child and whose latest attempt is
-- enabled, Running and in effective mode pre-digest; and it moves up if there is such a ticket.
-- No ticket that wants the child has the empty name, which stands for no parent.
pub escalation_parent-wants_it :
    (child : String) (all : List Attempt) (edges : EdgeMap) (def : Supervision)
    → wants_it "" child edges ≡ false
    → ((p : String)
        → escalation_parent child all (reverse_wants edges) def ≡ p
        → p ≢ ""
        → (wants_it p child edges ≡ true) × (parent_takes def (latest all p) ≡ true))
      × ((w : String)
          → wants_it w child edges ≡ true
          → parent_takes def (latest all w) ≡ true
          → escalation_parent child all (reverse_wants edges) def ≢ "")
unfolding escalation_parent
escalation_parent-wants_it child all edges def n =
    let ws = or_nil (lookup (reverse_wants edges) child) in
    (
      λ p h m.
          let (a, b) = first_parent ws all def p h m in
          (sym (reverse_wants-wants_it edges child p) ∙ a, b),
      λ w m t.
          some_parent ws all def w (reverse_wants-wants_it edges child "" ∙ n)
            (reverse_wants-wants_it edges child w ∙ m) t,
    )
